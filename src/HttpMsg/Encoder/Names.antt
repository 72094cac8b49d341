-- ===== src/HttpMsg/Encoder/Names.antt =====
-- The names in a `Content-Disposition` of the encoder are read back.
use wfrest.Base.{
  ℕ, ◌≡◌, refl, sym, ap, ◌∙◌, false, List, [], ◌∷◌, ◌++◌, some, is_space, Bytes, codes, arith,
}
use mathlib.Core.List.{append_assoc}
use wfrest.StringPiece.{starts_with}
use wfrest.StrUtil.{split_piece, trim, view, trim_pairs, has_pair, quotes}
use wfrest.StrUtil.Split.{Lacks, Lacks-append, split_piece-join}
use wfrest.StrUtil.Pairs.{trim_pairs-has_pair}
use wfrest.StrUtil.Trim.{trim_blank}
use wfrest.HttpContent.{store_pairs}

-- `key="text"`, behind the key.
abbrev quoted : Bytes → Bytes
quoted text = b'"' ∷ (text ++ b'"' ∷ [])

split_piece-quoted :
    (k : ℕ) (key text : Bytes)
    → is_space k ≡ false
    → Lacks b'=' (k ∷ key)
    → Lacks b'=' text
    → split_piece (trim (b' ' ∷ k ∷ (key ++ b'=' ∷ quoted text))) b'='
      ≡ (k ∷ key) ∷ quoted text ∷ []
split_piece-quoted k key text first key_lacks text_lacks =
    ap (λ s. split_piece s b'=')
      (ap (λ s. trim (b' ' ∷ k ∷ s)) (sym (append_assoc key (b'=' ∷ b'"' ∷ text) (b'"' ∷ [])))
        ∙ trim_blank k (key ++ b'=' ∷ b'"' ∷ text) b'"' first (unfold is_space in refl)
        ∙ ap (◌∷◌ k) (append_assoc key (b'=' ∷ b'"' ∷ text) (b'"' ∷ [])))
    ∙ split_piece-join b'=' ((k ∷ key) ∷ quoted text ∷ [])
        (key_lacks, ((refl, Lacks-append b'=' text (b'"' ∷ []) text_lacks (refl, tt)), tt))
        (λ e. cc)

trim_pairs-quoted : (text : Bytes) → trim_pairs b'=' 0 (quoted text) quotes ≡ view text
unfolding has_pair
trim_pairs-quoted text = (trim_pairs-has_pair b'=' 0 b'"' b'"' text quotes).0 refl

-- A name that can stand between quotes.
abbrev pub IsName : Bytes → Type 0
IsName text = Lacks b';' text × Lacks b'=' text

name-Lacks : Lacks b'=' (codes "name")
name-Lacks = (refl, (refl, (refl, (refl, tt))))

filename-Lacks : Lacks b'=' (codes "filename")
filename-Lacks = (refl, (refl, (refl, (refl, (refl, (refl, (refl, (refl, tt))))))))

store_name :
    (name filename text : Bytes) (rest : List Bytes)
    → Lacks b'=' text
    → store_pairs ((codes " name=" ++ quoted text) ∷ rest) (name, filename)
      ≡ store_pairs rest (text, filename)
unfolding store_pairs starts_with
store_name name filename text rest lacks =
    rw
      (
        split_piece-quoted b'n' (codes "ame") text (unfold is_space in refl) name-Lacks lacks,
        store_pairs,
      )
      (rw (trim_pairs-quoted text) refl)

store_filename :
    (name filename text : Bytes) (rest : List Bytes)
    → Lacks b'=' text
    → store_pairs ((codes " filename=" ++ quoted text) ∷ rest) (name, filename)
      ≡ store_pairs rest (name, text)
unfolding store_pairs starts_with
store_filename name filename text rest lacks =
    rw
      (
        split_piece-quoted b'f' (codes "ilename") text (unfold is_space in refl) filename-Lacks
            lacks,
        store_pairs,
      )
      (rw (trim_pairs-quoted text) refl)

-- The value of the header for a parameter, and for a file.
abbrev pub param_value : Bytes → Bytes
param_value name = codes "form-data; name=" ++ quoted name

abbrev pub file_value : Bytes → Bytes → Bytes
file_value name filename =
    codes "form-data; name=\"" ++ (name ++ (codes "\"; filename=" ++ quoted filename))

form_data_Lacks : Lacks b';' (codes "form-data")
form_data_Lacks = ground arith

store_form_data :
    (rest : List Bytes)
    → store_pairs (codes "form-data" ∷ rest) ([], []) ≡ store_pairs rest ([], [])
unfolding store_pairs split_piece trim
store_form_data rest = refl

quoted-Lacks : (text : Bytes) → Lacks b';' text → Lacks b';' (quoted text)
quoted-Lacks text h = (refl, Lacks-append b';' text (b'"' ∷ []) h (refl, tt))

pub store_pairs-param_value :
    (name : Bytes)
    → IsName name
    → store_pairs (split_piece (param_value name) b';') ([], []) ≡ some (name, [])
store_pairs-param_value name is_name =
    ap (λ l. store_pairs l ([], []))
      (split_piece-join b';' (codes "form-data" ∷ (codes " name=" ++ quoted name) ∷ [])
        (
          form_data_Lacks,
          (
            Lacks-append b';' (codes " name=") (quoted name) (ground arith)
                (quoted-Lacks name is_name.0),
            tt,
          ),
        )
        (λ e. cc))
    ∙ store_form_data ((codes " name=" ++ quoted name) ∷ [])
    ∙ store_name [] [] name [] is_name.1
    ∙ unfold store_pairs in refl

pub store_pairs-file_value :
    (name filename : Bytes)
    → IsName name
    → IsName filename
    → store_pairs (split_piece (file_value name filename) b';') ([], []) ≡ some (name, filename)
store_pairs-file_value name filename is_name is_filename =
    let pieces =
      codes "form-data"
      ∷ (codes " name=" ++ quoted name)
      ∷ (codes " filename=" ++ quoted filename)
      ∷ [] in
    ap (λ l. store_pairs l ([], []))
      (ap (λ s. split_piece (codes "form-data; name=\"" ++ s) b';')
          (sym (append_assoc name (b'"' ∷ []) (codes "; filename=" ++ quoted filename)))
        ∙ split_piece-join b';' pieces
            (
              form_data_Lacks,
              (
                Lacks-append b';' (codes " name=") (quoted name) (ground arith)
                    (quoted-Lacks name is_name.0),
                (
                  Lacks-append b';' (codes " filename=") (quoted filename) (ground arith)
                      (quoted-Lacks filename is_filename.0),
                  tt,
                ),
              ),
            )
            (λ e. cc))
    ∙ store_form_data _
    ∙ store_name [] [] name ((codes " filename=" ++ quoted filename) ∷ []) is_name.1
    ∙ store_filename name [] filename [] is_filename.1
    ∙ unfold store_pairs in refl
