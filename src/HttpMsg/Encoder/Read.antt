-- ===== src/HttpMsg/Encoder/Read.antt =====
-- What the parser of forms makes of the body that the encoder sends.
use wfrest.Base.{
  ◌+◌, length, ◌≡◌, ◌≢◌, refl, sym, ap, ◌∙◌, Bool, true, false, not, ◌&&◌, List, [], ◌∷◌, ◌++◌, map,
  Option, some, ◌==◌, get_or, Bytes, codes, All, All-append, arith, c_str,
}
use wfrest.MultiPartParser.{cr, lf, run, step}
use wfrest.PathUtil.{base, suffix}
use wfrest.HttpDef.{to_str_by_suffix}
use wfrest.HttpDef.Suffixes.{none_is, is_value, to_str_by_suffix-value}
use wfrest.HttpContent.{parse_multipart}
use wfrest.HttpContent.Runs.{no_cr}
use wfrest.HttpContent.Form.{
  FormPart, IsFormPart, form_text, store_parts, parse_multipart-form_text, parse_multipart-text,
}
use wfrest.HttpMsg.Encoder.{params_text, encode}
use wfrest.HttpMsg.Encoder.Sections.{
  FileItem, file_of, param_part, file_part, sections, sections-form_text, params_text-sections,
  sections-append, IsRead, last_line, run_files-sections,
}
use wfrest.HttpMsg.Encoder.Names.{IsName, store_pairs-param_value, store_pairs-file_value}

no_cr-append : (a b : Bytes) → no_cr a ≡ true → no_cr b ≡ true → no_cr (a ++ b) ≡ true
unfolding no_cr
no_cr-append [] b h k = k
no_cr-append (c ∷ a) b h k = ground (arith, no_cr-append a b)

none_is-no_cr : (s : Bytes) → none_is (λ c. c == 13) s ≡ no_cr s
unfolding no_cr
none_is-no_cr [] = refl
none_is-no_cr (c ∷ s) = ap (◌&&◌ (not (c == 13))) (none_is-no_cr s)

type_value_lem :
    (type : Bytes)
    → is_value type ≡ true
    → ((get_or type 0 0 == b' ') ≡ false) × (no_cr type ≡ true)
unfolding is_value
type_value_lem type h = let same = none_is-no_cr type in (ground arith, sym same ∙ ground arith)

-- A name in quotes: no semicolon, no equals sign, no carriage return.
abbrev pub IsQuotable : Bytes → Type 0
IsQuotable text = IsName text × (no_cr text ≡ true)

abbrev pub IsParam : Bytes × Bytes → Type 0
IsParam (name, value) = IsQuotable name × (no_cr value ≡ true)

abbrev pub IsItem : FileItem → Type 0
IsItem item = IsQuotable item.name × IsQuotable (base item.path) × (no_cr item.bytes ≡ true)

quote_no_cr : (text : Bytes) → no_cr text ≡ true → no_cr (b'"' ∷ (text ++ b'"' ∷ [])) ≡ true
quote_no_cr text h = unfold no_cr in no_cr-append text (b'"' ∷ []) h (unfold no_cr in refl)

param_part-IsFormPart : (param : Bytes × Bytes) → IsParam param → IsFormPart (param_part param)
unfolding IsFormPart no_cr
param_part-IsFormPart (name, value) ((is_name, text), content) = (
  refl,
  no_cr-append (codes "form-data; name=") (b'"' ∷ (name ++ b'"' ∷ [])) refl (quote_no_cr name text),
  content,
  refl,
  refl,
  store_pairs-param_value name is_name,
)

file_part-IsFormPart : (item : FileItem) → IsItem item → IsFormPart (file_part item)
unfolding IsFormPart no_cr
file_part-IsFormPart item ((is_name, text), (is_base, base_text), content) =
    let quoted_base = b'"' ∷ (base item.path ++ b'"' ∷ []) in
    let behind_name = codes "\"; filename=" ++ quoted_base in
    let (first, type_text) =
      type_value_lem (to_str_by_suffix (suffix item.path))
        (to_str_by_suffix-value (suffix item.path)) in
    (
      refl,
      no_cr-append (codes "form-data; name=\"") (item.name ++ behind_name) refl (
          no_cr-append item.name behind_name text (
            no_cr-append (codes "\"; filename=") quoted_base refl
              (quote_no_cr (base item.path) base_text))),
      content,
      first,
      type_text,
      store_pairs-file_value item.name (base item.path) is_name is_base,
    )

All-map {ℓ} :
    {A : Type ℓ} (f : A → FormPart) (P : A → Type 0) (xs : List A)
    → ((a : A) → P a → IsFormPart (f a))
    → All P xs
    → All IsFormPart (map f xs)
All-map f P [] step h = tt
All-map f P (a ∷ xs) step h = (step a h.0, All-map f P xs step h.1)

-- A text that does not begin as a boundary does is no form: nothing is read of it.
parse_multipart-line_end :
    (boundary text : Bytes)
    → c_str boundary ≡ boundary
    → parse_multipart boundary (cr ∷ lf ∷ text) ≡ some []
unfolding run step
parse_multipart-line_end boundary text no_nul =
    let some_bytes : (0 == length (codes "--" ++ boundary)) ≡ false = ground arith in
    let more_bytes : (0 == length (codes "--" ++ boundary) + 1) ≡ false = ground arith in
    parse_multipart-text boundary (cr ∷ lf ∷ text) no_nul
    ∙ rw (some_bytes, run) (rw more_bytes refl)

parse_multipart-parts :
    (boundary epilogue : Bytes) (ps : List FormPart)
    → c_str boundary ≡ boundary
    → ps ≢ []
    → All IsFormPart ps
    → parse_multipart boundary (form_text boundary ps epilogue) ≡ some (store_parts ps [])
parse_multipart-parts boundary epilogue [] text ne h = absurd (ne refl)
parse_multipart-parts boundary epilogue (p ∷ ps) text ne h =
    parse_multipart-form_text boundary p ps epilogue text h

behind_params : (ps qs : List FormPart) (q : FormPart) → ps ++ q ∷ qs ≢ []
behind_params [] qs q = λ e. cc
behind_params (p ∷ ps) qs q = λ e. cc

-- For every boundary without NUL, parameters, and files, at least one, that are read and have a type that is
-- known by the suffix, where the names, and the files' last levels, hold no semicolon, equals sign or
-- carriage return, and the values and the bytes no carriage return: the body that is sent is a line
-- end and the text of a form, of which the parser reads the form: the parameters and then the files,
-- each under its name; but of the body itself, line end and all, it reads nothing.
pub encode-parse_multipart :
    (is_file has_size : Bytes → Bool) (pread : Bytes → Option Bytes) (boundary : Bytes)
    (params : List (Bytes × Bytes)) (item : FileItem) (items : List FileItem)
    → c_str boundary ≡ boundary
    → All (IsRead is_file has_size pread) (item ∷ items)
    → All IsParam params
    → All IsItem (item ∷ items)
    → let parts = map param_part params ++ map file_part (item ∷ items) in
      let text = form_text boundary parts (cr ∷ lf ∷ []) in
      (encode is_file has_size pread
          (record { boundary = boundary; params = params; files = map file_of (item ∷ items) })
        ≡ some (cr ∷ lf ∷ text))
      × (parse_multipart boundary text ≡ some (store_parts parts []))
      × (parse_multipart boundary (cr ∷ lf ∷ text) ≡ some [])
unfolding encode
encode-parse_multipart is_file has_size pread boundary params item items no_nul read are_params
      are_items =
    let parts = map param_part params ++ map file_part (item ∷ items) in
    (
      run_files-sections is_file has_size pread boundary (params_text boundary params) item items
            read
          ∙ ap some (
              ap
                (λ s.
                  (s ++ sections boundary (map file_part (item ∷ items)))
                  ++ last_line is_file has_size pread boundary)
                (params_text-sections boundary params)
              ∙ ap (λ s. s ++ last_line is_file has_size pread boundary)
                  (sym (
                    sections-append boundary (map param_part params)
                      (map file_part (item ∷ items))))
              ∙ sections-form_text boundary parts (cr ∷ lf ∷ [])),
      parse_multipart-parts boundary (cr ∷ lf ∷ []) parts no_nul
          (behind_params (map param_part params) (map file_part items) (file_part item))
          (All-append IsFormPart (map param_part params) (map file_part (item ∷ items))
            (All-map param_part IsParam params param_part-IsFormPart are_params)
            (All-map file_part IsItem (item ∷ items) file_part-IsFormPart are_items)),
      parse_multipart-line_end boundary (form_text boundary parts (cr ∷ lf ∷ [])) no_nul,
    )
