-- ===== src/UriUtil/FirstWins.antt =====
-- A query string or form body that is put together from keys and values is read back: each key
-- with the first value that it has.

use wfrest.Base.{
  [], ◌∷◌, ◌++◌, map, Option, none, some, ◌≡◌, ◌≢◌, refl, sym, ap, ◌∙◌, arith, equal_iff, Bytes,
  All,
}
use wfrest.Map.{find, contains, find-emplace}
use wfrest.StrUtil.{split_piece}
use wfrest.StrUtil.Split.{join, Lacks, split_piece-join, Lacks-append}
use wfrest.UriUtil.{Entries, add_element, add_elements, split_query, parse_post_kv}

-- One element of a query.
abbrev pub element : Bytes × Bytes → Bytes
element (k, v) = k ++ (b'=' ∷ v)

abbrev pub render : Entries → Bytes
render es = join b'&' (map element es)

-- A key with a byte; no separator in key or value.
abbrev pub IsClean : Bytes × Bytes → Type 0
IsClean (k, v) = (k ≢ []) × Lacks b'=' k × Lacks b'=' v × Lacks b'&' k × Lacks b'&' v

abbrev or_else {ℓ} : {A : Type ℓ} → Option A → Option A → Option A
or_else none b = b
or_else (some a) b = some a

split-element :
    (k v : Bytes)
    → k ≢ []
    → Lacks b'=' k
    → Lacks b'=' v
    → split_piece (k ++ (b'=' ∷ v)) b'=' ≡ k ∷ v ∷ []
split-element [] v ne h l = absurd (ne refl)
split-element (c ∷ k) v ne h l = split_piece-join b'=' ((c ∷ k) ∷ v ∷ []) (h, (l, tt)) (λ e. cc)

find-add_element :
    (j k v : Bytes) (res : Entries)
    → k ≢ []
    → Lacks b'=' k
    → Lacks b'=' v
    → find j (add_element (k ++ (b'=' ∷ v)) res) ≡ or_else (find j res) (find j ((k, v) ∷ []))
unfolding add_element
find-add_element j [] v res ne h l = absurd (ne refl)
find-add_element j (c ∷ k) v res ne h l =
    rw (split-element (c ∷ k) v ne h l)
      (unfold find contains in ground (arith, find-emplace j (c ∷ k) v res, equal_iff (c ∷ k) j))

or_else_assoc {ℓ} :
    {A : Type ℓ} (a b c : Option A) → or_else (or_else a b) c ≡ or_else a (or_else b c)
or_else_assoc none b c = refl
or_else_assoc (some x) b c = refl

find-cons :
    (j : Bytes) (e : Bytes × Bytes) (es : Entries)
    → find j (e ∷ es) ≡ or_else (find j (e ∷ [])) (find j es)
unfolding find
find-cons j (k, v) es = ground arith

find-add_elements :
    (j : Bytes) (es res : Entries)
    → All IsClean es
    → find j (add_elements (map element es) res) ≡ or_else (find j res) (find j es)
unfolding add_elements
find-add_elements j [] res h = unfold find in ground arith
find-add_elements j ((k, v) ∷ es) res h =
    let (ne, hk, hv, _, _) = h.0 in
    find-add_elements j es (add_element (k ++ (b'=' ∷ v)) res) h.1
    ∙ rw (find-add_element j k v res ne hk hv) (
        or_else_assoc (find j res) (find j ((k, v) ∷ [])) (find j es)
        ∙ ap (or_else (find j res)) (sym (find-cons j (k, v) es)))

element-Lacks : (es : Entries) → All IsClean es → All (Lacks b'&') (map element es)
element-Lacks [] h = tt
element-Lacks ((k, v) ∷ es) h =
    (Lacks-append b'&' k (b'=' ∷ v) h.0.3 (refl, h.0.4), element-Lacks es h.1)

split-render : (es : Entries) → All IsClean es → split_piece (render es) b'&' ≡ map element es
split-render [] h = unfold split_piece in refl
split-render (([], v) ∷ es) h = absurd (h.0.0 refl)
split-render ((c ∷ k, v) ∷ []) h =
    split_piece-join b'&' _ (element-Lacks ((c ∷ k, v) ∷ []) h) (λ e. cc)
split-render ((c ∷ k, v) ∷ e ∷ es) h =
    split_piece-join b'&' _ (element-Lacks ((c ∷ k, v) ∷ e ∷ es) h) (λ e. cc)

-- For every list of clean entries and every key: in what `split_query` and `parse_post_kv` make of
-- the rendered list the key has the value of its first entry, and no value if it has no entry.
pub find-split_query :
    (j : Bytes) (es : Entries)
    → All IsClean es
    → (find j (split_query (render es)) ≡ find j es)
      × (find j (parse_post_kv (render es)) ≡ find j es)
unfolding split_query parse_post_kv
find-split_query j es h =
    let read =
      ap (λ arr. find j (add_elements arr [])) (split-render es h) ∙ find-add_elements j es [] h in
    (read, read)
