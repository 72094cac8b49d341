-- ===== src/HttpMsg/Boundary.antt =====
-- The boundary of an encoded form is the one that a reader of the response's header is told.
use wfrest.Base.{ℕ, ◌≡◌, refl, ap, ◌∙◌, false, ◌∷◌, some, ◌==◌, c_str, Bytes}
use wfrest.StrUtil.{view, trim_pairs, has_pair, quotes}
use wfrest.HttpDef.{to_enum, multipart_form_data, strstartswith}
use wfrest.HttpMsg.{fill_content_type, encoder_content_type, behind, trimmed, is_multipart, is_set}

-- A text that begins with no quote is left as it is.
trim_pairs-plain :
    (before after c : ℕ) (s : Bytes)
    → (c == b'"') ≡ false
    → (c == b'\'') ≡ false
    → trim_pairs before after (c ∷ s) quotes ≡ view (c ∷ s)
unfolding trim_pairs has_pair
trim_pairs-plain before after c s p q = rw (p, trim_pairs) (rw q refl)

trimmed-plain :
    (c : ℕ) (s : Bytes)
    → (c == b'"') ≡ false
    → (c == b'\'') ≡ false
    → trimmed (some (c ∷ s)) ≡ is_set (c ∷ s)
unfolding trimmed
trimmed-plain c s p q = rw (trim_pairs-plain b'=' 0 c s p q, trimmed) refl

-- For every boundary that begins with no quote and holds no NUL: the content type that the encoder
-- gives a response is read as that of a form, with that boundary.
pub fill_content_type-encoder :
    (c : ℕ) (s : Bytes)
    → (c == b'"') ≡ false
    → (c == b'\'') ≡ false
    → c_str (c ∷ s) ≡ c ∷ s
    → fill_content_type (encoder_content_type (c ∷ s)) ≡ (multipart_form_data, is_set (c ∷ s))
unfolding fill_content_type encoder_content_type behind trimmed is_multipart to_enum strstartswith
    c_str
fill_content_type-encoder c s p q clean =
    ap (λ b. (multipart_form_data, trimmed (some b))) clean
    ∙ ap (λ b. (multipart_form_data, b)) (trimmed-plain c s p q)
