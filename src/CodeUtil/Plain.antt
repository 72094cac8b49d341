-- ===== src/CodeUtil/Plain.antt =====
-- Bytes that the percent encoding leaves as they are.
use wfrest.Base.{ℕ, zero, suc, ◌≡◌, refl, ap, true, false, [], ◌∷◌, ◌==◌, c_str, Bytes, All, arith}
use wfrest.CodeUtil.{is_plain, encode_byte, url_encode}

abbrev pub IsPlain : Bytes → Type 0
IsPlain = All (λ c. is_plain c ≡ true)

pub url_encode_plain : (s : Bytes) → IsPlain s → url_encode s ≡ s
unfolding url_encode encode_byte
url_encode_plain [] h = refl
url_encode_plain (c ∷ s) h = rw (h.0, encode_byte) (ap (◌∷◌ c) (url_encode_plain s h.1))

plain-ne-nul : (c : ℕ) → is_plain c ≡ true → (c == 0) ≡ false
unfolding is_plain
plain-ne-nul zero h = absurd (ground arith)
plain-ne-nul (suc c) h = ground arith

-- No byte is the NUL that ends a C string.
abbrev pub IsText : Bytes → Type 0
IsText = All (λ c. (c == 0) ≡ false)

pub plain-IsText : (s : Bytes) → IsPlain s → IsText s
plain-IsText [] h = tt
plain-IsText (c ∷ s) h = (plain-ne-nul c h.0, plain-IsText s h.1)

pub c_str_text : (s : Bytes) → IsText s → c_str s ≡ s
unfolding c_str
c_str_text [] h = refl
c_str_text (c ∷ s) h = rw (h.0, c_str) (ap (◌∷◌ c) (c_str_text s h.1))

pub c_str_plain : (s : Bytes) → IsPlain s → c_str s ≡ s
c_str_plain s h = c_str_text s (plain-IsText s h)
