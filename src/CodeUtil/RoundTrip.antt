-- ===== src/CodeUtil/RoundTrip.antt =====
-- `url_decode` undoes `url_encode`.
use wfrest.Base.{
  ℕ, ◌<◌, ◌≡◌, refl, ◌∙◌, ap, inl, inr, true, false, [], ◌∷◌, ◌++◌, arith, ◌==◌, ==_iff, Bool-cases,
  All, Bytes, all_below, all_below_sound, c_str, get_or, ◌/◌,
}
use Prim.Native.Nat.{bit_and}
use wfrest.CodeUtil.{
  hex_chars, is_plain, encode_byte, url_encode, strtol_char, decode_plain, url_decode,
  is_url_encode,
}

url_decode-other :
    (c : ℕ) (s : Bytes) → (c == b'%') ≡ false → url_decode (c ∷ s) ≡ decode_plain c ∷ url_decode s
unfolding url_decode
url_decode-other c [] h = refl
url_decode-other c (a ∷ []) h = refl
url_decode-other c (a ∷ b ∷ s) h = rw (h, url_decode)

abbrev escape : ℕ → Bytes
escape c = get_or hex_chars (c / 16) 0 ∷ get_or hex_chars (bit_and c 15) 0 ∷ []

escape_table : all_below 256 (λ c. strtol_char (c_str (escape c)) == c) ≡ true
unfolding all_below strtol_char c_str
escape_table = refl

url_decode-escape :
    (c : ℕ) (s : Bytes) → c < 256 → url_decode (b'%' ∷ (escape c ++ s)) ≡ c ∷ url_decode s
unfolding url_decode
url_decode-escape c s h =
    ap (λ d. d ∷ url_decode s) ((==_iff _ c).0 (all_below_sound 256 _ c escape_table h))

decode-encode_byte :
    (c : ℕ) (s : Bytes) → c < 256 → url_decode (encode_byte c ++ s) ≡ c ∷ url_decode s
unfolding encode_byte is_plain
decode-encode_byte c s h = elim (Bool-cases (is_plain c)) [
  | inl e ↦ rw (e, encode_byte) (plain e)
  | inr e ↦ rw (e, encode_byte) (url_decode-escape c s h)
]
  where
    plain : is_plain c ≡ true → url_decode (c ∷ s) ≡ c ∷ url_decode s
    plain e = url_decode-other c s (ground arith) ∙ ap (λ d. d ∷ url_decode s) (ground arith)

-- For every string of bytes: decoding its percent encoding gives it back.
pub url_decode-url_encode : (s : Bytes) → All (λ c. c < 256) s → url_decode (url_encode s) ≡ s
unfolding url_encode
url_decode-url_encode [] h = unfold url_decode in refl
url_decode-url_encode (c ∷ s) h =
    decode-encode_byte c (url_encode s) h.0 ∙ ap (◌∷◌ c) (url_decode-url_encode s h.1)

-- For every string: if `is_url_encode` does not report it, decoding leaves it as it is.
pub url_decode_plain : (s : Bytes) → is_url_encode s ≡ false → url_decode s ≡ s
unfolding is_url_encode
url_decode_plain [] h = unfold url_decode in refl
url_decode_plain (c ∷ s) h =
    url_decode-other c s (ground arith) ∙ ground (arith, url_decode_plain s)
