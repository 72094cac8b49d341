-- ===== src/CodeUtil.antt =====
-- src/util/CodeUtil.cc: percent encoding of URLs.
pub mod RoundTrip
pub mod Plain
use Prim.Native.Nat.{bit_and}
use wfrest.Base.{
  ℕ, ◌+◌, ◌-◌, ◌*◌, ◌/◌, ◌%◌, Bool, true, false, ◌&&◌, ◌||◌, [], ◌∷◌, ◌++◌, Option, none, some,
  ◌==◌, leb, if◌then◌else◌, get_or, c_str, is_space, Bytes, codes,
}

abbrev hex_chars : Bytes
hex_chars = codes "0123456789ABCDEF"

-- The bytes that `url_encode` leaves as they are.
unfoldable pub is_plain : ℕ → Bool
is_plain c =
    (leb b'0' c && leb c b'9')
    || (leb b'A' c && leb c b'Z')
    || (leb b'a' c && leb c b'z')
    || c == b'-'
    || c == b'.'
    || c == b'_'
    || c == b'~'
    || c == b'/'

encode_byte : ℕ → Bytes
unfolding is_plain
encode_byte c =
    if is_plain c
    then c ∷ []
    else b'%' ∷ get_or hex_chars (c / 16) 0 ∷ get_or hex_chars (bit_and c 15) 0 ∷ []

unfoldable pub url_encode : Bytes → Bytes
unfolding encode_byte
url_encode [] = []
url_encode (c ∷ s) = encode_byte c ++ url_encode s

hex_digit : ℕ → Option ℕ
hex_digit c =
    if leb b'0' c && leb c b'9'
    then some (c - b'0')
    else if leb b'A' c && leb c b'F'
    then some (c - b'A' + 10)
    else if leb b'a' c && leb c b'f'
    then some (c - b'a' + 10)
    else none

hex_value : ℕ → Bytes → ℕ
hex_value acc [] = acc
hex_value acc (c ∷ s) = elim (hex_digit c) [ none ↦ acc | some d ↦ hex_value (acc * 16 + d) s ]

-- `static_cast<char>` of `strtol(s, nullptr, 16)` where `s` has two bytes at most: blanks, a sign,
-- then digits as far as they go. On two bytes the prefix `0x` has no digit behind it, and is 0.
strtol_char : Bytes → ℕ
unfolding hex_digit hex_value is_space
strtol_char [] = 0
strtol_char (c ∷ s) = elim (is_space c) [
  | true ↦ strtol_char s
  | false ↦
      if c == b'-'
      then (256 - hex_value 0 s % 256) % 256
      else if c == b'+'
      then hex_value 0 s % 256
      else hex_value 0 (c ∷ s) % 256
]

-- One byte that starts no escape.
abbrev decode_plain : ℕ → ℕ
decode_plain c = if c == b'+' then b' ' else c

unfoldable pub url_decode : Bytes → Bytes
unfolding strtol_char c_str
url_decode [] = []
url_decode (c ∷ []) = decode_plain c ∷ []
url_decode (c ∷ a ∷ []) = decode_plain c ∷ decode_plain a ∷ []
url_decode (c ∷ a ∷ b ∷ s) = elim (c == b'%') [
  | true ↦ strtol_char (c_str (a ∷ b ∷ [])) ∷ url_decode s
  | false ↦ decode_plain c ∷ url_decode (a ∷ b ∷ s)
]

unfoldable pub is_url_encode : Bytes → Bool
is_url_encode [] = false
is_url_encode (c ∷ s) = c == b'%' || c == b'+' || is_url_encode s
