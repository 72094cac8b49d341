-- ===== src/Base64.antt =====
-- src/base/base64.cc: the encoder and decoder, group by group.
pub mod RoundTrip
use Prim.Native.Nat.{bit_and}
use wfrest.Base.{
  ℕ, suc, ◌+◌, ◌*◌, ◌/◌, ◌%◌, Bool, true, false, not, ◌&&◌, ◌||◌, [], ◌∷◌, ◌++◌, ◌==◌, leb,
  if◌then◌else◌, get_or, Bytes, codes, ltb, ◌^◌, length, take, Option, none, some,
}

abbrev base64_chars : Bytes
base64_chars = codes "ABCDEFGHIJKLMNOPQRSTUVWXYZabcdefghijklmnopqrstuvwxyz0123456789+/"

unfoldable pub is_base64 : ℕ → Bool
is_base64 c =
    (leb b'a' c && leb c b'z')
    || (leb b'A' c && leb c b'Z')
    || (leb b'0' c && leb c b'9')
    || c == b'+'
    || c == b'/'

-- `char_array_4` of the three bytes of a group, as `unsigned char`.
sextet0 : ℕ → ℕ → ℕ → ℕ
sextet0 a b c = bit_and a 0xfc / 4

sextet1 : ℕ → ℕ → ℕ → ℕ
sextet1 a b c = (bit_and a 0x03 * 16 + bit_and b 0xf0 / 16) % 256

sextet2 : ℕ → ℕ → ℕ → ℕ
sextet2 a b c = (bit_and b 0x0f * 4 + bit_and c 0xc0 / 64) % 256

sextet3 : ℕ → ℕ → ℕ → ℕ
sextet3 a b c = bit_and c 0x3f

abbrev letter : ℕ → ℕ
letter i = get_or base64_chars i 0

-- A full group at a time; the last group of one or two bytes is filled up with zeros.
unfoldable pub encode_groups : Bytes → Bytes
unfolding sextet0 sextet1 sextet2 sextet3
encode_groups [] = []
encode_groups (a ∷ []) = letter (sextet0 a 0 0) ∷ letter (sextet1 a 0 0) ∷ b'=' ∷ b'=' ∷ []
encode_groups (a ∷ b ∷ []) =
    letter (sextet0 a b 0) ∷ letter (sextet1 a b 0) ∷ letter (sextet2 a b 0) ∷ b'=' ∷ []
encode_groups (a ∷ b ∷ c ∷ s) =
    letter (sextet0 a b c)
    ∷ letter (sextet1 a b c)
    ∷ letter (sextet2 a b c)
    ∷ letter (sextet3 a b c)
    ∷ encode_groups s

-- The length is an `unsigned int`.
unfoldable pub encode : Bytes → Bytes
unfolding encode_groups
encode s = encode_groups (take (length s % 2 ^ 32) s)

-- `base64_chars.find(c)`, cast to `unsigned char`: `npos` becomes 255.
find_letter : ℕ → ℕ → Bytes → ℕ
find_letter c i [] = 255
find_letter c i (d ∷ chars) = if c == d then i else find_letter c (i + 1) chars

abbrev value : ℕ → ℕ
value c = find_letter c 0 base64_chars

-- `char_array_3` of the four values of a group, as `unsigned char`.
octet0 : ℕ → ℕ → ℕ → ℕ → ℕ
octet0 w x y z = (w * 4 + bit_and x 0x30 / 16) % 256

octet1 : ℕ → ℕ → ℕ → ℕ → ℕ
octet1 w x y z = (bit_and x 0xf * 16 + bit_and y 0x3c / 4) % 256

octet2 : ℕ → ℕ → ℕ → ℕ → ℕ
octet2 w x y z = (bit_and y 0x3 * 64 + z) % 256

-- The bytes that the loop of `decode` takes: up to the first `=` or foreign byte.
accepted : Bytes → Bytes
unfolding is_base64
accepted [] = []
accepted (c ∷ s) = if not (c == b'=') && is_base64 c then c ∷ accepted s else []

-- A last group of `i` letters is filled up with NUL, which is no letter, and gives `i - 1` bytes.
decode_groups : Bytes → Bytes
unfolding find_letter octet0 octet1 octet2
decode_groups [] = []
decode_groups (p ∷ []) = []
decode_groups (p ∷ q ∷ []) = octet0 (value p) (value q) (value 0) (value 0) ∷ []
decode_groups (p ∷ q ∷ r ∷ []) =
    octet0 (value p) (value q) (value r) (value 0)
    ∷ octet1 (value p) (value q) (value r) (value 0)
    ∷ []
decode_groups (p ∷ q ∷ r ∷ t ∷ s) =
    octet0 (value p) (value q) (value r) (value t)
    ∷ octet1 (value p) (value q) (value r) (value t)
    ∷ octet2 (value p) (value q) (value r) (value t)
    ∷ decode_groups s

-- `in_len`, an `int`, is counted down: one that begins below 0 overflows, which is undefined, unless
-- the loop ends before.
unfoldable pub decode : Bytes → Option Bytes
unfolding accepted decode_groups
decode s =
    let in_len = length s % 2 ^ 32 in
    let taken = accepted (take in_len s) in
    if ltb in_len (2 ^ 31) || ltb (length taken + 2 ^ 31) in_len
    then some (decode_groups taken)
    else none
