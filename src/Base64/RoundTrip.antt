-- ===== src/Base64/RoundTrip.antt =====
-- `decode` undoes `encode`.
use Prim.Native.Nat.{bit_and}
use wfrest.Base.{
  ℕ, ◌+◌, ◌*◌, ◌/◌, ◌%◌, ◌<◌, ◌≡◌, refl, ◌∙◌, ap, true, not, ◌&&◌, [], ◌∷◌, ◌==◌, Bytes, arith,
  all_below, all_below_sound, All, ◌≤◌, ◌^◌, ◌-◌, length, take, take-length, ltb, some,
}
use wfrest.Base64.{
  is_base64, sextet0, sextet1, sextet2, sextet3, letter, encode, find_letter, value, octet0, octet1,
  octet2, accepted, decode_groups, decode, encode_groups,
}

-- The masks of both directions, as quotients and remainders.
masks_table :
    all_below 256 (λ x.
      bit_and x 0xfc / 4 == x / 4
      && bit_and x 0x03 == x % 4
      && bit_and x 0xf0 / 16 == x / 16
      && bit_and x 0x0f == x % 16
      && bit_and x 0xc0 / 64 == x / 64
      && bit_and x 0x3f == x % 64
      && bit_and x 0x30 / 16 == x / 16 % 4
      && bit_and x 0x3c / 4 == x / 4 % 16)
    ≡ true
unfolding all_below
masks_table = refl

masks :
    (x : ℕ)
    → x < 256
    → (bit_and x 0xfc / 4 ≡ x / 4)
      × (bit_and x 0x03 ≡ x % 4)
      × (bit_and x 0xf0 / 16 ≡ x / 16)
      × (bit_and x 0x0f ≡ x % 16)
      × (bit_and x 0xc0 / 64 ≡ x / 64)
      × (bit_and x 0x3f ≡ x % 64)
      × (bit_and x 0x30 / 16 ≡ x / 16 % 4)
      × (bit_and x 0x3c / 4 ≡ x / 4 % 16)
masks x h = ground (arith, all_below_sound 256 _ x masks_table h)

letters_table :
    all_below 64 (λ x. value (letter x) == x && not (letter x == b'=') && is_base64 (letter x))
    ≡ true
unfolding all_below find_letter is_base64
letters_table = refl

value-letter : (x : ℕ) → x < 64 → value (letter x) ≡ x
value-letter x h = ground (arith, all_below_sound 64 _ x letters_table h)

accepted-letter : (x : ℕ) (s : Bytes) → x < 64 → accepted (letter x ∷ s) ≡ letter x ∷ accepted s
accepted-letter x s h = unfold accepted in ground (arith, all_below_sound 64 _ x letters_table h)

-- The four values of a group, and their bound.
sextets :
    (a b c : ℕ)
    → a < 256
    → b < 256
    → c < 256
    → (sextet0 a b c ≡ a / 4)
      × (sextet1 a b c ≡ a % 4 * 16 + b / 16)
      × (sextet2 a b c ≡ b % 16 * 4 + c / 64)
      × (sextet3 a b c ≡ c % 64)
unfolding sextet0 sextet1 sextet2 sextet3
sextets a b c h k l = omega (arith, masks a h, masks b k, masks c l)

octets :
    (w x y z : ℕ)
    → x < 256
    → y < 256
    → (octet0 w x y z ≡ (w * 4 + x / 16 % 4) % 256)
      × (octet1 w x y z ≡ (x % 16 * 16 + y / 4 % 16) % 256)
      × (octet2 w x y z ≡ (y % 4 * 64 + z) % 256)
unfolding octet0 octet1 octet2
octets w x y z h k = omega (arith, masks x h, masks y k)

decode_all : Bytes → Bytes
unfolding accepted decode_groups
decode_all s = decode_groups (accepted s)

abbrev IsByte : ℕ → Type 0
IsByte c = c < 256

module _ (w x : ℕ) (hw : w < 64) (hx : x < 64) where
  -- The letters of two values are accepted, whatever follows.
  accept_two : (s : Bytes) → accepted (letter w ∷ letter x ∷ s) ≡ letter w ∷ letter x ∷ accepted s
  accept_two s = accepted-letter w _ hw ∙ ap (◌∷◌ (letter w)) (accepted-letter x s hx)

  decode-two : decode_all (letter w ∷ letter x ∷ b'=' ∷ b'=' ∷ []) ≡ octet0 w x 255 255 ∷ []
  unfolding decode_all
  decode-two =
      ap decode_groups (accept_two (b'=' ∷ b'=' ∷ []))
      ∙ rw (value-letter w hw, value-letter x hx) refl

module _ (w x y : ℕ) (hw : w < 64) (hx : x < 64) (hy : y < 64) where
  decode-three :
      decode_all (letter w ∷ letter x ∷ letter y ∷ b'=' ∷ [])
      ≡ octet0 w x y 255 ∷ octet1 w x y 255 ∷ []
  unfolding decode_all
  decode-three =
      ap decode_groups (
        accept_two w x hw hx (letter y ∷ b'=' ∷ [])
        ∙ ap (λ t. letter w ∷ letter x ∷ t) (accepted-letter y (b'=' ∷ []) hy))
      ∙ rw (value-letter w hw, value-letter x hx, value-letter y hy) refl

  decode-four :
      (z : ℕ) (s : Bytes)
      → z < 64
      → decode_all (letter w ∷ letter x ∷ letter y ∷ letter z ∷ s)
        ≡ octet0 w x y z ∷ octet1 w x y z ∷ octet2 w x y z ∷ decode_all s
  unfolding decode_all
  decode-four z s hz =
      ap decode_groups (
        accept_two w x hw hx (letter y ∷ letter z ∷ s)
        ∙ ap (λ t. letter w ∷ letter x ∷ t) (accept_two y z hy hz s))
      ∙ rw (value-letter w hw, value-letter x hx, value-letter y hy, value-letter z hz) refl

decode_all-encode_groups : (s : Bytes) → All IsByte s → decode_all (encode_groups s) ≡ s
unfolding encode_groups
decode_all-encode_groups [] h = unfold decode_all in refl
decode_all-encode_groups (a ∷ []) h =
    let v = sextets a 0 0 h.0 (omega arith) (omega arith) in
    let o = octets (sextet0 a 0 0) (sextet1 a 0 0) 255 255 (omega arith) (omega arith) in
    decode-two (sextet0 a 0 0) (sextet1 a 0 0) (omega arith) (omega arith) ∙ ground arith
decode_all-encode_groups (a ∷ b ∷ []) h =
    let v = sextets a b 0 h.0 h.1.0 (omega arith) in
    let o =
      octets (sextet0 a b 0) (sextet1 a b 0) (sextet2 a b 0) 255 (omega arith) (omega arith) in
    decode-three (sextet0 a b 0) (sextet1 a b 0) (sextet2 a b 0) (omega arith) (omega arith)
      (omega arith)
    ∙ ground arith
decode_all-encode_groups (a ∷ b ∷ c ∷ s) h =
    let v = sextets a b c h.0 h.1.0 h.1.1.0 in
    let o =
      octets (sextet0 a b c) (sextet1 a b c) (sextet2 a b c) (sextet3 a b c) (omega arith)
        (omega arith) in
    decode-four (sextet0 a b c) (sextet1 a b c) (sextet2 a b c) (omega arith) (omega arith)
      (omega arith) (sextet3 a b c) (encode_groups s) (omega arith)
    ∙ ground (arith, decode_all-encode_groups s h.1.1.1)

length-encode_groups : (s : Bytes) → 3 * length (encode_groups s) ≤ 4 * length s + 8
unfolding encode_groups
length-encode_groups [] = omega arith
length-encode_groups (a ∷ []) = omega arith
length-encode_groups (a ∷ b ∷ []) = omega arith
length-encode_groups (a ∷ b ∷ c ∷ s) = omega (arith, length-encode_groups s)

take-int : (s : Bytes) → length s < 2 ^ 32 → take (length s % 2 ^ 32) s ≡ s
take-int s h =
    let size : length s % 2 ^ 32 ≡ length s = omega arith in ap (λ n. take n s) size ∙ take-length s

not_negative : (n : ℕ) → n < 2 ^ 31 → ltb (n % 2 ^ 32) (2 ^ 31) ≡ true
not_negative n h = let same : n % 2 ^ 32 ≡ n = omega arith in rw same (ground arith)

-- For every string of bytes that is no longer than 3 * (2^29 - 1), so that the length of its encoding
-- is an `int`: decoding its encoding gives it back.
pub decode-encode :
    (s : Bytes) → length s ≤ 3 * (2 ^ 29 - 1) → All IsByte s → decode (encode s) ≡ some s
unfolding encode decode decode_all
decode-encode s short h =
    let size = length-encode_groups s in
    let text : encode s ≡ encode_groups s = ap encode_groups (take-int s (omega arith)) in
    let no_overflow = not_negative (length (encode_groups s)) (omega arith) in
    ap decode text
    ∙ rw no_overflow (
        ap (λ t. some (decode_groups (accepted t))) (take-int (encode_groups s) (omega arith))
        ∙ ap (λ t. some t) (decode_all-encode_groups s h))
