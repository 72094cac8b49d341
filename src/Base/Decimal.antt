-- ===== src/Base/Decimal.antt =====
-- Numbers in decimal: `std::to_string` of an unsigned number, and `atoi`.
use Prim.Native.Nat.{ℕ, zero, suc, ◌+◌, ◌-◌, ◌*◌, ◌/◌, ◌%◌}
use mathlib.Core.Path.{◌≡◌}
use mathlib.Core.Bool.{true, false, ◌&&◌}
use mathlib.Core.List.{[], ◌∷◌}
use mathlib.Core.Logic.{inl, inr}
use native.Mathlib.Omega.{arith}
use wfrest.Base.Tests.{◌==◌, leb, if◌then◌else◌, Bool-cases}
use wfrest.Base.Lists.{All}
use wfrest.Base.Chars.{Bytes, is_space}
use wfrest.Base.Int.{ℤ, pos, negsuc}

-- The digits in front of `out`; a round drops the last digit, so the fuel is above the number.
unfoldable pub digits : ℕ → ℕ → Bytes → Bytes
digits zero n out = out
digits (suc fuel) n out =
    let rest = digits fuel (n / 10) ((b'0' + n % 10) ∷ out) in
    if n / 10 == 0 then (b'0' + n % 10) ∷ out else rest

unfoldable pub to_string : ℕ → Bytes
unfolding digits
to_string n = digits (suc n) n []

-- The number that the digits at the front of a text stand for, behind `n`.
read_digits : ℕ → Bytes → ℕ
read_digits n [] = n
read_digits n (c ∷ s) =
    let rest = read_digits (n * 10 + (c - b'0')) s in if leb b'0' c && leb c b'9' then rest else n

unfoldable pub negated : ℕ → ℤ
negated zero = pos zero
negated (suc n) = negsuc n

read_signed : Bytes → ℤ
unfolding read_digits negated
read_signed [] = pos 0
read_signed (c ∷ s) =
    if c == b'-'
    then negated (read_digits 0 s)
    else pos (read_digits 0 (if c == b'+' then s else c ∷ s))

-- `atoi`: blanks, a sign, digits. For a number that no `int` holds C leaves the result open.
unfoldable pub atoi : Bytes → ℤ
unfolding read_signed is_space
atoi [] = pos 0
atoi (c ∷ s) = let rest = atoi s in if is_space c then rest else read_signed (c ∷ s)

-- Every byte is a digit, so a byte that is none does not occur.
digits-lacks :
    (sep fuel n : ℕ) (out : Bytes)
    → leb b':' sep ≡ true
    → All (λ c. (c == sep) ≡ false) out
    → All (λ c. (c == sep) ≡ false) (digits fuel n out)
unfolding digits
digits-lacks sep zero n out above h = h
digits-lacks sep (suc fuel) n out above h =
    let digit : (b'0' + n % 10 == sep) ≡ false = ground arith in
    elim (Bool-cases (n / 10 == 0)) [
      | inl last ↦ rw last (digit, h)
      | inr more ↦ rw more (digits-lacks sep fuel (n / 10) ((b'0' + n % 10) ∷ out) above (digit, h))
    ]

pub to_string-lacks :
    (sep n : ℕ) → leb b':' sep ≡ true → All (λ c. (c == sep) ≡ false) (to_string n)
unfolding to_string
to_string-lacks sep n above = digits-lacks sep (suc n) n [] above tt
