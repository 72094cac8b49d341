-- ===== src/Base/Int.antt =====
-- Signed integers; `negsuc n` is -(n + 1).
use Prim.Native.Nat.{ℕ, zero, suc}
use mathlib.Core.Bool.{Bool, true, false}
use wfrest.Base.Tests.{leb}

pub data ℤ : Type 0 where
  pos : ℕ → ℤ
  negsuc : ℕ → ℤ

-- `0 < z`.
abbrev pub is_positive : ℤ → Bool
is_positive (pos zero) = false
is_positive (pos (suc n)) = true
is_positive (negsuc n) = false

-- `z <= n`.
abbrev pub at_most : ℤ → ℕ → Bool
at_most (pos m) n = leb m n
at_most (negsuc m) n = true
