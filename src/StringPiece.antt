-- ===== src/StringPiece.antt =====
-- src/base/StringPiece.h: a view of bytes, as the bytes that it shows.
pub mod Order
use Prim.Native.Nat.{compare, Ordering, min}
use wfrest.Base.{
  ℕ, zero, suc, ◌-◌, Bool, true, false, ◌&&◌, ◌||◌, [], ◌∷◌, ◌==◌, ltb, leb, length, take, drop,
  Bytes,
}

-- `memcmp` on the first `n` bytes of two blocks; it is only called within both.
memcmp : ℕ → Bytes → Bytes → Ordering
memcmp (suc n) (x ∷ a) (y ∷ b) = elim (compare x y) [ Ordering.eq ↦ memcmp n a b | o ↦ o ]
memcmp _ _ _ = Ordering.eq

abbrev is_lt : Ordering → Bool
is_lt = elim [ Ordering.lt ↦ true | _ ↦ false ]

abbrev is_eq : Ordering → Bool
is_eq = elim [ Ordering.eq ↦ true | _ ↦ false ]

-- `operator<`.
unfoldable pub less : Bytes → Bytes → Bool
unfolding memcmp
less a b =
    let r = memcmp (min (length a) (length b)) a b in
    is_lt r || (is_eq r && ltb (length a) (length b))

-- `operator==`.
unfoldable pub same : Bytes → Bytes → Bool
unfolding memcmp
same a b = length a == length b && is_eq (memcmp (length a) a b)

unfoldable pub starts_with : Bytes → Bytes → Bool
unfolding memcmp
starts_with s x = leb (length x) (length s) && is_eq (memcmp (length x) s x)

unfoldable pub remove_suffix : Bytes → ℕ → Bytes
remove_suffix s n = take (length s - n) s

-- `shrink`, which moves the start and takes both counts off the length.
unfoldable pub shrink : Bytes → ℕ → ℕ → Bytes
shrink s prefix suffix = take (length s - prefix - suffix) (drop prefix s)
