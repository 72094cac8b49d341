-- ===== src/StringPiece/Order.antt =====
-- `operator<` of StringPiece orders a `std::map`: it is a strict total order that agrees with `==`.
use Prim.Native.Nat.{min}
use wfrest.Base.{
  ℕ, suc, ◌≡◌, refl, ◌∙◌, ◌↔◌, ◌⊎◌, Bool, true, false, ◌&&◌, ◌||◌, [], ◌∷◌, ◌++◌, arith, ltb, ◌==◌,
  length, Bytes,
}
use wfrest.StringPiece.{less, same, starts_with}

-- The lexicographic order of bytes.
abbrev lex : Bytes → Bytes → Bool
lex [] [] = false
lex [] (y ∷ b) = true
lex (x ∷ a) [] = false
lex (x ∷ a) (y ∷ b) = ltb x y || (x == y && lex a b)

min-suc : (m n : ℕ) → min (suc m) (suc n) ≡ suc (min m n)
min-suc m n = omega arith

less-cons : (x y : ℕ) (a b : Bytes) → less (x ∷ a) (y ∷ b) ≡ (ltb x y || (x == y && less a b))
unfolding less
less-cons x y a b = rw (min-suc (length a) (length b)) (ground arith)

less-lex : (a b : Bytes) → less a b ≡ lex a b
less-lex [] [] = unfold less in refl
less-lex [] (y ∷ b) = unfold less in ground arith
less-lex (x ∷ a) [] = unfold less in ground arith
less-lex (x ∷ a) (y ∷ b) = less-cons x y a b ∙ rw (less-lex a b)

lex_irrefl : (a : Bytes) → lex a a ≡ false
lex_irrefl [] = refl
lex_irrefl (x ∷ a) = ground (arith, lex_irrefl a)

lex_trans : (a b c : Bytes) → lex a b ≡ true → lex b c ≡ true → lex a c ≡ true
lex_trans (x ∷ a) (y ∷ b) (z ∷ c) h k = ground (arith, lex_trans a b c)
lex_trans _ _ _ h k = ground arith

lex_total : (a b : Bytes) → (lex a b ≡ true) ⊎ (lex b a ≡ true) ⊎ (a ≡ b)
lex_total (x ∷ a) (y ∷ b) = ground (arith, lex_total a b)
lex_total _ _ = ground arith

-- For every byte strings: none is `less` than itself, `less` is transitive, and of two strings
-- one is `less` than the other or they are the same bytes.
pub less_strict_total :
    (a b c : Bytes)
    → (less a a ≡ false)
      × (less a b ≡ true → less b c ≡ true → less a c ≡ true)
      × ((less a b ≡ true) ⊎ (less b a ≡ true) ⊎ (a ≡ b))
less_strict_total a b c =
    rw (less-lex a a, less-lex a b, less-lex b c, less-lex a c, less-lex b a)
      (lex_irrefl a, lex_trans a b c, lex_total a b)

same-cons : (x y : ℕ) (a b : Bytes) → same (x ∷ a) (y ∷ b) ≡ (x == y && same a b)
unfolding same
same-cons x y a b = ground arith

-- For all pieces: `operator==` holds exactly of equal bytes.
pub same_iff : (a b : Bytes) → (same a b ≡ true) ↔ (a ≡ b)
same_iff [] [] = unfold same in ground arith
same_iff [] (y ∷ b) = unfold same in ground arith
same_iff (x ∷ a) [] = unfold same in ground arith
same_iff (x ∷ a) (y ∷ b) = ground (arith, same-cons x y a b, same_iff a b)

starts_with-cons :
    (c y : ℕ) (s x : Bytes) → starts_with (c ∷ s) (y ∷ x) ≡ (c == y && starts_with s x)
unfolding starts_with
starts_with-cons c y s x = ground arith

starts_with-split : (s x : Bytes) → starts_with s x ≡ true → (rest : Bytes) × (s ≡ x ++ rest)
starts_with-split s [] h = (s, refl)
starts_with-split [] (y ∷ x) h = absurd (unfold starts_with in ground arith)
starts_with-split (c ∷ s) (y ∷ x) h =
    let (rest, e) = starts_with-split s x (ground (arith, starts_with-cons c y s x)) in
    (rest, ground (arith, starts_with-cons c y s x))

starts_with-append : (x rest : Bytes) → starts_with (x ++ rest) x ≡ true
starts_with-append [] rest = unfold starts_with in ground arith
starts_with-append (y ∷ x) rest =
    ground (arith, starts_with-cons y y (x ++ rest) x, starts_with-append x rest)

-- A piece starts with another exactly if it is the other followed by some bytes.
pub starts_with_iff :
    (s x : Bytes)
    → (starts_with s x ≡ true → (rest : Bytes) × (s ≡ x ++ rest))
      × ((rest : Bytes) → starts_with (x ++ rest) x ≡ true)
starts_with_iff s x = (starts_with-split s x, starts_with-append x)
