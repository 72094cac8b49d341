-- ===== src/Base/Lists.antt =====
-- Lists measured and indexed by native numbers, under the library's names.
use Prim.Native.Nat.{ℕ, zero, suc, ◌+◌, ◌-◌, ◌<◌}
use mathlib.Core.Path.{◌≡◌, refl, ap}
use mathlib.Core.Logic.{◌≢◌}
use mathlib.Core.List.{List, [], ◌∷◌, ◌++◌}
use mathlib.Core.Option.{Option, none, some}
use native.Mathlib.Omega.{arith}

module _ {ℓ} {A : Type ℓ} where
  abbrev pub length : List A → ℕ
  length [] = 0
  length (x ∷ xs) = suc (length xs)

  abbrev pub get_elem? : List A → ℕ → Option A
  get_elem? [] i = none
  get_elem? (x ∷ xs) zero = some x
  get_elem? (x ∷ xs) (suc i) = get_elem? xs i

  abbrev pub get_or : List A → ℕ → A → A
  get_or [] i d = d
  get_or (x ∷ xs) zero d = x
  get_or (x ∷ xs) (suc i) d = get_or xs i d

  -- A write out of bounds changes nothing.
  abbrev pub set : List A → ℕ → A → List A
  set [] i v = []
  set (x ∷ xs) zero v = v ∷ xs
  set (x ∷ xs) (suc i) v = x ∷ set xs i v

  abbrev pub take : ℕ → List A → List A
  take zero xs = []
  take (suc n) [] = []
  take (suc n) (x ∷ xs) = x ∷ take n xs

  abbrev pub drop : ℕ → List A → List A
  drop zero xs = xs
  drop (suc n) [] = []
  drop (suc n) (x ∷ xs) = drop n xs

  abbrev pub replicate : ℕ → A → List A
  replicate zero a = []
  replicate (suc n) a = a ∷ replicate n a

  pub length-append : (xs ys : List A) → length (xs ++ ys) ≡ length xs + length ys
  length-append [] ys = omega arith
  length-append (x ∷ xs) ys = omega (arith, length-append xs ys)

  pub length-set : (xs : List A) (i : ℕ) (v : A) → length (set xs i v) ≡ length xs
  length-set [] i v = refl
  length-set (x ∷ xs) zero v = refl
  length-set (x ∷ xs) (suc i) v = ap suc (length-set xs i v)

  pub get_elem?-set_self :
      (xs : List A) (i : ℕ) (v : A) → i < length xs → get_elem? (set xs i v) i ≡ some v
  get_elem?-set_self [] i v h = elim h [ ]
  get_elem?-set_self (x ∷ xs) zero v h = refl
  get_elem?-set_self (x ∷ xs) (suc i) v h = get_elem?-set_self xs i v (omega arith)

  pub get_elem?-set_ne :
      (xs : List A) {i j : ℕ} (v : A) → i ≢ j → get_elem? (set xs i v) j ≡ get_elem? xs j
  get_elem?-set_ne [] v h = refl
  get_elem?-set_ne (x ∷ xs) {i = zero} {j = zero} v h = absurd (h refl)
  get_elem?-set_ne (x ∷ xs) {i = zero} {j = suc j} v h = refl
  get_elem?-set_ne (x ∷ xs) {i = suc i} {j = zero} v h = refl
  get_elem?-set_ne (x ∷ xs) {i = suc i} {j = suc j} v h = get_elem?-set_ne xs v (λ e. h (ap suc e))

-- A predicate that holds of every element.
abbrev pub All {ℓ κ} : {A : Type ℓ} → (A → Type κ) → List A → Type κ
All holds [] = Unit
All holds (a ∷ rest) = holds a × All holds rest

module _ {ℓ κ} {A : Type ℓ} (P : A → Type κ) where
  pub All-append : (front back : List A) → All P front → All P back → All P (front ++ back)
  All-append [] back h k = k
  All-append (a ∷ front) back h k = (h.0, All-append front back h.1 k)

module _ {ℓ} {A : Type ℓ} where
  pub take-append : (a b : List A) → take (length a) (a ++ b) ≡ a
  take-append [] [] = refl
  take-append [] (c ∷ b) = refl
  take-append (d ∷ a) b = ap (◌∷◌ d) (take-append a b)

  pub drop-append : (a b : List A) → drop (length a) (a ++ b) ≡ b
  drop-append [] b = refl
  drop-append (d ∷ a) b = drop-append a b

  pub take-length : (a : List A) → take (length a) a ≡ a
  take-length [] = refl
  take-length (d ∷ a) = ap (◌∷◌ d) (take-length a)

  get_or-length : (s : List A) (c d : A) → get_or (s ++ c ∷ []) (length s) d ≡ c
  get_or-length [] c d = refl
  get_or-length (b ∷ s) c d = get_or-length s c d

  length-init : (s : List A) (c : A) → length (s ++ c ∷ []) - 1 ≡ length s
  length-init s c = omega (arith, length-append s (c ∷ []))

  -- The last element of a list and the elements before it.
  pub get_or-last : (s : List A) (c d : A) → get_or (s ++ c ∷ []) (length (s ++ c ∷ []) - 1) d ≡ c
  get_or-last s c d = rw (length-init s c) (get_or-length s c d)

  pub take-init : (s : List A) (c : A) → take (length (s ++ c ∷ []) - 1) (s ++ c ∷ []) ≡ s
  take-init s c = rw (length-init s c) (take-append s (c ∷ []))

  pub get_or-pred :
      (b : A) (s : List A) (c d : A)
      → get_or (b ∷ c ∷ s) (length (b ∷ c ∷ s) - 1) d ≡ get_or (c ∷ s) (length (c ∷ s) - 1) d
  get_or-pred b s c d =
      let outer : length (b ∷ c ∷ s) - 1 ≡ suc (length s) = omega arith in
      let inner : length (c ∷ s) - 1 ≡ length s = omega arith in rw (outer, inner)
