-- ===== src/Chan/Fifo.antt =====
-- The ring queue is a queue: what is read is what was written, in that order.
use wfrest.Base.{
  ℕ, zero, suc, ◌+◌, ◌-◌, ◌<◌, ◌≤◌, ◌≡◌, refl, sym, ap, ◌∙◌, subst, true, false, List, [], ◌∷◌,
  ◌++◌, none, some, ◌==◌, ltb, if◌then◌else◌, length, get_or, set, length-set, length-append, arith,
  Bool-cases, inl, inr,
}
use wfrest.Chan.{SpscQueue, nothing_in, make, next_index, push, front, pop, read_once}

module _ {ℓ} {A : Type ℓ} where
  get_or-set_self : (s : List A) (i : ℕ) (x d : A) → i < length s → get_or (set s i x) i d ≡ x
  get_or-set_self [] i x d h = elim h [ ]
  get_or-set_self (y ∷ s) zero x d h = refl
  get_or-set_self (y ∷ s) (suc i) x d h = get_or-set_self s i x d (omega arith)

  get_or-set_ne :
      (s : List A) (i j : ℕ) (x d : A) → (i == j) ≡ false → get_or (set s i x) j d ≡ get_or s j d
  get_or-set_ne [] i j x d h = refl
  get_or-set_ne (y ∷ s) zero zero x d h = ground arith
  get_or-set_ne (y ∷ s) zero (suc j) x d h = refl
  get_or-set_ne (y ∷ s) (suc i) zero x d h = refl
  get_or-set_ne (y ∷ s) (suc i) (suc j) x d h = get_or-set_ne s i j x d (ground arith)

-- The place that is `i` behind the tail, with `i` below the number of places.
unfoldable pub wrap : ℕ → ℕ → ℕ
wrap places i = if ltb i places then i else i - places

module _ {ℓ} {T : Type ℓ} where
  -- The values from a place on, up to the head.
  Holds : SpscQueue T → ℕ → List T → Type ℓ
  unfolding wrap
  Holds q i [] = Unit
  Holds q i (x ∷ xs) = (get_or q.buf (wrap q.cap i) none ≡ some x) × Holds q (suc i) xs

  -- The queue stands for the values `xs`, the oldest first: there are fewer than places, and they
  -- are in the places from the tail on, around the ring, up to the head.
  unfoldable pub IsQueue : SpscQueue T → List T → Type ℓ
  unfolding Holds wrap
  IsQueue q xs =
      (q.tail < q.cap)
      × (length q.buf ≡ q.cap)
      × (length xs < q.cap)
      × (q.head ≡ wrap q.cap (q.tail + length xs))
      × Holds q q.tail xs

  Holds-push :
      (q : SpscQueue T) (xs : List T) (x : T) (i : ℕ) (next_head : ℕ)
      → q.tail ≤ i
      → i + length xs < q.tail + q.cap
      → q.tail < q.cap
      → length q.buf ≡ q.cap
      → q.head ≡ wrap q.cap (i + length xs)
      → Holds q i xs
      → Holds (record q { head = next_head; buf = set q.buf q.head (some x) }) i (xs ++ x ∷ [])
  unfolding Holds wrap
  Holds-push q [] x i n from room tail places head holds =
      let same : q.head ≡ wrap q.cap i = ground arith in
      (rw (sym same) (get_or-set_self q.buf q.head (some x) none (ground arith)), tt)
  Holds-push q (y ∷ xs) x i n from room tail places head holds =
      let other : (q.head == wrap q.cap i) ≡ false = ground arith in
      (
        get_or-set_ne q.buf q.head (wrap q.cap i) (some x) none other ∙ holds.0,
        Holds-push q xs x (suc i) n (omega arith) (ground arith) tail places (ground arith) holds.1,
      )

  Holds-pop :
      (q : SpscQueue T) (xs : List T) (i : ℕ) (next_tail : ℕ)
      → q.tail < i
      → i + length xs ≤ q.tail + q.cap
      → q.tail < q.cap
      → Holds q i xs
      → Holds (record q { tail = next_tail; buf = set q.buf q.tail none }) i xs
  unfolding Holds wrap
  Holds-pop q [] i n from room tail holds = tt
  Holds-pop q (y ∷ xs) i n from room tail holds =
      let other : (q.tail == wrap q.cap i) ≡ false = ground arith in
      (
        get_or-set_ne q.buf q.tail (wrap q.cap i) none none other ∙ holds.0,
        Holds-pop q xs (suc i) n (omega arith) (ground arith) tail holds.1,
      )

  -- Once around the ring.
  Holds-around :
      (q : SpscQueue T) (xs : List T) (i : ℕ)
      → i + length xs ≤ q.cap
      → Holds q (q.cap + i) xs
      → Holds q i xs
  unfolding Holds wrap
  Holds-around q [] i room holds = tt
  Holds-around q (y ∷ xs) i room holds =
      let same : wrap q.cap (q.cap + i) ≡ wrap q.cap i = ground arith in
      let next : suc (q.cap + i) ≡ q.cap + suc i = ground arith in
      (
        ap (λ k. get_or q.buf k none) (sym same) ∙ holds.0,
        Holds-around q xs (suc i) (ground arith) (subst (λ k. Holds q k xs) next holds.1),
      )

  Holds-next :
      (q : SpscQueue T) (xs : List T)
      → q.tail < q.cap
      → suc (length xs) < q.cap
      → Holds q (suc q.tail) xs
      → Holds (pop q) (pop q).tail xs
  unfolding pop next_index
  Holds-next q xs tail room holds =
      let popped =
        Holds-pop q xs (suc q.tail) (next_index q.cap q.tail) (omega arith) (omega arith) tail
          holds in
      elim (Bool-cases (q.tail + 1 == q.cap)) [
        | inl e ↦
            let last : suc q.tail ≡ q.cap + 0 = ground arith in
            let zero_next : next_index q.cap q.tail ≡ 0 = ground arith in
            subst (λ k. Holds (pop q) k xs) (sym zero_next)
              (Holds-around (pop q) xs 0 (omega arith)
                (subst (λ k. Holds (pop q) k xs) last popped))
        | inr e ↦
            let next : suc q.tail ≡ next_index q.cap q.tail = ground arith in
            subst (λ k. Holds (pop q) k xs) next popped
      ]

  -- For every queue that stands for `xs` and every value: if there is a place more than the values
  -- and one, `push` gives a queue that stands for `xs` with the value at its end; if not, it waits.
  pub push-IsQueue :
      (q : SpscQueue T) (xs : List T) (x : T)
      → IsQueue q xs
      → (suc (length xs) < q.cap
          → (q' : SpscQueue T) × (push x q ≡ some q') × IsQueue q' (xs ++ x ∷ []))
        × (q.cap ≤ suc (length xs) → push x q ≡ none)
  unfolding push next_index IsQueue wrap
  push-IsQueue q xs x is_queue =
      let (tail, places, room, head, holds) = is_queue in
      (
        λ more.
            let free : (next_index q.cap q.head == q.tail) ≡ false = ground arith in
            let pushed = record q {
              head = next_index q.cap q.head;
              buf = set q.buf q.head (some x);
            } in
            (
              pushed,
              rw (free, push) refl,
              (
                tail,
                length-set q.buf q.head (some x) ∙ places,
                ground (arith, length-append xs (x ∷ [])),
                ground (arith, length-append xs (x ∷ [])),
                Holds-push q xs x q.tail (next_index q.cap q.head) (omega arith) (omega arith) tail
                    places head holds,
              ),
            ),
        λ full.
            let taken : (next_index q.cap q.head == q.tail) ≡ true = ground arith in
            rw (taken, push) refl,
      )

  -- For every queue: if it stands for no values, `read_once` gives none and leaves it as it is; if
  -- it stands for `x ∷ xs`, `read_once` gives `x` and a queue that stands for `xs`.
  pub read_once-IsQueue :
      (q : SpscQueue T)
      → (IsQueue q [] → read_once q ≡ (none, q))
        × ((x : T) (xs : List T)
            → IsQueue q (x ∷ xs)
            → (read_once q ≡ (some x, pop q)) × IsQueue (pop q) xs)
  unfolding read_once front pop next_index IsQueue wrap Holds
  read_once-IsQueue q = (
    λ is_queue.
        let (tail, places, room, head, holds) = is_queue in
        let empty : (q.head == q.tail) ≡ true = ground arith in rw (empty, read_once, front) refl,
    λ x xs is_queue.
        let (tail, places, room, head, values) = is_queue in
        let (first, holds) = values in
        let some_in : (q.head == q.tail) ≡ false = ground arith in
        let here : wrap q.cap q.tail ≡ q.tail = ground arith in
        let value : get_or q.buf q.tail none ≡ some x =
          ap (λ k. get_or q.buf k none) (sym here) ∙ first in
        (
          rw (some_in, read_once, front) (rw value refl),
          (
            ground arith,
            length-set q.buf q.tail none ∙ places,
            ground arith,
            ground arith,
            Holds-next q xs tail (ground arith) holds,
          ),
        ),
  )

length-nothing_in {ℓ} : (T : Type ℓ) (n : ℕ) → length (nothing_in {T = T} n) ≡ n
unfolding nothing_in
length-nothing_in T zero = refl
length-nothing_in T (suc n) = ap suc (length-nothing_in T n)

-- For every type of values and capacity: a new queue stands for no values.
pub make-IsQueue {ℓ} : (T : Type ℓ) (places : ℕ) → IsQueue (make {T = T} places) []
unfolding make IsQueue wrap
make-IsQueue T places =
    let n = if ltb (places + 1) 4 then 4 else places + 1 in
    let some_places : 0 < n = ground arith in
    (some_places, length-nothing_in T n, some_places, ground arith, tt)
