-- ===== src/Diff/Rows.antt =====
-- The rows of the servers of a task, kept once each.
use wfrest.Base.{
  ℕ, zero, suc, ◌+◌, ◌<◌, ◌≡◌, ◌≢◌, ◌⊎◌, refl, sym, ap, ◌∙◌, subst, true, false, List, [], ◌∷◌,
  ◌++◌, Option, none, some, ◌==◌, length, get_elem?, set, All, All-append, Bool-cases, inl, inr,
  arith, ◌^◌, ltb,
}
use wfrest.Diff.{SingleRow, DiffRow, build, find_same_row, row_to_share, build_row, row_bytes}
use wfrest.Diff.Same.{is_row, is_same_iff, build_with-eq}

unfoldable pub place_row : List SingleRow → Option (Option ℕ) → Option SingleRow
place_row rows none = none
place_row rows (some none) = none
place_row rows (some (some i)) = get_elem? rows i

-- The abstract view: the row of a server, if it has one.
unfoldable pub row_of : DiffRow → ℕ → Option SingleRow
unfolding place_row
row_of d j = place_row d.r_rows (get_elem? d.r_idxs j)

-- Columns that a server may give: so many, at least one, none with a NUL byte, and of less than 2^31
-- bytes of memory.
unfoldable pub IsRow : ℕ → SingleRow → Type 0
IsRow cols_nr r =
    (is_row r ≡ true) × ((length r ≡ cols_nr) × ((0 < cols_nr) × (row_bytes r < 2 ^ 31)))

unfoldable pub IsPlace : ℕ → Option ℕ → Type 0
IsPlace rows none = Unit
IsPlace rows (some i) = i < rows

-- No row stands twice in the list.
unfoldable pub IsDistinct : List SingleRow → Type 0
IsDistinct [] = Unit
IsDistinct (r ∷ rows) = All (λ s. r ≢ s) rows × IsDistinct rows

-- Of so many servers: the rows have so many columns, each stands there once, and each place of a
-- server is one of them.
unfoldable pub IsDiffRow : ℕ → ℕ → DiffRow → Type 0
unfolding IsRow IsPlace IsDistinct
IsDiffRow servers cols_nr d =
    All (IsRow cols_nr) d.r_rows
    × ((length d.r_idxs ≡ servers)
        × (All (IsPlace (length d.r_rows)) d.r_idxs × IsDistinct d.r_rows))

some-eq {ℓ} : {A : Type ℓ} {a b : A} → some a ≡ some b → a ≡ b
some-eq e = cc

false≢true : false ≢ true
false≢true e = ground arith

-- What `find_same_row` gives: a place of an equal row, or nothing where there is none.
pub find_same_row-cases :
    (i cols_nr : ℕ) (rows : List SingleRow) (cols : SingleRow)
    → All (IsRow cols_nr) rows
    → IsRow cols_nr cols
    → ((k : ℕ) × ((find_same_row i rows cols ≡ some (some (i + k)))
          × (get_elem? rows k ≡ some cols)))
      ⊎ ((find_same_row i rows cols ≡ some none) × All (λ r. r ≢ cols) rows)
unfolding find_same_row IsRow
find_same_row-cases i cols_nr [] cols h p = inr (refl, tt)
find_same_row-cases i cols_nr (r ∷ rows) cols h p =
    let ((told, returns), same) =
      is_same_iff r cols h.0.0 p.0 (h.0.1.0 ∙ sym p.1.0) (subst (λ n. 0 < n) (sym p.1.0) p.1.1.0) in
    elim (Bool-cases told) [
      | inl e ↦
          let yes = returns ∙ ap some e in
          inl (
            0,
            (rw (yes, find_same_row) (ap (λ n. some (some n)) (omega arith)), ap some (same.0 yes)),
          )
      | inr e ↦
          let no = returns ∙ ap some e in
          let other : r ≢ cols = λ q. false≢true (some-eq (sym no ∙ same.1 q)) in
          elim (find_same_row-cases (suc i) cols_nr rows cols h.1 p) [
            | inl (k, (found, row)) ↦ inl (
              suc k,
              (rw (no, find_same_row) (found ∙ ap (λ n. some (some n)) (omega arith)), row),
            )
            | inr (none_found, others) ↦ inr (rw (no, find_same_row) none_found, (other, others))
          ]
    ]

pub All-get {ℓ κ} :
    {A : Type ℓ} (P : A → Type κ) (xs : List A) (i : ℕ)
    → i < length xs
    → All P xs
    → (x : A) × ((get_elem? xs i ≡ some x) × P x)
All-get P [] i under h = absurd (omega arith)
All-get P (x ∷ xs) zero under h = (x, (refl, h.0))
All-get P (x ∷ xs) (suc i) under h = All-get P xs i (omega arith) h.1

-- Whichever row a new one is built with, it is the columns that are given.
pub build_row-eq :
    (cols_nr : ℕ) (std : Option ℕ) (rows : List SingleRow) (cols : SingleRow)
    → All (IsRow cols_nr) rows
    → IsPlace (length rows) std
    → IsRow cols_nr cols
    → build_row (some std) rows cols ≡ some cols
unfolding build_row row_to_share IsRow IsPlace build
build_row-eq cols_nr std [] cols h place p =
    let some_cols : (length cols == 0) ≡ false = ground arith in
    let given : ltb (row_bytes cols) (2 ^ 32) ≡ true = ground arith in rw some_cols (rw given refl)
build_row-eq cols_nr none (r ∷ rows) cols h place p =
    build_with-eq r cols h.0.0 p.0 (h.0.1.0 ∙ sym p.1.0) (subst (λ n. 0 < n) (sym p.1.0) p.1.1.0)
      p.1.1.1
build_row-eq cols_nr (some i) (r ∷ rows) cols h place p =
    let (row, (found, is_row_too)) = All-get (IsRow cols_nr) (r ∷ rows) i place h in
    rw (found, build_row)
      (build_with-eq row cols is_row_too.0 p.0 (is_row_too.1.0 ∙ sym p.1.0)
        (subst (λ n. 0 < n) (sym p.1.0) p.1.1.0) p.1.1.1)

pub All-set {ℓ κ} :
    {A : Type ℓ} (P : A → Type κ) (xs : List A) (i : ℕ) (v : A)
    → All P xs
    → P v
    → All P (set xs i v)
All-set P [] i v h p = tt
All-set P (x ∷ xs) zero v h p = (p, h.1)
All-set P (x ∷ xs) (suc i) v h p = (h.0, All-set P xs i v h.1 p)

pub IsPlace-more :
    (n : ℕ) (places : List (Option ℕ)) → All (IsPlace n) places → All (IsPlace (suc n)) places
unfolding IsPlace
IsPlace-more n [] h = tt
IsPlace-more n (none ∷ places) h = (tt, IsPlace-more n places h.1)
IsPlace-more n (some i ∷ places) h = (omega (arith, h.0), IsPlace-more n places h.1)

pub IsDistinct-append :
    (rows : List SingleRow) (cols : SingleRow)
    → IsDistinct rows
    → All (λ r. r ≢ cols) rows
    → IsDistinct (rows ++ cols ∷ [])
unfolding IsDistinct
IsDistinct-append [] cols h k = (tt, tt)
IsDistinct-append (r ∷ rows) cols h k =
    (All-append (λ s. r ≢ s) rows (cols ∷ []) h.0 (k.0, tt), IsDistinct-append rows cols h.1 k.1)

pub get_elem?-under {ℓ} :
    {A : Type ℓ} (xs : List A) (i : ℕ) (x : A) → get_elem? xs i ≡ some x → i < length xs
get_elem?-under [] i x h = ground arith
get_elem?-under (y ∷ xs) zero x h = omega arith
get_elem?-under (y ∷ xs) (suc i) x h = omega (arith, get_elem?-under xs i x h)

get_elem?-front {ℓ} :
    {A : Type ℓ} (xs ys : List A) (i : ℕ) → i < length xs → get_elem? (xs ++ ys) i ≡ get_elem? xs i
get_elem?-front [] ys i h = absurd (omega arith)
get_elem?-front (x ∷ xs) ys zero h = refl
get_elem?-front (x ∷ xs) ys (suc i) h = get_elem?-front xs ys i (omega arith)

pub get_elem?-length {ℓ} :
    {A : Type ℓ} (xs : List A) (x : A) → get_elem? (xs ++ x ∷ []) (length xs) ≡ some x
get_elem?-length [] x = refl
get_elem?-length (y ∷ xs) x = get_elem?-length xs x

-- A place that is one of the rows shows the same row where one more is added.
pub place_row-more :
    (rows : List SingleRow) (cols : SingleRow) (places : List (Option ℕ)) (j : ℕ)
    → All (IsPlace (length rows)) places
    → place_row (rows ++ cols ∷ []) (get_elem? places j) ≡ place_row rows (get_elem? places j)
unfolding place_row IsPlace
place_row-more rows cols [] j h = refl
place_row-more rows cols (none ∷ places) zero h = refl
place_row-more rows cols (some i ∷ places) zero h = get_elem?-front rows (cols ∷ []) i h.0
place_row-more rows cols (p ∷ places) (suc j) h = place_row-more rows cols places j h.1
