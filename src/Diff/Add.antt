-- ===== src/Diff/Add.antt =====
-- Adding a server's row to those of a primary key.
use wfrest.Base.{
  ℕ, suc, ◌+◌, ◌<◌, ◌≡◌, ◌≢◌, refl, ap, ◌∙◌, subst, true, ◌&&◌, [], ◌∷◌, ◌++◌, none, some, ◌==◌,
  ltb, if◌then◌else◌, length, get_elem?, set, length-set, length-append, get_elem?-set_self,
  get_elem?-set_ne, All, All-append, inl, inr, arith,
}
use wfrest.Diff.{SingleRow, DiffRow, build_row, add_found, add_row}
use wfrest.Diff.Rows.{
  row_of, place_row, IsRow, IsPlace, IsDiffRow, find_same_row-cases, All-get, build_row-eq, All-set,
  IsPlace-more, IsDistinct-append, get_elem?-under, get_elem?-length, place_row-more,
}

abbrev with_place : DiffRow → ℕ → ℕ → DiffRow
with_place d idx k = record d { r_idxs = set d.r_idxs idx (some k) }

abbrev with_row : DiffRow → ℕ → SingleRow → DiffRow
with_row d idx cols = record d {
  r_rows = d.r_rows ++ cols ∷ [];
  r_idxs = set d.r_idxs idx (some (length d.r_rows));
}

with_place-IsDiffRow :
    (servers cols_nr idx k : ℕ) (d : DiffRow)
    → IsDiffRow servers cols_nr d
    → k < length d.r_rows
    → IsDiffRow servers cols_nr (with_place d idx k)
unfolding IsDiffRow IsPlace
with_place-IsDiffRow servers cols_nr idx k d h under = (
  h.0,
  (length-set _ _ _ ∙ h.1.0, (All-set (IsPlace (length d.r_rows)) _ _ _ h.1.1.0 under, h.1.1.1)),
)

with_row-IsDiffRow :
    (servers cols_nr idx : ℕ) (cols : SingleRow) (d : DiffRow)
    → IsDiffRow servers cols_nr d
    → IsRow cols_nr cols
    → All (λ r. r ≢ cols) d.r_rows
    → IsDiffRow servers cols_nr (with_row d idx cols)
unfolding IsDiffRow IsPlace
with_row-IsDiffRow servers cols_nr idx cols d h row others =
    let n = length d.r_rows in
    let more : suc n ≡ length (d.r_rows ++ cols ∷ []) =
      omega (arith, length-append d.r_rows (cols ∷ [])) in
    let placed : All (IsPlace (suc n)) (set d.r_idxs idx (some n)) =
      All-set (IsPlace (suc n)) d.r_idxs idx (some n) (IsPlace-more n d.r_idxs h.1.1.0)
        (omega arith) in
    (
      All-append (IsRow cols_nr) d.r_rows (cols ∷ []) h.0 (row, tt),
      (
        length-set _ _ _ ∙ h.1.0,
        (
          subst (λ m. All (IsPlace m) (set d.r_idxs idx (some n))) more placed,
          IsDistinct-append d.r_rows cols h.1.1.1 others,
        ),
      ),
    )

idxs-size :
    (servers cols_nr : ℕ) (d : DiffRow) → IsDiffRow servers cols_nr d → length d.r_idxs ≡ servers
unfolding IsDiffRow
idxs-size servers cols_nr d h = h.1.0

rows-rows :
    (servers cols_nr : ℕ) (d : DiffRow) → IsDiffRow servers cols_nr d → All (IsRow cols_nr) d.r_rows
unfolding IsDiffRow
rows-rows servers cols_nr d h = h.0

places :
    (servers cols_nr : ℕ) (d : DiffRow)
    → IsDiffRow servers cols_nr d
    → All (IsPlace (length d.r_rows)) d.r_idxs
unfolding IsDiffRow
places servers cols_nr d h = h.1.1.0

std_build :
    (servers cols_nr std : ℕ) (cols : SingleRow) (d : DiffRow)
    → IsDiffRow servers cols_nr d
    → std < servers
    → IsRow cols_nr cols
    → build_row (if length d.r_idxs == servers then get_elem? d.r_idxs std else none) d.r_rows cols
      ≡ some cols
std_build servers cols_nr std cols d h under row =
    let size = idxs-size servers cols_nr d h in
    let asserted : (length d.r_idxs == servers) ≡ true = ground arith in
    let (place, (found, is_place)) =
      All-get (IsPlace (length d.r_rows)) d.r_idxs std (omega (arith, size))
        (places servers cols_nr d h) in
    ap (λ b. build_row (if b then get_elem? d.r_idxs std else none) d.r_rows cols) asserted
    ∙ (ap (λ p. build_row p d.r_rows cols) found
        ∙ build_row-eq cols_nr place d.r_rows cols (rows-rows servers cols_nr d h) is_place row)

zero_add : (k : ℕ) → 0 + k ≡ k
zero_add k = omega arith

-- For every primary key's rows of so many servers, as the invariant has them, every server of them,
-- standard and columns without a NUL byte and of less than 2^31 bytes of memory: `add_row` returns, the invariant holds behind it, the
-- server's row is the columns, and the other servers' rows are as before.
pub add_row-row_of :
    (servers cols_nr std idx : ℕ) (cols : SingleRow) (d : DiffRow)
    → IsDiffRow servers cols_nr d
    → idx < servers
    → std < servers
    → IsRow cols_nr cols
    → (later : DiffRow) × ((add_row servers std idx cols d ≡ some later)
        × (IsDiffRow servers cols_nr later
            × ((row_of later idx ≡ some cols) × ((j : ℕ) → idx ≢ j → row_of later j ≡ row_of d j))))
unfolding add_row add_found row_of place_row
add_row-row_of servers cols_nr std idx cols d h under std_under row =
    let size = idxs-size servers cols_nr d h in
    let asserted : (ltb idx servers && ltb idx (length d.r_idxs)) ≡ true = ground arith in
    let in_idxs : idx < length d.r_idxs = omega (arith, size) in
    let others_kept = λ (k j : ℕ) (ne : idx ≢ j). get_elem?-set_ne d.r_idxs (some k) ne in
    elim (find_same_row-cases 0 cols_nr d.r_rows cols (rows-rows servers cols_nr d h) row) [
      | inl (k, (found, shown)) ↦
          let told = found ∙ ap (λ n. some (some n)) (zero_add k) in
          (
            with_place d idx k,
            (
              rw (asserted, add_row) (rw told refl),
              (
                with_place-IsDiffRow servers cols_nr idx k d h
                    (get_elem?-under d.r_rows k cols shown),
                (
                  ap (place_row d.r_rows) (get_elem?-set_self d.r_idxs idx (some k) in_idxs)
                      ∙ shown,
                  λ j ne. ap (place_row d.r_rows) (others_kept k j ne),
                ),
              ),
            ),
          )
      | inr (none_found, others) ↦
          let n = length d.r_rows in
          let rows = d.r_rows ++ cols ∷ [] in
          let built = std_build servers cols_nr std cols d h std_under row in
          (
            with_row d idx cols,
            (
              rw (asserted, add_row) (rw none_found (ap (λ r. add_found none r idx d) built)),
              (
                with_row-IsDiffRow servers cols_nr idx cols d h row others,
                (
                  ap (place_row rows) (get_elem?-set_self d.r_idxs idx (some n) in_idxs)
                      ∙ get_elem?-length d.r_rows cols,
                  λ j ne.
                      ap (place_row rows) (others_kept n j ne)
                      ∙ place_row-more d.r_rows cols d.r_idxs j (places servers cols_nr d h),
                ),
              ),
            ),
          )
    ]
