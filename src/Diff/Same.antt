-- ===== src/Diff/Same.antt =====
-- Rows that are the same are equal, where no column holds a NUL byte.

use wfrest.Base.{
  ℕ, ◌%◌, ◌^◌, ◌<◌, ◌≡◌, ◌↔◌, refl, sym, ap, ◌∙◌, Bool, true, false, not, ◌&&◌, [], ◌∷◌, Option,
  none, some, ◌==◌, ltb, if◌then◌else◌, length, Bytes, Bool-cases, inl, inr, arith, ◌≤◌,
}
use wfrest.Diff.{
  Column, SingleRow, strncmp, str_cmp, is_eq, same_bytes, same_lengths, same_cols, asserts_cols,
  is_same, shared_bytes, shared_cols, no_null_bytes, no_bytes_left, build_with, own_bytes,
  mem_bytes, row_bytes,
}

-- A column without NUL bytes of fewer than 2^32 bytes; null has the length 0.
unfoldable pub is_text : Bytes → Bool
is_text [] = true
is_text (c ∷ s) = not (c == 0) && is_text s

unfoldable pub is_column : ℕ → Option Bytes → Bool
unfolding is_text
is_column n none = n == 0
is_column n (some s) = length s == n && (is_text s && ltb n (2 ^ 32))

unfoldable pub is_row : SingleRow → Bool
unfolding is_column
is_row [] = true
is_row (c ∷ r) = is_column c.r_length c.r_cols && is_row r

strncmp-eq :
    (a b : Bytes)
    → is_text a ≡ true
    → length a ≡ length b
    → is_eq (strncmp (length a) a b) ≡ true
    → a ≡ b
unfolding is_text strncmp is_eq
strncmp-eq [] [] text same h = refl
strncmp-eq [] (d ∷ b) text same h = absurd (omega arith)
strncmp-eq (c ∷ a) [] text same h = absurd (omega arith)
strncmp-eq (c ∷ a) (d ∷ b) text same h = ground (arith, strncmp-eq a b)

strncmp_self : (a : Bytes) → is_eq (strncmp (length a) a a) ≡ true
unfolding strncmp is_eq
strncmp_self [] = refl
strncmp_self (c ∷ a) = ground (arith, strncmp_self a)

-- Of equal lengths, the comparison is that of so many bytes.
str_cmp-strncmp :
    (a b : Bytes) (n : ℕ) → n < 4294967296 → is_eq (str_cmp a n b n) ≡ is_eq (strncmp n a b)
unfolding str_cmp is_eq
str_cmp-strncmp a b n small =
    let whole : n % 2 ^ 32 ≡ n = omega arith in
    let not_less : ltb n n ≡ false = ground arith in
    rw (whole, str_cmp) (rw not_less (ground arith))

same_bytes-eq :
    (m n : ℕ) (a b : Option Bytes)
    → m ≡ n
    → is_column m a ≡ true
    → is_column n b ≡ true
    → same_bytes a m b n ≡ true
    → a ≡ b
unfolding same_bytes is_column
same_bytes-eq m n none none e p q h = refl
same_bytes-eq m n none (some b) e p q h = ground arith
same_bytes-eq m n (some a) none e p q h = ground arith
same_bytes-eq m n (some a) (some b) e p q h =
    let same_length : length a ≡ length b = ground arith in
    let size : m ≡ length a = ground arith in
    let small : length a < 4294967296 = ground arith in
    let told : is_eq (str_cmp a (length a) b (length a)) ≡ true =
      ap (λ k. is_eq (str_cmp a k b (length a))) (sym size)
      ∙ (ap (λ k. is_eq (str_cmp a m b k)) (sym size ∙ e) ∙ h) in
    ap some (
      strncmp-eq a b (ground arith) same_length (sym (str_cmp-strncmp a b (length a) small) ∙ told))

same_bytes_self : (n : ℕ) (a : Option Bytes) → is_column n a ≡ true → same_bytes a n a n ≡ true
unfolding same_bytes is_column
same_bytes_self n none p = refl
same_bytes_self n (some a) p =
    let size : n ≡ length a = ground arith in
    str_cmp-strncmp a a n (ground arith) ∙ (ap (λ k. is_eq (strncmp k a a)) size ∙ strncmp_self a)

str_cmp-length :
    (a b : Bytes) (m n : ℕ)
    → m < 4294967296
    → n < 4294967296
    → is_eq (str_cmp a m b n) ≡ true
    → m ≡ n
unfolding str_cmp is_eq
str_cmp-length a b m n small_m small_n h =
    let whole_m : m % 2 ^ 32 ≡ m = omega arith in
    let whole_n : n % 2 ^ 32 ≡ n = omega arith in ground arith

column-eq : (c d : Column) → c.r_length ≡ d.r_length → c.r_cols ≡ d.r_cols → c ≡ d
column-eq c d len cols = λ i. record { r_length = len i; r_cols = cols i }

same_cols-eq :
    (r s : SingleRow)
    → is_row r ≡ true
    → is_row s ≡ true
    → length r ≡ length s
    → same_lengths r s ≡ true
    → same_cols r s ≡ true
    → r ≡ s
unfolding is_row same_lengths same_cols
same_cols-eq [] [] p q len lens cols = refl
same_cols-eq [] (d ∷ s) p q len lens cols = absurd (omega arith)
same_cols-eq (c ∷ r) [] p q len lens cols = absurd (omega arith)
same_cols-eq (c ∷ r) (d ∷ s) p q len lens cols =
    let size : c.r_length ≡ d.r_length = ground arith in
    let first = column-eq c d size (
      same_bytes-eq c.r_length d.r_length c.r_cols d.r_cols size (ground arith) (ground arith)
        (ground arith)) in
    let rest =
      same_cols-eq r s (ground arith) (ground arith) (omega arith) (ground arith) (ground arith) in
    λ i. first i ∷ rest i

same_lengths_self : (r : SingleRow) → same_lengths r r ≡ true
unfolding same_lengths
same_lengths_self [] = refl
same_lengths_self (c ∷ r) = ground (arith, same_lengths_self r)

same_cols_self : (r : SingleRow) → is_row r ≡ true → same_cols r r ≡ true
unfolding same_cols is_row
same_cols_self [] p = refl
same_cols_self (c ∷ r) p =
    ground
      (arith, same_bytes_self c.r_length c.r_cols (ground arith), same_cols_self r (ground arith))

pub is_same_self : (r : SingleRow) → is_row r ≡ true → 0 < length r → is_same r r ≡ some true
unfolding is_same asserts_cols
is_same_self r p some_cols =
    let asserted : asserts_cols r r ≡ true = ground arith in
    rw (asserted, is_same) (rw (same_lengths_self r) (rw (same_cols_self r p) refl))

pub is_same-eq :
    (r s : SingleRow) → is_row r ≡ true → is_row s ≡ true → is_same r s ≡ some true → r ≡ s
unfolding is_same asserts_cols
is_same-eq r s p q h = same_cols-eq r s p q (ground arith) (ground arith) (ground arith)

-- For every row and columns of the same number, at least one, each of fewer than 2^32 bytes
-- without a NUL or null: `is_same` returns, and true exactly where they are equal.
pub is_same_iff :
    (r s : SingleRow)
    → is_row r ≡ true
    → is_row s ≡ true
    → length r ≡ length s
    → 0 < length s
    → ((b : Bool) × (is_same r s ≡ some b)) × ((is_same r s ≡ some true) ↔ (r ≡ s))
unfolding is_same asserts_cols
is_same_iff r s p q len some_cols =
    let asserted : asserts_cols r s ≡ true = ground arith in
    (
      (if same_lengths r s then same_cols r s else false, rw (asserted, is_same) refl),
      (is_same-eq r s p q, λ e. ap (is_same r) (sym e) ∙ is_same_self r p (omega arith)),
    )

shared_bytes-eq :
    (m n : ℕ) (old new : Option Bytes)
    → is_column m old ≡ true
    → is_column n new ≡ true
    → shared_bytes old m new n ≡ new
unfolding shared_bytes is_column same_bytes
shared_bytes-eq m n old none p q = refl
shared_bytes-eq m n none (some b) p q = refl
shared_bytes-eq m n (some a) (some b) p q = elim (Bool-cases (is_eq (str_cmp b n a m))) [
  | inl e ↦
      let size = str_cmp-length b a n m (ground arith) (ground arith) e in
      rw (e, shared_bytes) (sym (same_bytes-eq n m (some b) (some a) size q p e))
  | inr e ↦ rw (e, shared_bytes) refl
]

shared_cols-eq : (r s : SingleRow) → is_row r ≡ true → is_row s ≡ true → shared_cols r s ≡ s
unfolding shared_cols is_row
shared_cols-eq [] s p q = refl
shared_cols-eq (c ∷ r) [] p q = refl
shared_cols-eq (c ∷ r) (d ∷ s) p q =
    let first =
      shared_bytes-eq c.r_length d.r_length c.r_cols d.r_cols (ground arith) (ground arith) in
    let rest = shared_cols-eq r s (ground arith) (ground arith) in
    λ i. record d { r_cols = first i } ∷ rest i

no_null_bytes-column : (n : ℕ) (b : Option Bytes) → is_column n b ≡ true → no_null_bytes n b ≡ true
unfolding no_null_bytes is_column
no_null_bytes-column n none p = p
no_null_bytes-column n (some b) p = refl

no_bytes_left-row : (r : SingleRow) → is_row r ≡ true → no_bytes_left r ≡ true
unfolding no_bytes_left is_row
no_bytes_left-row [] p = refl
no_bytes_left-row (c ∷ r) p = ground (
  arith,
  no_null_bytes-column c.r_length c.r_cols (ground arith),
  no_bytes_left-row r (ground arith),
)

own_bytes-le : (a b : Option Bytes) (m n : ℕ) → own_bytes a m b n ≤ n
unfolding own_bytes
own_bytes-le none none m n = omega arith
own_bytes-le none (some b) m n = omega arith
own_bytes-le (some a) none m n = omega arith
own_bytes-le (some a) (some b) m n = ground arith

-- A row that shares bytes asks for no more memory.
mem_bytes-le : (r s : SingleRow) → mem_bytes r s ≤ row_bytes s
unfolding mem_bytes row_bytes
mem_bytes-le [] s = omega arith
mem_bytes-le (c ∷ r) [] = omega arith
mem_bytes-le (c ∷ r) (d ∷ s) =
    let own = own_bytes-le c.r_cols d.r_cols c.r_length d.r_length in
    let rest = mem_bytes-le r s in omega arith

-- A row that is built with another one is the columns that are given.
pub build_with-eq :
    (r s : SingleRow)
    → is_row r ≡ true
    → is_row s ≡ true
    → length r ≡ length s
    → 0 < length s
    → row_bytes s < 2 ^ 31
    → build_with r s ≡ some s
unfolding build_with asserts_cols
build_with-eq r s p q len some_cols small =
    let asserted : asserts_cols r s ≡ true = ground arith in
    let given : ltb (mem_bytes r s) (2 ^ 31) ≡ true = (let le = mem_bytes-le r s in ground arith) in
    rw (asserted, build_with)
      (rw (no_bytes_left-row s q) (rw given (rw (shared_cols-eq r s p q) refl)))
