-- ===== src/Diff.antt =====
-- file_compare/diff/dc_diff.{h,cc}: the rows of one primary key, of which equal ones are kept once,
-- and for each server the place of its row.
--
-- A column is its length and the bytes that its pointer shows, or null. An assertion that fails is
-- `none`. Memory is not modelled: a column that points to an equal one of another row is that one's
-- bytes.
pub mod Add
pub mod Rows
pub mod Same
use Prim.Native.Nat.{compare, Ordering}
use wfrest.Base.{
  ℕ, zero, suc, ◌+◌, ◌-◌, ◌*◌, ◌%◌, ◌^◌, Bool, true, false, not, ◌&&◌, List, [], ◌∷◌, ◌++◌, map,
  Option, none, some, ◌==◌, ltb, if◌then◌else◌, length, get_elem?, set, replicate, equal, codes,
  Bytes,
}

pub record Column : Type 0 where
  pub r_length : ℕ
  pub r_cols : Option Bytes

abbrev pub SingleRow : Type 0
SingleRow = List Column

-- `strncmp`, of byte strings of at least so many bytes.
unfoldable pub strncmp : ℕ → Bytes → Bytes → Ordering
strncmp zero a b = Ordering.eq
strncmp (suc n) [] b = Ordering.eq
strncmp (suc n) (c ∷ a) [] = Ordering.eq
strncmp (suc n) (c ∷ a) (d ∷ b) =
    let rest = if c == 0 then Ordering.eq else strncmp n a b in
    elim (compare c d) [
      | Ordering.lt ↦ Ordering.lt
      | Ordering.gt ↦ Ordering.gt
      | Ordering.eq ↦ rest
    ]

-- The lengths are given as 32-bit numbers. Equal pointers show equal bytes.
unfoldable pub str_cmp : Bytes → ℕ → Bytes → ℕ → Ordering
unfolding strncmp
str_cmp a a_length b b_length =
    let alen = a_length % 2 ^ 32 in
    let blen = b_length % 2 ^ 32 in
    let min_len = if ltb alen blen then alen else blen in
    elim (strncmp min_len a b) [
      | Ordering.eq ↦ compare alen blen
      | Ordering.lt ↦ Ordering.lt
      | Ordering.gt ↦ Ordering.gt
    ]

is_eq : Ordering → Bool
is_eq Ordering.eq = true
is_eq Ordering.lt = false
is_eq Ordering.gt = false

same_bytes : Option Bytes → ℕ → Option Bytes → ℕ → Bool
unfolding str_cmp is_eq
same_bytes none m none n = true
same_bytes none m (some b) n = false
same_bytes (some a) m none n = false
same_bytes (some a) m (some b) n = is_eq (str_cmp a m b n)

same_lengths : SingleRow → SingleRow → Bool
same_lengths (c ∷ r) (d ∷ s) = c.r_length == d.r_length && same_lengths r s
same_lengths _ _ = true

same_cols : SingleRow → SingleRow → Bool
unfolding same_bytes
same_cols (c ∷ r) (d ∷ s) = same_bytes c.r_cols c.r_length d.r_cols d.r_length && same_cols r s
same_cols _ _ = true

-- The row has the number of columns that is given, which is not 0.
unfoldable pub asserts_cols : SingleRow → SingleRow → Bool
asserts_cols r cols = not (length cols == 0) && length r == length cols

unfoldable pub is_same : SingleRow → SingleRow → Option Bool
unfolding asserts_cols same_lengths same_cols
is_same r cols =
    if asserts_cols r cols
    then some (if same_lengths r cols then same_cols r cols else false)
    else none

column_text : Option Bytes → Bytes
column_text none = codes "NULL"
column_text (some s) = s

unfoldable pub to_string : SingleRow → Bytes
unfolding column_text
to_string [] = []
to_string (c ∷ []) = column_text c.r_cols
to_string (c ∷ d ∷ r) = column_text c.r_cols ++ (codes " | " ++ to_string (d ∷ r))

-- The bytes of a column of a row that is built with another row: the other's, where both are equal.
shared_bytes : Option Bytes → ℕ → Option Bytes → ℕ → Option Bytes
unfolding str_cmp is_eq
shared_bytes old m none n = none
shared_bytes none m (some b) n = some b
shared_bytes (some a) m (some b) n = if is_eq (str_cmp b n a m) then some a else some b

shared_cols : SingleRow → SingleRow → SingleRow
unfolding shared_bytes
shared_cols (c ∷ r) (d ∷ s) =
    record d { r_cols = shared_bytes c.r_cols c.r_length d.r_cols d.r_length } ∷ shared_cols r s
shared_cols _ s = s

-- A null column's length is counted in the memory that is asked for and not in what is used.
no_null_bytes : ℕ → Option Bytes → Bool
no_null_bytes n none = n == 0
no_null_bytes n (some s) = true

no_bytes_left : SingleRow → Bool
unfolding no_null_bytes
no_bytes_left [] = true
no_bytes_left (c ∷ r) = no_null_bytes c.r_length c.r_cols && no_bytes_left r

-- The memory that `build` asks for: of each column the length, the pointer and the bytes.
unfoldable pub row_bytes : SingleRow → ℕ
row_bytes [] = 0
row_bytes (c ∷ r) = 16 + c.r_length + row_bytes r

own_bytes : Option Bytes → ℕ → Option Bytes → ℕ → ℕ
unfolding str_cmp is_eq
own_bytes none m none n = n
own_bytes none m (some b) n = n
own_bytes (some a) m none n = n
own_bytes (some a) m (some b) n = if is_eq (str_cmp b n a m) then 0 else n

-- The same with another row, whose bytes are used where they are equal.
mem_bytes : SingleRow → SingleRow → ℕ
unfolding own_bytes
mem_bytes (c ∷ r) (d ∷ s) = 16 + own_bytes c.r_cols c.r_length d.r_cols d.r_length + mem_bytes r s
mem_bytes _ _ = 0

-- `build` of the columns alone. The size is a `uint32_t`: where it wraps around the bytes are written
-- behind the memory, which is undefined.
unfoldable pub build : SingleRow → Option SingleRow
unfolding row_bytes
build cols = if not (length cols == 0) && ltb (row_bytes cols) (2 ^ 32) then some cols else none

-- `build` with another row. The size is an `int`: no memory is given for a negative one, and the
-- assertion fails.
unfoldable pub build_with : SingleRow → SingleRow → Option SingleRow
unfolding asserts_cols shared_cols no_bytes_left mem_bytes
build_with row cols =
    if asserts_cols row cols && no_bytes_left cols && ltb (mem_bytes row cols) (2 ^ 31)
    then some (shared_cols row cols)
    else none

-- `r_idxs` has -1, here `none`, for a server without a row.
pub record DiffRow : Type 0 where
  pub r_rows : List SingleRow
  pub r_idxs : List (Option ℕ)

unfoldable pub make : ℕ → DiffRow
make sn = record { r_rows = []; r_idxs = replicate sn none }

-- `find_same_row`, from the index `i` on; -1 is `none`.
unfoldable pub find_same_row : ℕ → List SingleRow → SingleRow → Option (Option ℕ)
unfolding is_same
find_same_row i [] cols = some none
find_same_row i (r ∷ rows) cols =
    let rest = find_same_row (suc i) rows cols in
    elim (is_same r cols) [ none ↦ none | some same ↦ if same then some (some i) else rest ]

unfoldable pub all_rows_are_same : DiffRow → Bool
all_rows_are_same d = length d.r_rows == 1

-- The row that a new one is built with: the standard's, or the first.
row_to_share : Option ℕ → SingleRow → List SingleRow → Option SingleRow
row_to_share none r rows = some r
row_to_share (some i) r rows = get_elem? (r ∷ rows) i

unfoldable pub build_row : Option (Option ℕ) → List SingleRow → SingleRow → Option SingleRow
unfolding build build_with row_to_share
build_row std [] cols = build cols
build_row none (r ∷ rows) cols = none
build_row (some std_row_idx) (r ∷ rows) cols = elim (row_to_share std_row_idx r rows) [
  | none ↦ none
  | some row ↦ build_with row cols
]

add_found : Option ℕ → Option SingleRow → ℕ → DiffRow → Option DiffRow
add_found (some same) row idx d = some (record d { r_idxs = set d.r_idxs idx (some same) })
add_found none none idx d = none
add_found none (some row) idx d =
    some (record d {
      r_rows = d.r_rows ++ row ∷ [];
      r_idxs = set d.r_idxs idx (some (length d.r_rows));
    })

-- `add_row`, of a task with so many servers and the standard's index.
unfoldable pub add_row : ℕ → ℕ → ℕ → SingleRow → DiffRow → Option DiffRow
unfolding find_same_row build_row add_found
add_row servers t_std_idx idx cols d =
    if ltb idx servers && ltb idx (length d.r_idxs)
    then elim (find_same_row 0 d.r_rows cols) [
      | none ↦ none
      | some found ↦
          let std = if length d.r_idxs == servers then get_elem? d.r_idxs t_std_idx else none in
          add_found found (build_row std d.r_rows cols) idx d
    ]
    else none
