-- ===== src/StrUtil.antt =====
-- src/util/StrUtil.{h,cc}: splitting at a separator, trimming blanks and pairs of brackets.
pub mod Split
pub mod Pairs
pub mod Trim
use wfrest.Base.{
  ℕ, zero, suc, ◌-◌, Bool, true, false, ◌&&◌, List, [], ◌∷◌, ◌++◌, Option, none, some, ◌==◌, ltb,
  if◌then◌else◌, length, take, drop, get_or, is_space, Bytes, codes, ◌^◌, ◌+◌,
}

-- The loop of `split_piece`; `piece` is the bytes from `cursor` to `p`.
unfoldable pub split_loop : ℕ → Bytes → Bytes → List Bytes
split_loop sep piece [] = piece ∷ []
split_loop sep piece (c ∷ s) = elim (c == sep) [
  | true ↦ piece ∷ split_loop sep [] s
  | false ↦ split_loop sep (piece ++ c ∷ []) s
]

unfoldable pub split_piece : Bytes → ℕ → List Bytes
unfolding split_loop
split_piece [] sep = []
split_piece (c ∷ s) sep = split_loop sep [] (c ∷ s)

-- Where all is blank the result is the empty piece.
unfoldable pub ltrim : Bytes → Bytes
unfolding is_space
ltrim [] = []
ltrim (c ∷ s) = if is_space c then ltrim s else c ∷ s

-- Where `rhs` stops: at the last byte that is not blank, or at the first byte.
last_solid : Bytes → ℕ → ℕ
last_solid s zero = zero
last_solid s (suc i) =
    let rest = last_solid s i in if is_space (get_or s (suc i) 0) then rest else suc i

unfoldable pub rtrim : Bytes → Bytes
unfolding last_solid is_space
rtrim [] = []
rtrim (c ∷ s) =
    let rhs = last_solid (c ∷ s) (length s) in
    if rhs == 0 && is_space (get_or (c ∷ s) rhs 0) then [] else take (suc rhs) (c ∷ s)

unfoldable pub trim : Bytes → Bytes
unfolding ltrim rtrim
trim s = ltrim (rtrim s)

-- `pairs` lists opening and closing bytes in turn.
unfoldable pub has_pair : ℕ → ℕ → Bytes → Bool
has_pair lhs rhs (open_byte ∷ close_byte ∷ pairs) =
    if lhs == open_byte && rhs == close_byte then true else has_pair lhs rhs pairs
has_pair lhs rhs _ = false

-- A piece: bytes, or one whose size has wrapped around and is longer than any string.
pub data Piece : Type 0 where
  view : Bytes → Piece
  wrapped : ℕ → Piece

-- `as_string`, which throws `std::length_error` for such a size.
unfoldable pub as_string : Piece → Option Bytes
as_string (view s) = some s
as_string (wrapped size) = none

-- Of an empty piece the code reads the byte behind it and the byte before it, given as `after`
-- and `before`. The size of the piece inside a pair is `size() - 2`, a `size_t`.
unfoldable pub trim_pairs : ℕ → ℕ → Bytes → Bytes → Piece
unfolding has_pair
trim_pairs before after str pairs =
    let lhs = get_or str 0 after in
    let rhs = get_or str (length str - 1) before in
    if has_pair lhs rhs pairs
    then (if ltb (length str) 2
        then wrapped (2 ^ 64 + length str - 2)
        else view (take (length str - 2) (drop 1 str)))
    else view str

abbrev pub quotes : Bytes
quotes = codes "\"\"''"
