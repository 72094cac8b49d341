-- ===== src/PathUtil.antt =====
-- src/util/PathUtil.cc: the last level of a path, its extension, and joining two paths.
-- Whether a path names a file or a directory is the file system's answer, and a parameter elsewhere.
pub mod Laws
use wfrest.Base.{
  ℕ, zero, suc, ◌-◌, ◌+◌, Bool, true, false, not, ◌&&◌, [], ◌∷◌, ◌++◌, Option, none, some, ◌==◌,
  if◌then◌else◌, length, take, drop, get_or, Bytes,
}

-- The last index whose byte passes the test: `find_last_of` and `find_last_not_of`.
unfoldable pub find_last : (ℕ → Bool) → Bytes → Option ℕ
find_last test [] = none
find_last test (c ∷ s) = elim (find_last test s) [
  | some i ↦ some (suc i)
  | none ↦ if test c then some 0 else none
]

abbrev pub is_slash : ℕ → Bool
is_slash c = c == b'/'

abbrev pub is_dot : ℕ → Bool
is_dot c = c == b'.'

-- Where the piece behind the last hit starts.
abbrev after_hit : Option ℕ → ℕ
after_hit none = 0
after_hit (some i) = suc i

-- What `base` returns where the last byte that is no slash stands at `pos1`.
level_upto : ℕ → Bytes → Bytes
unfolding find_last
level_upto pos1 filepath =
    let pos2 = after_hit (find_last is_slash (take (suc pos1) filepath)) in
    take (pos1 - pos2 + 1) (drop pos2 filepath)

unfoldable pub base : Bytes → Bytes
unfolding find_last level_upto
base filepath = elim (find_last (λ c. not (is_slash c)) filepath) [
  | none ↦ b'/' ∷ []
  | some pos1 ↦ level_upto pos1 filepath
]

-- `file` in `suffix`: what follows the last slash.
last_level : Bytes → Bytes
unfolding find_last
last_level filepath = drop (after_hit (find_last is_slash filepath)) filepath

extension : Bytes → Bytes
unfolding find_last
extension file = elim (find_last is_dot file) [ none ↦ [] | some pos2 ↦ drop (suc pos2) file ]

unfoldable pub suffix : Bytes → Bytes
unfolding last_level extension
suffix filepath = extension (last_level filepath)

abbrev back : Bytes → ℕ
back s = get_or s (length s - 1) 0

abbrev front : Bytes → ℕ
front s = get_or s 0 0

-- Both strings have a byte: `back()` and `front()` of an empty string are undefined.
unfoldable pub concat_path : Bytes → Bytes → Bytes
concat_path lhs rhs =
    if is_slash (back lhs) && is_slash (front rhs)
    then take (length lhs - 1) lhs ++ rhs
    else if not (is_slash (back lhs)) && not (is_slash (front rhs))
    then lhs ++ (b'/' ∷ rhs)
    else lhs ++ rhs
