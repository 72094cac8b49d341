-- ===== src/PathUtil/Laws.antt =====
-- What `base`, `suffix` and `concat_path` give on paths that are put together from parts.
use mathlib.Core.List.{append_assoc}
use wfrest.Base.{
  ℕ, zero, suc, ◌-◌, ◌+◌, ◌≡◌, refl, ◌∙◌, sym, ap, Bool, true, false, not, [], ◌∷◌, ◌++◌, none,
  some, length, length-append, All-append, get_or-last, take-init, take, drop, Bytes, All, arith,
  replicate,
}
use wfrest.PathUtil.{
  find_last, is_slash, is_dot, after_hit, last_level, extension, level_upto, base, suffix, back,
  front, concat_path,
}

pub find_last-none :
    (test : ℕ → Bool) (s : Bytes) → All (λ c. test c ≡ false) s → find_last test s ≡ none
unfolding find_last
find_last-none test [] h = refl
find_last-none test (c ∷ s) h = rw (find_last-none test s h.1, h.0) refl

pub find_last-hit :
    (test : ℕ → Bool) (a : Bytes) (c : ℕ) (b : Bytes)
    → test c ≡ true
    → All (λ d. test d ≡ false) b
    → find_last test (a ++ (c ∷ b)) ≡ some (length a)
unfolding find_last
find_last-hit test [] c b h k = rw (find_last-none test b k, h) refl
find_last-hit test (d ∷ a) c b h k = rw (find_last-hit test a c b h k) refl

pub drop_behind : (a : Bytes) (c : ℕ) (b : Bytes) → drop (suc (length a)) (a ++ (c ∷ b)) ≡ b
drop_behind [] c b = refl
drop_behind (d ∷ a) c b = drop_behind a c b

last_level_lem :
    (dir file : Bytes)
    → All (λ c. is_slash c ≡ false) file
    → last_level (dir ++ (b'/' ∷ file)) ≡ file
unfolding last_level
last_level_lem dir file h =
    ap (λ o. drop (after_hit o) (dir ++ (b'/' ∷ file)))
      (find_last-hit is_slash dir b'/' file refl h)
    ∙ drop_behind dir b'/' file

extension_lem :
    (stem ext : Bytes) → All (λ c. is_dot c ≡ false) ext → extension (stem ++ (b'.' ∷ ext)) ≡ ext
unfolding extension
extension_lem stem ext h =
    rw (find_last-hit is_dot stem b'.' ext refl h, extension) (drop_behind stem b'.' ext)

-- The extension of a path whose last level is `stem`, a dot and `ext`: `ext`, if neither part
-- holds a slash and `ext` no dot.
pub suffix_lem :
    (dir stem ext : Bytes)
    → All (λ c. is_slash c ≡ false) stem
    → All (λ c. is_slash c ≡ false) ext
    → All (λ c. is_dot c ≡ false) ext
    → suffix (dir ++ (b'/' ∷ (stem ++ (b'.' ∷ ext)))) ≡ ext
unfolding suffix
suffix_lem dir stem ext p q r =
    let last = All-append (λ c. is_slash c ≡ false) stem (b'.' ∷ ext) p (refl, q) in
    ap extension (last_level_lem dir (stem ++ (b'.' ∷ ext)) last) ∙ extension_lem stem ext r

not_slashes : (n : ℕ) → All (λ c. not (is_slash c) ≡ false) (replicate n b'/')
not_slashes zero = tt
not_slashes (suc n) = (refl, not_slashes n)

take_through : (a : Bytes) (c : ℕ) (b : Bytes) → take (suc (length a)) (a ++ (c ∷ b)) ≡ a ++ c ∷ []
take_through [] c [] = refl
take_through [] c (d ∷ b) = refl
take_through (d ∷ a) c b = ap (◌∷◌ d) (take_through a c b)

level_upto_lem :
    (dir name : Bytes) (c : ℕ) (rest : Bytes)
    → All (λ d. is_slash d ≡ false) (name ++ c ∷ [])
    → level_upto (length (dir ++ (b'/' ∷ name))) ((dir ++ (b'/' ∷ name)) ++ (c ∷ rest))
      ≡ name ++ c ∷ []
unfolding level_upto
level_upto_lem dir name c rest h =
    let front_part = dir ++ (b'/' ∷ name) in
    let hit = find_last-hit is_slash dir b'/' (name ++ c ∷ []) refl h in
    let size : length front_part - suc (length dir) + 1 ≡ suc (length name) =
      omega (arith, length-append dir (b'/' ∷ name)) in
    rw (take_through front_part c rest, append_assoc dir (b'/' ∷ name) (c ∷ []))
      (rw (hit, level_upto)
        (rw
          (
            append_assoc dir (b'/' ∷ name) (c ∷ rest),
            drop_behind dir b'/' (name ++ (c ∷ rest)),
            size,
          )
          (take_through name c rest)))

-- The last level of a path is `name` and the byte `c`, whatever slashes follow, if neither is a
-- slash or holds one.
pub base_lem :
    (dir name : Bytes) (c n : ℕ)
    → All (λ d. is_slash d ≡ false) (name ++ c ∷ [])
    → is_slash c ≡ false
    → base (dir ++ (b'/' ∷ (name ++ (c ∷ replicate n b'/')))) ≡ name ++ c ∷ []
unfolding base
base_lem dir name c n h k =
    let front_part = dir ++ (b'/' ∷ name) in
    let slashes = replicate n b'/' in
    let hit =
      find_last-hit (λ d. not (is_slash d)) front_part c slashes (ground arith) (not_slashes n) in
    ap base (sym (append_assoc dir (b'/' ∷ name) (c ∷ slashes)))
    ∙ rw (hit, base) (level_upto_lem dir name c slashes h)

-- For all paths `lhs` and `rhs`: `lhs/` joined with `/rhs` is `lhs/rhs`; so is `lhs` with `/rhs`,
-- `lhs/` with `rhs`, and `lhs` with `rhs`, where a path that brings no slash of its own has none
-- at the seam.
pub concat_path_lem :
    (lhs rhs : Bytes)
    → (concat_path (lhs ++ b'/' ∷ []) (b'/' ∷ rhs) ≡ lhs ++ (b'/' ∷ rhs))
      × (is_slash (back lhs) ≡ false → concat_path lhs (b'/' ∷ rhs) ≡ lhs ++ (b'/' ∷ rhs))
      × (is_slash (front rhs) ≡ false → concat_path (lhs ++ b'/' ∷ []) rhs ≡ lhs ++ (b'/' ∷ rhs))
      × (is_slash (back lhs) ≡ false
          → is_slash (front rhs) ≡ false
          → concat_path lhs rhs ≡ lhs ++ (b'/' ∷ rhs))
unfolding concat_path
concat_path_lem lhs rhs =
    let ends = get_or-last lhs b'/' 0 in
    (
      ground (arith, ends, take-init lhs b'/'),
      λ h. ground arith,
      λ h. ground (arith, ends, append_assoc lhs (b'/' ∷ []) rhs),
      λ h k. ground arith,
    )
