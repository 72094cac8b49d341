-- ===== src/RouteTable/Star.antt =====
-- `find` below a level whose only child is the wildcard `*`.
use wfrest.Base.{
  ◌≡◌, refl, ap, ◌∙◌, Bool, true, false, [], ◌∷◌, ◌++◌, ◌==◌, arith, Bytes, codes, some, none,
  c_str, equal, equal_iff, All,
}
use mathlib.Core.List.{append_assoc, append-nil}
use wfrest.StringPiece.{starts_with}
use wfrest.RouteTable.Paths.{lookup-add_child}
use wfrest.RouteTable.{
  VerbHandler, Node, Children, node, nil, cons, Match, Outcome, found, missing, lookup, visit,
  at_level, find_below, find_root, find, match_param, is_star, no_handler, find_or_create,
  create_below, create_at, alter, add_child,
}

-- No byte of a level is a slash.
abbrev pub IsLevel : Bytes → Type 0
IsLevel = All (λ c. (c == b'/') ≡ false)

-- Nothing, or a slash and more bytes.
abbrev pub starts_level : Bytes → Bool
starts_level [] = true
starts_level (c ∷ s) = c == b'/'

starts_with_nothing : (mid : Bytes) → starts_with mid [] ≡ true
unfolding starts_with
starts_with_nothing [] = refl
starts_with_nothing (c ∷ mid) = ground arith

equal_refl : (s : Bytes) → equal s s ≡ true
equal_refl s = (equal_iff s s).1 refl

filled_slash : (name rest : Bytes) → equal (b'/' ∷ (name ++ b'/' ∷ rest)) (b'/' ∷ []) ≡ false
filled_slash [] rest = refl
filled_slash (c ∷ name) rest = refl

module _ {ℓ} {H : Type ℓ} where
  -- What is done with the level at the front of a route.
  abbrev behind_level : Bytes → Bytes → Node H → Match → Outcome H × Match
  behind_level beyond [] = visit [] (λ cs m. (missing, m))
  behind_level beyond (c ∷ s) = visit (c ∷ s) (find_below beyond [] s)

  find_below-level :
      (beyond mid level tail : Bytes) (cs : Children H) (m : Match)
      → IsLevel level
      → starts_level tail ≡ true
      → find_below beyond mid (level ++ tail) cs m
        ≡ at_level (mid ++ level) (c_str (tail ++ beyond)) (behind_level beyond tail) cs m
  unfolding find_below
  find_below-level beyond mid [] [] cs m level h = rw (append-nil mid) refl
  find_below-level beyond mid [] (c ∷ tail) cs m level h =
      rw (h, find_below) (rw (append-nil mid) refl)
  find_below-level beyond mid (d ∷ level) tail cs m is_level h =
      rw (is_level.0, find_below)
        (find_below-level beyond (mid ++ d ∷ []) level tail cs m is_level.1 h
          ∙ rw (append_assoc mid (d ∷ []) level) refl)

  at_star :
      (mid tail : Bytes) (next : Node H → Match → Outcome H × Match) (leaf : VerbHandler H)
      (cs : Children H) (m : Match)
      → equal (b'*' ∷ []) mid ≡ false
      → at_level mid tail next (cons (b'*' ∷ []) (node leaf cs) nil) m
        ≡ (found leaf, record m { route_match_path = mid ++ tail })
  unfolding at_level match_param lookup is_star
  at_star mid tail next leaf cs m other = rw (other, at_level) (rw (starts_with_nothing mid) refl)

  -- Below the level a level and what is behind it, as the wildcard sees them.
  below_star :
      (beyond p tail : Bytes) (leaf : VerbHandler H) (cs : Children H) (m : Match)
      → IsLevel p
      → equal (b'*' ∷ []) p ≡ false
      → starts_level tail ≡ true
      → find_below beyond [] (p ++ tail) (cons (b'*' ∷ []) (node leaf cs) nil) m
        ≡ (found leaf, record m { route_match_path = p ++ c_str (tail ++ beyond) })
  below_star beyond p tail leaf cs m level other h =
      find_below-level beyond [] p tail (cons (b'*' ∷ []) (node leaf cs) nil) m level h
      ∙ at_star p (c_str (tail ++ beyond)) (behind_level beyond tail) leaf cs m other

  -- For every tree of which a level of the root has the wildcard as its only child: a route of that
  -- level and more, of which the next level is no `*` itself, is found at the wildcard, whatever it
  -- is; the matched path is the rest of the route from there on, as a C string, with what stands
  -- behind the route.
  pub find-star :
      (beyond name p tail : Bytes) (v w leaf : VerbHandler H) (below cs : Children H) (m : Match)
      → IsLevel name
      → IsLevel p
      → equal (b'*' ∷ []) p ≡ false
      → starts_level tail ≡ true
      → lookup name cs ≡ some (node w (cons (b'*' ∷ []) (node leaf below) nil))
      → find (b'/' ∷ (name ++ b'/' ∷ (p ++ tail))) beyond (node v cs) m
        ≡ (found leaf, record m { route_match_path = p ++ c_str (tail ++ beyond) })
  unfolding find find_root visit at_level lookup
  find-star beyond name p tail v w leaf below nil m is_name level other h here =
      absurd (ground arith)
  find-star beyond name p tail v w leaf below (cons k n cs) m is_name level other h here =
      rw (filled_slash name (p ++ tail)) (
        find_below-level beyond [] name (b'/' ∷ (p ++ tail)) (cons k n cs) m is_name refl
        ∙ rw (here, at_level) (rw (below_star beyond p tail leaf below m level other h) refl))

  create_below-level :
      (mid level s : Bytes) (change : VerbHandler H → VerbHandler H) (cs : Children H)
      → IsLevel level
      → create_below mid (level ++ b'/' ∷ s) change cs
        ≡ alter (mid ++ level) (create_at s change (create_below [] s change)) cs
  unfolding create_below
  create_below-level mid [] s change cs level = rw (append-nil mid) refl
  create_below-level mid (d ∷ level) s change cs is_level =
      rw (is_level.0, create_below)
        (create_below-level (mid ++ d ∷ []) level s change cs is_level.1
          ∙ rw (append_assoc mid (d ∷ []) level) refl)

  -- The node of a level whose only child is the wildcard.
  abbrev pub star_node : VerbHandler H → Node H
  star_node leaf = node no_handler (cons (b'*' ∷ []) (node leaf nil) nil)

  -- A registration of a new level with the wildcard below it.
  pub lookup-create_star :
      (name : Bytes) (change : VerbHandler H → VerbHandler H) (v : VerbHandler H) (cs : Children H)
      → IsLevel name
      → lookup name cs ≡ none
      → (grown : Children H) × (find_or_create (b'/' ∷ (name ++ codes "/*")) change (node v cs)
          ≡ node v grown)
        × (lookup name grown ≡ some (star_node (change no_handler)))
  unfolding find_or_create create_below alter
  lookup-create_star name change v cs is_name free = (
    add_child name (star_node (change no_handler)) cs,
    rw (filled_slash name (codes "*")) (
        ap (node v)
          (create_below-level [] name (codes "*") change cs is_name ∙ rw (free, alter) refl)),
    lookup-add_child name name (star_node (change no_handler)) cs free ∙ rw (equal_refl name) refl,
  )
