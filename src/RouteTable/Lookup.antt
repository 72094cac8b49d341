-- ===== src/RouteTable/Lookup.antt =====
-- `find` on a path that the tree holds handlers for.
use wfrest.Base.{
  ℕ, ◌≡◌, refl, sym, ap, ◌∙◌, inl, inr, Bool, true, false, not, List, [], ◌∷◌, ◌++◌, ◌==◌, arith,
  Bytes, Bool-cases, Option-cases, some, c_str,
}
use wfrest.RouteTable.{
  VerbHandler, Node, Children, node, nil, cons, Match, Outcome, found, missing, has_verbs, lookup,
  visit, at_level, find_below, find_root, find, find_or_create,
}
use wfrest.RouteTable.Paths.{levels_below, reach_path, equal_path, equal_path_refl}
use wfrest.RouteTable.Create.{
  levels, levels_behind, levels_below_slash, levels_below_other, stored, stored-find_or_create,
}

-- The bytes do not end in a slash.
abbrev pub is_solid : Bytes → Bool
is_solid [] = true
is_solid (c ∷ []) = not (c == b'/')
is_solid (c ∷ d ∷ s) = is_solid (d ∷ s)

is_solid-tail : (c : ℕ) (s : Bytes) → is_solid (c ∷ s) ≡ true → is_solid s ≡ true
is_solid-tail c [] h = refl
is_solid-tail c (d ∷ s) h = h

module _ {ℓ} {H : Type ℓ} (v : VerbHandler H) (verbs : has_verbs v ≡ true) where
  visit-here :
      (below : Children H → Match → Outcome H × Match) (n : Node H) (m : Match)
      → reach_path [] n ≡ some v
      → visit [] below n m ≡ (found v, m)
  unfolding visit reach_path
  visit-here below (node w cs) m h = ground arith

  visit-below :
      (c : ℕ) (s : Bytes) (k : Bytes) (ks : List Bytes)
      (below : Children H → Match → Outcome H × Match) (n : Node H) (m : Match)
      → reach_path (k ∷ ks) n ≡ some v
      → ((w : VerbHandler H) (cs : Children H)
          → reach_path (k ∷ ks) (node w cs) ≡ some v
          → below cs m ≡ (found v, m))
      → visit (c ∷ s) below n m ≡ (found v, m)
  unfolding visit
  visit-below c s k ks below (node w nil) m h ih = absurd (unfold reach_path lookup in ground arith)
  visit-below c s k ks below (node w (cons j n cs)) m h ih = ih w (cons j n cs) h

  at_level_lem :
      (mid tail : Bytes) (ks : List Bytes) (next : Node H → Match → Outcome H × Match)
      (w : VerbHandler H) (cs : Children H) (m : Match)
      → reach_path (mid ∷ ks) (node w cs) ≡ some v
      → ((n : Node H) → reach_path ks n ≡ some v → next n m ≡ (found v, m))
      → at_level mid tail next cs m ≡ (found v, m)
  unfolding at_level
  at_level_lem mid tail ks next w cs m h ih = elim (Option-cases (lookup mid cs)) [
    | inl e ↦ absurd (unfold reach_path in ground arith)
    | inr (n, e) ↦ rw (e, at_level) (rw (ih n (unfold reach_path in ground arith)) refl)
  ]

  levels_below-cons :
      (mid s : Bytes) → (k : Bytes) × (ks : List Bytes) × (levels_below mid s ≡ k ∷ ks)
  levels_below-cons mid [] = (mid, [], unfold levels_below in refl)
  levels_below-cons mid (c ∷ s) = split (levels_below-cons (mid ++ c ∷ []) s)
    where
      split :
          (k : Bytes) × (ks : List Bytes) × (levels_below (mid ++ c ∷ []) s ≡ k ∷ ks)
          → (k : Bytes) × (ks : List Bytes) × (levels_below mid (c ∷ s) ≡ k ∷ ks)
      split (k, ks, e) = elim (Bool-cases (c == b'/')) [
        | inl h ↦ (mid, levels_behind s, levels_below_slash mid c s h)
        | inr h ↦ (k, ks, levels_below_other mid c s h ∙ e)
      ]

  -- Where a level ends at a slash: the call on the child has the rest of the route.
  visit-behind :
      (beyond : Bytes) (c : ℕ) (s : Bytes) (n : Node H) (m : Match)
      → is_solid (c ∷ s) ≡ true
      → (c == b'/') ≡ true
      → reach_path (levels_behind s) n ≡ some v
      → ((w : VerbHandler H) (cs : Children H)
          → reach_path (levels_below [] s) (node w cs) ≡ some v
          → find_below beyond [] s cs m ≡ (found v, m))
      → visit (c ∷ s) (find_below beyond [] s) n m ≡ (found v, m)
  visit-behind beyond c [] n m solid e h ih = absurd (ground arith)
  visit-behind beyond c (d ∷ s) n m solid e h ih =
      let (k, ks, names) = levels_below-cons [] (d ∷ s) in
      visit-below c (d ∷ s) k ks (find_below beyond [] (d ∷ s)) n m (rw (← names) h)
        (λ w cs g. ih w cs (rw names g))

  find_below_lem :
      (beyond mid s : Bytes) (w : VerbHandler H) (cs : Children H) (m : Match)
      → is_solid s ≡ true
      → reach_path (levels_below mid s) (node w cs) ≡ some v
      → find_below beyond mid s cs m ≡ (found v, m)
  unfolding find_below levels_below
  find_below_lem beyond mid [] w cs m solid h =
      at_level_lem mid (c_str beyond) [] (visit [] (λ cs' m'. (missing, m'))) w cs m h
        (λ n e. visit-here (λ cs' m'. (missing, m')) n m e)
  find_below_lem beyond mid (c ∷ s) w cs m solid h = elim (Bool-cases (c == b'/')) [
    | inl e ↦
        rw (e, find_below)
          (at_level_lem mid (c_str (c ∷ (s ++ beyond))) (levels_behind s)
            (visit (c ∷ s) (find_below beyond [] s)) w cs m (rw (levels_below_slash mid c s e) at h)
            (λ n g.
              visit-behind beyond c s n m solid e g
                (λ w' cs'. find_below_lem beyond [] s w' cs' m (is_solid-tail c s solid))))
    | inr e ↦
        rw (e, find_below)
          (find_below_lem beyond (mid ++ c ∷ []) s w cs m (is_solid-tail c s solid)
            (rw (levels_below_other mid c s e) at h))
  ]

  -- A route of a slash and more bytes.
  find_lem :
      (beyond : Bytes) (c : ℕ) (s : Bytes) (n : Node H) (m : Match)
      → is_solid (c ∷ s) ≡ true
      → reach_path (levels (b'/' ∷ c ∷ s)) n ≡ some v
      → find (b'/' ∷ c ∷ s) beyond n m ≡ (found v, m)
  unfolding find
  find_lem beyond c s n m solid h =
      let (k, ks, names) = levels_below-cons [] (c ∷ s) in
      visit-below b'/' (c ∷ s) k ks (find_root (b'/' ∷ c ∷ s) beyond) n m (rw names at h) (λ w cs g.
        unfold find_root in find_below_lem beyond [] (c ∷ s) w cs m solid (rw (← names) at g))

-- For every tree, every route of a slash and more bytes that does not end in a slash: if the tree
-- holds handlers at the route, `find` gives their record, whatever parameters and wildcards stand
-- beside its levels, and writes no parameter and no matched path.
pub find-stored {ℓ} :
    {H : Type ℓ} (beyond : Bytes) (c : ℕ) (s : Bytes) (n : Node H) (m : Match)
    → is_solid (c ∷ s) ≡ true
    → has_verbs (stored (b'/' ∷ c ∷ s) n) ≡ true
    → find (b'/' ∷ c ∷ s) beyond n m ≡ (found (stored (b'/' ∷ c ∷ s) n), m)
find-stored beyond c s n m solid verbs =
    elim (Option-cases (reach_path (levels (b'/' ∷ c ∷ s)) n)) [
      | inl e ↦ absurd (ground arith)
      | inr (v, e) ↦ rw e (find_lem v (ground arith) beyond c s n m solid e)
    ]

-- For every tree: registering a route of a slash and more bytes that does not end in a slash, by a
-- change that leaves a handler in its record, makes `find` give the changed record there, and what
-- any route of another path got for its own handlers before it still gets.
pub find-find_or_create {ℓ} :
    {H : Type ℓ} (beyond : Bytes) (c d : ℕ) (r s : Bytes) (change : VerbHandler H → VerbHandler H)
    (n : Node H) (m : Match)
    → is_solid (c ∷ r) ≡ true
    → is_solid (d ∷ s) ≡ true
    → has_verbs (change (stored (b'/' ∷ c ∷ r) n)) ≡ true
    → (find (b'/' ∷ c ∷ r) beyond (find_or_create (b'/' ∷ c ∷ r) change n) m
        ≡ (found (change (stored (b'/' ∷ c ∷ r) n)), m))
      × (equal_path (levels (b'/' ∷ c ∷ r)) (levels (b'/' ∷ d ∷ s)) ≡ false
          → has_verbs (stored (b'/' ∷ d ∷ s) n) ≡ true
          → find (b'/' ∷ d ∷ s) beyond (find_or_create (b'/' ∷ c ∷ r) change n) m
            ≡ find (b'/' ∷ d ∷ s) beyond n m)
find-find_or_create {H = H} beyond c d r s change n m solid solid' verbs = (here, other)
  where
    grown : Node H
    grown = find_or_create (b'/' ∷ c ∷ r) change n

    same : stored (b'/' ∷ c ∷ r) grown ≡ change (stored (b'/' ∷ c ∷ r) n)
    same = stored-find_or_create c c r r change n ∙ rw (equal_path_refl (levels (b'/' ∷ c ∷ r)))

    here : find (b'/' ∷ c ∷ r) beyond grown m ≡ (found (change (stored (b'/' ∷ c ∷ r) n)), m)
    here = find-stored beyond c r grown m solid (rw same verbs) ∙ rw same

    other :
        equal_path (levels (b'/' ∷ c ∷ r)) (levels (b'/' ∷ d ∷ s)) ≡ false
        → has_verbs (stored (b'/' ∷ d ∷ s) n) ≡ true
        → find (b'/' ∷ d ∷ s) beyond grown m ≡ find (b'/' ∷ d ∷ s) beyond n m
    other e old =
        let kept = stored-find_or_create c d r s change n ∙ rw e in
        find-stored beyond d s grown m solid' (rw kept old)
        ∙ ap (λ x. (found x, m)) kept
        ∙ sym (find-stored beyond d s n m solid' old)
