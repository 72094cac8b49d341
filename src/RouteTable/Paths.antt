-- ===== src/RouteTable/Paths.antt =====
-- The route table as a map from paths, lists of levels, to handler records.
use wfrest.Base.{
  ◌≡◌, refl, sym, ◌∙◌, inl, inr, Bool, true, false, ◌&&◌, List, [], ◌∷◌, ◌++◌, Option, none, some,
  ◌==◌, arith, if◌then◌else◌, equal, equal_iff, Bytes, Bool-cases, Option-cases,
}
use wfrest.RouteTable.{
  VerbHandler, Node, Children, node, nil, cons, no_handler, empty_node, lookup, alter, change_child,
  add_child,
}

-- The levels of a path without its first slash; `mid` is the level that has been begun. A slash
-- at the end adds none.
unfoldable pub levels_below : Bytes → Bytes → List Bytes
levels_below mid [] = mid ∷ []
levels_below mid (c ∷ s) = elim (c == b'/') [
  | true ↦ mid ∷ (elim s [ [] ↦ [] | _ ∷ _ ↦ levels_below [] s ])
  | false ↦ levels_below (mid ++ c ∷ []) s
]

unfoldable pub equal_path : List Bytes → List Bytes → Bool
equal_path [] [] = true
equal_path (j ∷ js) (k ∷ ks) = equal j k && equal_path js ks
equal_path _ _ = false

pub equal_path_refl : (ks : List Bytes) → equal_path ks ks ≡ true
unfolding equal_path
equal_path_refl [] = refl
equal_path_refl (k ∷ ks) = ground (arith, equal_iff k k, equal_path_refl ks)

module _ {ℓ} {H : Type ℓ} where
  -- The change of the record at a path.
  unfoldable pub alter_path : List Bytes → (VerbHandler H → VerbHandler H) → Node H → Node H
  alter_path [] change (node v cs) = node (change v) cs
  alter_path (k ∷ ks) change (node v cs) = node v (alter k (alter_path ks change) cs)

  -- The record at a path, and whether there is a node.
  unfoldable pub reach_path : List Bytes → Node H → Option (VerbHandler H)
  reach_path [] (node v cs) = some v
  reach_path (k ∷ ks) (node v cs) = elim (lookup k cs) [ none ↦ none | some n ↦ reach_path ks n ]

  abbrev pub or_new : Option (VerbHandler H) → VerbHandler H
  or_new none = no_handler
  or_new (some v) = v

  abbrev child_or_new : Option (Node H) → Node H
  child_or_new none = empty_node
  child_or_new (some n) = n

  lookup-change_child :
      (j k : Bytes) (change : Node H → Node H) (cs : Children H) (n : Node H)
      → lookup k cs ≡ some n
      → lookup j (change_child k change cs) ≡ (if equal k j then some (change n) else lookup j cs)
  unfolding lookup change_child
  lookup-change_child j k change nil n h = cc
  lookup-change_child j k change (cons i m cs) n h = elim (Bool-cases (equal i k)) [
    | inl e ↦ ground (arith, equal_iff i k, equal_iff k j, equal_iff i j)
    | inr e ↦ ground (
      arith,
      equal_iff i k,
      equal_iff k j,
      equal_iff i j,
      lookup-change_child j k change cs n (ground arith),
    )
  ]

  pub lookup-add_child :
      (j k : Bytes) (new_node : Node H) (cs : Children H)
      → lookup k cs ≡ none
      → lookup j (add_child k new_node cs) ≡ (if equal k j then some new_node else lookup j cs)
  unfolding lookup add_child
  lookup-add_child j k new_node nil h = refl
  lookup-add_child j k new_node (cons i n cs) h =
      ground (arith, equal_iff i k, equal_iff k j, equal_iff i j, lookup-add_child j k new_node cs)

  pub lookup-alter :
      (j k : Bytes) (change : Node H → Node H) (cs : Children H)
      → lookup j (alter k change cs)
        ≡ (if equal k j then some (change (child_or_new (lookup k cs))) else lookup j cs)
  unfolding alter
  lookup-alter j k change cs = elim (Option-cases (lookup k cs)) [
    | inl e ↦ rw (e, alter) (lookup-add_child j k (change empty_node) cs e)
    | inr (n, e) ↦ rw (e, alter) (lookup-change_child j k change cs n e)
  ]

  reach_path_empty : (j : Bytes) (js : List Bytes) → reach_path (j ∷ js) (empty_node {H = H}) ≡ none
  unfolding reach_path lookup
  reach_path_empty j js = refl

  or_new-reach_path_empty :
      (js : List Bytes) → or_new (reach_path js (empty_node {H = H})) ≡ no_handler
  unfolding reach_path lookup
  or_new-reach_path_empty [] = refl
  or_new-reach_path_empty (j ∷ js) = refl

  or_new-reach_path :
      (k : Bytes) (ks : List Bytes) (v : VerbHandler H) (cs : Children H)
      → or_new (reach_path (k ∷ ks) (node v cs))
        ≡ or_new (reach_path ks (child_or_new (lookup k cs)))
  unfolding reach_path
  or_new-reach_path k ks v cs = elim (Option-cases (lookup k cs)) [
    | inl e ↦ rw (e, reach_path) (sym (or_new-reach_path_empty ks))
    | inr (n, e) ↦ rw (e, reach_path) refl
  ]

  -- The record at a path after a change: at the path of the change, the changed record; at every
  -- other path the old one. Where there is no node it is a record without handlers.
  pub reach_path-alter_path :
      (js ks : List Bytes) (change : VerbHandler H → VerbHandler H) (n : Node H)
      → or_new (reach_path js (alter_path ks change n))
        ≡ (if equal_path ks js then change (or_new (reach_path ks n)) else or_new (reach_path js n))
  unfolding alter_path equal_path
  reach_path-alter_path [] [] change (node v cs) = unfold reach_path in refl
  reach_path-alter_path [] (k ∷ ks) change (node v cs) = unfold reach_path in refl
  reach_path-alter_path (j ∷ js) [] change (node v cs) = unfold reach_path in refl
  reach_path-alter_path (j ∷ js) (k ∷ ks) change (node v cs) =
      let step = alter k (alter_path ks change) cs in
      let child = child_or_new (lookup k cs) in
      let look = lookup-alter j k (alter_path ks change) cs in
      let ih = reach_path-alter_path js ks change child in
      or_new-reach_path j js v step ∙ elim (Bool-cases (equal k j)) [
        | inl e ↦
            let same = (equal_iff k j).0 e in
            rw (look, e, or_new-reach_path k ks v cs, or_new-reach_path j js v cs, ← same) ih
        | inr e ↦ rw (look, e) (sym (or_new-reach_path j js v cs))
      ]
