-- ===== src/RouteTable/Gaps.antt =====
-- Where the tree does not act as a map from routes: the root registered twice, paths below a leaf,
-- and the listing of its routes.
use wfrest.Base.{
  ℕ, ◌≡◌, ap, ◌∙◌, inl, inr, [], ◌∷◌, ◌++◌, arith, equal_iff, Bytes, Option-cases, some, none,
  c_str,
}
use mathlib.Core.List.{append-nil, append_assoc}
use wfrest.StrUtil.Split.{Lacks}
use wfrest.RouteTable.Paths.{lookup-add_child}
use wfrest.RouteTable.{
  VerbHandler, Node, Children, node, nil, cons, Match, found, lookup, visit, at_level, find_below,
  find_root, find, slash, find_or_create, insert_child, add_child, no_handler,
}

module _ {ℓ} {H : Type ℓ} where
  insert_child_old :
      (k : Bytes) (n x : Node H) (cs : Children H) → lookup k cs ≡ some x → insert_child k n cs ≡ cs
  unfolding insert_child
  insert_child_old k n x cs e = rw (e, insert_child)

  insert_child_new :
      (k : Bytes) (n : Node H) (cs : Children H)
      → lookup k cs ≡ none
      → (insert_child k n cs ≡ add_child k n cs) × (lookup k (add_child k n cs) ≡ some n)
  insert_child_new k n cs e = (
    unfold insert_child in rw (e, insert_child),
    lookup-add_child k k n cs e ∙ ground (arith, equal_iff k k),
  )

  insert_child_again :
      (k : Bytes) (n w : Node H) (cs : Children H)
      → insert_child k w (insert_child k n cs) ≡ insert_child k n cs
  insert_child_again k n w cs = elim (Option-cases (lookup k cs)) [
    | inl e ↦
        let (made, present) = insert_child_new k n cs e in
        rw made (insert_child_old k w n (add_child k n cs) present)
    | inr (x, e) ↦ rw (insert_child_old k n x cs e) (insert_child_old k w x cs e)
  ]

  -- Once `/` is registered, a second registration of `/` is lost: the tree stays as it is, whatever
  -- handler was to be added.
  pub find_or_create_root :
      (change again : VerbHandler H → VerbHandler H) (n : Node H)
      → find_or_create slash again (find_or_create slash change n) ≡ find_or_create slash change n
  find_or_create_root change again (node v cs) =
      unfold find_or_create in
      ap (node v)
        (insert_child_again slash (node (change no_handler) nil) (node (again no_handler) nil) cs)

  find_below-name :
      (beyond mid name s : Bytes) (cs : Children H) (m : Match)
      → Lacks b'/' name
      → find_below beyond mid (name ++ (b'/' ∷ s)) cs m
        ≡ at_level
            (mid ++ name)
            (c_str (b'/' ∷ (s ++ beyond)))
            (visit (b'/' ∷ s) (find_below beyond [] s))
            cs
            m
  unfolding find_below
  find_below-name beyond mid [] s cs m h = rw append-nil
  find_below-name beyond mid (c ∷ name) s cs m h =
      rw (h.0, find_below)
        (find_below-name beyond (mid ++ c ∷ []) name s cs m h.1 ∙ rw append_assoc)

  -- For every tree with a leaf at a level of the root, and every path of that level, a slash and
  -- any bytes: `find` gives the leaf's record.
  pub find_below_leaf :
      (beyond : Bytes) (c : ℕ) (name extra : Bytes) (v w : VerbHandler H) (cs : Children H)
      (m : Match)
      → Lacks b'/' (c ∷ name)
      → lookup (c ∷ name) cs ≡ some (node v nil)
      → find (b'/' ∷ ((c ∷ name) ++ (b'/' ∷ extra))) beyond (node w cs) m ≡ (found v, m)
  find_below_leaf beyond c name extra v w nil m h leaf = absurd (unfold lookup in ground arith)
  find_below_leaf beyond c name extra v w (cons j n cs) m h leaf =
      unfold find find_root in
      find_below-name beyond [] (c ∷ name) extra (cons j n cs) m h
      ∙ (unfold at_level in rw (leaf, at_level) (unfold visit in ground arith))
