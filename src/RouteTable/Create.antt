-- ===== src/RouteTable/Create.antt =====
-- `find_or_create` changes the record at the path that its route names, and nothing else.
use mathlib.Core.Path.{fun_ext}
use wfrest.Base.{
  ℕ, ◌≡◌, refl, ap, inl, inr, true, false, List, [], ◌∷◌, ◌++◌, ◌==◌, arith, if◌then◌else◌, Bytes,
  Bool-cases,
}
use wfrest.RouteTable.{
  VerbHandler, Node, Children, node, alter, create_at, create_below, find_or_create,
}
use wfrest.RouteTable.Paths.{
  levels_below, alter_path, reach_path, or_new, equal_path, reach_path-alter_path,
}

-- The levels of a route that starts with a slash and names more than the root.
abbrev pub levels : Bytes → List Bytes
levels [] = []
levels (c ∷ []) = []
levels (c ∷ d ∷ s) = levels_below [] (d ∷ s)

abbrev pub levels_behind : Bytes → List Bytes
levels_behind [] = []
levels_behind (c ∷ s) = levels_below [] (c ∷ s)

pub levels_below_slash :
    (mid : Bytes) (c : ℕ) (s : Bytes)
    → (c == b'/') ≡ true
    → levels_below mid (c ∷ s) ≡ mid ∷ levels_behind s
unfolding levels_below
levels_below_slash mid c [] e = rw (e, levels_below) refl
levels_below_slash mid c (d ∷ s) e = rw (e, levels_below) refl

pub levels_below_other :
    (mid : Bytes) (c : ℕ) (s : Bytes)
    → (c == b'/') ≡ false
    → levels_below mid (c ∷ s) ≡ levels_below (mid ++ c ∷ []) s
unfolding levels_below
levels_below_other mid c s e = rw (e, levels_below) refl

module _ {ℓ} {H : Type ℓ} (change : VerbHandler H → VerbHandler H) where
  create_at_lem :
      (s : Bytes) (n : Node H)
      → ((v : VerbHandler H) (cs : Children H)
          → node v (create_below [] s change cs)
            ≡ alter_path (levels_below [] s) change (node v cs))
      → create_at s change (create_below [] s change) n ≡ alter_path (levels_behind s) change n
  create_at_lem [] (node v cs) ih = unfold alter_path in refl
  create_at_lem (c ∷ s) (node v cs) ih = ih v cs

  create_below_slash :
      (mid : Bytes) (c : ℕ) (s : Bytes) (cs : Children H)
      → (c == b'/') ≡ true
      → create_below mid (c ∷ s) change cs
        ≡ alter mid (create_at s change (create_below [] s change)) cs
  unfolding create_below
  create_below_slash mid c s cs e = rw (e, create_below) refl

  alter_path-cons :
      (k : Bytes) (ks : List Bytes) (v : VerbHandler H) (cs : Children H)
      → alter_path (k ∷ ks) change (node v cs) ≡ node v (alter k (alter_path ks change) cs)
  unfolding alter_path
  alter_path-cons k ks v cs = refl

  create_below_lem :
      (mid s : Bytes) (v : VerbHandler H) (cs : Children H)
      → node v (create_below mid s change cs) ≡ alter_path (levels_below mid s) change (node v cs)
  create_below_lem mid [] v cs =
      unfold create_below levels_below alter_path in
      ap (λ g. node v (alter mid g cs)) (fun_ext leaf)
    where
      leaf : (n : Node H) → create_at [] change (λ d. d) n ≡ alter_path [] change n
      leaf (node w ds) = unfold alter_path in refl
  create_below_lem mid (c ∷ s) v cs =
      branch (create_below_lem [] s) (create_below_lem (mid ++ c ∷ []) s v cs)
    where
      branch :
          ((w : VerbHandler H) (ds : Children H)
            → node w (create_below [] s change ds)
              ≡ alter_path (levels_below [] s) change (node w ds))
          → node v (create_below (mid ++ c ∷ []) s change cs)
            ≡ alter_path (levels_below (mid ++ c ∷ []) s) change (node v cs)
          → node v (create_below mid (c ∷ s) change cs)
            ≡ alter_path (levels_below mid (c ∷ s)) change (node v cs)
      branch ih other = elim (Bool-cases (c == b'/')) [
        | inl e ↦
            rw (create_below_slash mid c s cs e, levels_below_slash mid c s e, alter_path-cons)
              (ap (λ g. node v (alter mid g cs)) (fun_ext (λ n. create_at_lem s n ih)))
        | inr e ↦ unfold create_below levels_below in rw (e, create_below, levels_below) other
      ]

  -- For every route of a slash and more bytes: `find_or_create` makes its change at the path of
  -- the route.
  pub find_or_create_lem :
      (c : ℕ) (s : Bytes) (n : Node H)
      → find_or_create (b'/' ∷ c ∷ s) change n ≡ alter_path (levels_below [] (c ∷ s)) change n
  find_or_create_lem c s (node v cs) =
      unfold find_or_create in ground (arith, create_below_lem [] (c ∷ s) v cs)

-- The record that the tree holds at a route, a record without handlers where it holds none.
abbrev pub stored {ℓ} : {H : Type ℓ} → Bytes → Node H → VerbHandler H
stored route n = or_new (reach_path (levels route) n)

-- For all routes of a slash and more bytes: what the tree holds at the route that is registered
-- is the change of what it held there, and at every route of another path it holds what it held.
pub stored-find_or_create {ℓ} :
    {H : Type ℓ} (c d : ℕ) (r s : Bytes) (change : VerbHandler H → VerbHandler H) (n : Node H)
    → stored (b'/' ∷ d ∷ s) (find_or_create (b'/' ∷ c ∷ r) change n) ≡ (
        if equal_path (levels (b'/' ∷ c ∷ r)) (levels (b'/' ∷ d ∷ s))
        then change (stored (b'/' ∷ c ∷ r) n)
        else stored (b'/' ∷ d ∷ s) n)
stored-find_or_create c d r s change n =
    rw (find_or_create_lem change c r n)
      (reach_path-alter_path (levels_below [] (d ∷ s)) (levels_below [] (c ∷ r)) change n)
