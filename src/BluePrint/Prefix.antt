-- ===== src/BluePrint/Prefix.antt =====
-- The routes of a blueprint below its prefix.
use wfrest.Base.{ℕ, ◌≡◌, refl, ap, ◌∙◌, true, false, List, [], ◌∷◌, ◌++◌, c_str, Bytes, All}
use wfrest.Verb.{Verb}
use wfrest.RouteTable.{
  VerbHandler, has_verbs, Node, node, Children, cons, all_routes, routes_below,
  table_find_or_create,
}
use wfrest.RouteTable.Paths.{equal_path, equal_path_refl}
use wfrest.RouteTable.Create.{stored, levels, stored-find_or_create}
use wfrest.RouteTable.Lookup.{is_solid}
use wfrest.Router.{Router, choose, call, no_match}
use wfrest.Router.Dispatch.{call-stored}
use wfrest.BluePrint.{prefixed, add_leaf, add_leaves, add_blueprint}

module _ {ℓ} {H : Type ℓ} where
  -- Another leaf of the blueprint: prefix and route make a path without NUL, of other levels than
  -- the given one.
  unfoldable pub IsBeside : Bytes → Bytes → Bytes × VerbHandler H → Type 0
  IsBeside route url_prefix leaf =
      (d : ℕ) × ((t : Bytes) × ((c_str (prefixed url_prefix leaf.0) ≡ b'/' ∷ d ∷ t)
          × (c_str (b'/' ∷ d ∷ t) ≡ b'/' ∷ d ∷ t)
          × (equal_path (levels (b'/' ∷ d ∷ t)) (levels route) ≡ false)))

  stored-add_leaf :
      (c : ℕ) (s url_prefix sub_prefix : Bytes) (vh : VerbHandler H) (r : Router H)
      → c_str (prefixed url_prefix sub_prefix) ≡ b'/' ∷ c ∷ s
      → c_str (b'/' ∷ c ∷ s) ≡ b'/' ∷ c ∷ s
      → stored (b'/' ∷ c ∷ s) (add_leaf url_prefix (sub_prefix, vh) r).routes_map.root
        ≡ record vh { path = b'/' ∷ c ∷ s }
  unfolding add_leaf table_find_or_create
  stored-add_leaf c s url_prefix sub_prefix vh r path text =
      let route = b'/' ∷ c ∷ s in
      rw path (
        rw text (
          stored-find_or_create c c s s (λ old. record vh { path = route }) r.routes_map.root
          ∙ rw (equal_path_refl (levels route)) refl))

  stored-beside :
      (c : ℕ) (s url_prefix : Bytes) (leaf : Bytes × VerbHandler H) (r : Router H)
      → IsBeside (b'/' ∷ c ∷ s) url_prefix leaf
      → stored (b'/' ∷ c ∷ s) (add_leaf url_prefix leaf r).routes_map.root
        ≡ stored (b'/' ∷ c ∷ s) r.routes_map.root
  unfolding add_leaf table_find_or_create IsBeside
  stored-beside c s url_prefix (sub_prefix, vh) r (d, (t, (path, text, other))) = rw path (
      rw text (
        stored-find_or_create d c t s (λ old. record vh { path = b'/' ∷ d ∷ t }) r.routes_map.root
        ∙ rw other refl))

  stored-add_leaves :
      (c : ℕ) (s url_prefix : Bytes) (leaves : List (Bytes × VerbHandler H)) (r : Router H)
      → All (IsBeside (b'/' ∷ c ∷ s) url_prefix) leaves
      → stored (b'/' ∷ c ∷ s) (add_leaves url_prefix leaves r).routes_map.root
        ≡ stored (b'/' ∷ c ∷ s) r.routes_map.root
  unfolding add_leaves
  stored-add_leaves c s url_prefix [] r h = refl
  stored-add_leaves c s url_prefix (leaf ∷ leaves) r h =
      stored-add_leaves c s url_prefix leaves (add_leaf url_prefix leaf r) h.1
      ∙ stored-beside c s url_prefix leaf r h.0

  add_leaves-append :
      (url_prefix : Bytes) (before after : List (Bytes × VerbHandler H)) (r : Router H)
      → add_leaves url_prefix (before ++ after) r
        ≡ add_leaves url_prefix after (add_leaves url_prefix before r)
  unfolding add_leaves
  add_leaves-append url_prefix [] after r = refl
  add_leaves-append url_prefix (leaf ∷ before) after r =
      add_leaves-append url_prefix before after (add_leaf url_prefix leaf r)

  -- For every router, blueprint and prefix, and a route with handlers, at least one, that is a leaf of
  -- the blueprint, where prefix and route make a path of a slash and more bytes without NUL that does
  -- not end in a slash, and no later leaf makes the same path: when the blueprint has been added, a
  -- request for the path, with or without a slash at its end, is answered from the route's handlers
  -- alone, with the path as the full path, whatever the router held there.
  pub call-add_blueprint :
      (bp : Router H) (c : ℕ) (s url_prefix sub_prefix : Bytes) (vh : VerbHandler H) (verb : Verb)
      (before after : List (Bytes × VerbHandler H)) (r : Router H)
      → all_routes [] bp.routes_map.root ≡ before ++ (sub_prefix, vh) ∷ after
      → All (IsBeside (b'/' ∷ c ∷ s) url_prefix) after
      → is_solid (c ∷ s) ≡ true
      → has_verbs vh ≡ true
      → c_str (prefixed url_prefix sub_prefix) ≡ b'/' ∷ c ∷ s
      → c_str (b'/' ∷ c ∷ s) ≡ b'/' ∷ c ∷ s
      → let answer = choose verb (record vh { path = b'/' ∷ c ∷ s }) no_match in
        let grown = add_blueprint bp url_prefix r in
        (call verb (b'/' ∷ c ∷ s) grown ≡ answer)
        × (call verb ((b'/' ∷ c ∷ s) ++ b'/' ∷ []) grown ≡ answer)
  unfolding add_blueprint add_leaves
  call-add_blueprint bp c s url_prefix sub_prefix vh verb before after r listed others solid verbs
        path text =
      let route = b'/' ∷ c ∷ s in
      let first = add_leaf url_prefix (sub_prefix, vh) (add_leaves url_prefix before r) in
      let grown = add_blueprint bp url_prefix r in
      let made : grown ≡ add_leaves url_prefix after first =
        ap (λ leaves. add_leaves url_prefix leaves r) listed
        ∙ add_leaves-append url_prefix before ((sub_prefix, vh) ∷ after) r in
      let kept : stored route grown.routes_map.root ≡ record vh { path = route } =
        ap (λ g. stored route g.routes_map.root) made
        ∙ stored-add_leaves c s url_prefix after first others
        ∙ stored-add_leaf c s url_prefix sub_prefix vh (add_leaves url_prefix before r) path text in
      let (bare, slashed) = call-stored c s solid verb grown (ap has_verbs kept ∙ verbs) in
      (
        bare ∙ ap (λ v. choose verb v no_match) kept,
        slashed ∙ ap (λ v. choose verb v no_match) kept,
      )

  -- For every router and prefix, and every two blueprints that differ only in the handlers of one
  -- route of one level which has routes below it: they give the same router.
  pub add_blueprint_inner :
      (bp : Router H) (url_prefix : Bytes) (r : Router H) (root v w : VerbHandler H) (k j : Bytes)
      (n : Node H) (below beside : Children H)
      → let with_handler = λ (u : VerbHandler H). record bp {
        routes_map = record bp.routes_map {
          root = node root (cons k (node u (cons j n below)) beside);
        };
      } in
        add_blueprint (with_handler v) url_prefix r ≡ add_blueprint (with_handler w) url_prefix r
  unfolding add_blueprint all_routes routes_below
  add_blueprint_inner bp url_prefix r root v w k j n below beside = refl
