-- ===== src/BluePrint.antt =====
-- src/core/BluePrint.{h,cc,inl}, AopUtil.h and Aspect.h: the routes of a blueprint are put below a
-- prefix of a router, and a handler runs between its aspects.
pub mod Prefix
pub mod Order
use wfrest.Base.{
  ℕ, ◌-◌, Bool, true, false, not, ◌&&◌, List, [], ◌∷◌, ◌++◌, map, ◌==◌, if◌then◌else◌, length,
  get_or, c_str, Bytes,
}
use wfrest.Verb.{Verb, str_to_verb}
use wfrest.RouteTable.{VerbHandler, QueueId, all_routes, table_find_or_create}
use wfrest.Router.{Router, add_route, handle}

abbrev ends_in_slash : Bytes → Bool
ends_in_slash s = get_or s (length s - 1) 0 == b'/'

-- The path of a route of the blueprint.
unfoldable pub prefixed : Bytes → Bytes → Bytes
prefixed url_prefix sub_prefix =
    if ends_in_slash url_prefix then url_prefix ++ sub_prefix else url_prefix ++ b'/' ∷ sub_prefix

module _ {ℓ} {H : Type ℓ} where
  abbrev verb_list : List (Verb × H) → List Verb
  verb_list [] = []
  verb_list ((verb, h) ∷ m) = verb ∷ verb_list m

  -- `ROUTE` of a handler and the names of several verbs: one registration for each.
  unfoldable pub route_methods : Bytes → QueueId → H → List Bytes → Router H → Router H
  unfolding handle str_to_verb
  route_methods route queue_id handler [] r = r
  route_methods route queue_id handler (method ∷ methods) r =
      route_methods route queue_id handler methods
        (handle route queue_id handler (str_to_verb method) r)

  -- What is done with each route of the blueprint: its handlers take the place of what the path
  -- had before.
  unfoldable pub add_leaf : Bytes → Bytes × VerbHandler H → Router H → Router H
  unfolding prefixed add_route table_find_or_create
  add_leaf url_prefix (sub_prefix, verb_handler) r =
      let path = c_str (prefixed url_prefix sub_prefix) in
      record {
        routes_map =
            table_find_or_create path (λ vh. record verb_handler { path = path }) r.routes_map;
        routes = add_route (verb_list verb_handler.verb_handler_map) path r.routes;
      }

  unfoldable pub add_leaves : Bytes → List (Bytes × VerbHandler H) → Router H → Router H
  unfolding add_leaf
  add_leaves url_prefix [] r = r
  add_leaves url_prefix (leaf ∷ leaves) r =
      add_leaves url_prefix leaves (add_leaf url_prefix leaf r)

  unfoldable pub add_blueprint : Router H → Bytes → Router H → Router H
  unfolding add_leaves all_routes
  add_blueprint bp url_prefix r = add_leaves url_prefix (all_routes [] bp.routes_map.root) r

-- An aspect: what `before` and `after` do to the state of request and response, and what they return.
pub record Aspect {ℓ} (S : Type ℓ) : Type ℓ where
  pub before : S → Bool × S
  pub after : S → Bool × S

module _ {ℓ} {S : Type ℓ} where
  -- `for_each` of a test that is skipped once one has failed.
  unfoldable pub aop_before : List (Aspect S) → S → Bool × S
  aop_before [] s = (true, s)
  aop_before (item ∷ tp) s =
      let (ret, s') = item.before s in elim ret [ true ↦ aop_before tp s' | false ↦ (false, s') ]

  unfoldable pub aop_after : List (Aspect S) → S → Bool × S
  aop_after [] s = (true, s)
  aop_after (item ∷ tp) s =
      let (ret, s') = item.after s in elim ret [ true ↦ aop_after tp s' | false ↦ (false, s') ]

  -- The loop over the global aspects after a request: no result is looked at.
  unfoldable pub global_after : List (Aspect S) → S → S
  global_after [] s = s
  global_after (asp ∷ asps) s = global_after asps (asp.after s).1

  -- `aop_process`: the state after it, and whether the handler has run and the aspects' `after` is
  -- added to the callbacks of the task.
  unfoldable pub aop_process : (S → S) → List (Aspect S) → List (Aspect S) → S → Bool × S
  unfolding aop_before
  aop_process handler tp global s =
      let (ret, s1) = aop_before tp s in
      let (ret2, s2) = aop_before global s1 in
      if ret then (if ret2 then (true, handler s2) else (false, s2)) else (false, s1)

  -- The callback that is added.
  unfoldable pub aop_callback : List (Aspect S) → List (Aspect S) → S → S
  unfolding aop_after global_after
  aop_callback tp global s = global_after global (aop_after tp s).1

module _ {ℓ} {S : Type ℓ} where
  -- The loop over the global aspects before a request of a route without aspects of its own: no
  -- result is looked at.
  unfoldable pub global_before : List (Aspect S) → S → S
  global_before [] s = s
  global_before (asp ∷ asps) s = global_before asps (asp.before s).1

  -- The handler that `ROUTE` wraps for such a route.
  unfoldable pub wrap_handler : (S → S) → List (Aspect S) → S → S
  unfolding global_before
  wrap_handler handler global s = handler (global_before global s)
