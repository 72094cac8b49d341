-- ===== src/Router.antt =====
-- src/core/Router.{h,cc}: routes and verbs are registered, and a request is given to its handler.
--
-- A handler is a value of `H`; to run it is the caller's part. `call` gives the handler that it
-- would run, with what it writes to the request first.
pub mod Dispatch
use wfrest.Base.{
  ℕ, ◌-◌, Bool, true, false, not, ◌&&◌, ◌||◌, List, [], ◌∷◌, ◌++◌, Option, none, some, ltb, ◌==◌,
  if◌then◌else◌, length, get_or, equal, c_str, Bytes, codes, map,
}
use mathlib.Core.Logic.{ite}
use wfrest.ErrorCode.{ErrorCode, status_ok, status_route_verb_not_implment, status_route_not_found}
use wfrest.StringPiece.{less, remove_suffix}
use wfrest.Verb.{Verb, any, get, post, put, delete, head, patch, Verb-discrete, verb_to_str}
use wfrest.RouteTable.{
  VerbHandler, QueueId, RouteTable, Match, Outcome, found, missing, fault, find,
  table_find_or_create, all_routes, no_routes,
}

-- The place of a verb in the enumeration, by which sets and maps of verbs are ordered.
verb_index : Verb → ℕ
verb_index any = 0
verb_index get = 1
verb_index post = 2
verb_index put = 3
verb_index delete = 4
verb_index head = 5
verb_index patch = 6

module _ {ℓ} {V : Type ℓ} where
  unfoldable pub find_verb : Verb → List (Verb × V) → Option V
  find_verb verb [] = none
  find_verb verb ((w, h) ∷ m) = ite (Verb-discrete w verb) (some h) (find_verb verb m)

  -- `insert({verb, handler})` of a verb that the map lacks.
  unfoldable pub insert_verb : Verb → V → List (Verb × V) → List (Verb × V)
  unfolding verb_index
  insert_verb verb h [] = (verb, h) ∷ []
  insert_verb verb h ((w, g) ∷ m) =
      let rest = insert_verb verb h m in
      if ltb (verb_index verb) (verb_index w) then (verb, h) ∷ (w, g) ∷ m else (w, g) ∷ rest

-- `std::set<Verb>` as a map to nothing.
abbrev VerbSet : Type 0
VerbSet = List (Verb × Unit {0})

add_verb : Verb → VerbSet → VerbSet
unfolding find_verb insert_verb
add_verb verb s = elim (find_verb verb s) [ some _ ↦ s | none ↦ insert_verb verb tt s ]

add_verbs : List Verb → VerbSet → VerbSet
unfolding add_verb
add_verbs [] s = s
add_verbs (verb ∷ verbs) s = add_verbs verbs (add_verb verb s)

pub record RouteVerb : Type 0 where
  pub route : Bytes
  pub verbs : VerbSet

-- Ordered by route, the greatest first.
pub record Router {ℓ} (H : Type ℓ) : Type ℓ where
  pub routes_map : RouteTable H
  pub routes : List RouteVerb

has_route : Bytes → List RouteVerb → Bool
has_route route [] = false
has_route route (rv ∷ rvs) = equal rv.route route || has_route route rvs

update_route : List Verb → Bytes → List RouteVerb → List RouteVerb
unfolding add_verbs
update_route verbs route [] = []
update_route verbs route (rv ∷ rvs) =
    let rest = update_route verbs route rvs in
    if equal rv.route route then record rv { verbs = add_verbs verbs rv.verbs } ∷ rvs else rv ∷ rest

emplace_route : RouteVerb → List RouteVerb → List RouteVerb
emplace_route rv [] = rv ∷ []
emplace_route rv (other ∷ rvs) =
    let rest = emplace_route rv rvs in
    if less other.route rv.route then rv ∷ other ∷ rvs else other ∷ rest

-- `add_route`, of one verb or several; the route of the entry that it returns is `route`.
unfoldable pub add_route : List Verb → Bytes → List RouteVerb → List RouteVerb
unfolding has_route update_route emplace_route add_verbs
add_route verbs route rvs =
    if has_route route rvs
    then update_route verbs route rvs
    else emplace_route (record { route = route; verbs = add_verbs verbs [] }) rvs

module _ {ℓ} {H : Type ℓ} where
  abbrev pub empty_router : Router H
  empty_router = record { routes_map = no_routes; routes = [] }

  -- What `handle` does to the record of its route: a verb that has a handler is left alone.
  unfoldable pub register : Bytes → QueueId → H → Verb → VerbHandler H → VerbHandler H
  unfolding find_verb insert_verb
  register route queue_id handler verb vh = elim (find_verb verb vh.verb_handler_map) [
    | some _ ↦ vh
    | none ↦ record {
      verb_handler_map = insert_verb verb handler vh.verb_handler_map;
      path = route;
      compute_queue_id = queue_id;
    }
  ]

  unfoldable pub handle : Bytes → QueueId → H → Verb → Router H → Router H
  handle route queue_id handler verb r = record {
    routes_map = table_find_or_create route (register route queue_id handler verb) r.routes_map;
    routes = add_route (verb ∷ []) route r.routes;
  }

-- What a call of a handler is given: the handler, and the path, parameters and matched path that
-- the request gets before.
pub record Run {ℓ} (H : Type ℓ) : Type ℓ where
  pub handler : H
  pub full_path : Bytes
  pub request : Match

-- `call` runs a handler and returns `StatusOK`, or returns another code; `crash` is a view out of
-- bounds in `find`.
pub data Reply {ℓ} (H : Type ℓ) : Type ℓ where
  run : Run H → Reply H
  refuse : ErrorCode → Reply H
  crash : Reply H

-- The route without a slash at its end, and what then stands behind the piece.
abbrev pub strip_slash : Bytes → Bytes × Bytes
strip_slash route =
    if ltb 1 (length route) && get_or route (length route - 1) 0 == b'/'
    then (remove_suffix route 1, b'/' ∷ [])
    else (route, [])

abbrev pub no_match : Match
no_match = record { route_params = []; route_match_path = [] }

module _ {ℓ} {H : Type ℓ} where
  -- The handler of the verb, else that of `ANY`.
  unfoldable pub choose : Verb → VerbHandler H → Match → Reply H
  unfolding find_verb
  choose verb vh m = elim (find_verb verb vh.verb_handler_map) [
    | some h ↦ run (record { handler = h; full_path = vh.path; request = m })
    | none ↦ elim (find_verb any vh.verb_handler_map) [
      | some h ↦ run (record { handler = h; full_path = vh.path; request = m })
      | none ↦ refuse status_route_verb_not_implment
    ]
  ]

  reply : Verb → Outcome H × Match → Reply H
  reply verb (found vh, m) = choose verb vh m
  reply verb (missing, m) = refuse status_route_not_found
  reply verb (fault, m) = crash

  unfoldable pub call : Verb → Bytes → Router H → Reply H
  unfolding reply
  call verb route r =
      let (route2, beyond) = strip_slash route in
      reply verb (find route2 beyond r.routes_map.root no_match)

-- `all_routes`: the verbs of each leaf, with its path.
unfoldable pub listed_routes {ℓ} : {H : Type ℓ} → Router H → List (Bytes × Bytes)
unfolding verb_to_str
listed_routes {H} r = listed (all_routes [] r.routes_map.root)
  where
    pairs : Bytes → List (Verb × H) → List (Bytes × Bytes)
    pairs prefix [] = []
    pairs prefix ((verb, h) ∷ m) = (verb_to_str verb, c_str prefix) ∷ pairs prefix m

    listed : List (Bytes × VerbHandler H) → List (Bytes × Bytes)
    listed [] = []
    listed ((prefix, vh) ∷ rs) = pairs prefix vh.verb_handler_map ++ listed rs
