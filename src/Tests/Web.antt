-- ===== src/Tests/Web.antt =====
-- The theorems on routes, aspects and forms at concrete inputs.
use wfrest.Base.{
  ℕ, ◌≡◌, ◌+◌, refl, true, false, [], ◌∷◌, ◌++◌, none, some, ltb, Bytes, codes, c_str,
  if◌then◌else◌,
}
use wfrest.StringPiece.{less, starts_with}
use wfrest.StrUtil.{split_piece, trim, trim_pairs}
use wfrest.Verb.{get}
use wfrest.RouteTable.{
  VerbHandler, no_queue, Node, node, nil, cons, found, find, find_or_create, no_handler, empty_node,
  lookup, has_verbs, Children, table_find_or_create, all_routes, routes_below,
}
use wfrest.RouteTable.Paths.{equal_path, levels_below, reach_path}
use wfrest.RouteTable.Create.{stored, levels, stored-find_or_create}
use wfrest.RouteTable.Lookup.{find-stored, find-find_or_create}
use wfrest.RouteTable.Gaps.{find_below_leaf}
use wfrest.Router.{
  Router, Reply, empty_router, find_verb, insert_verb, register, handle, call, run, no_match,
  choose,
}
use wfrest.Router.Dispatch.{find_verb-insert_verb, call-handle, call-handle_twice}
use wfrest.BluePrint.{
  prefixed, add_blueprint, Aspect, aop_before, aop_process, global_before, wrap_handler,
}
use wfrest.BluePrint.Order.{guarded, aop_process-append, wrap_handler-aop_process}
use wfrest.BluePrint.Prefix.{IsBeside, call-add_blueprint}
use wfrest.HttpContent.{parse_multipart, store_pairs}
use wfrest.HttpContent.Runs.{no_cr}
use wfrest.HttpContent.Form.{
  FormPart, IsFormPart, form_text, store_parts, parse_multipart-form_text,
}

-- A tree with a leaf at `/a` and one at `/b/c`, and one more route.
abbrev set_handler : ℕ → VerbHandler ℕ → VerbHandler ℕ
set_handler h vh = record vh { verb_handler_map = (get, h) ∷ [] }

abbrev route_a : Bytes
route_a = codes "/a"

tree : Node ℕ
unfolding find_or_create
tree =
    find_or_create (codes "/b/c") (set_handler 2)
      (find_or_create route_a (set_handler 1) empty_node)

stored-find_or_create_example :
    stored route_a (find_or_create (codes "/b") (set_handler 3) tree) ≡ (
      if equal_path (levels (codes "/b")) (levels route_a)
      then set_handler 3 (stored (codes "/b") tree)
      else stored route_a tree)
stored-find_or_create_example = stored-find_or_create b'b' b'a' [] [] (set_handler 3) tree

tree-has_verbs : has_verbs (stored route_a tree) ≡ true
unfolding tree find_or_create reach_path levels_below lookup less
tree-has_verbs = refl

find-stored_example : find route_a [] tree no_match ≡ (found (stored route_a tree), no_match)
find-stored_example = find-stored [] b'a' [] tree no_match refl tree-has_verbs

find-find_or_create_example :
    (find (codes "/b") [] (find_or_create (codes "/b") (set_handler 3) tree) no_match
      ≡ (found (set_handler 3 (stored (codes "/b") tree)), no_match))
    × (equal_path (levels (codes "/b")) (levels route_a) ≡ false
        → has_verbs (stored route_a tree) ≡ true
        → find route_a [] (find_or_create (codes "/b") (set_handler 3) tree) no_match
          ≡ find route_a [] tree no_match)
find-find_or_create_example =
    find-find_or_create [] b'b' b'a' [] [] (set_handler 3) tree no_match refl refl refl

abbrev leaf_children : Children ℕ
leaf_children = cons (codes "a") (node (set_handler 1 no_handler) nil) nil

leaf-lookup : lookup (codes "a") leaf_children ≡ some (node (set_handler 1 no_handler) nil)
unfolding lookup
leaf-lookup = refl

find_below_leaf_example :
    find (codes "/a/x/y") [] (node no_handler leaf_children) no_match
    ≡ (found (set_handler 1 no_handler), no_match)
find_below_leaf_example =
    find_below_leaf [] b'a' [] (codes "x/y") (set_handler 1 no_handler) no_handler leaf_children
      no_match (refl, tt) leaf-lookup

abbrev a_started : Reply ℕ
a_started = run (record { handler = 7; full_path = route_a; request = no_match })

a-text : c_str route_a ≡ route_a
unfolding c_str
a-text = refl

nothing_stored :
    find_verb get (stored route_a (empty_router {H = ℕ}).routes_map.root).verb_handler_map ≡ none
unfolding find_verb reach_path levels_below lookup
nothing_stored = refl

call-handle_example :
    (call get route_a (handle route_a no_queue 7 get empty_router) ≡ a_started)
    × (call get (route_a ++ b'/' ∷ []) (handle route_a no_queue 7 get empty_router) ≡ a_started)
call-handle_example = call-handle b'a' [] refl get no_queue 7 empty_router a-text nothing_stored

abbrev one_route : Router ℕ
one_route = handle route_a no_queue 7 get empty_router

seven_stored : find_verb get (stored route_a one_route.routes_map.root).verb_handler_map ≡ some 7
unfolding find_verb insert_verb reach_path levels_below lookup handle register table_find_or_create
    find_or_create less c_str
seven_stored = find_verb-insert_verb get 7 [] refl

call-handle_twice_example :
    call get route_a (handle route_a no_queue 8 get one_route) ≡ call get route_a one_route
call-handle_twice_example =
    call-handle_twice b'a' [] refl get no_queue 8 7 one_route a-text seven_stored

prefixed-text : c_str (prefixed (codes "/v1") (codes "user")) ≡ codes "/v1/user"
unfolding prefixed c_str
prefixed-text = refl

path-text : c_str (codes "/v1/user") ≡ codes "/v1/user"
unfolding c_str
path-text = refl

-- A blueprint of the routes `user` and `home`.
abbrev user_blueprint : Router ℕ
user_blueprint = record empty_router {
  routes_map = record {
    root = node no_handler (
        cons (codes "user") (node (set_handler 7 no_handler) nil)
          (cons (codes "home") (node (set_handler 8 no_handler) nil) nil));
    string_pieces = [];
  };
}

user-listed :
    all_routes [] user_blueprint.routes_map.root
    ≡ [] ++ (codes "user", set_handler 7 no_handler) ∷ (codes "home", set_handler 8 no_handler) ∷ []
unfolding all_routes routes_below
user-listed = refl

home-IsBeside :
    IsBeside {H = ℕ} (codes "/v1/user") (codes "/v1") (codes "home", set_handler 8 no_handler)
unfolding IsBeside prefixed c_str equal_path levels_below
home-IsBeside = (b'v', (codes "1/home", (refl, refl, refl)))

call-add_blueprint_example :
    (call get (codes "/v1/user") (add_blueprint user_blueprint (codes "/v1") one_route)
      ≡ choose get (record (set_handler 7 no_handler) { path = codes "/v1/user" }) no_match)
    × (call get (codes "/v1/user/") (add_blueprint user_blueprint (codes "/v1") one_route)
        ≡ choose get (record (set_handler 7 no_handler) { path = codes "/v1/user" }) no_match)
call-add_blueprint_example =
    call-add_blueprint user_blueprint b'v' (codes "1/user") (codes "/v1") (codes "user")
      (set_handler 7 no_handler) get [] ((codes "home", set_handler 8 no_handler) ∷ []) one_route
      user-listed (home-IsBeside, tt) refl refl prefixed-text path-text

-- An aspect that lets a number below 3 through and adds one to it.
abbrev small : Aspect ℕ
small = record { before = λ n. (ltb n 3, n + 1); after = λ n. (true, n) }

aop_process-append_example :
    aop_process (λ n. n + 10) (small ∷ []) (small ∷ []) 1
    ≡ guarded (λ n. n + 10) (aop_before ((small ∷ []) ++ (small ∷ [])) 1)
aop_process-append_example = aop_process-append (λ n. n + 10) (small ∷ []) (small ∷ []) 1

abbrev avatar : FormPart
avatar = record {
  value = codes "form-data; name=\"me\"; filename=\"me.jpg\"";
  type_value = codes "image/jpeg";
  content = codes "jpeg";
  name = codes "me";
  filename = codes "me.jpg";
}

avatar-IsFormPart : IsFormPart avatar
unfolding IsFormPart no_cr store_pairs split_piece trim trim_pairs starts_with
avatar-IsFormPart = (refl, refl, refl, refl, refl, refl)

xyz-text : c_str (codes "xyz") ≡ codes "xyz"
unfolding c_str
xyz-text = refl

parse_multipart-form_text_example :
    parse_multipart (codes "xyz") (form_text (codes "xyz") (avatar ∷ avatar ∷ []) (codes "end"))
    ≡ some (store_parts (avatar ∷ avatar ∷ []) [])
parse_multipart-form_text_example =
    parse_multipart-form_text (codes "xyz") avatar (avatar ∷ []) (codes "end") xyz-text
      (avatar-IsFormPart, (avatar-IsFormPart, tt))

wrap_handler-aop_process_example :
    ((aop_before (small ∷ []) 1).0 ≡ true
      → aop_process (λ n. n + 10) [] (small ∷ []) 1
        ≡ (true, wrap_handler (λ n. n + 10) (small ∷ []) 1))
    × ((small.before 1).0 ≡ false
        → (aop_process (λ n. n + 10) [] (small ∷ []) 1 ≡ (false, (small.before 1).1))
          × (wrap_handler (λ n. n + 10) (small ∷ []) 1 ≡ global_before [] (small.before 1).1 + 10))
wrap_handler-aop_process_example = wrap_handler-aop_process (λ n. n + 10) small [] 1
