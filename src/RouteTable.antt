-- ===== src/RouteTable.antt =====
-- src/core/RouteTable.{h,cc}: the tree of routes, one level of a path to an edge.
--
-- A call of the source works on a piece `route` and an index `cursor`. Here it works on the bytes
-- behind the cursor, and on a flag that says whether the cursor is 0, which both functions test.
-- A function that returns a reference into the tree is the change that its caller makes there.
-- Children stand in the order of `std::map<StringPiece, …>`.
pub mod Paths
pub mod Create
pub mod Lookup
pub mod Gaps
pub mod Star
use wfrest.Base.{
  ℕ, zero, suc, ◌+◌, ◌-◌, ◌≡◌, refl, Bool, true, false, not, ◌&&◌, ◌||◌, List, [], ◌∷◌, ◌++◌,
  Option, none, some, ◌==◌, ltb, if◌then◌else◌, length, get_or, take, drop, reverse, equal, c_str,
  Bytes,
}
use wfrest.StringPiece.{less, starts_with, remove_suffix}
use wfrest.UriUtil.{Entries}
use wfrest.Map
use wfrest.Verb.{Verb}

-- `int`, of which the code uses -1 and ids.
pub data QueueId : Type 0 where
  no_queue : QueueId
  queue : ℕ → QueueId

-- `H` is the type of handlers. A node that no route ends at has a handler record of its own, with
-- an empty map; its queue id is not initialised.
pub record VerbHandler {ℓ} (H : Type ℓ) : Type ℓ where
  pub verb_handler_map : List (Verb × H)
  pub path : Bytes
  pub compute_queue_id : QueueId

mutual
  pub data Node {ℓ} (H : Type ℓ) : Type ℓ where
    node : VerbHandler H → Children H → Node H

  pub data Children {ℓ} (H : Type ℓ) : Type ℓ where
    nil : Children H
    cons : Bytes → Node H → Children H → Children H

-- What `find` writes besides its result.
pub record Match : Type 0 where
  pub route_params : Entries
  pub route_match_path : Bytes

-- The result of `find`: an iterator to a handler record, `end()`, or a read or a view outside the
-- bounds of a parameter's name.
pub data Outcome {ℓ} (H : Type ℓ) : Type ℓ where
  found : VerbHandler H → Outcome H
  missing : Outcome H
  fault : Outcome H

abbrev slash : Bytes
slash = b'/' ∷ []

abbrev is_nil : Bytes → Bool
is_nil [] = true
is_nil (c ∷ s) = false

-- The bytes behind one leading slash.
abbrev skip_slash : Bytes → Bytes
skip_slash [] = []
skip_slash (c ∷ s) = if c == b'/' then s else c ∷ s

drop_blanks : Bytes → Bytes
drop_blanks [] = []
drop_blanks (c ∷ s) = if c == b' ' then drop_blanks s else c ∷ s

-- The name in a level `{name}`, without the blanks at its ends. It is `[]` where all is blank:
-- there the loops of the source run into the braces and the length of the view wraps.
unfoldable pub brace_name : Bytes → Bytes
unfolding drop_blanks
brace_name param =
    reverse (drop_blanks (reverse (drop_blanks (take (length param - 2) (drop 1 param)))))

abbrev last_byte : Bytes → ℕ
last_byte s = get_or s (length s - 1) 0

-- A level that ends in `*`, and the level `{name}`.
unfoldable pub is_star : Bytes → Bool
is_star param = not (is_nil param) && last_byte param == b'*'

unfoldable pub is_brace : Bytes → Bool
is_brace param = ltb 2 (length param) && get_or param 0 0 == b'{' && last_byte param == b'}'

module _ {ℓ} {H : Type ℓ} where
  abbrev pub no_handler : VerbHandler H
  no_handler = record { verb_handler_map = []; path = []; compute_queue_id = no_queue }

  abbrev pub empty_node : Node H
  empty_node = node no_handler nil

  abbrev pub handler_of : Node H → VerbHandler H
  handler_of (node v cs) = v

  abbrev pub has_verbs : VerbHandler H → Bool
  has_verbs v = elim v.verb_handler_map [ [] ↦ false | _ ∷ _ ↦ true ]

  abbrev is_leaf : Children H → Bool
  is_leaf nil = true
  is_leaf (cons k n cs) = false

  unfoldable pub lookup : Bytes → Children H → Option (Node H)
  lookup k nil = none
  lookup k (cons j n cs) = if equal j k then some n else lookup k cs

  change_child : Bytes → (Node H → Node H) → Children H → Children H
  change_child k change nil = nil
  change_child k change (cons j n cs) =
      let rest = change_child k change cs in
      if equal j k then cons j (change n) cs else cons j n rest

  -- A new child, in the order of the keys.
  pub add_child : Bytes → Node H → Children H → Children H
  add_child k new_node nil = cons k new_node nil
  add_child k new_node (cons j n cs) =
      let rest = add_child k new_node cs in
      if less k j then cons k new_node (cons j n cs) else cons j n rest

  -- `children_.find(k)` and the call on the child; where there is none, on a new one.
  unfoldable pub alter : Bytes → (Node H → Node H) → Children H → Children H
  unfolding lookup change_child add_child
  alter k change cs = elim (lookup k cs) [
    | some _ ↦ change_child k change cs
    | none ↦ add_child k (change empty_node) cs
  ]

  -- `children_.insert`, which keeps an old child; a new node that is not inserted is lost.
  unfoldable pub insert_child : Bytes → Node H → Children H → Children H
  unfolding lookup add_child
  insert_child k n cs = elim (lookup k cs) [ some _ ↦ cs | none ↦ add_child k n cs ]

  -- A call on a node with the bytes `s` behind a slash, or with nothing behind it. `descend` is
  -- the call's part below the tests at its head.
  abbrev create_at :
      Bytes → (VerbHandler H → VerbHandler H) → (Children H → Children H) → Node H → Node H
  create_at [] change descend (node v cs) = node (change v) cs
  create_at (c ∷ s) change descend (node v cs) = node v (descend cs)

  -- The loop that collects `mid`, the lookup, and the call on the child.
  create_below : Bytes → Bytes → (VerbHandler H → VerbHandler H) → Children H → Children H
  unfolding alter
  create_below mid [] change cs = alter mid (λ n. create_at [] change (λ d. d) n) cs
  create_below mid (c ∷ s) change cs = elim (c == b'/') [
    | true ↦ alter mid (create_at s change (create_below [] s change)) cs
    | false ↦ create_below (mid ++ c ∷ []) s change cs
  ]

  -- `find_or_create(route, 0)` on the root.
  unfoldable pub find_or_create : Bytes → (VerbHandler H → VerbHandler H) → Node H → Node H
  unfolding insert_child create_below
  find_or_create route change (node v cs) =
      if is_nil route
      then node (change v) cs
      else if equal route slash
      then node v (insert_child slash (node (change no_handler) nil) cs)
      else node v (create_below [] (skip_slash route) change cs)

  -- The tests at the head of `find`, on a node with `rest` behind the cursor.
  visit : Bytes → (Children H → Match → Outcome H × Match) → Node H → Match → Outcome H × Match
  unfolding lookup
  visit rest below (node v cs) m =
      let deeper = below cs m in
      if (is_nil rest && has_verbs v) || is_leaf cs
      then (found v, m)
      else if is_nil rest
      then elim (lookup (b'*' ∷ []) cs) [ some n ↦ (found (handler_of n), m) | none ↦ (missing, m) ]
      else deeper

  -- The loop over the children: `mid` is the level, `tail` what `route.data() + cursor` shows as
  -- a C string, and `next` the call of `find` on a child.
  match_param :
      Bytes → Bytes → (Node H → Match → Outcome H × Match) → Children H → Match → Outcome H × Match
  unfolding is_star is_brace brace_name starts_with remove_suffix
  match_param mid tail next nil m = (missing, m)
  match_param mid tail next (cons param n cs) m =
      let others = match_param mid tail next cs m in
      let inside =
        if is_nil (brace_name param)
        then (fault, m)
        else next n
            (record m { route_params = Map.insert (brace_name param) mid m.route_params }) in
      if is_star param && starts_with mid (remove_suffix param 1)
      then (found (handler_of n), record m { route_match_path = mid ++ tail })
      else if is_brace param
      then inside
      else others

  abbrev or_params : Outcome H × Match → (Match → Outcome H × Match) → Outcome H × Match
  or_params (missing, m) params = params m
  or_params (o, m) params = (o, m)

  -- The child named `mid` first; where there is none, or nothing is found below it, the loop.
  at_level :
      Bytes → Bytes → (Node H → Match → Outcome H × Match) → Children H → Match → Outcome H × Match
  unfolding lookup match_param
  at_level mid tail next cs m = elim (lookup mid cs) [
    | some n ↦ or_params (next n m) (match_param mid tail next cs)
    | none ↦ match_param mid tail next cs m
  ]

  -- The loop that collects `mid`, and what follows it. `beyond` is what stands in the string
  -- behind the piece, since `route.data()` has no end of its own.
  find_below : Bytes → Bytes → Bytes → Children H → Match → Outcome H × Match
  unfolding at_level visit c_str
  find_below beyond mid [] cs m =
      at_level mid (c_str beyond) (visit [] (λ cs' m'. (missing, m'))) cs m
  find_below beyond mid (c ∷ s) cs m = elim (c == b'/') [
    | true ↦ at_level mid (c_str (c ∷ (s ++ beyond))) (visit (c ∷ s) (find_below beyond [] s)) cs m
    | false ↦ find_below beyond (mid ++ c ∷ []) s cs m
  ]

  -- The test for `GET("/", …)` on the root, in front of the rest.
  find_root : Bytes → Bytes → Children H → Match → Outcome H × Match
  unfolding find_below visit lookup
  find_root route beyond cs m =
      let rest = find_below beyond [] (skip_slash route) cs in
      let root_child : Outcome H × Match = elim (lookup slash cs) [
        | some n ↦ or_params (visit [] (λ cs' m'. (missing, m')) n m) rest
        | none ↦ rest m
      ] in
      if equal route slash then root_child else rest m

  -- `find(route, 0, …)` on the root.
  unfoldable pub find : Bytes → Bytes → Node H → Match → Outcome H × Match
  unfolding find_root visit
  find route beyond = visit route (find_root route beyond)

-- What `all_routes` puts between a path and the levels below it.
abbrev extend_prefix : Bytes → Bytes
extend_prefix prefix =
    if not (is_nil prefix) && not (last_byte prefix == b'/') then prefix ++ slash else prefix

-- `all_routes`: the leaves only, each with its path.
unfoldable mutual
  pub all_routes {ℓ} : {H : Type ℓ} → Bytes → Node H → List (Bytes × VerbHandler H)
  all_routes prefix (node v cs) =
      if is_leaf cs then (prefix, v) ∷ [] else routes_below (extend_prefix prefix) cs

  pub routes_below {ℓ} : {H : Type ℓ} → Bytes → Children H → List (Bytes × VerbHandler H)
  routes_below prefix nil = []
  routes_below prefix (cons k n cs) = all_routes (prefix ++ k) n ++ routes_below prefix cs

-- The pieces are kept so that one that is known is not stored twice.
pub record RouteTable {ℓ} (H : Type ℓ) : Type ℓ where
  pub root : Node H
  pub string_pieces : List (Bytes × Unit {0})

module _ {ℓ} {H : Type ℓ} where
  abbrev pub no_routes : RouteTable H
  no_routes = record { root = empty_node; string_pieces = [] }

  unfoldable pub table_find_or_create :
      Bytes → (VerbHandler H → VerbHandler H) → RouteTable H → RouteTable H
  unfolding find_or_create
  table_find_or_create route change t = record {
    root = find_or_create (c_str route) change t.root;
    string_pieces = Map.emplace (c_str route) tt t.string_pieces;
  }
