-- ===== src/Router/Dispatch.antt =====
-- A request is answered by the handler that was registered first for its route and verb.
use wfrest.Base.{
  ℕ, ◌≡◌, ◌≢◌, refl, sym, ◌∙◌, true, false, List, [], ◌∷◌, ◌++◌, ◌==◌, arith, Bytes, some, none,
  c_str, length, length-append, get_or, get_or-last, take-init, get_or-pred, ◌-◌,
}
use wfrest.StringPiece.{remove_suffix}
use wfrest.Verb.{Verb}
use wfrest.RouteTable.{VerbHandler, QueueId, Match, has_verbs, table_find_or_create}
use wfrest.RouteTable.Paths.{equal_path_refl}
use wfrest.RouteTable.Create.{stored, levels, stored-find_or_create}
use wfrest.RouteTable.Lookup.{is_solid, find-stored}
use wfrest.Router.{
  find_verb, insert_verb, Router, register, handle, run, strip_slash, no_match, choose, call,
}

module _ {ℓ} {V : Type ℓ} where
  pub find_verb-insert_verb :
      (verb : Verb) (h : V) (m : List (Verb × V))
      → find_verb verb m ≡ none
      → find_verb verb (insert_verb verb h m) ≡ some h
  unfolding find_verb insert_verb
  find_verb-insert_verb verb h [] e = ground arith
  find_verb-insert_verb verb h ((w, g) ∷ m) e = ground (arith, find_verb-insert_verb verb h m)

  find_verb-has_verbs :
      (verb : Verb) (m : List (Verb × V)) (h : V) → find_verb verb m ≡ some h → m ≢ []
  unfolding find_verb
  find_verb-has_verbs verb [] h e = cc
  find_verb-has_verbs verb (x ∷ m) h e = λ k. cc

nonempty {ℓ} : {V : Type ℓ} (m : List V) → m ≢ [] → (elim m [ [] ↦ false | _ ∷ _ ↦ true ]) ≡ true
nonempty [] ne = elim (ne refl) [ ]
nonempty (x ∷ m) ne = refl

some-has_verbs {ℓ} :
    {H : Type ℓ} (verb : Verb) (vh : VerbHandler H) (h : H)
    → find_verb verb vh.verb_handler_map ≡ some h
    → has_verbs vh ≡ true
some-has_verbs verb vh h e =
    nonempty vh.verb_handler_map (find_verb-has_verbs verb vh.verb_handler_map h e)

pub solid-last :
    (c : ℕ) (s : Bytes)
    → is_solid (c ∷ s) ≡ true
    → (get_or (c ∷ s) (length (c ∷ s) - 1) 0 == b'/') ≡ false
solid-last c [] h = ground arith
solid-last c (d ∷ s) h = rw (get_or-pred c s d 0) (solid-last d s h)

pub strip_slash_solid :
    (c : ℕ) (s : Bytes) → is_solid (c ∷ s) ≡ true → strip_slash (b'/' ∷ c ∷ s) ≡ (b'/' ∷ c ∷ s, [])
strip_slash_solid c s h = ground (arith, solid-last c s h, get_or-pred b'/' s c 0)

strip_slash_slash :
    (c : ℕ) (s : Bytes) → strip_slash ((b'/' ∷ c ∷ s) ++ b'/' ∷ []) ≡ (b'/' ∷ c ∷ s, b'/' ∷ [])
unfolding remove_suffix
strip_slash_slash c s =
    let route = b'/' ∷ c ∷ s in
    ground (arith, get_or-last route b'/' 0, take-init route b'/', length-append s (b'/' ∷ []))

module _ {ℓ} {H : Type ℓ} (c : ℕ) (s : Bytes) (solid : is_solid (c ∷ s) ≡ true) (verb : Verb) where
  -- What `register` does to a record without a handler for the verb, and to one with it.
  abbrev new_record : Bytes → QueueId → H → VerbHandler H → VerbHandler H
  new_record route queue_id h vh = record {
    verb_handler_map = insert_verb verb h vh.verb_handler_map;
    path = route;
    compute_queue_id = queue_id;
  }

  register_free :
      (route : Bytes) (queue_id : QueueId) (h : H) (vh : VerbHandler H)
      → find_verb verb vh.verb_handler_map ≡ none
      → register route queue_id h verb vh ≡ new_record route queue_id h vh
  unfolding register insert_verb
  register_free route queue_id h vh e = rw (e, register) refl

  register_old :
      (route : Bytes) (queue_id : QueueId) (h : H) (vh : VerbHandler H) (first : H)
      → find_verb verb vh.verb_handler_map ≡ some first
      → register route queue_id h verb vh ≡ vh
  unfolding register
  register_old route queue_id h vh first e = rw (e, register) refl

  choose_first :
      (vh : VerbHandler H) (h : H) (m : Match)
      → find_verb verb vh.verb_handler_map ≡ some h
      → choose verb vh m ≡ run (record { handler = h; full_path = vh.path; request = m })
  unfolding choose
  choose_first vh h m e = rw (e, choose) refl

  -- A request for a route that has handlers, with or without a slash at its end.
  pub call-stored :
      (r : Router H)
      → has_verbs (stored (b'/' ∷ c ∷ s) r.routes_map.root) ≡ true
      → (call verb (b'/' ∷ c ∷ s) r
          ≡ choose verb (stored (b'/' ∷ c ∷ s) r.routes_map.root) no_match)
        × (call verb ((b'/' ∷ c ∷ s) ++ b'/' ∷ []) r
            ≡ choose verb (stored (b'/' ∷ c ∷ s) r.routes_map.root) no_match)
  unfolding call
  call-stored r verbs =
      let root = r.routes_map.root in
      (
        rw (strip_slash_solid c s solid) (rw (find-stored [] c s root no_match solid verbs)),
        rw (strip_slash_slash c s) (rw (find-stored (b'/' ∷ []) c s root no_match solid verbs)),
      )

  -- What the table holds at the route after a registration.
  stored-handle :
      (queue_id : QueueId) (h : H) (r : Router H)
      → c_str (b'/' ∷ c ∷ s) ≡ b'/' ∷ c ∷ s
      → stored (b'/' ∷ c ∷ s) (handle (b'/' ∷ c ∷ s) queue_id h verb r).routes_map.root
        ≡ register (b'/' ∷ c ∷ s) queue_id h verb (stored (b'/' ∷ c ∷ s) r.routes_map.root)
  unfolding handle table_find_or_create
  stored-handle queue_id h r text =
      let route = b'/' ∷ c ∷ s in
      let change = register route queue_id h verb in
      rw text (
        stored-find_or_create c c s s change r.routes_map.root
        ∙ rw (equal_path_refl (levels route)))

  -- For every router, route of a slash and more bytes without NUL that does not end in a slash, and
  -- verb: if the route has no handler for the verb, then once one is registered a request for the
  -- route, with or without a slash at its end, runs it, with the route as its full path and with no
  -- parameter.
  pub call-handle :
      (queue_id : QueueId) (h : H) (r : Router H)
      → c_str (b'/' ∷ c ∷ s) ≡ b'/' ∷ c ∷ s
      → find_verb verb (stored (b'/' ∷ c ∷ s) r.routes_map.root).verb_handler_map ≡ none
      → let started = run (record { handler = h; full_path = b'/' ∷ c ∷ s; request = no_match }) in
        let grown = handle (b'/' ∷ c ∷ s) queue_id h verb r in
        (call verb (b'/' ∷ c ∷ s) grown ≡ started)
        × (call verb ((b'/' ∷ c ∷ s) ++ b'/' ∷ []) grown ≡ started)
  call-handle queue_id h r text free =
      let route = b'/' ∷ c ∷ s in
      let grown = handle route queue_id h verb r in
      let old = (stored route r.routes_map.root).verb_handler_map in
      let put = find_verb-insert_verb verb h old free in
      let kept : stored route grown.routes_map.root
          ≡ new_record route queue_id h (stored route r.routes_map.root) =
        stored-handle queue_id h r text
        ∙ register_free route queue_id h (stored route r.routes_map.root) free in
      let found =
        choose_first (new_record route queue_id h (stored route r.routes_map.root)) h no_match
          put in
      let verbs =
        some-has_verbs verb (new_record route queue_id h (stored route r.routes_map.root)) h put in
      let (bare, slashed) = call-stored grown (rw kept verbs) in
      (bare ∙ rw kept found, slashed ∙ rw kept found)

  -- For every router, route of a slash and more bytes without NUL that does not end in a slash,
  -- and verb: if the route has a handler for the verb already, a second registration changes no
  -- answer to a request for the route and the verb.
  pub call-handle_twice :
      (queue_id : QueueId) (h first : H) (r : Router H)
      → c_str (b'/' ∷ c ∷ s) ≡ b'/' ∷ c ∷ s
      → find_verb verb (stored (b'/' ∷ c ∷ s) r.routes_map.root).verb_handler_map ≡ some first
      → call verb (b'/' ∷ c ∷ s) (handle (b'/' ∷ c ∷ s) queue_id h verb r)
        ≡ call verb (b'/' ∷ c ∷ s) r
  call-handle_twice queue_id h first r text old =
      let route = b'/' ∷ c ∷ s in
      let grown = handle route queue_id h verb r in
      let kept : stored route grown.routes_map.root ≡ stored route r.routes_map.root =
        stored-handle queue_id h r text
        ∙ register_old route queue_id h (stored route r.routes_map.root) first old in
      let verbs = some-has_verbs verb (stored route r.routes_map.root) first old in
      (call-stored grown (rw kept verbs)).0 ∙ rw kept (sym (call-stored r verbs).0)
