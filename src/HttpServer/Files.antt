-- ===== src/HttpServer/Files.antt =====
-- What a server that serves the files of a directory sends.
use wfrest.Base.{
  ℕ, ◌≡◌, refl, ap, ◌∙◌, true, false, [], ◌∷◌, ◌++◌, Option, none, some, ◌==◌, get_or-pred, c_str,
  equal, Bytes, codes, All-append, arith,
}
use mathlib.Core.List.{append-nil}
use mathlib.Core.Logic.{if_pos}
use wfrest.CodeUtil.Plain.{IsPlain, IsText, plain-IsText, c_str_text, c_str_plain}
use wfrest.Verb.{get, str_to_verb, Verb-discrete}
use wfrest.HttpMsg.{header, fill_content_type}
use wfrest.RouteTable.{
  VerbHandler, no_queue, Children, node, nil, lookup, all_routes, table_find_or_create, Match,
}
use wfrest.RouteTable.Lookup.{is_solid}
use wfrest.RouteTable.Star.{IsLevel, starts_level, star_node, find-star, lookup-create_star}
use wfrest.Router.{Router, run, call, choose, handle, register, find_verb, no_match}
use wfrest.Router.Dispatch.{solid-last, strip_slash_solid}
use wfrest.BluePrint.{prefixed, add_leaf, add_blueprint}
use wfrest.HttpServer.{
  Uri, Incoming, runs, FileHandler, is_empty, query_of, process, static_handler, static, is_thrown,
}
use wfrest.HttpServer.Requests.{headers_of, host_of, process-call, content_of}

-- The path below a prefix of one level.
abbrev pub below : Bytes → Bytes → Bytes
below name path = b'/' ∷ (name ++ b'/' ∷ path)

level-solid : (d : ℕ) (s : Bytes) → IsLevel (d ∷ s) → is_solid (d ∷ s) ≡ true
level-solid d [] h = ground arith
level-solid d (e ∷ s) h = level-solid e s h.1

prefixed-level :
    (d : ℕ) (s path : Bytes) → IsLevel (d ∷ s) → prefixed (b'/' ∷ d ∷ s) path ≡ below (d ∷ s) path
unfolding prefixed
prefixed-level d s path level =
    rw (get_or-pred b'/' s d 0) (rw (solid-last d s (level-solid d s level)) refl)

-- The record of the route that serves the files.
abbrev served : Bytes → Bytes → VerbHandler FileHandler
served root path = record {
  verb_handler_map = (get, static_handler root false) ∷ [];
  path = path;
  compute_queue_id = no_queue;
}

static-leaf :
    (relative_path root : Bytes) (r : Router FileHandler)
    → static relative_path root (some false) r
      ≡ add_leaf relative_path (codes "*", served root (codes "/*")) r
unfolding static add_blueprint all_routes handle register c_str
static-leaf relative_path root r = refl

choose-served :
    (root path : Bytes) (m : Match)
    → choose get (served root path) m
      ≡ run (record { handler = static_handler root false; full_path = path; request = m })
unfolding choose
choose-served root path m = rw (first, choose) refl
  where
    first : find_verb get ((get, static_handler root false) ∷ []) ≡ some (static_handler root false)
    first = unfold find_verb in if_pos (Verb-discrete get get) refl _ _

-- What the router holds once the files are served.
static-root :
    (d : ℕ) (s root : Bytes) (r : Router FileHandler) (v : VerbHandler FileHandler)
    (cs : Children FileHandler)
    → IsLevel (d ∷ s)
    → IsPlain (d ∷ s)
    → r.routes_map.root ≡ node v cs
    → lookup (d ∷ s) cs ≡ none
    → (grown : Children FileHandler) × ((static (b'/' ∷ d ∷ s) root (some false) r).routes_map.root
        ≡ node v grown)
      × (lookup (d ∷ s) grown ≡ some (star_node (served root (below (d ∷ s) (codes "*")))))
unfolding add_leaf table_find_or_create
static-root d s root r v cs level plain top free =
    let path = below (d ∷ s) (codes "*") in
    let text : IsText path = (
      refl,
      All-append (λ c. (c == 0) ≡ false) (d ∷ s) (codes "/*") (plain-IsText (d ∷ s) plain)
          (refl, (refl, tt)),
    ) in
    let (grown, made, there) =
      lookup-create_star (d ∷ s) (λ vh. served root path) v cs level free in
    (
      grown,
      ap (λ q. q.routes_map.root) (static-leaf (b'/' ∷ d ∷ s) root r)
          ∙ rw (prefixed-level d s (codes "*") level, add_leaf)
              (rw (c_str_text path text) (rw (c_str_text path text) (rw top made))),
      there,
    )

pub matched : Bytes → Match
matched path = record { route_params = []; route_match_path = path }

-- A request for a path below the prefix.
call-static :
    (d : ℕ) (s root p tail : Bytes) (r : Router FileHandler) (v : VerbHandler FileHandler)
    (cs : Children FileHandler)
    → IsLevel (d ∷ s)
    → IsPlain (d ∷ s)
    → r.routes_map.root ≡ node v cs
    → lookup (d ∷ s) cs ≡ none
    → IsLevel p
    → equal (codes "*") p ≡ false
    → starts_level tail ≡ true
    → IsPlain tail
    → is_solid ((d ∷ s) ++ b'/' ∷ (p ++ tail)) ≡ true
    → call get (below (d ∷ s) (p ++ tail)) (static (b'/' ∷ d ∷ s) root (some false) r)
      ≡ run (record {
        handler = static_handler root false;
        full_path = below (d ∷ s) (codes "*");
        request = matched (p ++ tail);
      })
unfolding call matched
call-static d s root p tail r v cs level plain top free is_level other starts plain_tail solid =
    let (grown, made, there) = static-root d s root r v cs level plain top free in
    let leaf = served root (below (d ∷ s) (codes "*")) in
    let text : c_str (tail ++ []) ≡ tail = rw (append-nil tail) (c_str_plain tail plain_tail) in
    rw (strip_slash_solid d (s ++ b'/' ∷ (p ++ tail)) solid) (
      rw made (
        rw
          (find-star [] (d ∷ s) p tail v _ leaf nil grown no_match level is_level other starts
            there)
          (rw text (choose-served root (below (d ∷ s) (codes "*")) (matched (p ++ tail))))))

-- What is asked for below the prefix: the first level and what stands behind it.
pub record IsAsked (name p tail : Bytes) : Type 0 where
  pub one_level : IsLevel p
  pub no_star : equal (codes "*") p ≡ false
  pub next_level : starts_level tail ≡ true
  pub plain : IsPlain (below name (p ++ tail))
  pub plain_tail : IsPlain tail
  pub solid : is_solid (name ++ b'/' ∷ (p ++ tail)) ≡ true

-- For every parser of URIs, router whose root has no level of the prefix's name, and directory that
-- is then served below the prefix, a level of plain bytes: a GET request with a `Host`, whose
-- `Content-Type` does not make `fill_content_type` throw, and whose URI is parsed to the prefix and a path of plain bytes below it, which is not `*` at its first level and
-- does not end in a slash, runs the handler that sends the file of that path below the directory,
-- as it stands: where the path has levels `..`, so has the file's.
pub process-static :
    (parse : Bytes → Option Uri) (i : Incoming) (d : ℕ) (s root p tail : Bytes)
    (query : Option Bytes) (r : Router FileHandler) (v : VerbHandler FileHandler)
    (cs : Children FileHandler)
    → is_thrown (content_of i).1 ≡ false
    → is_empty (host_of i) ≡ false
    → parse (codes "http://" ++ (host_of i ++ i.request_uri))
      ≡ some (record { path = some (below (d ∷ s) (p ++ tail)); query = query })
    → str_to_verb i.method ≡ get
    → IsLevel (d ∷ s)
    → IsPlain (d ∷ s)
    → r.routes_map.root ≡ node v cs
    → lookup (d ∷ s) cs ≡ none
    → IsAsked (d ∷ s) p tail
    → (process parse i (static (b'/' ∷ d ∷ s) root (some false) r)
        ≡ runs
            (record {
              handler = static_handler root false;
              full_path = below (d ∷ s) (codes "*");
              request = matched (p ++ tail);
            })
            (query_of query)
            (headers_of i)
            (fill_content_type (header (codes "Content-Type") (headers_of i))))
      × (static_handler root false (p ++ tail) ≡ root ++ b'/' ∷ (p ++ tail))
unfolding static_handler
process-static parse i d s root p tail query r v cs typed host parsed verb level plain top free
      asked =
    (
      process-call parse i d (s ++ b'/' ∷ (p ++ tail)) query
          (static (b'/' ∷ d ∷ s) root (some false) r) _ typed host parsed asked.plain
          (ap (λ w. call w (below (d ∷ s) (p ++ tail)) (static (b'/' ∷ d ∷ s) root (some false) r))
              verb
            ∙ call-static d s root p tail r v cs level plain top free asked.one_level asked.no_star
                asked.next_level asked.plain_tail asked.solid),
      refl,
    )
