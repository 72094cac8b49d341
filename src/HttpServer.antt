-- ===== src/HttpServer.antt =====
-- src/core/HttpServer.{h,cc}: a request on its way to its handler, and the serving of files.
--
-- The parser of URIs is workflow's, a parameter: a path and a query of the URI, as C strings, or
-- nothing. A handler is a value of `H`; to run it is the caller's part, as is the function `track`.
pub mod Requests
pub mod Files
use wfrest.Base.{
  ℕ, Bool, true, false, ◌&&◌, List, [], ◌∷◌, ◌++◌, Option, none, some, if◌then◌else◌, Bytes, codes,
}
use wfrest.ErrorCode.{ErrorCode, to_int}
use wfrest.CodeUtil.{url_encode}
use wfrest.UriUtil.{Entries, split_query}
use wfrest.Verb.{get, str_to_verb}
use wfrest.HeaderMap
use wfrest.HttpDef.{HttpContentType}
use wfrest.HttpMsg.{
  header, fill_content_type, BoundaryChange, error_response, throws, is_set, stays,
}
use wfrest.RouteTable.{QueueId, no_queue}
use wfrest.Router.{Router, Run, Reply, run, refuse, crash, call, handle, empty_router}
use wfrest.BluePrint.{add_blueprint}

abbrev HeaderLists : Type 0
HeaderLists = List (Bytes × List Bytes)

or_none : Option (List Bytes) → List Bytes
or_none none = []
or_none (some values) = values

-- `fill_header_map`: each header's value behind those of the same name.
unfoldable pub fill_header_map : List (Bytes × Bytes) → HeaderLists → HeaderLists
unfolding HeaderMap.find HeaderMap.insert or_none
fill_header_map [] headers = headers
fill_header_map ((key, value) ∷ more) headers =
    fill_header_map more
      (HeaderMap.insert key (or_none (HeaderMap.find key headers) ++ value ∷ []) headers)

pub record Uri : Type 0 where
  pub path : Option Bytes
  pub query : Option Bytes

pub record Incoming : Type 0 where
  pub method : Bytes
  pub request_uri : Bytes
  pub header_list : List (Bytes × Bytes)

-- What `process` ends with: a bad request, a handler that runs on the request's data, or an error
-- with its status and message.
pub data Processed {ℓ} (H : Type ℓ) : Type ℓ where
  bad_request : Processed H
  runs : Run H → Entries → HeaderLists → HttpContentType × BoundaryChange → Processed H
  fails : ℕ × Bytes → Processed H
  crashes : Processed H

route_of : Option Bytes → Bytes
route_of none = b'/' ∷ []
route_of (some []) = b'/' ∷ []
route_of (some (c ∷ s)) = c ∷ s

pub query_of : Option Bytes → Entries
unfolding split_query
query_of none = []
query_of (some query) = split_query query

abbrev pub is_empty : Bytes → Bool
is_empty [] = true
is_empty (c ∷ s) = false

-- Whether `fill_content_type` throws.
unfoldable pub is_thrown : BoundaryChange → Bool
is_thrown throws = true
is_thrown (is_set boundary) = false
is_thrown stays = false

module _ {ℓ} {H : Type ℓ} (parse : Bytes → Option Uri) where
  pub answer : Reply H → Bytes → Entries → HeaderLists → Processed H
  unfolding header fill_content_type error_response to_int
  answer (run r) errmsg query headers =
      runs r query headers (fill_content_type (header (codes "Content-Type") headers))
  answer (refuse code) errmsg query headers = fails (error_response (to_int code) errmsg)
  answer crash errmsg query headers = crashes

  process_uri : Option Uri → Bytes → HeaderLists → Router H → Processed H
  unfolding answer route_of query_of call str_to_verb url_encode
  process_uri none verb headers r = bad_request
  process_uri (some uri) verb headers r =
      let route = route_of uri.path in
      answer (call (str_to_verb verb) (url_encode route) r) (verb ++ (b' ' ∷ route))
        (query_of uri.query) headers

  -- `process`.
  unfoldable pub process : Incoming → Router H → Processed H
  unfolding fill_header_map header process_uri fill_content_type is_thrown
  process i r =
      let headers = fill_header_map i.header_list [] in
      let host = header (codes "Host") headers in
      if is_thrown (fill_content_type (header (codes "Content-Type") headers)).1
      then crashes
      else if is_empty host
      then bad_request
      else process_uri (parse (codes "http://" ++ (host ++ i.request_uri))) i.method headers r

-- A handler that sends a file, by the path that it makes of the matched one.
abbrev pub FileHandler : Type 0
FileHandler = Bytes → Bytes

-- The handler of `serve_static`.
unfoldable pub static_handler : Bytes → Bool → FileHandler
static_handler path is_file match_path =
    if is_file && is_empty match_path then path else path ++ (b'/' ∷ match_path)

-- `Static`: `none` is a path that is neither a directory nor a file, which is only reported.
unfoldable pub static : Bytes → Bytes → Option Bool → Router FileHandler → Router FileHandler
unfolding static_handler handle add_blueprint
static relative_path root none r = r
static relative_path root (some is_file) r =
    add_blueprint (handle (codes "/*") no_queue (static_handler root is_file) get empty_router)
      relative_path r
