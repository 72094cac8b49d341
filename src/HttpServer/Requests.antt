-- ===== src/HttpServer/Requests.antt =====
-- A request of the server runs the handler that is registered for its path.
use wfrest.HttpDef.{HttpContentType}
use wfrest.Base.{ℕ, ◌≡◌, ap, ◌∙◌, true, false, [], ◌∷◌, ◌++◌, Option, none, some, Bytes, codes}
use wfrest.CodeUtil.Plain.{IsPlain, url_encode_plain, c_str_plain}
use wfrest.Verb.{str_to_verb}
use wfrest.HttpMsg.{header, fill_content_type, BoundaryChange}
use wfrest.RouteTable.{QueueId}
use wfrest.RouteTable.Create.{stored}
use wfrest.RouteTable.Lookup.{is_solid}
use wfrest.Router.{Router, Run, Reply, run, call, handle, find_verb, no_match}
use wfrest.Router.Dispatch.{call-handle}
use wfrest.HttpServer.{
  Uri, Incoming, runs, HeaderLists, fill_header_map, is_empty, query_of, answer, process_uri,
  process, is_thrown,
}

-- What the code takes from the request's header lines.
abbrev pub headers_of : Incoming → HeaderLists
headers_of i = fill_header_map i.header_list []

-- The content type that the request's header gives, and what becomes of the boundary.
abbrev pub content_of : Incoming → HttpContentType × BoundaryChange
content_of i = fill_content_type (header (codes "Content-Type") (headers_of i))

abbrev pub host_of : Incoming → Bytes
host_of i = header (codes "Host") (headers_of i)

module _ {ℓ} {H : Type ℓ} (parse : Bytes → Option Uri) (i : Incoming) where
  -- What `process` does with a path of plain bytes, where the URI is parsed.
  pub process-call :
      (c : ℕ) (s : Bytes) (query : Option Bytes) (r : Router H) (found : Run H)
      → is_thrown (content_of i).1 ≡ false
      → is_empty (host_of i) ≡ false
      → parse (codes "http://" ++ (host_of i ++ i.request_uri))
        ≡ some (record { path = some (b'/' ∷ c ∷ s); query = query })
      → IsPlain (b'/' ∷ c ∷ s)
      → call (str_to_verb i.method) (b'/' ∷ c ∷ s) r ≡ run found
      → process parse i r
        ≡ runs found
            (query_of query)
            (headers_of i)
            (fill_content_type (header (codes "Content-Type") (headers_of i)))
  unfolding process process_uri answer
  process-call c s query r found typed host parsed plain called =
      let route = b'/' ∷ c ∷ s in
      let verb = str_to_verb i.method in
      let reply = λ (a : Reply H).
        answer parse a (i.method ++ (b' ' ∷ route)) (query_of query) (headers_of i) in
      rw typed (
        rw host (
          rw parsed
            (ap reply (ap (λ path. call verb path r) (url_encode_plain route plain) ∙ called))))

  -- For every parser of URIs, request with a `Host` of some bytes and a `Content-Type` whose boundary,
  -- if it has one, does not make `fill_content_type` throw, router, and route of a slash and
  -- more plain bytes that does not end in a slash: if the request's URI is parsed to the route as
  -- its path, and the route has no handler for the request's verb, then once one is registered the
  -- request runs it, with the route as its full path and no parameter of the path, with the
  -- parameters of the query as `split_query` reads them, and with the request's headers and content
  -- type.
  pub process-handle :
      (c : ℕ) (s : Bytes) (query : Option Bytes) (queue_id : QueueId) (h : H) (r : Router H)
      → is_thrown (content_of i).1 ≡ false
      → is_empty (host_of i) ≡ false
      → parse (codes "http://" ++ (host_of i ++ i.request_uri))
        ≡ some (record { path = some (b'/' ∷ c ∷ s); query = query })
      → IsPlain (b'/' ∷ c ∷ s)
      → is_solid (c ∷ s) ≡ true
      → find_verb (str_to_verb i.method) (stored (b'/' ∷ c ∷ s) r.routes_map.root).verb_handler_map
        ≡ none
      → process parse i (handle (b'/' ∷ c ∷ s) queue_id h (str_to_verb i.method) r)
        ≡ runs
            (record { handler = h; full_path = b'/' ∷ c ∷ s; request = no_match })
            (query_of query)
            (headers_of i)
            (fill_content_type (header (codes "Content-Type") (headers_of i)))
  process-handle c s query queue_id h r typed host parsed plain solid free =
      let verb = str_to_verb i.method in
      process-call c s query (handle (b'/' ∷ c ∷ s) queue_id h verb r)
        (record { handler = h; full_path = b'/' ∷ c ∷ s; request = no_match }) typed host parsed
        plain (call-handle c s solid verb queue_id h r (c_str_plain (b'/' ∷ c ∷ s) plain) free).0
