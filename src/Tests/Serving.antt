-- ===== src/Tests/Serving.antt =====
-- The theorems on the server's requests and responses at concrete inputs.
use wfrest.Base.{
  ℕ, ◌≡◌, refl, true, false, List, [], ◌∷◌, ◌++◌, map, Option, none, some, ◌==◌, if◌then◌else◌,
  Bytes, codes, pos,
}
use wfrest.StrUtil.{split_piece}
use wfrest.HttpCookie.{HttpCookie, none_site, dump}
use wfrest.HttpCookie.Dump.{attributes, split_piece-dump}
use wfrest.HttpServerTask.{Request, Message}
use wfrest.HttpMsg.Body.{names_gzip, ungzip, string_body, body}
use wfrest.HttpMsg.Body.Transfer.{Inverse, body-string_body}
use wfrest.HttpMsg.{header, fill_content_type}
use wfrest.CodeUtil.{is_plain}
use wfrest.CodeUtil.Plain.{IsPlain}
use wfrest.RouteTable.{no_queue, no_handler, nil, lookup}
use wfrest.RouteTable.Create.{stored}
use wfrest.RouteTable.Paths.{reach_path, levels_below}
use wfrest.Router.{empty_router, handle, no_match, find_verb}
use wfrest.Verb.{get, str_to_verb}
use wfrest.HttpServer.{
  Uri, Incoming, runs, FileHandler, is_empty, query_of, process, static_handler, static,
  fill_header_map, is_thrown,
}
use wfrest.HttpServer.Requests.{headers_of, host_of, process-handle, content_of}
use wfrest.HttpServer.Files.{below, matched, IsAsked, process-static}

abbrev session_cookie : HttpCookie
session_cookie = record {
  key = codes "id";
  value = codes "7";
  domain = [];
  path = codes "/";
  expires = 5;
  max_age = pos 60;
  secure = false;
  http_only = true;
  same_site = none_site;
}

abbrev no_time : ℕ → Bytes
no_time t = codes "Thu"

split_piece-dump_example :
    split_piece (dump no_time session_cookie) b';'
    ≡ (codes "id" ++ b'=' ∷ codes "7") ∷ map (◌∷◌ b' ') (attributes no_time session_cookie)
split_piece-dump_example =
    split_piece-dump no_time session_cookie
      ((refl, (refl, tt)), (refl, tt), tt, (refl, tt), (refl, (refl, (refl, tt))))

-- A message as the list of its headers.
abbrev header_message : Message (List (Bytes × Bytes))
header_message = record {
  add_header = λ name value m. m ++ (name, value) ∷ [];
  get_http_version = λ m. some (codes "HTTP/1.1");
  set_http_version = λ version m. m;
  get_status_code = λ m. some (codes "200");
  get_reason_phrase = λ m. some (codes "OK");
  set_response_status = λ status m. m;
  is_chunked = λ m. false;
  has_content_length_header = λ m. false;
  get_output_body_size = λ m. 12;
  has_connection_header = λ m. false;
  is_keep_alive = λ m. false;
}

abbrev kept_request : Request
kept_request = record {
  req_is_alive = true;
  req_has_keep_alive_header = true;
  req_keep_alive = codes "max=9";
}

-- For a text without commas and one `=` behind three bytes.
abbrev three_split : Bytes → ℕ → Bytes × List Bytes
three_split s sep = if sep == b'=' then (codes "max", codes "9" ∷ []) else (s, [])

abbrev same_text : Bytes → Bytes
same_text s = s

-- Streams that put a byte in front and take it away.
abbrev marked : Bytes → Option Bytes
marked s = some (31 ∷ s)

abbrev unmarked : Bytes → Option Bytes
unmarked [] = none
unmarked (c ∷ s) = some s

marked-Inverse : Inverse marked unmarked
marked-Inverse c s = (31 ∷ c ∷ s, refl, unfold ungzip in refl)

body-string_body_example :
    let name = codes "Content-Encoding" in
    (body unmarked [] (string_body marked [] (codes "hi")) [] ≡ codes "hi")
    × (body unmarked
          ((name, codes "gzip" ∷ []) ∷ [])
          (string_body marked ((name, codes "gzip") ∷ []) (codes "hi"))
          []
        ≡ (if names_gzip (codes "gzip") then codes "hi" else []))
body-string_body_example =
    body-string_body marked unmarked (codes "hi") (codes "gzip") marked-Inverse

abbrev page_request : Incoming
page_request = record {
  method = codes "GET";
  request_uri = codes "/a?x=1";
  header_list = (codes "host", codes "h") ∷ [];
}

abbrev to_page : Bytes → Option Uri
to_page uri = some (record { path = some (codes "/a"); query = some (codes "x=1") })

host_of-page_request : is_empty (host_of page_request) ≡ false
unfolding header fill_header_map
host_of-page_request = refl

page_request-typed : is_thrown (content_of page_request).1 ≡ false
unfolding is_thrown fill_content_type header fill_header_map
page_request-typed = refl

slash_plain : is_plain b'/' ≡ true
unfolding is_plain
slash_plain = refl

s-IsPlain : IsPlain (codes "s")
unfolding is_plain
s-IsPlain = (refl, tt)

get_verb : str_to_verb (codes "GET") ≡ get
unfolding str_to_verb
get_verb = refl

a-IsPlain : IsPlain (codes "a")
unfolding is_plain
a-IsPlain = (refl, tt)

no_page :
    find_verb
      (str_to_verb (codes "GET"))
      (stored (codes "/a") (empty_router {H = ℕ}).routes_map.root).verb_handler_map
    ≡ none
unfolding find_verb reach_path levels_below lookup
no_page = refl

process-handle_example :
    process {H = ℕ} to_page page_request
      (handle (codes "/a") no_queue 5 (str_to_verb (codes "GET")) empty_router)
    ≡ runs
        (record { handler = 5; full_path = codes "/a"; request = no_match })
        (query_of (some (codes "x=1")))
        (headers_of page_request)
        (fill_content_type (header (codes "Content-Type") (headers_of page_request)))
process-handle_example =
    process-handle to_page page_request b'a' [] (some (codes "x=1")) no_queue 5 empty_router
      page_request-typed host_of-page_request refl (slash_plain, a-IsPlain) refl no_page

abbrev secret_path : Bytes
secret_path = codes "/s/../k"

abbrev secret_request : Incoming
secret_request = record {
  method = codes "GET";
  request_uri = secret_path;
  header_list = (codes "Host", codes "h") ∷ [];
}

abbrev to_secret : Bytes → Option Uri
to_secret uri = some (record { path = some secret_path; query = none })

host_of-secret_request : is_empty (host_of secret_request) ≡ false
unfolding header fill_header_map
host_of-secret_request = refl

secret_request-typed : is_thrown (content_of secret_request).1 ≡ false
unfolding is_thrown fill_content_type header fill_header_map
secret_request-typed = refl

secret-IsAsked : IsAsked (codes "s") (codes "..") (codes "/k")
unfolding is_plain
secret-IsAsked = record {
  one_level = (refl, (refl, tt));
  no_star = refl;
  next_level = refl;
  plain = (refl, (refl, (refl, (refl, (refl, (refl, (refl, tt)))))));
  plain_tail = (refl, (refl, tt));
  solid = refl;
}

no_files : lookup {H = FileHandler} (codes "s") nil ≡ none
unfolding lookup
no_files = refl

process-static_example :
    (process to_secret secret_request (static (codes "/s") (codes "/www") (some false) empty_router)
      ≡ runs
          (record {
            handler = static_handler (codes "/www") false;
            full_path = below (codes "s") (codes "*");
            request = matched (codes "../k");
          })
          (query_of none)
          (headers_of secret_request)
          (fill_content_type (header (codes "Content-Type") (headers_of secret_request))))
    × (static_handler (codes "/www") false (codes "../k") ≡ codes "/www" ++ b'/' ∷ codes "../k")
process-static_example =
    process-static to_secret secret_request b's' [] (codes "/www") (codes "..") (codes "/k") none
      empty_router no_handler nil secret_request-typed host_of-secret_request refl get_verb
      (refl, tt) s-IsPlain refl no_files secret-IsAsked
