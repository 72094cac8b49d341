-- ===== src/HttpServerTask.antt =====
-- src/core/HttpServerTask.cc: what the server adds to a response before it is sent, and how long the
-- connection is kept alive behind it.
--
-- The message is of workflow: a parameter with the calls that are made of it. So are `split` and
-- `strip` of its `StringUtil`; `split` gives at least one piece. `keep_alive_timeo` is an `int`: its
-- 32 bits, of which those from 2^31 on are a negative number.
pub mod KeepAlive
use wfrest.Base.{
  ℕ, zero, suc, ◌+◌, ◌-◌, ◌*◌, ◌%◌, ◌^◌, Bool, true, false, not, ◌&&◌, ◌||◌, List, [], ◌∷◌, Option,
  none, some, ◌==◌, ltb, if◌then◌else◌, equal_nocase, Bytes, codes, to_string, ℤ, pos, negsuc,
  at_most, atoi,
}
use wfrest.HeaderMap
use wfrest.HttpCookie.{HttpCookie, dump}

-- What `handle` notes of the request.
pub record Request : Type 0 where
  pub req_is_alive : Bool
  pub req_has_keep_alive_header : Bool
  pub req_keep_alive : Bytes

-- `to_reply` is that the state is `WFT_STATE_TOREPLY`; the others are what the request's parser
-- says: whether it is kept alive, has such a header, and the header's value.
unfoldable pub handle : Bool → Bool → Bool → Option Bytes → Request → Request
handle false is_keep_alive has_header value r = r
handle true true true (some value) r = record {
  req_is_alive = true;
  req_has_keep_alive_header = true;
  req_keep_alive = value;
}
handle true true true none r = record r { req_is_alive = true; req_has_keep_alive_header = false }
handle true true false value r = record r { req_is_alive = true }
handle true false has_header value r = record r { req_is_alive = false }

-- What the code uses of a response message.
pub record Message {ℓ} (M : Type ℓ) : Type ℓ where
  pub add_header : Bytes → Bytes → M → M
  pub get_http_version : M → Option Bytes
  pub set_http_version : Bytes → M → M
  pub get_status_code : M → Option Bytes
  pub get_reason_phrase : M → Option Bytes
  pub set_response_status : ℤ → M → M
  pub is_chunked : M → Bool
  pub has_content_length_header : M → Bool
  pub get_output_body_size : M → ℕ
  pub has_connection_header : M → Bool
  pub is_keep_alive : M → Bool

abbrev Headers : Type 0
Headers = List (Bytes × Bytes)

set_default : Bytes → Bytes → Headers → Headers
unfolding HeaderMap.contains HeaderMap.insert
set_default key value headers =
    if HeaderMap.contains key headers then headers else HeaderMap.insert key value headers

-- `1000 * n` as an `int`.
unfoldable pub milliseconds : ℤ → ℕ
milliseconds (pos n) = 1000 * n % 2 ^ 32
milliseconds (negsuc n) = (2 ^ 32 - 1000 * (n + 1) % 2 ^ 32) % 2 ^ 32

abbrev pub keepalive_max : ℕ
keepalive_max = 300000

has_value : Option Bytes → Bool
has_value none = false
has_value (some s) = true

module _ (split : Bytes → ℕ → Bytes × List Bytes) (strip : Bytes → Bytes) where
  unfoldable pub key_of : Bytes → Bytes
  key_of kv = strip (split kv b'=').0

  second : List Bytes → Bytes
  second [] = codes "0"
  second (val ∷ arr) = val

  unfoldable pub val_of : Bytes → Bytes
  unfolding second
  val_of kv = strip (second (split kv b'=').1)

  -- The loop over the parameters; the two tests are the bits of `flag`.
  unfoldable pub read_params : ℕ → List Bytes → Bool → Bool → ℕ → ℕ
  unfolding key_of val_of equal_nocase milliseconds atoi
  read_params seq [] has_timeout has_max timeo = timeo
  read_params seq (kv ∷ params) has_timeout has_max timeo =
      elim (not has_timeout && equal_nocase (key_of kv) (codes "timeout")) [
        | true ↦ elim has_max [
          | true ↦ milliseconds (atoi (val_of kv))
          | false ↦ read_params seq params true false (milliseconds (atoi (val_of kv)))
        ]
        | false ↦ elim (not has_max && equal_nocase (key_of kv) (codes "max")) [
          | true ↦ elim (at_most (atoi (val_of kv)) seq) [
            | true ↦ 0
            | false ↦ elim has_timeout [
              | true ↦ timeo
              | false ↦ read_params seq params false true timeo
            ]
          ]
          | false ↦ read_params seq params has_timeout has_max timeo
        ]
      ]

  header_timeo : ℕ → Request → ℕ → ℕ
  unfolding read_params
  header_timeo seq r timeo =
      if r.req_has_keep_alive_header
      then (let params = split r.req_keep_alive b',' in
          read_params seq (params.0 ∷ params.1) false false timeo)
      else timeo

  -- The timeout of a connection that is kept alive: as unsigned, at most the largest.
  unfoldable pub kept_timeo : ℕ → Request → ℕ → ℕ
  unfolding header_timeo
  kept_timeo seq r timeo =
      let t = header_timeo seq r timeo in if ltb keepalive_max t then keepalive_max else t

  module _ {ℓ} {M : Type ℓ} (message : Message M) (to_format_str : ℕ → Bytes) where
    add_headers : Headers → M → M
    add_headers [] m = m
    add_headers ((name, value) ∷ headers) m = add_headers headers (message.add_header name value m)

    add_cookie_headers : List HttpCookie → M → M
    unfolding dump
    add_cookie_headers [] m = m
    add_cookie_headers (c ∷ cookies) m =
        add_cookie_headers cookies
          (message.add_header (codes "Set-Cookie") (dump to_format_str c) m)

    set_version : M → M
    unfolding has_value
    set_version m =
        if has_value (message.get_http_version m)
        then m
        else message.set_http_version (codes "HTTP/1.1") m

    status_of : Option Bytes → ℤ
    unfolding atoi
    status_of none = pos 200
    status_of (some text) = atoi text

    set_status : M → M
    unfolding has_value status_of
    set_status m =
        if has_value (message.get_status_code m) && has_value (message.get_reason_phrase m)
        then m
        else message.set_response_status (status_of (message.get_status_code m)) m

    set_length : M → M
    unfolding to_string
    set_length m =
        if message.is_chunked m || message.has_content_length_header m
        then m
        else message.add_header (codes "Content-Length")
            (to_string (message.get_output_body_size m)) m

    -- The message up to the decision on the connection.
    unfoldable pub prepare : Bytes → Headers → List HttpCookie → M → M
    unfolding set_default add_headers add_cookie_headers set_version set_status set_length
    prepare date headers cookies m =
        let filled =
          set_default (codes "Date") date
            (set_default (codes "Content-Type") (codes "text/plain") headers) in
        set_length (set_status (set_version (add_cookie_headers cookies (add_headers filled m))))

    unfoldable pub is_alive : Request → M → Bool
    is_alive r m =
        if message.has_connection_header m then message.is_keep_alive m else r.req_is_alive

    -- `message_out`: the timeout and the message that is sent.
    unfoldable pub message_out : ℕ → Request → ℕ → Bytes → Headers → List HttpCookie → M → ℕ × M
    unfolding prepare is_alive kept_timeo
    message_out seq r timeo date headers cookies m =
        let ready = prepare date headers cookies m in
        let t = if is_alive r ready then kept_timeo seq r timeo else 0 in
        (
          t,
          if message.has_connection_header ready
              then ready
              else message.add_header (codes "Connection")
                  (if t == 0 then codes "close" else codes "Keep-Alive") ready,
        )
