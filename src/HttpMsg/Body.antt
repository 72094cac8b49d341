-- ===== src/HttpMsg/Body.antt =====
-- src/core/HttpMsg.cc, src/base/Compress.cc: the body of a request and what is read of it, and the
-- body of a response.
--
-- The loops over zlib's streams are a parameter: what they make of bytes, if they do. So is the text
-- of a body without its chunks. JSON is a library's: its parser and its texts are parameters.
pub mod Transfer
use wfrest.Base.{
  Bool, true, false, not, ◌&&◌, List, [], ◌∷◌, ◌++◌, Option, none, some, if◌then◌else◌, Bytes,
  codes,
}
use wfrest.HeaderMap
use wfrest.UriUtil.{parse_post_kv, split_cookie}
use wfrest.Map
use wfrest.HttpContent.{parse_multipart}
use wfrest.HttpDef.{HttpContentType, application_json, application_urlencoded, multipart_form_data}
use wfrest.HttpMsg.{header, behind}

abbrev is_empty {ℓ} : {A : Type ℓ} → List A → Bool
is_empty [] = true
is_empty (a ∷ s) = false

-- `find("gzip") != npos`.
unfoldable pub names_gzip : Bytes → Bool
unfolding behind
names_gzip value = elim (behind (codes "gzip") value) [ none ↦ false | some _ ↦ true ]

pub or_plain : Option Bytes → Bytes → Bytes
or_plain none str = str
or_plain (some bytes) str = bytes

-- What a call leaves: `StatusOK` and the bytes, or an error.
module _ (deflate : Bytes → Option Bytes) where
  -- `Compressor::gzip`: it is an error that there are no bytes.
  unfoldable pub gzip : Bytes → Option Bytes
  gzip [] = none
  gzip (c ∷ s) = deflate (c ∷ s)

  -- `HttpResp::compress`: the status is good, and what is put into the new string.
  compress_by : Option Bytes → Bytes → Option Bytes
  unfolding gzip names_gzip
  compress_by none str = none
  compress_by (some encoding) str = if names_gzip encoding then gzip str else some []

  unfoldable pub compress : List (Bytes × Bytes) → Bytes → Option Bytes
  unfolding compress_by HeaderMap.find
  compress headers str = compress_by (HeaderMap.find (codes "Content-Encoding") headers) str

  -- `HttpResp::String`: what it appends to the body.
  unfoldable pub string_body : List (Bytes × Bytes) → Bytes → Bytes
  unfolding compress or_plain
  string_body headers str = or_plain (compress headers str) str

module _ (inflate : Bytes → Option Bytes) where
  -- `Compressor::ungzip`.
  unfoldable pub ungzip : Bytes → Option Bytes
  ungzip [] = some []
  ungzip (c ∷ s) = inflate (c ∷ s)

  pub decoded : Bool → Bytes → Bytes
  unfolding ungzip or_plain
  decoded true content = or_plain (ungzip content) content
  decoded false content = content

  -- `HttpReq::body`; `cached` is the body so far.
  unfoldable pub body : List (Bytes × List Bytes) → Bytes → Bytes → Bytes
  unfolding decoded names_gzip header
  body headers content cached =
      if is_empty cached
      then decoded (names_gzip (header (codes "Content-Encoding") headers)) content
      else cached

-- `ReqData`: what has been read of the request so far. `J` is the type of JSON values.
pub record ReqData {ℓ} (J : Type ℓ) : Type ℓ where
  pub cached_body : Bytes
  pub form_kv_ : List (Bytes × Bytes)
  pub form_ : List (Bytes × (Bytes × Bytes))
  pub json_ : J

is_urlencoded : HttpContentType → Bool
is_urlencoded application_urlencoded = true
is_urlencoded _ = false

is_form_data : HttpContentType → Bool
is_form_data multipart_form_data = true
is_form_data _ = false

is_json : HttpContentType → Bool
is_json application_json = true
is_json _ = false

module _ {ℓ} {J : Type ℓ} (inflate : Bytes → Option Bytes) (headers : List (Bytes × List Bytes))
    (content : Bytes) where
  unfoldable pub read_body : ReqData J → ReqData J
  unfolding body
  read_body d = record d { cached_body = body inflate headers content d.cached_body }

  -- `HttpReq::form_kv`, `form`, `json`: the data after the call; what the call gives is the field.
  -- An exception of the form's parser is `none`.
  unfoldable pub form_kv : HttpContentType → ReqData J → ReqData J
  unfolding read_body parse_post_kv is_urlencoded
  form_kv type d =
      let read = read_body d in
      if is_urlencoded type && is_empty d.form_kv_
      then record read { form_kv_ = parse_post_kv read.cached_body }
      else d

  set_form : ReqData J → Option (List (Bytes × (Bytes × Bytes))) → Option (ReqData J)
  set_form d none = none
  set_form d (some f) = some (record d { form_ = f })

  unfoldable pub form : HttpContentType → Bytes → ReqData J → Option (ReqData J)
  unfolding read_body parse_multipart is_form_data set_form
  form type boundary d =
      let read = read_body d in
      if is_form_data type && is_empty d.form_
      then set_form read (parse_multipart boundary read.cached_body)
      else some d

  set_json : ReqData J → Option J → ReqData J
  set_json d none = d
  set_json d (some j) = record d { json_ = j }

  -- What the parser does not accept leaves the value as it is.
  unfoldable pub json : (Bytes → Option J) → (J → Bool) → HttpContentType → ReqData J → ReqData J
  unfolding read_body is_json set_json
  json parse empty type d =
      let read = read_body d in
      if is_json type && empty d.json_ then set_json read (parse read.cached_body) else d

-- `HttpReq::cookies`, on what has been read of them so far.
unfoldable pub cookies : List (Bytes × List Bytes) → List (Bytes × Bytes) → List (Bytes × Bytes)
unfolding HeaderMap.contains header split_cookie
cookies headers read =
    if is_empty read && HeaderMap.contains (codes "Cookie") headers
    then split_cookie (header (codes "Cookie") headers)
    else read

or_not_found : Option Bytes → Bytes
or_not_found none = []
or_not_found (some value) = value

unfoldable pub cookie : Bytes → List (Bytes × List Bytes) → List (Bytes × Bytes) → Bytes
unfolding cookies Map.find or_not_found
cookie key headers read = or_not_found (Map.find key (cookies headers read))
