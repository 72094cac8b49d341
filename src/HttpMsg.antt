-- ===== src/HttpMsg.antt =====
-- src/core/HttpMsg.cc: what a request says of itself, and the error of a response.
--
-- A request is the maps that it keeps; headers have lists of values, in the map's order. What
-- decompresses a body is a parameter, a body that cannot be decompressed is `none`.
pub mod Boundary
pub mod Body
pub mod Encoder
use wfrest.Base.{
  ℕ, Bool, true, false, ◌&&◌, List, [], ◌∷◌, ◌++◌, Option, none, some, ◌==◌, if◌then◌else◌, c_str,
  Bytes, codes, drop, length,
}
use wfrest.HeaderMap
use wfrest.Map.{find}
use wfrest.StrUtil.{trim_pairs, as_string, quotes}
use wfrest.CodeUtil.{is_url_encode, url_decode}
use wfrest.ErrorCode.{
  error_code_to_str, to_int, status_not_found, status_route_verb_not_implment,
  status_route_not_found,
}
use wfrest.HttpDef.{
  HttpContentType, to_enum, strstartswith, multipart_form_data, application_urlencoded,
}

-- A lookup with what is given where there is none; `string_not_found` is the empty string.
abbrev or_default : Option Bytes → Bytes → Bytes
or_default none d = d
or_default (some v) d = v

-- `param` and `query`.
unfoldable pub param : Bytes → List (Bytes × Bytes) → Bytes
unfolding find
param key params = or_default (find key params) []

unfoldable pub default_query : Bytes → Bytes → List (Bytes × Bytes) → Bytes
unfolding find
default_query key default_val params = or_default (find key params) default_val

first_value : Option (List Bytes) → Bytes
first_value none = []
first_value (some []) = []
first_value (some (v ∷ vs)) = v

unfoldable pub header : Bytes → List (Bytes × List Bytes) → Bytes
unfolding HeaderMap.find first_value
header key headers = first_value (HeaderMap.find key headers)

-- `strstr`: what is behind the first place of a text.
unfoldable pub behind : Bytes → Bytes → Option Bytes
unfolding strstartswith
behind text [] = if strstartswith [] text then some [] else none
behind text (c ∷ s) =
    let rest = behind text s in
    if strstartswith (c ∷ s) text then some (drop (length text) (c ∷ s)) else rest

-- What `fill_content_type` does with the boundary: it stays, is set, or `as_string` throws. The
-- text stands behind a `=` and in front of the NUL of the string.
pub data BoundaryChange : Type 0 where
  stays : BoundaryChange
  is_set : Bytes → BoundaryChange
  throws : BoundaryChange

trimmed : Option Bytes → BoundaryChange
unfolding trim_pairs as_string
trimmed none = stays
trimmed (some text) = elim (as_string (trim_pairs b'=' 0 text quotes)) [
  | none ↦ throws
  | some boundary ↦ is_set boundary
]

is_multipart : HttpContentType → Bool
is_multipart multipart_form_data = true
is_multipart _ = false

unfoldable pub fill_content_type : Bytes → HttpContentType × BoundaryChange
unfolding to_enum behind trimmed is_multipart c_str
fill_content_type content_type_str =
    let type = to_enum content_type_str in
    (
      type,
      if is_multipart type
          then trimmed (behind (codes "boundary=") (c_str content_type_str))
          else stays,
    )

-- The `Content-Type` of a response that is encoded as a form, `HttpResp::String`.
unfoldable pub encoder_content_type : Bytes → Bytes
encoder_content_type boundary = codes "multipart/form-data; boundary=" ++ boundary

-- `HttpResp::Error`: the status code and the message of its JSON.
is_not_found : ℕ → Bool
unfolding to_int
is_not_found code =
    if code == to_int status_not_found
    then true
    else if code == to_int status_route_verb_not_implment
    then true
    else code == to_int status_route_not_found

with_errmsg : Bytes → Bytes → Bytes
with_errmsg text [] = text
with_errmsg text (c ∷ s) = text ++ (codes " : " ++ c ∷ s)

unfoldable pub error_response : ℕ → Bytes → ℕ × Bytes
unfolding is_not_found with_errmsg
error_response error_code errmsg =
    let resp_msg = with_errmsg (error_code_to_str error_code) errmsg in
    (
      if is_not_found error_code then 404 else 503,
      if is_url_encode errmsg then url_decode resp_msg else resp_msg,
    )
