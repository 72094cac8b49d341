-- ===== src/HttpContent.antt =====
-- src/core/HttpContent.{h,cc}: the form in a multipart body, by the callbacks of the parser.
--
-- Each call of a callback that appends may start a new header, whose old one `handle_header` reads
-- first. (The bodies that are URL-encoded are in UriUtil.)
pub mod Runs
pub mod Form
use wfrest.Base.{
  ℕ, Bool, true, false, not, ◌&&◌, ◌||◌, List, [], ◌∷◌, ◌++◌, Option, none, some, ◌==◌,
  if◌then◌else◌, equal_nocase, Bytes, codes,
}
use wfrest.StringPiece.{starts_with}
use wfrest.StrUtil.{split_piece, trim, trim_pairs, as_string, quotes}
use wfrest.Map
use wfrest.MultiPartParser.{
  Parser, Answer, proceed, throw, Settings, Result, consumed, halted, returned_zero, raised,
  multipart_parser_init, multipart_parser_execute,
}

pub data Progress : Type 0 where
  mp_start : Progress
  mp_part_data_begin : Progress
  mp_header_field : Progress
  mp_header_value : Progress
  mp_headers_complete : Progress
  mp_part_data : Progress
  mp_part_data_end : Progress
  mp_body_end : Progress

-- `multipart_parser_userdata`.
pub record Userdata : Type 0 where
  pub mp : List (Bytes × (Bytes × Bytes))
  pub state : Progress
  pub header_field : Bytes
  pub header_value : Bytes
  pub part_data : Bytes
  pub name : Bytes
  pub filename : Bytes

abbrev pub new_userdata : Userdata
new_userdata = record {
  mp = [];
  state = mp_start;
  header_field = [];
  header_value = [];
  part_data = [];
  name = [];
  filename = [];
}

abbrev is_empty : Bytes → Bool
is_empty [] = true
is_empty (c ∷ s) = false

abbrev content_disposition : Bytes
content_disposition = codes "Content-Disposition"

-- Names with a text, unless `as_string` threw.
with_text : Option Bytes → (Bytes → Bytes × Bytes) → Option (Bytes × Bytes)
with_text none names = none
with_text (some text) names = some (names text)

-- `key = value` of a disposition. An empty value stands behind its `=`, and no closing quote is
-- that, so what stands behind the value does not matter: it is given as 0.
store_pair : List Bytes → Bytes × Bytes → Option (Bytes × Bytes)
unfolding with_text trim_pairs as_string starts_with
store_pair (key ∷ quoted ∷ []) (name, filename) =
    let value = as_string (trim_pairs b'=' 0 quoted quotes) in
    if starts_with key (codes "name")
    then with_text value (λ v. (v, filename))
    else if starts_with key (codes "filename")
    then with_text value (λ v. (name, v))
    else some (name, filename)
store_pair _ names = some names

-- The loop over the dispositions; `none` is an exception of `as_string`.
unfoldable pub store_pairs : List Bytes → Bytes × Bytes → Option (Bytes × Bytes)
unfolding store_pair split_piece trim
store_pairs [] names = some names
store_pairs (dispo ∷ dispos) names = elim (store_pair (split_piece (trim dispo) b'=') names) [
  | none ↦ none
  | some names' ↦ store_pairs dispos names'
]

unfoldable pub handle_header : Userdata → Option Userdata
unfolding equal_nocase split_piece store_pairs
handle_header u =
    if is_empty u.header_field || is_empty u.header_value
    then some u
    else if equal_nocase u.header_field content_disposition
    then elim (store_pairs (split_piece u.header_value b';') (u.name, u.filename)) [
      | none ↦ none
      | some names ↦
          some
            (record u { name = names.0; filename = names.1; header_field = []; header_value = [] })
    ]
    else some (record u { header_field = []; header_value = [] })

unfoldable pub handle_data : Userdata → Userdata
unfolding Map.insert
handle_data u = record u {
  mp =
      if is_empty u.name
      then u.mp
      else Map.insert {V = Bytes × Bytes} u.name (u.filename, u.part_data) u.mp;
  name = [];
  filename = [];
  part_data = [];
}

abbrev pub answer : Option Userdata → (Userdata → Userdata) → Answer Userdata
answer none next = throw
answer (some u) next = proceed (next u)

unfoldable pub header_field_cb : Bytes → Userdata → Answer Userdata
unfolding handle_header
header_field_cb buf u =
    answer (handle_header u)
      (λ v. record v { state = mp_header_field; header_field = v.header_field ++ buf })

unfoldable pub header_value_cb : Bytes → Userdata → Answer Userdata
header_value_cb buf u =
    proceed (record u { state = mp_header_value; header_value = u.header_value ++ buf })

unfoldable pub part_data_cb : Bytes → Userdata → Answer Userdata
part_data_cb buf u = proceed (record u { state = mp_part_data; part_data = u.part_data ++ buf })

unfoldable pub part_data_begin_cb : Userdata → Answer Userdata
part_data_begin_cb u = proceed (record u { state = mp_part_data_begin })

unfoldable pub headers_complete_cb : Userdata → Answer Userdata
unfolding handle_header
headers_complete_cb u = answer (handle_header u) (λ v. record v { state = mp_headers_complete })

unfoldable pub part_data_end_cb : Userdata → Answer Userdata
unfolding handle_data
part_data_end_cb u = proceed (handle_data (record u { state = mp_part_data_end }))

unfoldable pub body_end_cb : Userdata → Answer Userdata
body_end_cb u = proceed (record u { state = mp_body_end })

abbrev pub settings : Settings Userdata
settings = record {
  on_header_field = header_field_cb;
  on_header_value = header_value_cb;
  on_part_data = part_data_cb;
  on_part_data_begin = part_data_begin_cb;
  on_headers_complete = headers_complete_cb;
  on_part_data_end = part_data_end_cb;
  on_body_end = body_end_cb;
}

-- The form after the run, whatever `execute` returns; `none` is an exception.
abbrev pub form_of : Result Userdata → Option (List (Bytes × (Bytes × Bytes)))
form_of (consumed p u) = some u.mp
form_of (halted rest p u) = some u.mp
form_of (returned_zero p u) = some u.mp
form_of raised = none

unfoldable pub parse_multipart : Bytes → Bytes → Option (List (Bytes × (Bytes × Bytes)))
unfolding multipart_parser_init
parse_multipart boundary body = form_of (
    multipart_parser_execute settings body (multipart_parser_init (codes "--" ++ boundary))
      new_userdata)
