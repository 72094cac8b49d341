-- ===== src/ApiTask.antt =====
-- file_compare/api/dc_api_task.{h,cc}: a task that is built from the JSON text of a request.
--
-- cJSON is a parameter: what its parser gives, and the type, the text, the number and the items of a
-- value. A text of it is a C string, without the NUL.
pub mod Outcome
pub mod Standard
pub mod Valid
use wfrest.Base.{
  ℕ, zero, suc, ◌+◌, Bool, true, false, List, [], ◌∷◌, ◌++◌, Option, none, some, ◌==◌,
  if◌then◌else◌, ◌⊎◌, ℤ, pos, negsuc, inl, inr, Bytes, codes,
}
use wfrest.CommonCode.{CommonCode, s_success, e_arg_invalid}

pub data JsonType : Type 0 where
  cjson_true cjson_false cjson_null : JsonType
  cjson_number cjson_string cjson_array cjson_object : JsonType

-- What the code uses of cJSON.
pub record CJson {ℓ} (J : Type ℓ) : Type ℓ where
  pub get_object_item : J → Bytes → Option J
  pub json_type : J → JsonType
  pub valuestring : J → Option Bytes
  pub valueint : J → ℤ
  pub items : J → List J

-- The input part of a server.
pub record ServerInfo : Type 0 where
  pub c_center : Bytes
  pub c_host : Bytes
  pub c_user : Bytes
  pub c_password : Bytes
  pub c_port : ℕ
  pub c_standard : Bool
  pub c_excluded_file_regex : List Bytes
  pub c_base_dir : Bytes
  pub c_path_to_compare : Bytes

-- The input part of a task, and its error. A standard's index of -1 is `none`.
pub record ApiTask : Type 0 where
  pub t_task_uuid : Bytes
  pub t_server_info_arr : List ServerInfo
  pub t_result_type : ℕ
  pub t_excluded_file_regex : List Bytes
  pub t_std_idx : Option ℕ
  pub t_error : CommonCode
  pub t_error_msg : Bytes

-- A part of the function goes on, returns `E_ARG_INVALID`, or fails an assertion.
pub data Built : Type 0 where
  built : ApiTask → Built
  invalid : ApiTask → Built
  asserted : Built

infixl 1 ◌>>=◌
abbrev ◌>>=◌ {ℓ κ} : {A : Type ℓ} {B : Type κ} → Option A → (A → Option B) → Option B
none >>= next = none
some a >>= next = next a

and_then : Built → (ApiTask → Built) → Built
and_then (built t) next = next t
and_then (invalid t) next = invalid t
and_then asserted next = asserted

-- `HANDLE_ERROR_MSG` and the return behind it.
unfoldable pub handle_error : Bytes → ApiTask → Built
handle_error emsg t = invalid (record t { t_error = e_arg_invalid; t_error_msg = emsg })

type_text : JsonType → Option Bytes → Option Bytes
type_text cjson_string s = s
type_text _ s = none

full : Option Bytes → Option Bytes
full none = none
full (some []) = none
full (some (c ∷ s)) = some (c ∷ s)

positive : JsonType → ℤ → Option ℕ
positive cjson_number (pos (suc n)) = some (suc n)
positive _ _ = none

truth : JsonType → Option Bool
truth cjson_true = some true
truth cjson_false = some false
truth _ = none

is_array : JsonType → Bool
is_array cjson_array = true
is_array _ = false

is_object : JsonType → Bool
is_object cjson_object = true
is_object _ = false

is_number : JsonType → Bool
is_number cjson_number = true
is_number _ = false

-- The values of `t_result_type`: `FC_TASK_RESULT_GIT_DIFF`, 0, alone.
is_result_type : ℤ → Bool
is_result_type (pos n) = n == 0
is_result_type (negsuc n) = false

module _ {ℓ} {J : Type ℓ} (cjson : CJson J) where
  -- A string of any length.
  text_of : J → Option Bytes
  unfolding type_text
  text_of j = type_text (cjson.json_type j) (cjson.valuestring j)

  -- A member that is a string with a byte.
  unfoldable pub full_text : J → Bytes → Option Bytes
  unfolding text_of full
  full_text j key = do item ← cjson.get_object_item j key; full (text_of item)

  port_of : J → Option ℕ
  unfolding positive
  port_of j = do
    item ← cjson.get_object_item j (codes "port")
    positive (cjson.json_type item) (cjson.valueint item)

  standard_of : J → Option Bool
  unfolding truth
  standard_of j = do item ← cjson.get_object_item j (codes "standard"); truth (cjson.json_type item)

  full_texts : List J → Option (List Bytes)
  unfolding text_of full
  full_texts [] = some []
  full_texts (j ∷ js) = do text ← full (text_of j); rest ← full_texts js; some (text ∷ rest)

  regexes_of : Option J → Option (List Bytes)
  unfolding full_texts is_array
  regexes_of none = some []
  regexes_of (some item) =
      if is_array (cjson.json_type item) then full_texts (cjson.items item) else none

  -- `build_task_server_info`; `none` is `E_ARG_INVALID`, with which the caller drops the server.
  unfoldable pub build_task_server_info : J → Option ServerInfo
  unfolding full_text port_of standard_of regexes_of
  build_task_server_info j = do
    center ← full_text j (codes "center")
    host ← full_text j (codes "host")
    user ← full_text j (codes "user")
    password ← full_text j (codes "password")
    port ← port_of j
    standard ← standard_of j
    regexes ← regexes_of (cjson.get_object_item j (codes "excluded_file_regex"))
    path ← full_text j (codes "path_to_compare")
    base_dir ← full_text j (codes "base_dir")
    some (record {
      c_center = center;
      c_host = host;
      c_user = user;
      c_password = password;
      c_port = port;
      c_standard = standard;
      c_excluded_file_regex = regexes;
      c_base_dir = base_dir;
      c_path_to_compare = path;
    })

  texts : List J → Option (List Bytes)
  unfolding text_of
  texts [] = some []
  texts (j ∷ js) = do text ← text_of j; rest ← texts js; some (text ∷ rest)

  set_uuid : Option Bytes → ApiTask → Built
  unfolding handle_error
  set_uuid none t = handle_error (codes "no task uuid provided") t
  set_uuid (some []) t = asserted
  set_uuid (some (c ∷ s)) t = built (record t { t_task_uuid = c ∷ s; t_result_type = 0 })

  read_uuid : J → ApiTask → Built
  unfolding set_uuid text_of
  read_uuid root t = set_uuid (cjson.get_object_item root (codes "uuid") >>= text_of) t

  read_result_type : Option J → ApiTask → Built
  unfolding handle_error is_number is_result_type
  read_result_type none t = built t
  read_result_type (some item) t =
      if is_number (cjson.json_type item)
      then if is_result_type (cjson.valueint item)
        then built (record t { t_result_type = 0 })
        else handle_error (codes "result_type value is not valid") t
      else handle_error (codes "result_type is not number") t

  -- The texts in front of an item that is none stay in the task.
  add_regexes : List J → ApiTask → Built
  unfolding text_of handle_error
  add_regexes [] t = built t
  add_regexes (j ∷ js) t = elim (text_of j) [
    | none ↦ handle_error (codes "excluded_file_regex item is not string") t
    | some text ↦
        add_regexes js (record t { t_excluded_file_regex = t.t_excluded_file_regex ++ text ∷ [] })
  ]

  read_regexes : Option J → ApiTask → Built
  unfolding add_regexes handle_error is_array
  read_regexes none t = built t
  read_regexes (some item) t =
      if is_array (cjson.json_type item)
      then add_regexes (cjson.items item) t
      else handle_error (codes "excluded_file_regex is not array") t

  -- A server that is no object sets the error; one whose members are not valid does not.
  add_servers : List J → ApiTask → Built
  unfolding build_task_server_info handle_error is_object
  add_servers [] t = built t
  add_servers (j ∷ js) t =
      let added : Built = elim (build_task_server_info j) [
        | none ↦ invalid t
        | some server ↦
            add_servers js (record t { t_server_info_arr = t.t_server_info_arr ++ server ∷ [] })
      ] in
      if is_object (cjson.json_type j)
      then added
      else handle_error (codes "server item is not object") t

  read_servers : Option J → ApiTask → Built
  unfolding add_servers handle_error is_array
  read_servers none t = handle_error (codes "no servers_list provided") t
  read_servers (some item) t =
      if is_array (cjson.json_type item)
      then add_servers (cjson.items item) t
      else handle_error (codes "no servers_list provided") t

-- The loop over the servers, from the index `i` on: the standard that has been found, and whether
-- there is a second one.
unfoldable pub find_std : ℕ → Option ℕ → List ServerInfo → Option ℕ × Bool
find_std i found [] = (found, false)
find_std i none (s ∷ servers) = find_std (suc i) (if s.c_standard then some i else none) servers
find_std i (some k) (s ∷ servers) =
    let rest = find_std (suc i) (some k) servers in if s.c_standard then (some k, true) else rest

set_std : Option ℕ × Bool → ApiTask → Built
unfolding handle_error
set_std (found, true) t = invalid (record t { t_std_idx = found })
set_std (none, false) t =
    handle_error (codes "no standard server provided") (record t { t_std_idx = none })
set_std (some i, false) t = built (record t { t_std_idx = some i })

unfoldable pub choose_std : ApiTask → Built
unfolding find_std set_std
choose_std t = set_std (find_std 0 none t.t_server_info_arr) t

module _ {ℓ} {J : Type ℓ} (cjson : CJson J) where
  -- `build_task_from_json`, of what the parser gives. The first message also holds the text.
  unfoldable pub build_task_from_json : Option J → ApiTask → Built
  unfolding handle_error and_then read_uuid read_result_type read_regexes read_servers choose_std
  build_task_from_json none t = handle_error (codes "not a valid json string") t
  build_task_from_json (some root) t =
      let member = cjson.get_object_item root in
      let with_uuid = read_uuid cjson root t in
      let with_type = and_then with_uuid (read_result_type cjson (member (codes "result_type"))) in
      let with_regexes =
        and_then with_type (read_regexes cjson (member (codes "excluded_file_regex"))) in
      let with_servers = and_then with_regexes (read_servers cjson (member (codes "servers"))) in
      and_then with_servers choose_std
