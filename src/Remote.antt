-- ===== src/Remote.antt =====
-- file_compare/content/dc_content.{h,cc}: the content of a remote server, whose attributes of
-- directories are asked for by HTTP requests.
--
-- A failed assertion and an exception are `none`. The queue is the list of its codes; `sent` are the
-- tasks that have been started. The JSON library is a parameter, `none` where a call throws, as are
-- the streams of zlib and what workflow gives of an answer: `get_parsed_body` is true and gives the
-- body, or false, `none`, and then sets no pointer, so that the code reads what is `unset`.
pub mod Exchange
use wfrest.Base.{
  ℕ, ◌+◌, ◌-◌, ◌^◌, zero, suc, Bool, true, false, ◌&&◌, List, [], ◌∷◌, ◌++◌, Option, none, some,
  ◌==◌, ltb, leb, if◌then◌else◌, equal, is_space, Bytes, codes, to_string, atoi, ℤ, pos, negsuc,
}
use wfrest.CommonCode.{CommonCode, s_success, e_not_impl, e_dc_content_retry}
use wfrest.FileAttr.{FileAttr}
use wfrest.HttpMsg.Body.{gzip, ungzip}

pub data DirListStatus : Type 0 where
  dir_list_status_init : DirListStatus
  dir_list_status_send : DirListStatus
  dir_list_status_over : DirListStatus

pub data HttpTask : Type 0 where
  post_task : Bytes → Bytes → HttpTask
  get_task : Bytes → HttpTask

pub record RemoteServer : Type 0 where
  pub c_host : Bytes
  pub c_port : ℕ
  pub c_base_dir : Bytes
  pub t_task_uuid : Bytes

-- The object of a request's body.
pub record DirRequest : Type 0 where
  pub uuid : Bytes
  pub base_dir : Bytes
  pub dirs : List Bytes

pub record Remote : Type 0 where
  pub attr_list : List FileAttr
  pub get_dir_list_status : DirListStatus
  pub dir_list_out_q : List CommonCode
  pub get_resp_body : Bytes
  pub sent : List HttpTask

-- What the code uses of the JSON library.
pub record Json {ℓ} (J : Type ℓ) : Type ℓ where
  pub parse : Bytes → Option J
  pub dump : DirRequest → Bytes
  pub find : Bytes → J → Option J
  pub text : J → Option Bytes
  pub number : J → Option CommonCode
  pub items : J → List J

infixl 1 ◌>>=◌
abbrev ◌>>=◌ {ℓ κ} : {A : Type ℓ} {B : Type κ} → Option A → (A → Option B) → Option B
none >>= next = none
some a >>= next = next a

-- `std::stoi`: `none` is the exception where no digit is behind the blanks and the sign, or where no
-- `int` holds the number.
begins_digit : Bytes → Bool
begins_digit [] = false
begins_digit (c ∷ s) = leb b'0' c && leb c b'9'

is_number_text : Bytes → Bool
unfolding begins_digit is_space
is_number_text [] = false
is_number_text (c ∷ s) =
    let rest = is_number_text s in
    if is_space c
    then rest
    else begins_digit (if c == b'-' then s else if c == b'+' then s else c ∷ s)

as_int : ℤ → Option ℤ
as_int (pos n) = if ltb n (2 ^ 31) then some (pos n) else none
as_int (negsuc n) = if ltb n (2 ^ 31) then some (negsuc n) else none

stoi : Bytes → Option ℤ
unfolding is_number_text as_int atoi
stoi s = if is_number_text s then as_int (atoi s) else none

-- The cast to the enumeration.
common_code : ℤ → CommonCode
common_code (pos n) = n
common_code (negsuc n) = 2 ^ 32 - (n + 1)

unfoldable pub task_url : RemoteServer → Bytes
unfolding to_string
task_url s =
    codes "http://"
    ++ (s.c_host ++ (b':' ∷ (to_string s.c_port ++ (codes "/internal/dir/task/" ++ s.t_task_uuid))))

module _ {ℓ} {J : Type ℓ} (json : Json J) (deflate inflate : Bytes → Option Bytes)
    (unset : Option Bytes) where
  -- The code in the body of an answer.
  unfoldable pub error_of : J → Option CommonCode
  unfolding stoi common_code
  error_of body = do
    error ← json.find (codes "error") body
    text ← json.text error
    code ← stoi text
    some (common_code code)

  -- The body of an answer, and the code in it. The first assertion is that the result, which is true
  -- where there is a body, is `StatusOK`, which is 0.
  unfoldable pub unpack : Option Bytes → Option (CommonCode × Bytes)
  unfolding error_of ungzip
  unpack (some body) = none
  unpack none = do
    body ← unset
    resp_body ← ungzip inflate body
    value ← json.parse resp_body
    code ← error_of value
    some (code, resp_body)

  unfoldable pub http_post_callback : Option Bytes → Remote → Option Remote
  unfolding unpack
  http_post_callback parsed r = do
    answer ← unpack parsed
    some (record r { dir_list_out_q = r.dir_list_out_q ++ answer.0 ∷ [] })

  unfoldable pub http_get_callback : Option Bytes → Remote → Option Remote
  unfolding unpack
  http_get_callback parsed r = do
    answer ← unpack parsed
    some (record r {
      get_resp_body = if answer.0 == s_success then answer.1 else r.get_resp_body;
      dir_list_out_q = r.dir_list_out_q ++ answer.0 ∷ [];
    })

  http_post_task : Bytes → Bytes → Remote → Option Remote
  unfolding gzip
  http_post_task url body r = do
    zip_body ← gzip deflate body
    some (record r { sent = r.sent ++ post_task url zip_body ∷ [] })

  http_get_task : Bytes → Remote → Remote
  http_get_task url r = record r { sent = r.sent ++ get_task url ∷ [] }

  unfoldable pub do_dir_list_attr :
      RemoteServer → List Bytes → List FileAttr → Remote → Option (CommonCode × Remote)
  unfolding http_post_task task_url
  do_dir_list_attr s dir_list attr_list r = do
    started ←
        http_post_task (task_url s)
          (json.dump (record { uuid = s.t_task_uuid; base_dir = s.c_base_dir; dirs = dir_list }))
          (record r { attr_list = attr_list })
    some (s_success, record started { get_dir_list_status = dir_list_status_init })

  attr_of : J → Option FileAttr
  attr_of item = do
    mode ← json.find (codes "mode") item
    f_mode ← json.text mode
    owner ← json.find (codes "owner") item
    f_owner ← json.text owner
    last_updated ← json.find (codes "last_updated") item
    f_last_updated ← json.text last_updated
    code ← json.find (codes "code") item
    f_code ← json.number code
    some (record {
      f_size = none;
      f_mode = f_mode;
      f_owner = f_owner;
      f_last_updated = f_last_updated;
      f_code = f_code;
    })

  unfoldable pub attrs_of : List J → Option (List FileAttr)
  unfolding attr_of
  attrs_of [] = some []
  attrs_of (item ∷ items) = do attr ← attr_of item; attrs ← attrs_of items; some (attr ∷ attrs)

  -- The result in a body of success.
  unfoldable pub result_of : RemoteServer → J → Option (List FileAttr)
  unfolding attrs_of
  result_of s body = do
    result ← json.find (codes "result") body
    uuid ← json.find (codes "uuid") body
    text ← json.text uuid
    attrs ← attrs_of (json.items result)
    if equal text s.t_task_uuid then some attrs else none

  read_result : RemoteServer → J → Remote → CommonCode → Option (CommonCode × Remote)
  unfolding result_of
  read_result s body r code =
      if code == s_success
      then (do
        attrs ← result_of s body
        some (
          s_success,
          record r { attr_list = r.attr_list ++ attrs; get_dir_list_status = dir_list_status_over },
        ))
      else some (code, r)

  -- With a code that has been taken off the queue in either state.
  told_init : RemoteServer → CommonCode → Remote → CommonCode × Remote
  unfolding http_get_task task_url
  told_init s code r =
      if code == s_success
      then (
        e_dc_content_retry,
        record (http_get_task (task_url s) r) { get_dir_list_status = dir_list_status_send },
      )
      else (code, r)

  told_send : RemoteServer → CommonCode → Remote → Option (CommonCode × Remote)
  unfolding http_get_task task_url error_of read_result
  told_send s code r =
      if code == s_success
      then (do body ← json.parse r.get_resp_body; error ← error_of body; read_result s body r error)
      else if code == e_dc_content_retry
      then some (e_dc_content_retry, http_get_task (task_url s) r)
      else some (code, r)

  poll_status :
      RemoteServer → DirListStatus → List CommonCode → Remote → Option (CommonCode × Remote)
  unfolding told_init told_send
  poll_status s dir_list_status_over q r = none
  poll_status s dir_list_status_init [] r = some (e_dc_content_retry, r)
  poll_status s dir_list_status_send [] r = some (e_dc_content_retry, r)
  poll_status s dir_list_status_init (code ∷ q) r =
      some (told_init s code (record r { dir_list_out_q = q }))
  poll_status s dir_list_status_send (code ∷ q) r =
      told_send s code (record r { dir_list_out_q = q })

  unfoldable pub get_dir_list_attr : RemoteServer → Remote → Option (CommonCode × Remote)
  unfolding poll_status
  get_dir_list_attr s r = poll_status s r.get_dir_list_status r.dir_list_out_q r
