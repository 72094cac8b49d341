-- ===== src/Remote/Exchange.antt =====
-- The requests for the attributes of directories, whatever the order of polls and answers.
use wfrest.Base.{true, false, Bool, List, [], ◌∷◌, Option, some, ◌==◌, if◌then◌else◌, Bytes}
use wfrest.CommonCode.{CommonCode, e_dc_content_retry}
use wfrest.FileAttr.{FileAttr}
use wfrest.Remote.{
  DirListStatus, dir_list_status_init, dir_list_status_send, dir_list_status_over, HttpTask,
  RemoteServer, Remote, Json, http_post_callback, http_get_callback, get_dir_list_attr, ◌>>=◌,
}

-- The caller asks for the outcome, or an answer with a body arrives for the last task.
pub data Event : Type 0 where
  poll : Event
  answer : Bytes → Event

unfoldable pub has_answer : List Event → Bool
has_answer [] = false
has_answer (poll ∷ es) = has_answer es
has_answer (answer body ∷ es) = true

unfoldable pub with_status : DirListStatus → List FileAttr → Bytes → List HttpTask → Remote
with_status status attr_list body sent = record {
  attr_list = attr_list;
  get_dir_list_status = status;
  dir_list_out_q = [];
  get_resp_body = body;
  sent = sent;
}

module _ {ℓ} {J : Type ℓ} (json : Json J) (deflate inflate : Bytes → Option Bytes)
    (unset : Option Bytes) (s : RemoteServer) where
  arrive : DirListStatus → Option Bytes → Remote → Option Remote
  unfolding http_post_callback http_get_callback
  arrive dir_list_status_init parsed r = http_post_callback json deflate inflate unset parsed r
  arrive dir_list_status_send parsed r = http_get_callback json deflate inflate unset parsed r
  arrive dir_list_status_over parsed r = some r

  -- The caller polls until it is told something else than to try again.
  pub until_told : List Event → Remote → Option (CommonCode × Remote)
  unfolding arrive get_dir_list_attr
  until_told [] r = some (e_dc_content_retry, r)
  until_told (answer body ∷ es) r = do
    next ← arrive r.get_dir_list_status (some body) r
    until_told es next
  until_told (poll ∷ es) r = do
    out ← get_dir_list_attr json deflate inflate unset s r
    let rest = until_told es out.1 in if out.0 == e_dc_content_retry then rest else some out
