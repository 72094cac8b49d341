-- ===== src/Reader.antt =====
-- file_compare/content/dc_content.{h,cc}: the two threads of a local server's files, `do_` and `get_`
-- of the caller and the worker's loop, with the queues between them.
--
-- A queue is the list of the messages that its ring stands for. An assertion that fails is `none`.
-- What the system answers is a parameter: whether there is memory, whether `open` succeeds, what
-- each `read` gives of the open file, and what the attributes are made of.
pub mod Polling
pub mod Safety
pub mod Schedules
pub mod Stuck
use wfrest.Base.{
  Bool, true, false, not, ◌&&◌, ◌||◌, List, [], ◌∷◌, ◌++◌, Option, none, some, ◌==◌, if◌then◌else◌,
  Bytes, ℕ,
}
use wfrest.CommonCode.{
  CommonCode, s_success, e_os_env_mem, e_os_env_open, e_os_env_read, e_dc_content_retry,
  e_dc_content_over, e_dc_task_mem_vops_not_over,
}
use wfrest.FileAttr.{FileAttr, Stat, Owner, file_attr, dir_list_attr}
use wfrest.Content.{Content, ReadCode, success, over, read_error, file_content_read}

pub data Command : Type 0 where
  cmd_file_attr : Command
  cmd_dir_list_attr : Command
  cmd_file_content_prepare : Command
  cmd_file_content_read : Command

pub data ReadState : Type 0 where
  read_init : ReadState
  read_prepar : ReadState
  read_over : ReadState
  read_do : ReadState

-- `unread` is what the next reads of the open file will give.
pub record Local {ℓ} (D : Type ℓ) (M : Type ℓ) : Type ℓ where
  pub file_path : Bytes
  pub file_attr_ : FileAttr
  pub dir_list : List Bytes
  pub dir_attr_list : List FileAttr
  pub content : Content D M
  pub unread : List (Option Bytes)
  pub has_read_buf : Bool
  pub file_read_state : ReadState
  pub cmd_q : List Command
  pub ret_q : List CommonCode

-- The codes with which `LOG_CHECK_ERR_RETURN` returns.
unfoldable pub is_error : CommonCode → Bool
is_error c = not (
    c == s_success
    || (c == e_dc_content_retry || (c == e_dc_content_over || c == e_dc_task_mem_vops_not_over)))

unfoldable pub code_of : ReadCode → CommonCode
code_of success = s_success
code_of over = e_dc_content_over
code_of read_error = e_os_env_read

unfoldable pub is_empty {ℓ} : {A : Type ℓ} → List A → Bool
is_empty [] = true
is_empty (x ∷ xs) = false

-- What `read` gives next; behind the end of a file, no bytes.
unfoldable pub next_read : List (Option Bytes) → Option Bytes × List (Option Bytes)
next_read [] = (some [], [])
next_read (r ∷ rs) = (r, rs)

module _ {ℓ} {D M : Type ℓ} where
  unfoldable pub do_file_attr : Bytes → FileAttr → Local D M → Local D M
  do_file_attr path attr h = record h {
    file_path = path;
    file_attr_ = attr;
    cmd_q = h.cmd_q ++ cmd_file_attr ∷ [];
  }

  unfoldable pub do_dir_list_attr : List Bytes → List FileAttr → Local D M → Local D M
  do_dir_list_attr dirs attrs h = record h {
    dir_list = dirs;
    dir_attr_list = attrs;
    cmd_q = h.cmd_q ++ cmd_dir_list_attr ∷ [];
  }

  get_answer : List CommonCode → Local D M → CommonCode × Local D M
  unfolding is_error
  get_answer [] h = (e_dc_content_retry, h)
  get_answer (ret ∷ rest) h = (if is_error ret then ret else s_success, record h { ret_q = rest })

  -- `get_file_attr` and `get_dir_list_attr`, which do the same.
  unfoldable pub get_attr : Local D M → CommonCode × Local D M
  unfolding get_answer
  get_attr h = get_answer h.ret_q h

  do_in_state : ReadState → Local D M → Option (Local D M)
  do_in_state read_init h =
      some (record h {
        cmd_q = h.cmd_q ++ cmd_file_content_prepare ∷ [];
        file_read_state = read_prepar;
      })
  do_in_state read_prepar h = none
  do_in_state read_over h = none
  do_in_state read_do h = none

  -- `lines` and `blank` are what the caller's vector and counter hold.
  unfoldable pub do_file_content : Bytes → List D → ℕ → Local D M → Option (Local D M)
  unfolding do_in_state
  do_file_content path lines blank h = do_in_state h.file_read_state (record h {
    file_path = path;
    content = record h.content { lines_sha1 = lines; empty_lines = blank };
  })

  -- The read command is sent.
  abbrev ask_read : Local D M → CommonCode × Local D M
  ask_read h = (
    e_dc_content_retry,
    record h { cmd_q = h.cmd_q ++ cmd_file_content_read ∷ []; file_read_state = read_do },
  )

  get_prepared : List CommonCode → Local D M → CommonCode × Local D M
  unfolding is_error
  get_prepared [] h = (e_dc_content_retry, h)
  get_prepared (ret ∷ rest) h =
      let taken = record h { ret_q = rest } in if is_error ret then (ret, taken) else ask_read taken

  get_done : List CommonCode → Local D M → Option (CommonCode × Local D M)
  get_done [] h = some (e_dc_content_retry, h)
  get_done (ret ∷ rest) h =
      let taken = record h { ret_q = rest } in
      if ret == s_success
      then some (e_dc_content_retry, record taken { file_read_state = read_over })
      else if ret == e_dc_content_over
      then if h.content.is_open
        then none
        else some (e_dc_content_over, record taken { file_read_state = read_init })
      else some (ret, taken)

  get_in_state : ReadState → Local D M → Option (CommonCode × Local D M)
  unfolding get_prepared get_done
  get_in_state read_prepar h = some (get_prepared h.ret_q h)
  get_in_state read_do h = get_done h.ret_q h
  get_in_state read_over h = some (ask_read h)
  get_in_state read_init h = none

  unfoldable pub get_file_content : Local D M → Option (CommonCode × Local D M)
  unfolding get_in_state
  get_file_content h = get_in_state h.file_read_state h

module _ {ℓ} {D M : Type ℓ} (mem opens : Bool) where
  open_file : Local D M → Option (CommonCode × Local D M)
  open_file h =
      if h.content.is_open
      then none
      else if opens
      then some (s_success, record h { content = record h.content { is_open = true } })
      else some (e_os_env_open, h)

  unfoldable pub file_content_prepare : Local D M → Option (CommonCode × Local D M)
  unfolding open_file is_empty
  file_content_prepare h =
      if not (is_empty h.file_path) && (is_empty h.content.lines_sha1 && h.content.empty_lines == 0)
      then if h.has_read_buf || mem
        then open_file (record h { has_read_buf = true })
        else some (e_os_env_mem, h)
      else none

module _ {ℓ} {D M : Type ℓ} (sha1 : Bytes → D) (md5_of : Bytes → M) where
  read_next : Option Bytes × List (Option Bytes) → Local D M → Option (CommonCode × Local D M)
  unfolding code_of
  read_next (r, rs) h =
      let (code, content) = file_content_read sha1 md5_of r h.content in
      if content.has_asserted
      then none
      else some (code_of code, record h { content = content; unread = rs })

  unfoldable pub worker_read : Local D M → Option (CommonCode × Local D M)
  unfolding read_next next_read is_empty
  worker_read h =
      if not (is_empty h.file_path) && h.content.is_open
      then read_next (next_read h.unread) h
      else none

-- The system's answers about files and directories.
pub record System : Type 0 where
  pub stat : Bytes → Option Stat
  pub owner : ℕ → Owner
  pub time_text : ℕ → Option Bytes
  pub mem : Bool
  pub opens : Bool

module _ {ℓ} {D M : Type ℓ} (sha1 : Bytes → D) (md5_of : Bytes → M) (system : System) where
  read_file_attr : Local D M → Option (CommonCode × Local D M)
  unfolding is_empty
  read_file_attr h =
      let (code, attr) =
        file_attr system.stat system.owner system.time_text h.file_path h.file_attr_ in
      if is_empty h.file_path then none else some (code, record h { file_attr_ = attr })

  read_dir_list_attr : Local D M → Option (CommonCode × Local D M)
  read_dir_list_attr h =
      elim (dir_list_attr system.stat system.owner system.time_text h.dir_list h.dir_attr_list) [
        | none ↦ none
        | some attrs ↦ some (s_success, record h { dir_attr_list = attrs })
      ]

  run_command : Command → Local D M → Option (CommonCode × Local D M)
  unfolding read_file_attr read_dir_list_attr file_content_prepare worker_read
  run_command cmd_file_attr h = read_file_attr h
  run_command cmd_dir_list_attr h = read_dir_list_attr h
  run_command cmd_file_content_prepare h = file_content_prepare system.mem system.opens h
  run_command cmd_file_content_read h = worker_read sha1 md5_of h

  answer : Option (CommonCode × Local D M) → Option (Local D M)
  answer none = none
  answer (some (ret, done)) = some (record done { ret_q = done.ret_q ++ ret ∷ [] })

  work_on : List Command → Local D M → Option (Local D M)
  unfolding run_command answer
  work_on [] h = some h
  work_on (cmd ∷ cmds) h = answer (run_command cmd (record h { cmd_q = cmds }))

  -- A turn of the loop of `thd_worker`: without a command it sleeps.
  unfoldable pub thd_worker : Local D M → Option (Local D M)
  unfolding work_on
  thd_worker h = work_on h.cmd_q h
