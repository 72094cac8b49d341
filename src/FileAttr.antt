-- ===== src/FileAttr.antt =====
-- file_compare/content/dc_content.{h,cc}: the attributes of files and directories, as the worker of a
-- local server reads them.
--
-- What the system answers is a parameter: `stat` of a path, the owner's name of a user id, and the
-- text that `localtime` and `strftime` make of a time.
use wfrest.Base.{
  ℕ, ◌+◌, ◌/◌, ◌%◌, Bool, true, false, ◌&&◌, List, [], ◌∷◌, ◌++◌, Option, none, some, ◌==◌,
  if◌then◌else◌, equal, Bytes,
}
use wfrest.CommonCode.{
  CommonCode, s_success, e_os_env_not_found, e_os_env_stat, e_os_env_getpwuid, e_os_env_localtime,
}

-- `f_size` is -1 where it has not been set: `none`.
pub record FileAttr : Type 0 where
  pub f_size : Option ℕ
  pub f_mode : Bytes
  pub f_owner : Bytes
  pub f_last_updated : Bytes
  pub f_code : CommonCode

abbrev pub empty_attr : FileAttr
empty_attr = record {
  f_size = none;
  f_mode = [];
  f_owner = [];
  f_last_updated = [];
  f_code = s_success;
}

unfoldable pub equal_size : Option ℕ → Option ℕ → Bool
equal_size none none = true
equal_size (some m) (some n) = m == n
equal_size _ _ = false

-- `dc_file_attr_t::compare`.
unfoldable pub compare_attr : FileAttr → FileAttr → Bool
unfolding equal_size
compare_attr a b =
    a.f_code == 0
    && (b.f_code == 0
        && (equal_size a.f_size b.f_size
            && (equal a.f_mode b.f_mode
                && (equal a.f_owner b.f_owner && equal a.f_last_updated b.f_last_updated))))

pub record Stat : Type 0 where
  pub st_mode : ℕ
  pub st_size : ℕ
  pub st_uid : ℕ
  pub st_mtime : ℕ

-- What `getpwuid` gives: a name, no entry with `errno` 0, or an error.
pub data Owner : Type 0 where
  named : Bytes → Owner
  unnamed : Owner
  failed : Owner

-- `S_ISDIR`.
unfoldable pub is_dir_mode : ℕ → Bool
is_dir_mode mode = mode / 4096 % 16 == 4

-- `"%o"` of the permission bits, of which there are nine.
unfoldable pub mode_text : ℕ → Bytes
mode_text mode =
    let bits = mode % 512 in
    let low = b'0' + bits % 8 in
    let middle = b'0' + bits / 8 % 8 in
    let high = b'0' + bits / 64 in
    if bits / 8 == 0
    then low ∷ []
    else if bits / 64 == 0
    then middle ∷ low ∷ []
    else high ∷ middle ∷ low ∷ []

module _ (stat : Bytes → Option Stat) (owner : ℕ → Owner) (time_text : ℕ → Option Bytes) where
  set_time : Option Bytes → FileAttr → CommonCode × FileAttr
  set_time none attr = (e_os_env_not_found, attr)
  set_time (some text) attr = (s_success, record attr { f_last_updated = text })

  set_owner : Owner → Option Bytes → FileAttr → CommonCode × FileAttr
  unfolding set_time
  set_owner unnamed time attr = (e_os_env_getpwuid, attr)
  set_owner failed time attr = (e_os_env_getpwuid, attr)
  set_owner (named name) time attr = set_time time (record attr { f_owner = name })

  set_file_attr : Option Stat → FileAttr → CommonCode × FileAttr
  unfolding set_owner is_dir_mode mode_text
  set_file_attr none attr = (e_os_env_stat, attr)
  set_file_attr (some s) attr = set_owner (owner s.st_uid) (time_text s.st_mtime) (record attr {
    f_size = if is_dir_mode s.st_mode then some 0 else some s.st_size;
    f_mode = mode_text s.st_mode;
  })

  -- `thd_worker_file_attr`: the code, and the attributes so far.
  unfoldable pub file_attr : Bytes → FileAttr → CommonCode × FileAttr
  unfolding set_file_attr
  file_attr path attr = set_file_attr (stat path) attr

  dir_time : Option Bytes → FileAttr → FileAttr
  dir_time none attr = record attr { f_code = e_os_env_localtime }
  dir_time (some text) attr = record attr { f_last_updated = text }

  dir_owner : Owner → Option Bytes → FileAttr → FileAttr
  unfolding dir_time
  dir_owner (named name) time attr = dir_time time (record attr { f_owner = name })
  dir_owner unnamed time attr = dir_time time (record attr { f_owner = b'0' ∷ [] })
  dir_owner failed time attr = record attr { f_code = e_os_env_getpwuid }

  -- One directory of the list; `none` is the assertion that it is one.
  unfoldable pub dir_attr : Option Stat → Option FileAttr
  unfolding dir_owner is_dir_mode mode_text
  dir_attr none = some (record empty_attr { f_code = e_os_env_stat })
  dir_attr (some s) =
      if is_dir_mode s.st_mode
      then some (
          dir_owner (owner s.st_uid) (time_text s.st_mtime)
            (record empty_attr { f_mode = mode_text s.st_mode }))
      else none

  -- `thd_worker_dir_list_attr`, whose code is `S_SUCCESS`: the list grows by the attributes.
  unfoldable pub dir_list_attr : List Bytes → List FileAttr → Option (List FileAttr)
  unfolding dir_attr
  dir_list_attr [] attrs = some attrs
  dir_list_attr (dir ∷ dirs) attrs = elim (dir_attr (stat dir)) [
    | none ↦ none
    | some attr ↦ dir_list_attr dirs (attrs ++ attr ∷ [])
  ]
