-- ===== src/Compare/Walk.antt =====
-- file_compare/compare/dc_compare.cc: the walk through the standard's directories, which collects the
-- entries of the result, and the queue of directories that are compared together.
--
-- What the file system shows is a parameter of the walk: the entries of a directory in the order of
-- `readdir`, with those of its directories.
pub mod Complete
pub mod Queue
use wfrest.Base.{
  ℕ, suc, ◌+◌, ◌-◌, Bool, true, false, ◌||◌, List, [], ◌∷◌, ◌++◌, Option, none, some, ◌==◌, ltb,
  if◌then◌else◌, length, take, drop, get_or, equal, codes, Bytes,
}
use wfrest.CommonCode.{CommonCode, s_success, e_not_support_file_type, e_os_env_open, e_os_env_stat}
use wfrest.PathUtil.{find_last, is_slash}

unfoldable pub get_base_and_file_name : Bytes → Bytes × Bytes
unfolding find_last
get_base_and_file_name path = elim (find_last is_slash path) [
  | some pos ↦ (take pos path, drop (suc pos) path)
  | none ↦ (b'.' ∷ [], path)
]

-- The path without the slash at its end; only one is taken off.
pop_slash : Bytes → Bytes
pop_slash path =
    if is_slash (get_or path (length path - 1) 0) then take (length path - 1) path else path

unfoldable pub get_parent_dir : ℕ → Bytes → Bytes
unfolding find_last pop_slash
get_parent_dir depth path =
    let parent_dir = pop_slash path in
    if depth == 0
    then b'.' ∷ []
    else elim (find_last is_slash parent_dir) [ none ↦ parent_dir | some pos ↦ drop pos parent_dir ]

-- What `stat` says of a file that is neither a link nor a directory.
pub data FileKind : Type 0 where
  regular : FileKind
  irregular : FileKind
  no_stat : FileKind

-- The entries that `readdir` gives. A directory has whether `opendir` opens it, and its entries.
pub data Listing : Type 0 where
  ended : Listing
  link_entry : Bytes → Listing → Listing
  dir_entry : Bytes → Bool → Listing → Listing → Listing
  file_entry : Bytes → FileKind → Listing → Listing

-- An object of the array `diffs`.
pub record DiffJson : Type 0 where
  pub name : Bytes
  pub dir : Bytes
  pub is_dir : Bool
  pub path : Option Bytes

-- `diffs`, the queue `dir_q_`, and the batches of it that have been compared.
pub record Walk : Type 0 where
  pub diffs : List DiffJson
  pub dir_q : List (Bytes × ℕ)
  pub compared : List (Bytes × ℕ)

-- `exe_sql_job_for_single_item_dir1`, which returns `S_SUCCESS`.
unfoldable pub compare_dirs : Walk → Walk
compare_dirs w = record w { dir_q = []; compared = w.compared ++ w.dir_q }

-- `exe_sql_job_for_single_item_dir`, with the `dir_batch_size` of 1000.
unfoldable pub add_dir : Bytes → ℕ → Walk → Walk
unfolding compare_dirs
add_dir path json_idx w =
    let queued = record w { dir_q = w.dir_q ++ (path, json_idx) ∷ [] } in
    if ltb 1000 (length queued.dir_q) then compare_dirs queued else queued

is_dots : Bytes → Bool
is_dots name = equal name (codes ".") || equal name (codes "..")

abbrev join_path : Bytes → Bytes → Bytes
join_path path name = path ++ b'/' ∷ name

-- A directory that is met: its object, and its place in the queue.
unfoldable pub enter_dir : Bytes → ℕ → Bytes → Walk → Walk
unfolding add_dir get_parent_dir
enter_dir path depth name w = add_dir (join_path path name) (length w.diffs) (record w {
  diffs =
      w.diffs
      ++ record { name = name; dir = get_parent_dir depth path; is_dir = true; path = none } ∷ [];
})

-- A file that is met, of which the comparison does nothing.
unfoldable pub enter_file : Bytes → ℕ → Bytes → Walk → Walk
unfolding get_parent_dir
enter_file path depth name w = record w {
  diffs =
      w.diffs
      ++ record {
        name = name;
        dir = get_parent_dir depth path;
        is_dir = false;
        path = some (join_path path name);
      }
        ∷ [];
}

-- `exe_sql_job_for_dir`, its loop. The code of a directory below is logged only.
unfoldable pub exe_sql_job_for_dir : Bytes → ℕ → Bool → Listing → Walk → CommonCode × Walk
unfolding enter_dir enter_file is_dots
exe_sql_job_for_dir path depth false listing w = (e_os_env_open, w)
exe_sql_job_for_dir path depth true ended w = (s_success, w)
exe_sql_job_for_dir path depth true (link_entry name listing) w =
    exe_sql_job_for_dir path depth true listing w
exe_sql_job_for_dir path depth true (dir_entry name opened below listing) w =
    let entered = enter_dir path depth name w in
    let (code, walked) =
      exe_sql_job_for_dir (join_path path name) (suc depth) opened below entered in
    exe_sql_job_for_dir path depth true listing (if is_dots name then w else walked)
exe_sql_job_for_dir path depth true (file_entry name no_stat listing) w = (e_os_env_stat, w)
exe_sql_job_for_dir path depth true (file_entry name irregular listing) w =
    exe_sql_job_for_dir path depth true listing w
exe_sql_job_for_dir path depth true (file_entry name regular listing) w =
    exe_sql_job_for_dir path depth true listing (enter_file path depth name w)

-- What the standard's path is: `stat` fails, a file, a directory with its entries, or neither.
pub data Target : Type 0 where
  target_no_stat : Target
  target_file : Target
  target_dir : Bool → Listing → Target
  target_other : Target

rest_of_dirs : CommonCode × Walk → CommonCode × Walk
unfolding compare_dirs
rest_of_dirs (code, w) =
    if code == s_success
    then (s_success, if ltb 0 (length w.dir_q) then compare_dirs w else w)
    else (code, w)

-- `exe_sql_job1`. For a single file the new object, which is null, is converted to an `int`: the
-- library throws, `none`.
unfoldable pub exe_sql_job1 : Bytes → Target → Walk → Option (CommonCode × Walk)
unfolding exe_sql_job_for_dir rest_of_dirs
exe_sql_job1 path target_no_stat w = some (e_os_env_stat, w)
exe_sql_job1 path target_file w = none
exe_sql_job1 path (target_dir opened listing) w =
    some (rest_of_dirs (exe_sql_job_for_dir path 0 opened listing w))
exe_sql_job1 path target_other w = some (e_not_support_file_type, w)
