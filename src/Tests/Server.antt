-- ===== src/Tests/Server.antt =====
-- The theorems on the reading, comparing and collecting of the file comparison server at concrete
-- inputs.
use wfrest.Content.Open.{Fits, read_length}
use wfrest.Base.{
  ◌≤◌, ◌⊎◌, ℕ, ◌≡◌, ◌≢◌, ◌↔◌, refl, Bool, true, false, List, [], ◌∷◌, ◌++◌, map, none, some, length,
  Bytes, codes, arith, ◌+◌, ◌<◌, ◌^◌,
}
use wfrest.CommonCode.{CommonCode, s_success, e_os_env_open, e_dc_content_retry}
use wfrest.FileAttr.{FileAttr, named, empty_attr}
use wfrest.Reader.{
  Local, System, read_init, read_prepar, is_empty, is_error, do_file_content, get_file_content,
  thd_worker, next_read,
}
use wfrest.Reader.Safety.{InStep, idle, InStep_safe}
use wfrest.Reader.Schedules.{Turn, turns, run, Finishes}
use wfrest.Reader.Polling.{whole_file, run-whole_file, read_lengths}
use wfrest.Reader.Stuck.{awaits, waiting, get_file_content-stuck}
use wfrest.Compare.{empty_json, compare_assign}
use wfrest.Compare.Patch.{patch, patch-compare_assign}
use wfrest.Compare.Servers.{poll_all}
use wfrest.Compare.Servers.Waiting.{Replies, asked, answered, poll_all-answered}
use wfrest.Compare.Walk.{
  Listing, Walk, ended, dir_entry, file_entry, link_entry, regular, irregular, target_dir,
  exe_sql_job_for_dir, exe_sql_job1,
}
use wfrest.Compare.Walk.Queue.{dir_places, places, IsCollected, exe_sql_job_for_dir-IsCollected}
use wfrest.Compare.Walk.Complete.{empty_walk, exe_sql_job1_complete}
use wfrest.Diff.{SingleRow, DiffRow, is_same, add_row, row_bytes}
use wfrest.Diff.Same.{is_row, is_same_iff}
use wfrest.Diff.Rows.{row_of, IsRow, IsDiffRow}
use wfrest.Diff.Add.{add_row-row_of}

abbrev local_path : Bytes
local_path = codes "a.txt"

-- A server that has done nothing, and whose file is of two lines.
abbrev idle_local : Local ℕ ℕ
idle_local = record {
  file_path = [];
  file_attr_ = empty_attr;
  dir_list = [];
  dir_attr_list = [];
  content = record {
    file_pre_line = [];
    lines_sha1 = [];
    empty_lines = 0;
    md5 = none;
    is_open = false;
    has_asserted = false;
  };
  unread = some (codes "ab" ++ b'\n' ∷ codes "c") ∷ [];
  has_read_buf = false;
  file_read_state = read_init;
  cmd_q = [];
  ret_q = [];
}

abbrev path_owner : Bytes
path_owner = codes "root"

abbrev small_system : System
small_system = record {
  stat = λ path. none;
  owner = λ uid. named path_owner;
  time_text = λ time. none;
  mem = true;
  opens = true;
}

abbrev seven_rounds : List (ℕ × ℕ)
seven_rounds = (0, 2) ∷ (1, 0) ∷ (0, 0) ∷ (2, 1) ∷ (0, 0) ∷ (0, 0) ∷ (0, 3) ∷ []

local_path-named : is_empty local_path ≡ false
unfolding is_empty
local_path-named = refl

idle_local-fits : length idle_local.content.file_pre_line + read_lengths idle_local.unread < 2 ^ 31
unfolding read_lengths read_length
idle_local-fits = omega arith

run-whole_file_example :
    (begun : Local ℕ ℕ) × (do_file_content local_path [] 0 idle_local ≡ some begun)
    × Finishes
        (λ s. length s)
        (λ s. length s)
        small_system
        (whole_file
          (λ s. length s)
          (λ s. length s)
          idle_local.unread
          (record idle_local.content { lines_sha1 = []; empty_lines = 0; is_open = true }))
        (run (λ s. length s) (λ s. length s) small_system (turns seven_rounds) begun)
run-whole_file_example =
    run-whole_file (λ s. length s) (λ s. length s) small_system seven_rounds local_path idle_local
      local_path-named refl refl refl refl refl refl refl idle_local-fits (omega arith)

prepar-awaits : awaits read_prepar ≡ true
unfolding awaits
prepar-awaits = refl

open-is_error : is_error e_os_env_open ≡ true
unfolding is_error
open-is_error = refl

get_file_content-stuck_example :
    (get_file_content (waiting read_prepar idle_local (e_os_env_open ∷ []))
      ≡ some (e_os_env_open, waiting read_prepar idle_local []))
    × ((ts : List Turn)
        → run (λ s. length s) (λ s. length s) small_system ts (waiting read_prepar idle_local [])
          ≡ some (e_dc_content_retry, waiting read_prepar idle_local []))
    × ((path : Bytes) (lines : List ℕ) (blank : ℕ)
        → do_file_content path lines blank (waiting read_prepar idle_local []) ≡ none)
get_file_content-stuck_example =
    get_file_content-stuck (λ s. length s) (λ s. length s) small_system read_prepar e_os_env_open
      idle_local prepar-awaits open-is_error

abbrev root_attr : FileAttr
root_attr = record empty_attr { f_size = some 5; f_mode = codes "755"; f_owner = codes "root" }

abbrev other_attr : FileAttr
other_attr = record root_attr { f_mode = codes "700" }

patch-compare_assign_example :
    let (told, json) = compare_assign (λ c. []) root_attr other_attr empty_json (codes "b") in
    (patch json root_attr ≡ other_attr) × ((told ≡ false) ↔ (root_attr ≡ other_attr))
patch-compare_assign_example =
    patch-compare_assign (λ c. []) root_attr other_attr (codes "b") refl refl

abbrev two_answers : List Replies
two_answers =
    record { retries = 2; code = s_success; unasked = [] }
    ∷ record { retries = 0; code = e_os_env_open; unasked = e_dc_content_retry ∷ [] }
    ∷ []

poll_all-answered_example : poll_all 3 (map asked two_answers) ≡ some (map answered two_answers)
poll_all-answered_example =
    poll_all-answered 3 two_answers ((refl, omega arith), ((refl, omega arith), tt))

-- A directory with a directory and a link in it, beside a file and a socket.
abbrev entries : Listing
entries = dir_entry (codes ".") true ended (
    dir_entry (codes "d") true (dir_entry (codes "e") false ended (link_entry (codes "l") ended))
      (file_entry (codes "f") regular (file_entry (codes "s") irregular ended)))

empty_walk-IsCollected : IsCollected empty_walk
unfolding IsCollected dir_places
empty_walk-IsCollected = (refl, omega arith)

exe_sql_job_for_dir-IsCollected_example :
    IsCollected (exe_sql_job_for_dir (codes ".") 0 true entries empty_walk).1
exe_sql_job_for_dir-IsCollected_example =
    exe_sql_job_for_dir-IsCollected (codes ".") 0 true entries empty_walk empty_walk-IsCollected

-- A walk that met one directory.
abbrev one_dir : Walk
one_dir = record {
  diffs = record { name = codes "d"; dir = codes "."; is_dir = true; path = none } ∷ [];
  dir_q = [];
  compared = (codes "./d", 0) ∷ [];
}

one_dir-walked :
    exe_sql_job1 (codes ".") (target_dir true (dir_entry (codes "d") true ended ended)) empty_walk
    ≡ some (s_success, one_dir)
unfolding exe_sql_job1
one_dir-walked = refl

exe_sql_job1_complete_example :
    (places one_dir.compared ≡ dir_places 0 one_dir.diffs) × (one_dir.dir_q ≡ [])
exe_sql_job1_complete_example =
    exe_sql_job1_complete (codes ".") true (dir_entry (codes "d") true ended ended) one_dir
      one_dir-walked

-- A row of a text and null.
abbrev ada : SingleRow
ada =
    record { r_length = 3; r_cols = some (codes "Ada") }
    ∷ record { r_length = 0; r_cols = none }
    ∷ []

ada-is_row : is_row ada ≡ true
unfolding is_row
ada-is_row = refl

is_same_iff_example :
    ((b : Bool) × (is_same ada ada ≡ some b)) × ((is_same ada ada ≡ some true) ↔ (ada ≡ ada))
is_same_iff_example = is_same_iff ada ada ada-is_row ada-is_row refl (omega arith)

ada-IsRow : IsRow 2 ada
unfolding IsRow row_bytes
ada-IsRow = (ada-is_row, (refl, (omega arith, omega arith)))

abbrev one_row : DiffRow
one_row = record { r_rows = ada ∷ []; r_idxs = some 0 ∷ none ∷ none ∷ [] }

one_row-IsDiffRow : IsDiffRow 3 2 one_row
unfolding IsDiffRow
one_row-IsDiffRow = ((ada-IsRow, tt), (refl, ((omega arith, (tt, (tt, tt))), (tt, tt))))

add_row-row_of_example :
    (later : DiffRow) × ((add_row 3 0 2 ada one_row ≡ some later)
      × (IsDiffRow 3 2 later
          × ((row_of later 2 ≡ some ada) × ((j : ℕ) → 2 ≢ j → row_of later j ≡ row_of one_row j))))
add_row-row_of_example =
    add_row-row_of 3 2 0 2 ada one_row one_row-IsDiffRow (omega arith) (omega arith) ada-IsRow

idle_local-InStep : InStep idle_local
idle_local-InStep = idle idle_local idle_local.content refl

idle_local-IsSound :
    (idle_local.content.has_asserted ≡ false)
    × Fits (next_read idle_local.unread).0 idle_local.content
unfolding next_read read_length
idle_local-IsSound = (refl, omega arith)

InStep_safe_example :
    (length idle_local.cmd_q + length idle_local.ret_q ≤ 1)
    × (((later : Local ℕ ℕ) × ((thd_worker (λ s. length s) (λ s. length s) small_system idle_local
              ≡ some later)
            × (InStep later × (later.content.has_asserted ≡ false))))
        × (((idle_local.file_read_state ≡ read_init)
              ⊎ ((code : CommonCode) × ((later : Local ℕ ℕ) × ((get_file_content idle_local
                        ≡ some (code, later))
                      × InStep later))))
            × ((idle_local.file_read_state ≢ read_init)
                ⊎ ((later : Local ℕ ℕ) × ((do_file_content local_path [] 0 idle_local ≡ some later)
                      × InStep later)))))
InStep_safe_example =
    InStep_safe (λ s. length s) (λ s. length s) small_system local_path idle_local local_path-named
      idle_local-IsSound idle_local-InStep
