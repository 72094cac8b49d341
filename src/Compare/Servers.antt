-- ===== src/Compare/Servers.antt =====
-- file_compare/compare/dc_compare.cc: `exe_sql_job_for_single_item_dir1`, which asks every server for
-- the attributes of the directories, waits for all of them and puts them together.
--
-- What a server's `get_dir_list_attr` gives, one call after the other, is a list of codes; behind
-- its end it asks to try again.
pub mod Waiting
use wfrest.Base.{
  ℕ, zero, suc, ◌+◌, Bool, true, false, List, [], ◌∷◌, ◌++◌, map, Option, none, some, ◌==◌,
  if◌then◌else◌, length, get_elem?, Bytes,
}
use wfrest.CommonCode.{CommonCode, s_success, e_dc_content_retry}
use wfrest.FileAttr.{FileAttr, empty_attr}
use wfrest.Compare.{AttrJson, empty_json, assign_attr_to_json, compare_assign}

-- `has_done` and `has_failed` of a server, with the answers that it is yet to give.
pub record Waiter : Type 0 where
  pub has_done : Bool
  pub has_failed : CommonCode
  pub answers : List CommonCode

-- The first loop, of what `do_dir_list_attr` gave.
unfoldable pub ask : CommonCode → List CommonCode → Waiter
ask ret answers =
    if ret == s_success
    then record { has_done = false; has_failed = s_success; answers = answers }
    else record { has_done = true; has_failed = ret; answers = answers }

-- A server that is told a code: a code of success leaves `has_failed` as it is.
told : CommonCode → List CommonCode → Waiter → Waiter
told ret rest w = if ret == e_dc_content_retry then record w { answers = rest } else record {
  has_done = true;
  has_failed = if ret == s_success then w.has_failed else ret;
  answers = rest;
}

poll_undone : List CommonCode → Waiter → Waiter
unfolding told
poll_undone [] w = w
poll_undone (ret ∷ rest) w = told ret rest w

-- The body of the inner loop.
unfoldable pub poll : Waiter → Waiter
unfolding poll_undone
poll w = if w.has_done then w else poll_undone w.answers w

unfoldable pub all_done : List Waiter → Bool
all_done [] = true
all_done (w ∷ ws) = elim w.has_done [ true ↦ all_done ws | false ↦ false ]

-- The outer loop, of at most so many turns; `none` where they are not enough.
unfoldable pub poll_all : ℕ → List Waiter → Option (List Waiter)
unfolding all_done poll
poll_all zero ws = if all_done ws then some ws else none
poll_all (suc turns) ws =
    let rest = poll_all turns (map poll ws) in elim (all_done ws) [ true ↦ some ws | false ↦ rest ]

-- What is put together of a server: its name, its list of attributes and `has_failed`.
pub record Server : Type 0 where
  pub c_center : Bytes
  pub dir_attr_list : List FileAttr
  pub failed : CommonCode

module _ (code_msg : CommonCode → Bytes) where
  std_entry : Option FileAttr → Server → AttrJson × FileAttr
  std_entry none s = (
    record empty_json {
      is_standard = true;
      errno = some s.failed;
      error = some (code_msg s.failed);
    },
    record empty_attr { f_code = s.failed },
  )
  std_entry (some attr) s =
      (assign_attr_to_json (record empty_json { is_standard = true }) s.c_center attr, attr)

  other_entry : Option FileAttr → FileAttr → Server → List AttrJson
  other_entry none std s =
      record empty_json { errno = some s.failed; error = some (code_msg s.failed) } ∷ []
  other_entry (some attr) std s =
      let (reported, json) = compare_assign code_msg std attr empty_json s.c_center in
      if reported then json ∷ [] else []

  -- The servers from the index `i` on, without the standard.
  other_entries : ℕ → ℕ → ℕ → FileAttr → List Server → List AttrJson
  unfolding other_entry
  other_entries i std_idx dir_idx std [] = []
  other_entries i std_idx dir_idx std (s ∷ servers) =
      let rest = other_entries (suc i) std_idx dir_idx std servers in
      if i == std_idx then rest else other_entry (get_elem? s.dir_attr_list dir_idx) std s ++ rest

  -- The array `servers` of a directory; `none` is the assertion that the standard is one of them.
  unfoldable pub server_json_list : ℕ → ℕ → List Server → Option (List AttrJson)
  unfolding std_entry other_entries
  server_json_list std_idx dir_idx servers = elim (get_elem? servers std_idx) [
    | none ↦ none
    | some s ↦
        let (json, attr) = std_entry (get_elem? s.dir_attr_list dir_idx) s in
        some (json ∷ other_entries 0 std_idx dir_idx attr servers)
  ]
