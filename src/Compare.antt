-- ===== src/Compare.antt =====
-- file_compare/compare/dc_compare.cc: the comparison of directories between the servers of a task.
--
-- Objects of the result are written as the keys that they have; the text of an error code is a
-- parameter.
pub mod Patch
pub mod Servers
pub mod Walk
use wfrest.Base.{
  ℕ, zero, suc, ◌+◌, Bool, true, false, not, List, [], ◌∷◌, ◌++◌, Option, none, some, ◌==◌,
  if◌then◌else◌, length, take, drop, equal, get_elem?, Bytes, ltb,
}
use wfrest.CommonCode.{CommonCode, s_success, e_dc_content_retry}
use wfrest.FileAttr.{FileAttr, empty_attr, compare_attr, equal_size}

-- An object of the array `servers`. A size of -1 is `some none`.
pub record AttrJson : Type 0 where
  pub is_standard : Bool
  pub server_name : Option Bytes
  pub size : Option (Option ℕ)
  pub owner : Option Bytes
  pub last_updated : Option Bytes
  pub mode : Option Bytes
  pub md5 : Option Bytes
  pub errno : Option CommonCode
  pub error : Option Bytes

abbrev pub empty_json : AttrJson
empty_json = record {
  is_standard = false;
  server_name = none;
  size = none;
  owner = none;
  last_updated = none;
  mode = none;
  md5 = none;
  errno = none;
  error = none;
}

set_size : Option ℕ → AttrJson → AttrJson
set_size none json = json
set_size (some n) json = record json { size = some (some n) }

unfoldable pub assign_attr_to_json : AttrJson → Bytes → FileAttr → AttrJson
unfolding set_size
assign_attr_to_json json center_name attr =
    record (set_size attr.f_size (record json { server_name = some center_name })) {
      owner = some attr.f_owner;
      last_updated = some attr.f_last_updated;
      mode = some attr.f_mode;
    }

-- With the digest of the content.
unfoldable pub assign_attr_and_md5 : AttrJson → Bytes → FileAttr → Bytes → AttrJson
unfolding assign_attr_to_json
assign_attr_and_md5 json center_name attr digest =
    record (assign_attr_to_json json center_name attr) { md5 = some digest }

-- A key that is written where two texts differ.
unfoldable pub if_changed : Bytes → Bytes → Option Bytes → Option Bytes
if_changed old new before = if equal old new then before else some new

-- The keys of what differs.
changes : FileAttr → FileAttr → AttrJson → Bytes → AttrJson
unfolding if_changed equal_size
changes std other json center_name = record json {
  server_name = some center_name;
  size = if equal_size std.f_size other.f_size then json.size else some other.f_size;
  owner = if_changed std.f_owner other.f_owner json.owner;
  last_updated = if_changed std.f_last_updated other.f_last_updated json.last_updated;
  mode = if_changed std.f_mode other.f_mode json.mode;
}

module _ (code_msg : CommonCode → Bytes) where
  abbrev failed : CommonCode → AttrJson → AttrJson
  failed code json = record json { errno = some code; error = some (code_msg code) }

  -- Whether the object is to be reported, and the object.
  unfoldable pub compare_assign : FileAttr → FileAttr → AttrJson → Bytes → Bool × AttrJson
  unfolding assign_attr_to_json changes compare_attr
  compare_assign std other json center_name =
      if not (other.f_code == s_success)
      then (true, failed other.f_code json)
      else if not (std.f_code == s_success)
      then (true, assign_attr_to_json json center_name other)
      else if compare_attr std other
      then (false, json)
      else (true, changes std other json center_name)

  -- The same of files, with the digests of their contents.
  unfoldable pub compare_assign_md5 :
      FileAttr → FileAttr → AttrJson → Bytes → Bytes → Bytes → Bool × AttrJson
  unfolding assign_attr_and_md5 changes compare_attr if_changed
  compare_assign_md5 std other json center_name std_md5 other_md5 =
      if not (other.f_code == s_success)
      then (true, failed other.f_code json)
      else if not (std.f_code == s_success)
      then (true, assign_attr_and_md5 json center_name other other_md5)
      else if compare_attr std other
      then (false, json)
      else (
        true,
        record (changes std other json center_name) { md5 = if_changed std_md5 other_md5 json.md5 },
      )
