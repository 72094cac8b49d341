-- ===== src/Tests/Task.antt =====
-- The theorems on building a task at concrete inputs.
use wfrest.Base.{
  ℕ, ◌<◌, ◌≡◌, refl, true, [], ◌∷◌, map, Option, none, some, ◌==◌, if◌then◌else◌, equal, get_elem?,
  Bytes, codes, pos,
}
use wfrest.CommonCode.{s_success}
use wfrest.ApiTask.{
  cjson_true, cjson_number, cjson_string, cjson_array, cjson_object, CJson, ServerInfo, ApiTask,
  built, invalid, handle_error, choose_std, build_task_from_json,
}
use wfrest.ApiTask.Standard.{standards, is_standard, choose_std_lem}
use wfrest.ApiTask.Outcome.{Holds, IsTask, HasEmptyUuid, build_task_from_json-IsTask}

-- Values of one task with one server: 0 is the task, 1 its array of servers, 2 the server, 3 a text,
-- 4 a port and 5 true.
abbrev task_member : ℕ → Bytes → Option ℕ
task_member j key =
    if j == 0
    then if equal key (codes "uuid")
      then some 3
      else if equal key (codes "servers")
      then some 1
      else none
    else if j == 2
    then if equal key (codes "port")
      then some 4
      else if equal key (codes "standard")
      then some 5
      else if equal key (codes "excluded_file_regex")
      then none
      else some 3
    else none

abbrev task_json : CJson ℕ
task_json = record {
  get_object_item = task_member;
  json_type = λ j.
      if j == 1
      then cjson_array
      else if j == 3
      then cjson_string
      else if j == 4
      then cjson_number
      else if j == 5
      then cjson_true
      else cjson_object;
  valuestring = λ j. if j == 3 then some (codes "a") else none;
  valueint = λ j. pos 8080;
  items = λ j. if j == 1 then 2 ∷ [] else [];
}

abbrev empty_task : ApiTask
empty_task = record {
  t_task_uuid = [];
  t_server_info_arr = [];
  t_result_type = 0;
  t_excluded_file_regex = [];
  t_std_idx = none;
  t_error = s_success;
  t_error_msg = [];
}

build_task_from_json-IsTask_example :
    Holds IsTask (HasEmptyUuid task_json 0) (build_task_from_json task_json (some 0) empty_task)
build_task_from_json-IsTask_example = build_task_from_json-IsTask task_json 0 empty_task refl

abbrev one_server : ServerInfo
one_server = record {
  c_center = codes "a";
  c_host = codes "a";
  c_user = codes "a";
  c_password = codes "a";
  c_port = 8080;
  c_standard = true;
  c_excluded_file_regex = [];
  c_base_dir = codes "a";
  c_path_to_compare = codes "a";
}

-- That task is built, with the server.
task_built :
    build_task_from_json task_json (some 0) empty_task
    ≡ built (record empty_task {
      t_task_uuid = codes "a";
      t_server_info_arr = one_server ∷ [];
      t_std_idx = some 0;
    })
unfolding build_task_from_json
task_built = refl

abbrev served_task : ApiTask
served_task = record empty_task { t_server_info_arr = one_server ∷ one_server ∷ [] }

choose_std_lem_example :
    (standards served_task.t_server_info_arr ≡ 0
      → choose_std served_task
        ≡ handle_error
            (codes "no standard server provided")
            (record served_task { t_std_idx = none }))
    × ((standards served_task.t_server_info_arr ≡ 1
          → (i : ℕ) × ((choose_std served_task ≡ built (record served_task { t_std_idx = some i }))
              × (get_elem? (map is_standard served_task.t_server_info_arr) i ≡ some true)))
        × (1 < standards served_task.t_server_info_arr
            → (i : ℕ) × (choose_std served_task
                ≡ invalid (record served_task { t_std_idx = some i }))))
choose_std_lem_example = choose_std_lem served_task
