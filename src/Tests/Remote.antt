-- ===== src/Tests/Remote.antt =====
-- The theorem on the requests to a remote server at a concrete input.
use wfrest.Base.{[], ◌∷◌, Option, some, if◌then◌else◌, equal, Bytes, codes}
use wfrest.Remote.{RemoteServer, Json}

-- A body is its own value, and a code or a result by itself.
abbrev plain_json : Json Bytes
plain_json = record {
  parse = λ s. some s;
  dump = λ request. codes "dirs";
  find = λ key value.
      if equal key (codes "error")
      then some (if equal value (codes "23") then codes "23" else codes "0")
      else if equal key (codes "uuid")
      then some (codes "id")
      else some (codes "x");
  text = λ s. some s;
  number = λ s. some 0;
  items = λ s. s ∷ [];
}

abbrev plain_stream : Bytes → Option Bytes
plain_stream s = some s

abbrev far_server : RemoteServer
far_server = record {
  c_host = codes "far";
  c_port = 80;
  c_base_dir = codes "/";
  t_task_uuid = codes "id";
}
