-- ===== src/HttpMsg/Encoder.antt =====
-- src/core/HttpMsg.cc, HttpResp::String of a MultiPartEncoder: the body that encodes a form.
--
-- The file system is a parameter: whether a path is a file, whether its size is known, and what is
-- read of it then, if the read succeeds. The tasks of the files run one after the other.
pub mod Names
pub mod Sections
pub mod Read
use wfrest.Base.{
  Bool, true, false, not, ◌||◌, List, [], ◌∷◌, ◌++◌, Option, none, some, if◌then◌else◌, Bytes,
  codes,
}
use wfrest.MultiPartParser.{cr, lf}
use wfrest.PathUtil.{base, suffix}
use wfrest.HttpDef.{to_str_by_suffix}

-- `params_`, of names and values; `files_`, of names and paths.
pub record MultiPartEncoder : Type 0 where
  pub boundary : Bytes
  pub params : List (Bytes × Bytes)
  pub files : List (Bytes × Bytes)

-- `"\r\n--"` and the boundary.
unfoldable pub boundary_line : Bytes → Bytes
boundary_line boundary = cr ∷ lf ∷ (codes "--" ++ boundary)

-- What is appended for a parameter, and for a file that has been read.
unfoldable pub param_text : Bytes → Bytes × Bytes → Bytes
unfolding boundary_line
param_text boundary (name, value) =
    boundary_line boundary
    ++ (cr
        ∷ lf
        ∷ (codes "Content-Disposition: form-data; name=\""
            ++ (name ++ (b'"' ∷ cr ∷ lf ∷ cr ∷ lf ∷ value))))

unfoldable pub file_text : Bytes → Bytes × Bytes → Bytes → Bytes
unfolding boundary_line base suffix to_str_by_suffix
file_text boundary (name, path) bytes =
    boundary_line boundary
    ++ (cr
        ∷ lf
        ∷ (codes "Content-Disposition: form-data; name=\""
            ++ (name
                ++ (codes "\"; filename=\""
                    ++ (base path
                        ++ (b'"'
                            ∷ cr
                            ∷ lf
                            ∷ (codes "Content-Type: "
                                ++ (to_str_by_suffix (suffix path)
                                    ++ (cr ∷ lf ∷ cr ∷ lf ∷ bytes)))))))))

pub params_text : Bytes → List (Bytes × Bytes) → Bytes
unfolding param_text
params_text boundary [] = []
params_text boundary (param ∷ params) = param_text boundary param ++ params_text boundary params

module _ (is_file has_size : Bytes → Bool) (pread : Bytes → Option Bytes) where
  -- The callback of a file's task; what it appends.
  read_text : Bytes → Bytes × Bytes → Option Bytes → Bytes
  unfolding file_text
  read_text boundary file none = []
  read_text boundary file (some bytes) = file_text boundary file bytes

  is_last_file : List (Bytes × Bytes) → Bool
  is_last_file [] = true
  is_last_file (file ∷ files) = false

  -- The files' tasks with the content so far: the last file's sends it, if it is a task.
  pub run_files : Bytes → List (Bytes × Bytes) → Bytes → Option Bytes
  unfolding read_text is_last_file boundary_line
  run_files boundary [] content = none
  run_files boundary ((name, path) ∷ files) content =
      let grown = content ++ read_text boundary (name, path) (pread path) in
      let task : Option Bytes =
        if is_last_file files
        then some (grown ++ (boundary_line boundary ++ (codes "--" ++ (cr ∷ lf ∷ []))))
        else run_files boundary files grown in
      let skipped = run_files boundary files content in
      if not (is_file path) || not (has_size path) then skipped else task

  -- The body, or none where nothing is sent.
  unfoldable pub encode : MultiPartEncoder → Option Bytes
  unfolding run_files params_text
  encode e = run_files e.boundary e.files (params_text e.boundary e.params)
