-- ===== src/HttpMsg/Encoder/Sections.antt =====
-- The body that the encoder sends is the text of a form behind a line end.
use wfrest.Base.{
  ◌≡◌, ◌≢◌, refl, ap, ◌∙◌, Bool, true, List, [], ◌∷◌, ◌++◌, map, Option, some, Bytes, codes, All,
}
use mathlib.Core.List.{append_assoc, append-nil}
use wfrest.MultiPartParser.{cr, lf}
use wfrest.PathUtil.{base, suffix}
use wfrest.HttpDef.{to_str_by_suffix}
use wfrest.HttpContent.Form.{FormPart, type_line, part_text, parts_text, form_text}
use wfrest.HttpMsg.Encoder.{boundary_line, param_text, file_text, params_text, run_files}
use wfrest.HttpMsg.Encoder.Names.{param_value, file_value}

-- A file of the form with the bytes that are read of it.
pub record FileItem : Type 0 where
  pub name : Bytes
  pub path : Bytes
  pub bytes : Bytes

abbrev pub file_of : FileItem → Bytes × Bytes
file_of item = (item.name, item.path)

-- The parts of a form that stand for a parameter and for a file.
abbrev pub param_part : Bytes × Bytes → FormPart
param_part (name, value) = record {
  value = param_value name;
  type_value = [];
  content = value;
  name = name;
  filename = [];
}

abbrev pub file_part : FileItem → FormPart
file_part item = record {
  value = file_value item.name (base item.path);
  type_value = to_str_by_suffix (suffix item.path);
  content = item.bytes;
  name = item.name;
  filename = base item.path;
}

-- A part behind its boundary.
section_text : Bytes → FormPart → Bytes
section_text boundary p =
    boundary_line boundary
    ++ (cr
        ∷ lf
        ∷ (codes "Content-Disposition: "
            ++ (p.value ++ (cr ∷ lf ∷ type_line p.type_value (cr ∷ lf ∷ p.content)))))

pub sections : Bytes → List FormPart → Bytes
sections boundary [] = []
sections boundary (p ∷ ps) = section_text boundary p ++ sections boundary ps

type_line-append :
    (type rest more : Bytes) → type_line type rest ++ more ≡ type_line type (rest ++ more)
unfolding type_line
type_line-append [] rest more = refl
type_line-append (c ∷ s) rest more = simp append_assoc

behind_section :
    (boundary : Bytes) (p : FormPart) (t : Bytes)
    → section_text boundary p ++ (cr ∷ lf ∷ ((codes "--" ++ boundary) ++ t))
      ≡ cr ∷ lf ∷ ((codes "--" ++ boundary) ++ (cr ∷ lf ∷ part_text (codes "--" ++ boundary) p t))
unfolding section_text part_text boundary_line
behind_section boundary p t = simp (append_assoc, type_line-append)

pub sections-form_text :
    (boundary : Bytes) (ps : List FormPart) (epilogue : Bytes)
    → sections boundary ps ++ (boundary_line boundary ++ (codes "--" ++ epilogue))
      ≡ cr ∷ lf ∷ form_text boundary ps epilogue
unfolding sections section_text form_text parts_text part_text boundary_line
sections-form_text boundary [] epilogue = refl
sections-form_text boundary (p ∷ ps) epilogue =
    append_assoc (section_text boundary p) (sections boundary ps) _
    ∙ ap (◌++◌ (section_text boundary p)) (sections-form_text boundary ps epilogue)
    ∙ behind_section boundary p (parts_text (codes "--" ++ boundary) ps epilogue)

param_text-section :
    (boundary : Bytes) (param : Bytes × Bytes)
    → param_text boundary param ≡ section_text boundary (param_part param)
unfolding param_text section_text boundary_line type_line
param_text-section boundary (name, value) = simp append_assoc

-- A type that is known makes a line of its own.
type_line-known :
    (type rest : Bytes)
    → type ≢ []
    → type_line type rest ≡ codes "Content-Type: " ++ (type ++ (cr ∷ lf ∷ rest))
unfolding type_line
type_line-known [] rest h = absurd (h refl)
type_line-known (c ∷ s) rest h = refl

file_text-section :
    (boundary : Bytes) (item : FileItem)
    → to_str_by_suffix (suffix item.path) ≢ []
    → file_text boundary (file_of item) item.bytes ≡ section_text boundary (file_part item)
unfolding file_text section_text boundary_line
file_text-section boundary item known =
    rw (type_line-known (to_str_by_suffix (suffix item.path)) (cr ∷ lf ∷ item.bytes) known)
      (simp append_assoc)

pub params_text-sections :
    (boundary : Bytes) (params : List (Bytes × Bytes))
    → params_text boundary params ≡ sections boundary (map param_part params)
unfolding params_text sections
params_text-sections boundary [] = refl
params_text-sections boundary (param ∷ params) =
    ap (λ s. s ++ params_text boundary params) (param_text-section boundary param)
    ∙ ap (◌++◌ (section_text boundary (param_part param))) (params_text-sections boundary params)

pub sections-append :
    (boundary : Bytes) (ps qs : List FormPart)
    → sections boundary (ps ++ qs) ≡ sections boundary ps ++ sections boundary qs
unfolding sections
sections-append boundary [] qs = refl
sections-append boundary (p ∷ ps) qs = simp (sections-append boundary ps qs, append_assoc)

module _ (is_file has_size : Bytes → Bool) (pread : Bytes → Option Bytes) where
  -- The file is there and its bytes are read, and its type is known by its suffix.
  abbrev pub IsRead : FileItem → Type 0
  IsRead item =
      (is_file item.path ≡ true)
      × (has_size item.path ≡ true)
      × (pread item.path ≡ some item.bytes)
      × (to_str_by_suffix (suffix item.path) ≢ [])

  abbrev pub last_line : Bytes → Bytes
  last_line boundary = boundary_line boundary ++ (codes "--" ++ (cr ∷ lf ∷ []))

  pub run_files-sections :
      (boundary content : Bytes) (item : FileItem) (items : List FileItem)
      → All IsRead (item ∷ items)
      → run_files is_file has_size pread boundary (map file_of (item ∷ items)) content
        ≡ some ((content ++ sections boundary (map file_part (item ∷ items))) ++ last_line boundary)
  unfolding run_files sections
  run_files-sections boundary content item [] ((there, sized, readable, known), others) =
      rw there
        (rw sized (rw readable (rw (file_text-section boundary item known) (simp append-nil))))
  run_files-sections boundary content item (next ∷ items)
        ((there, sized, readable, known), others) =
      rw there (
        rw sized (
          rw readable (
            rw (file_text-section boundary item known) (
              run_files-sections boundary (content ++ section_text boundary (file_part item)) next
                items others
              ∙ ap (λ s. some (s ++ last_line boundary))
                  (append_assoc content (section_text boundary (file_part item))
                    (sections boundary (map file_part (next ∷ items))))))))
