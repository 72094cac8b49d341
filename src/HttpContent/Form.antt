-- ===== src/HttpContent/Form.antt =====
-- What the parser and the callbacks make of the text of a form.
use wfrest.Base.{
  ℕ, suc, ◌+◌, ◌≡◌, refl, ap, ◌∙◌, true, false, List, [], ◌∷◌, ◌++◌, some, ◌==◌, if◌then◌else◌,
  length, get_or, Bytes, codes, arith, All, c_str,
}
use wfrest.StrUtil.{split_piece}
use wfrest.Map
use wfrest.MultiPartParser.{
  cr, lf, s_start_boundary, s_header_field_start, s_header_value_start, s_header_value_almost_done,
  s_part_data_start, s_part_data_almost_boundary, s_part_data_boundary, s_part_data_almost_end,
  s_end, consumed, run, step, multipart_parser_init, s_start, multipart_parser_execute,
}
use wfrest.HttpContent.{
  Userdata, new_userdata, Progress, mp_header_field, mp_part_data_begin, mp_part_data_end,
  mp_body_end, handle_header, handle_data, header_field_cb, headers_complete_cb, part_data_begin_cb,
  body_end_cb, store_pairs, content_disposition, is_empty, mp_header_value, mp_part_data,
  mp_headers_complete, settings, form_of, parse_multipart,
}
use wfrest.HttpContent.Runs.{
  in_state, no_cr, run_value, run_data, run_start_boundary, look_behind, run_boundary,
}

-- Userdata between two parts.
abbrev blank : List (Bytes × (Bytes × Bytes)) → Progress → Userdata
blank form progress = record new_userdata { mp = form; state = progress }

-- A part with the header `Content-Disposition`, whose value names it, and with `Content-Type` unless
-- that is empty.
pub record FormPart : Type 0 where
  pub value : Bytes
  pub type_value : Bytes
  pub content : Bytes
  pub name : Bytes
  pub filename : Bytes

abbrev pub first_byte : Bytes → ℕ
first_byte s = get_or s 0 b' '

-- The value has a first byte that is no blank and gives the names, the type does not begin with a
-- blank, and no carriage return stands in them or in the content.
unfoldable pub IsFormPart : FormPart → Type 0
IsFormPart p =
    ((first_byte p.value == b' ') ≡ false)
    × (no_cr p.value ≡ true)
    × (no_cr p.content ≡ true)
    × ((get_or p.type_value 0 0 == b' ') ≡ false)
    × (no_cr p.type_value ≡ true)
    × (store_pairs (split_piece p.value b';') ([], []) ≡ some (p.name, p.filename))

-- The line of the second header, if there is one.
unfoldable pub type_line : Bytes → Bytes → Bytes
type_line [] rest = rest
type_line (c ∷ s) rest = codes "Content-Type: " ++ ((c ∷ s) ++ cr ∷ lf ∷ rest)

-- The text of a part from its header on, up to the boundary behind it and what follows that.
unfoldable pub part_text : Bytes → FormPart → Bytes → Bytes
unfolding type_line
part_text b p t =
    codes "Content-Disposition: "
    ++ (p.value ++ cr ∷ lf ∷ type_line p.type_value (cr ∷ lf ∷ (p.content ++ cr ∷ lf ∷ (b ++ t))))

-- What is behind the first boundary: the parts, each behind a line end, and the end.
unfoldable pub parts_text : Bytes → List FormPart → Bytes → Bytes
unfolding part_text
parts_text b [] epilogue = b'-' ∷ b'-' ∷ epilogue
parts_text b (p ∷ ps) epilogue = cr ∷ lf ∷ part_text b p (parts_text b ps epilogue)

unfoldable pub form_text : Bytes → List FormPart → Bytes → Bytes
unfolding parts_text
form_text boundary ps epilogue =
    (codes "--" ++ boundary) ++ parts_text (codes "--" ++ boundary) ps epilogue

-- The form that the parts stand for.
pub store_part : FormPart → List (Bytes × (Bytes × Bytes)) → List (Bytes × (Bytes × Bytes))
unfolding Map.insert
store_part p form =
    if is_empty p.name
    then form
    else Map.insert {V = Bytes × Bytes} p.name (p.filename, p.content) form

unfoldable pub store_parts :
    List FormPart → List (Bytes × (Bytes × Bytes)) → List (Bytes × (Bytes × Bytes))
unfolding store_part
store_parts [] form = form
store_parts (p ∷ ps) form = store_parts ps (store_part p form)

run_end :
    (s pending : Bytes) (i : ℕ) (lb b : Bytes) (u : Userdata)
    → run settings pending s (in_state s_end i lb b) u ≡ consumed (in_state s_end i lb b) u
unfolding run step
run_end [] pending i lb b u = refl
run_end (c ∷ s) pending i lb b u = run_end s [] i lb b u

-- A header's value from its first byte on.
run_value_start :
    (v t : Bytes) (i : ℕ) (lb b : Bytes) (u : Userdata)
    → (first_byte v == b' ') ≡ false
    → no_cr v ≡ true
    → run settings [] (v ++ cr ∷ t) (in_state s_header_value_start i lb b) u
      ≡ run settings [] t
          (in_state s_header_value_almost_done i lb b)
          (record u { state = mp_header_value; header_value = u.header_value ++ v })
unfolding run step
run_value_start [] t i lb b u h k = ground arith
run_value_start (c ∷ v) t i lb b u h k = rw (h, run) (run_value (c ∷ v) t [] i lb b u k)

-- The content of a part from its first byte on, when the headers give `v`.
run_content :
    (s t : Bytes) (i : ℕ) (lb b : Bytes) (u v : Userdata)
    → handle_header u ≡ some v
    → no_cr s ≡ true
    → run settings [] (s ++ cr ∷ t) (in_state s_part_data_start i lb b) u
      ≡ run settings [] t
          (in_state s_part_data_almost_boundary i (cr ∷ []) b)
          (record v { state = mp_part_data; part_data = v.part_data ++ s })
unfolding run step headers_complete_cb
run_content [] t i lb b u v e k =
    rw (e, run, headers_complete_cb)
      (run_data [] t [] i lb b (record v { state = mp_headers_complete }) k)
run_content (c ∷ s) t i lb b u v e k =
    rw (e, run, headers_complete_cb)
      (run_data (c ∷ s) t [] i lb b (record v { state = mp_headers_complete }) k)

-- The name of the header.
run_field :
    (t : Bytes) (i : ℕ) (lb b : Bytes) (form : List (Bytes × (Bytes × Bytes)))
    → run settings []
        (codes "Content-Disposition: " ++ t)
        (in_state s_header_field_start i lb b)
        (blank form mp_part_data_begin)
      ≡ run settings [] t (in_state s_header_value_start i lb b) (record new_userdata {
        mp = form;
        state = mp_header_field;
        header_field = content_disposition;
      })
unfolding run step header_field_cb handle_header
run_field t i lb b form = refl

abbrev with_value : FormPart → List (Bytes × (Bytes × Bytes)) → Userdata
with_value p form = record new_userdata {
  mp = form;
  state = mp_header_value;
  header_field = content_disposition;
  header_value = p.value;
}

abbrev with_names : FormPart → List (Bytes × (Bytes × Bytes)) → Userdata
with_names p form = record new_userdata {
  mp = form;
  state = mp_header_value;
  name = p.name;
  filename = p.filename;
}

filled : (v : Bytes) → (first_byte v == b' ') ≡ false → is_empty v ≡ false
filled [] h = ground arith
filled (c ∷ v) h = refl

handle_header-with_value :
    (p : FormPart) (form : List (Bytes × (Bytes × Bytes)))
    → IsFormPart p
    → handle_header (with_value p form) ≡ some (with_names p form)
unfolding handle_header IsFormPart
handle_header-with_value p form is_part =
    let (first, value, content, type_first, type_text, names) = is_part in
    rw (filled p.value first, handle_header) (rw names refl)

handle_data-with_names :
    (p : FormPart) (form : List (Bytes × (Bytes × Bytes))) (progress : Progress)
    → handle_data (record (with_names p form) { state = progress; part_data = p.content })
      ≡ blank (store_part p form) progress
unfolding handle_data store_part
handle_data-with_names p form progress = refl

-- The end of a header's line and the empty line, and the line end in front of a boundary.
run_line_ends :
    (t : Bytes) (i : ℕ) (lb b : Bytes) (u : Userdata)
    → run settings [] (lf ∷ cr ∷ lf ∷ t) (in_state s_header_value_almost_done i lb b) u
      ≡ run settings [] t (in_state s_part_data_start i lb b) u
unfolding run step
run_line_ends t i lb b u = refl

run_boundary_start :
    (t : Bytes) (i : ℕ) (b : Bytes) (u : Userdata)
    → run settings [] (lf ∷ t) (in_state s_part_data_almost_boundary i (cr ∷ []) b) u
      ≡ run settings [] t (in_state s_part_data_boundary 0 (cr ∷ lf ∷ []) b) u
unfolding run step
run_boundary_start t i b u = refl

-- What is known at the end of the headers.
typed : Bytes → FormPart → List (Bytes × (Bytes × Bytes)) → Userdata
typed [] p form = with_value p form
typed (c ∷ s) p form = record (with_names p form) {
  header_field = codes "Content-Type";
  header_value = c ∷ s;
}

handle_header-typed :
    (type : Bytes) (p : FormPart) (form : List (Bytes × (Bytes × Bytes)))
    → handle_header (with_value p form) ≡ some (with_names p form)
    → handle_header (typed type p form) ≡ some (with_names p form)
unfolding typed handle_header
handle_header-typed [] p form named = named
handle_header-typed (c ∷ s) p form named = refl

run_type_field :
    (t : Bytes) (i : ℕ) (lb b : Bytes) (p : FormPart) (form : List (Bytes × (Bytes × Bytes)))
    → handle_header (with_value p form) ≡ some (with_names p form)
    → run settings []
        (lf ∷ (codes "Content-Type: " ++ t))
        (in_state s_header_value_almost_done i lb b)
        (with_value p form)
      ≡ run settings [] t (in_state s_header_value_start i lb b) (record (with_names p form) {
        state = mp_header_field;
        header_field = codes "Content-Type";
      })
unfolding run step header_field_cb
run_type_field t i lb b p form named = rw (named, header_field_cb) refl

run-type_line :
    (type t : Bytes) (i : ℕ) (lb b : Bytes) (p : FormPart) (form : List (Bytes × (Bytes × Bytes)))
    → (get_or type 0 0 == b' ') ≡ false
    → no_cr type ≡ true
    → handle_header (with_value p form) ≡ some (with_names p form)
    → run settings []
        (lf ∷ type_line type (cr ∷ lf ∷ t))
        (in_state s_header_value_almost_done i lb b)
        (with_value p form)
      ≡ run settings [] t (in_state s_part_data_start i lb b) (typed type p form)
unfolding type_line typed
run-type_line [] t i lb b p form first text named = run_line_ends t i lb b (with_value p form)
run-type_line (c ∷ s) t i lb b p form first text named =
    run_type_field ((c ∷ s) ++ cr ∷ lf ∷ cr ∷ lf ∷ t) i lb b p form named
    ∙ run_value_start (c ∷ s) (lf ∷ cr ∷ lf ∷ t) i lb b
        (record (with_names p form) {
          state = mp_header_field;
          header_field = codes "Content-Type";
        })
        first text
    ∙ run_line_ends t i lb b (typed (c ∷ s) p form)

-- A part, from behind the line end of the boundary in front of it.
run_part :
    (c : ℕ) (post : Bytes) (p : FormPart) (t : Bytes) (i : ℕ) (lb : Bytes)
    (form : List (Bytes × (Bytes × Bytes)))
    → IsFormPart p
    → let b = c ∷ post in
      run settings []
        (part_text b p t)
        (in_state s_header_field_start i lb b)
        (blank form mp_part_data_begin)
      ≡ run settings [] t
          (in_state s_part_data_almost_end (length b) (look_behind (cr ∷ lf ∷ []) 0 b) b)
          (blank (store_part p form) mp_part_data_end)
unfolding part_text IsFormPart
run_part c post p t i lb form is_part =
    let (first, value, content, type_first, type_text, names) = is_part in
    let b = c ∷ post in
    let behind = p.content ++ cr ∷ lf ∷ (b ++ t) in
    run_field (p.value ++ cr ∷ lf ∷ type_line p.type_value (cr ∷ lf ∷ behind)) i lb b form
    ∙ run_value_start p.value (lf ∷ type_line p.type_value (cr ∷ lf ∷ behind)) i lb b
        (record new_userdata {
          mp = form;
          state = mp_header_field;
          header_field = content_disposition;
        })
        first value
    ∙ run-type_line p.type_value behind i lb b p form type_first type_text
        (handle_header-with_value p form is_part)
    ∙ run_content p.content (lf ∷ (b ++ t)) i lb b (typed p.type_value p form) (with_names p form)
        (handle_header-typed p.type_value p form (handle_header-with_value p form is_part)) content
    ∙ run_boundary_start (b ++ t) i b
        (record (with_names p form) { state = mp_part_data; part_data = p.content })
    ∙ run_boundary c post t 0 (cr ∷ lf ∷ []) b
        (record (with_names p form) { state = mp_part_data; part_data = p.content }) refl
    ∙ ap
        (run settings [] t
          (in_state s_part_data_almost_end (length b) (look_behind (cr ∷ lf ∷ []) 0 b) b))
        (handle_data-with_names p form mp_part_data_end)

init_text :
    (boundary : Bytes)
    → c_str boundary ≡ boundary
    → multipart_parser_init (codes "--" ++ boundary)
      ≡ in_state s_start 0 [] (codes "--" ++ boundary)
unfolding multipart_parser_init c_str
init_text boundary text = ap (λ b. in_state s_start 0 [] (codes "--" ++ b)) text

-- A boundary without NUL stays whole.
pub parse_multipart-text :
    (boundary body : Bytes)
    → c_str boundary ≡ boundary
    → parse_multipart boundary body
      ≡ form_of (
          multipart_parser_execute settings body
            (in_state s_start 0 [] (codes "--" ++ boundary))
            new_userdata)
unfolding parse_multipart
parse_multipart-text boundary body text =
    ap (λ p. form_of (multipart_parser_execute settings body p new_userdata))
      (init_text boundary text)

-- The first boundary, and the line end behind it.
run_start :
    (c : ℕ) (post t : Bytes)
    → let b = c ∷ post in
      run settings [] (b ++ t) (in_state s_start 0 [] b) new_userdata
      ≡ run settings [] t (in_state s_start_boundary (length b) [] b) new_userdata
unfolding run step
run_start c post t =
    run_start_boundary (c ∷ post) t 0 [] (c ∷ post) new_userdata refl (ground arith)

run_begin :
    (b t : Bytes)
    → run settings [] (cr ∷ lf ∷ t) (in_state s_start_boundary (length b) [] b) new_userdata
      ≡ run settings [] t (in_state s_header_field_start 0 [] b) (blank [] mp_part_data_begin)
unfolding run step part_data_begin_cb
run_begin b t =
    let here : (length b == length b) ≡ true = ground arith in
    let beyond : (suc (length b) == length b) ≡ false = ground arith in
    let next : (suc (length b) == length b + 1) ≡ true = ground arith in
    rw (here, run) (rw beyond (rw next refl))

-- The parts and what follows them, from behind a boundary.
run_parts :
    (post : Bytes) (ps : List FormPart) (epilogue : Bytes) (i : ℕ) (lb : Bytes)
    (form : List (Bytes × (Bytes × Bytes)))
    → All IsFormPart ps
    → let b = b'-' ∷ post in
      form_of (
        run settings []
          (parts_text b ps epilogue)
          (in_state s_part_data_almost_end i lb b)
          (blank form mp_part_data_end))
      ≡ some (store_parts ps form)
unfolding run step parts_text store_parts part_data_begin_cb body_end_cb
run_parts post [] epilogue i lb form are_parts =
    ap form_of (run_end epilogue [] i lb (b'-' ∷ post) (blank form mp_body_end))
run_parts post (p ∷ ps) epilogue i lb form are_parts =
    let b = b'-' ∷ post in
    let (is_part, others) = are_parts in
    ap form_of (run_part b'-' post p (parts_text b ps epilogue) i lb form is_part)
    ∙ run_parts post ps epilogue (length b) (look_behind (cr ∷ lf ∷ []) 0 b) (store_part p form)
        others

-- For every boundary without NUL, at least one part, and every text behind the last boundary: the text of the
-- parts is parsed without an exception, and the form is what the parts stand for: in their order,
-- each one that has a name is put under it with its file name and its content, the last one of a
-- name staying. A part here has the header `Content-Disposition`, whose value begins with no
-- blank and whose pairs give the name and the file name, and behind it `Content-Type` or no other;
-- neither these values nor the content hold a carriage return.
pub parse_multipart-form_text :
    (boundary : Bytes) (p : FormPart) (ps : List FormPart) (epilogue : Bytes)
    → c_str boundary ≡ boundary
    → All IsFormPart (p ∷ ps)
    → parse_multipart boundary (form_text boundary (p ∷ ps) epilogue)
      ≡ some (store_parts (p ∷ ps) [])
unfolding run step form_text parts_text store_parts part_data_begin_cb
parse_multipart-form_text boundary p ps epilogue text are_parts =
    let b = codes "--" ++ boundary in
    let post = b'-' ∷ boundary in
    let (is_part, others) = are_parts in
    let t = parts_text b ps epilogue in
    parse_multipart-text boundary (form_text boundary (p ∷ ps) epilogue) text
    ∙ ap form_of (
        run_start b'-' post (parts_text b (p ∷ ps) epilogue)
        ∙ run_begin (b'-' ∷ post) (part_text b p t)
        ∙ run_part b'-' post p t 0 [] [] is_part)
    ∙ run_parts post ps epilogue (length b) (look_behind (cr ∷ lf ∷ []) 0 b) (store_part p [])
        others
