-- ===== src/MultiPartParser.antt =====
-- src/core/MultiPartParser.c: the parser of multipart bodies, one byte after the other.
--
-- `execute` walks over the buffer with an index and a mark. Here `pending` is the bytes from the
-- mark to the index, where the state uses the mark. A callback answers; it also returns the user
-- data that it changes, and it may throw.
use wfrest.Base.{
  ℕ, suc, ◌+◌, Bool, true, false, not, ◌&&◌, ◌||◌, [], ◌∷◌, ◌++◌, ◌==◌, leb, if◌then◌else◌, length,
  get_or, take, to_lower, Bytes, c_str,
}

abbrev pub cr : ℕ
cr = 13

abbrev pub lf : ℕ
lf = 10

pub data State : Type 0 where
  s_uninitialized : State
  s_start : State
  s_start_boundary : State
  s_header_field_start : State
  s_header_field : State
  s_headers_almost_done : State
  s_header_value_start : State
  s_header_value : State
  s_header_value_almost_done : State
  s_part_data_start : State
  s_part_data : State
  s_part_data_almost_boundary : State
  s_part_data_boundary : State
  s_part_data_almost_end : State
  s_part_data_end : State
  s_part_data_final_hyphen : State
  s_end : State

-- `lookbehind` is the part of that buffer that has been written since its last use.
pub record Parser : Type 0 where
  pub index : ℕ
  pub state : State
  pub lookbehind : Bytes
  pub multipart_boundary : Bytes

-- A callback returns 0, or another number, or throws.
pub data Answer {ℓ} (U : Type ℓ) : Type ℓ where
  proceed : U → Answer U
  refuse : U → Answer U
  throw : Answer U

-- All callbacks are set.
pub record Settings {ℓ} (U : Type ℓ) : Type ℓ where
  pub on_header_field : Bytes → U → Answer U
  pub on_header_value : Bytes → U → Answer U
  pub on_part_data : Bytes → U → Answer U
  pub on_part_data_begin : U → Answer U
  pub on_headers_complete : U → Answer U
  pub on_part_data_end : U → Answer U
  pub on_body_end : U → Answer U

-- What one round of the loop does: it goes on with the bytes that are pending then, or `execute`
-- returns the index, or 0 from no known state, or a callback throws.
pub data Step {ℓ} (U : Type ℓ) : Type ℓ where
  go : Bytes → Parser → U → Step U
  halt : Parser → U → Step U
  unrecoverable : Parser → U → Step U
  thrown : Step U

-- What `execute` ends with: it returns `len`, or the index that `rest` starts at, or 0, or throws.
pub data Result {ℓ} (U : Type ℓ) : Type ℓ where
  consumed : Parser → U → Result U
  halted : Bytes → Parser → U → Result U
  returned_zero : Parser → U → Result U
  raised : Result U

-- `multipart_parser_init`: the boundary is a C string.
unfoldable pub multipart_parser_init : Bytes → Parser
unfolding c_str
multipart_parser_init boundary = record {
  index = 0;
  state = s_start;
  lookbehind = [];
  multipart_boundary = c_str boundary;
}

abbrev pub to_state : State → Parser → Parser
to_state s p = record p { state = s }

-- `(c != '-') && (cl < 'a' || cl > 'z')`, and that is not so.
unfoldable pub is_field_byte : ℕ → Bool
unfolding to_lower
is_field_byte c = c == b'-' || (leb b'a' (to_lower c) && leb (to_lower c) b'z')

-- `i == len - 1`, of the bytes behind `i`.
abbrev pub is_last : Bytes → Bool
is_last [] = true
is_last (c ∷ s) = false

module _ {ℓ} {U : Type ℓ} where
  -- `NOTIFY_CB` and `EMIT_DATA_CB`: what follows runs if the callback returns 0.
  abbrev pub then_go : Answer U → Parser → (U → Step U) → Step U
  then_go (proceed u) p next = next u
  then_go (refuse u) p next = halt p u
  then_go throw p next = thrown

  module _ (settings : Settings U) where
    on_start_boundary : ℕ → Parser → U → Step U
    on_start_boundary c p u =
        if p.index == length p.multipart_boundary
        then (if c == cr then go [] (record p { index = suc p.index }) u else halt p u)
        else if p.index == length p.multipart_boundary + 1
        then (if c == lf
            then then_go (settings.on_part_data_begin u) (record p { index = 0 })
                (go [] (record p { index = 0; state = s_header_field_start }))
            else halt p u)
        else if c == get_or p.multipart_boundary p.index 0
        then go [] (record p { index = suc p.index }) u
        else halt p u

    on_header_field_byte : Bytes → ℕ → Bool → Parser → U → Step U
    unfolding is_field_byte
    on_header_field_byte pending c last p u =
        if c == cr
        then go [] (to_state s_headers_almost_done p) u
        else if c == b':'
        then then_go (settings.on_header_field pending u) p
            (go [] (to_state s_header_value_start p))
        else if not (is_field_byte c)
        then halt p u
        else if last
        then then_go (settings.on_header_field (pending ++ c ∷ []) u) p (go [] p)
        else go (pending ++ c ∷ []) p u

    on_header_value_byte : Bytes → ℕ → Bool → Parser → U → Step U
    on_header_value_byte pending c last p u =
        if c == cr
        then then_go (settings.on_header_value pending u) p
            (go [] (to_state s_header_value_almost_done p))
        else if last
        then then_go (settings.on_header_value (pending ++ c ∷ []) u) p (go [] p)
        else go (pending ++ c ∷ []) p u

    on_part_data_byte : Bytes → ℕ → Bool → Parser → U → Step U
    on_part_data_byte pending c last p u =
        if c == cr
        then then_go (settings.on_part_data pending u) p
            (go [] (record p { state = s_part_data_almost_boundary; lookbehind = cr ∷ [] }))
        else if last
        then then_go (settings.on_part_data (pending ++ c ∷ []) u) p (go [] p)
        else go (pending ++ c ∷ []) p u

    -- `mark = i--`: the byte is looked at again, as part data.
    abbrev back_to_data : Bytes → ℕ → Bool → Parser → U → Step U
    back_to_data held c last p u =
        then_go (settings.on_part_data held u) p
          (on_part_data_byte [] c last (to_state s_part_data p))

    on_almost_boundary : ℕ → Bool → Parser → U → Step U
    unfolding on_part_data_byte
    on_almost_boundary c last p u =
        if c == lf
        then go []
            (record p {
              state = s_part_data_boundary;
              lookbehind = take 1 p.lookbehind ++ lf ∷ [];
              index = 0;
            })
            u
        else back_to_data (take 1 p.lookbehind) c last p u

    on_boundary_byte : ℕ → Bool → Parser → U → Step U
    unfolding on_part_data_byte
    on_boundary_byte c last p u =
        let further = record p {
          lookbehind = take (2 + p.index) p.lookbehind ++ c ∷ [];
          index = suc p.index;
        } in
        if not (get_or p.multipart_boundary p.index 0 == c)
        then back_to_data (take (2 + p.index) p.lookbehind) c last p u
        else if suc p.index == length p.multipart_boundary
        then then_go (settings.on_part_data_end u) further
            (go [] (to_state s_part_data_almost_end further))
        else go [] further u

    -- One round of the loop, on the byte `c`.
    unfoldable pub step : Bytes → ℕ → Bool → Parser → U → Step U
    unfolding on_start_boundary on_header_field_byte on_header_value_byte on_part_data_byte
        on_almost_boundary on_boundary_byte
    step pending c last p u = elim p.state [
      | s_uninitialized ↦ unrecoverable p u
      | s_start ↦ on_start_boundary c (record p { index = 0; state = s_start_boundary }) u
      | s_start_boundary ↦ on_start_boundary c p u
      | s_header_field_start ↦ on_header_field_byte [] c last (to_state s_header_field p) u
      | s_header_field ↦ on_header_field_byte pending c last p u
      | s_headers_almost_done ↦ if c == lf then go [] (to_state s_part_data_start p) u else halt p u
      | s_header_value_start ↦
          if c == b' '
          then go [] p u
          else on_header_value_byte [] c last (to_state s_header_value p) u
      | s_header_value ↦ on_header_value_byte pending c last p u
      | s_header_value_almost_done ↦
          if c == lf then go [] (to_state s_header_field_start p) u else halt p u
      | s_part_data_start ↦
          then_go (settings.on_headers_complete u) p
            (on_part_data_byte [] c last (to_state s_part_data p))
      | s_part_data ↦ on_part_data_byte pending c last p u
      | s_part_data_almost_boundary ↦ on_almost_boundary c last p u
      | s_part_data_boundary ↦ on_boundary_byte c last p u
      | s_part_data_almost_end ↦
          if c == b'-'
          then go [] (to_state s_part_data_final_hyphen p) u
          else if c == cr
          then go [] (to_state s_part_data_end p) u
          else halt p u
      | s_part_data_end ↦
          if c == lf
          then (let q = to_state s_header_field_start p in
              then_go (settings.on_part_data_begin u) q (go [] q))
          else halt p u
      | s_part_data_final_hyphen ↦
          if c == b'-'
          then then_go (settings.on_body_end u) p (go [] (to_state s_end p))
          else halt p u
      | s_end ↦ go [] p u
    ]

    -- The loop from a byte on; `halted rest` is a return of the index that `rest` starts at.
    unfoldable pub run : Bytes → Bytes → Parser → U → Result U
    unfolding step
    run pending [] p u = consumed p u
    run pending (c ∷ s) p u = elim (step pending c (is_last s) p u) [
      | go pending' p' u' ↦ run pending' s p' u'
      | halt p' u' ↦ halted (c ∷ s) p' u'
      | unrecoverable p' u' ↦ returned_zero p' u'
      | thrown ↦ raised
    ]

    -- `multipart_parser_execute`.
    abbrev pub multipart_parser_execute : Bytes → Parser → U → Result U
    multipart_parser_execute buf p u = run [] buf p u
