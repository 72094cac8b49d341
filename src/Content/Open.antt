-- ===== src/Content/Open.antt =====
-- When a file is closed.
use wfrest.Content.Lines.{not_negative-short, whole_line_lem}
use wfrest.Base.{
  ◌≡◌, refl, ◌∙◌, ◌⊎◌, inl, inr, true, false, [], ◌∷◌, ◌++◌, Option, none, some, ◌==◌, ltb, length,
  Bytes, Bool-cases, ap, ℕ, ◌+◌, ◌<◌, ◌≤◌, ◌^◌, take, length-append, arith,
}
use wfrest.Content.{
  Content, success, over, read_error, file_content_read, file_read_buf, finish,
  compute_sha1_by_lines, compute_loop, compute_sha1_of_single_line, check_is_empty_line, whole_line,
  int_length, is_negative, finish_line,
}

-- How many bytes a read gives.
unfoldable pub read_length : Option Bytes → ℕ
read_length none = 0
read_length (some b) = length b

module _ {ℓ} {D M : Type ℓ} where
  -- The bytes of a read and those left of a line before it fit an `int`.
  abbrev pub Fits : Option Bytes → Content D M → Type 0
  Fits r h = length h.file_pre_line + read_length r < 2 ^ 31

module _ {ℓ} {D M : Type ℓ} (sha1 : Bytes → D) where
  single_line_open :
      (line : Bytes) (h : Content D M)
      → (compute_sha1_of_single_line sha1 line h).is_open ≡ h.is_open
  unfolding compute_sha1_of_single_line
  single_line_open line h =
      let whole = whole_line h.file_pre_line line in
      elim (Bool-cases (is_negative (int_length whole))) [
        | inl n ↦ rw n refl
        | inr n ↦ elim (Bool-cases (check_is_empty_line (take (int_length whole) whole))) [
          | inl e ↦ rw n (rw e refl)
          | inr e ↦ rw n (rw e refl)
        ]
      ]

  -- Bytes that fit an `int` with those left of the line: no assertion fails.
  single_line_fits :
      (line : Bytes) (h : Content D M)
      → length h.file_pre_line + length line < 2 ^ 31
      → let h' = compute_sha1_of_single_line sha1 line h in
        (h'.has_asserted ≡ h.has_asserted) × (h'.file_pre_line ≡ [])
  unfolding compute_sha1_of_single_line
  single_line_fits line h fits =
      let whole = whole_line h.file_pre_line line in
      let size : length whole ≡ length h.file_pre_line + length line =
        ap length (whole_line_lem h.file_pre_line line) ∙ length-append h.file_pre_line line in
      let good = not_negative-short whole (omega arith) in
      elim (Bool-cases (check_is_empty_line (take (int_length whole) whole))) [
        | inl e ↦ rw good (rw e (refl, refl))
        | inr e ↦ rw good (rw e (refl, refl))
      ]

  loop_fits :
      (line s : Bytes) (h : Content D M)
      → length h.file_pre_line + (length line + length s) < 2 ^ 31
      → let h' = compute_loop sha1 line s h in
        (h'.has_asserted ≡ h.has_asserted)
        × (length h'.file_pre_line ≤ length h.file_pre_line + (length line + length s))
  unfolding compute_loop
  loop_fits line [] h fits = (refl, omega (arith, length-append h.file_pre_line line))
  loop_fits line (c ∷ s) h fits = elim (Bool-cases (c == b'\n')) [
    | inl e ↦
        let hashed = compute_sha1_of_single_line sha1 line h in
        let (flag, clean) = single_line_fits line h (omega arith) in
        let none_left : length hashed.file_pre_line ≡ 0 = ap length clean in
        let (kept, grown) = loop_fits [] s hashed (omega arith) in
        rw (e, compute_loop) (kept ∙ flag, omega arith)
    | inr e ↦
        let more : length (line ++ c ∷ []) ≡ length line + 1 = length-append line (c ∷ []) in
        let (kept, grown) = loop_fits (line ++ c ∷ []) s h (omega arith) in
        rw (e, compute_loop) (kept, omega arith)
  ]

  finish_line_fits :
      (s : Bytes) (h : Content D M)
      → length s < 2 ^ 31
      → length (finish_line sha1 s h).file_pre_line ≤ length h.file_pre_line
        × ((finish_line sha1 s h).has_asserted ≡ h.has_asserted)
  unfolding finish_line
  finish_line_fits [] h fits = (omega arith, refl)
  finish_line_fits (c ∷ s) h fits =
      let good = not_negative-short (c ∷ s) fits in
      elim (Bool-cases (check_is_empty_line (take (int_length (c ∷ s)) (c ∷ s)))) [
        | inl e ↦ rw good (rw e (omega arith, refl))
        | inr e ↦ rw good (rw e (omega arith, refl))
      ]

  lines_open : (line s : Bytes) (h : Content D M) → (compute_loop sha1 line s h).is_open ≡ h.is_open
  unfolding compute_loop
  lines_open line [] h = refl
  lines_open line (c ∷ s) h = elim (Bool-cases (c == b'\n')) [
    | inl e ↦
        rw (e, compute_loop)
          (lines_open [] s (compute_sha1_of_single_line sha1 line h) ∙ single_line_open line h)
    | inr e ↦ rw (e, compute_loop) (lines_open (line ++ c ∷ []) s h)
  ]

  pub finish_fits :
      (h : Content D M)
      → length h.file_pre_line < 2 ^ 31
      → (finish sha1 h).has_asserted ≡ h.has_asserted
  unfolding finish
  finish_fits h fits = (finish_line_fits h.file_pre_line h fits).1

  -- A read that is not the last leaves the file open, and one that ends the file closes it. Where the
  -- bytes fit, no assertion fails, and no more bytes are left of a line.
  pub file_content_read-cases :
      (md5_of : Bytes → M) (r : Option Bytes) (h : Content D M)
      → h.is_open ≡ true
      → h.has_asserted ≡ false
      → Fits r h
      → ((later : Content D M) × (file_content_read sha1 md5_of r h ≡ (success, later))
          × (later.is_open ≡ true)
          × (later.has_asserted ≡ false)
          × (length later.file_pre_line ≤ length h.file_pre_line + read_length r))
        ⊎ (((later : Content D M) × (file_content_read sha1 md5_of r h ≡ (over, later))
              × (later.is_open ≡ false)
              × (later.has_asserted ≡ false))
            ⊎ (file_content_read sha1 md5_of r h ≡ (read_error, h)))
  unfolding file_content_read finish compute_sha1_by_lines read_length
  file_content_read-cases md5_of none h opened sound fits = inr (inr refl)
  file_content_read-cases md5_of (some []) h opened sound fits = inr (
      inl (
        _,
        refl,
        refl,
        (finish_line_fits h.file_pre_line (record h { md5 = some (md5_of []) }) (omega arith)).1
            ∙ sound,
      ))
  file_content_read-cases md5_of (some (c ∷ s)) h opened sound fits =
      let started = record h { md5 = some (md5_of (c ∷ s)) } in
      let hashed = compute_loop sha1 [] (c ∷ s) started in
      let (flag, grown) = loop_fits [] (c ∷ s) started (omega arith) in
      elim (Bool-cases (ltb (length (c ∷ s)) file_read_buf)) [
        | inl e ↦ inr (
            inl (
              record (finish sha1 (compute_loop sha1 [] (c ∷ s) started)) { is_open = false },
              rw e refl,
              refl,
              (finish_line_fits hashed.file_pre_line hashed (omega arith)).1 ∙ flag ∙ sound,
            ))
        | inr e ↦ inl (
          compute_loop sha1 [] (c ∷ s) started,
          rw e refl,
          lines_open [] (c ∷ s) started ∙ opened,
          flag ∙ sound,
          omega arith,
        )
      ]
