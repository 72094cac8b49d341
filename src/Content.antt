-- ===== src/Content.antt =====
-- file_compare/content/dc_content.{h,cc}: a local file is read in buffers and its lines are hashed.
--
-- `read` of a file gives the next bytes of it, of at most the buffer's size, or an error. The
-- digests are parameters: `sha1` and `md5` of a byte string, of the types `D` and `M`. A line's length
-- is passed on as an `int`: where that is negative an assertion fails, which the state notes. The
-- process ends there, so what else such a state holds says nothing.
pub mod Lines
pub mod Open
use wfrest.Base.{
  ℕ, suc, ◌+◌, Bool, true, false, ◌&&◌, List, [], ◌∷◌, ◌++◌, Option, none, some, ◌==◌, ltb,
  if◌then◌else◌, length, is_space, Bytes, ◌%◌, ◌^◌, leb, take,
}

-- `DC_CONTENT_FILE_READ_BUF`.
abbrev pub file_read_buf : ℕ
file_read_buf = 16777216

-- What the worker keeps of a file: the beginning of a line, the digests of the lines, the number
-- of empty lines, the digest of the file, whether the file is open, and whether an assertion has
-- failed.
pub record Content {ℓ} (D : Type ℓ) (M : Type ℓ) : Type ℓ where
  pub file_pre_line : Bytes
  pub lines_sha1 : List D
  pub empty_lines : ℕ
  pub md5 : Option M
  pub is_open : Bool
  pub has_asserted : Bool

-- `S_SUCCESS`, `E_DC_CONTENT_OVER` and `E_OS_ENV_READ`.
pub data ReadCode : Type 0 where
  success : ReadCode
  over : ReadCode
  read_error : ReadCode

unfoldable pub check_is_empty_line : Bytes → Bool
unfolding is_space
check_is_empty_line [] = true
check_is_empty_line (c ∷ s) = is_space c && check_is_empty_line s

abbrev pub while_success {ℓ} : {A : Type ℓ} → ReadCode × A → (A → ReadCode × A) → ReadCode × A
while_success (success, h) next = next h
while_success (over, h) next = (over, h)
while_success (read_error, h) next = (read_error, h)

-- A length as an `int`: its 32 bits, which are a negative number from 2^31 on.
abbrev pub int_length : Bytes → ℕ
int_length s = length s % 2 ^ 32

unfoldable pub is_negative : ℕ → Bool
is_negative n = leb (2 ^ 31) n

-- The line, with what was left of the buffer before in front.
abbrev pub whole_line : Bytes → Bytes → Bytes
whole_line [] s = s
whole_line (c ∷ pre) s = (c ∷ pre) ++ s

module _ {ℓ} {D M : Type ℓ} where
  -- Both branches of the source leave the empty string.
  abbrev pub clear_pre_line : Content D M → Content D M
  clear_pre_line h = record h { file_pre_line = [] }

  abbrev pub append_to_pre_line : Bytes → Content D M → Content D M
  append_to_pre_line s h = record h { file_pre_line = h.file_pre_line ++ s }

module _ {ℓ} {D M : Type ℓ} (sha1 : Bytes → D) where
  unfoldable pub compute_sha1_of_single_line : Bytes → Content D M → Content D M
  unfolding check_is_empty_line is_negative
  compute_sha1_of_single_line s h =
      let whole = whole_line h.file_pre_line s in
      let line = take (int_length whole) whole in
      if is_negative (int_length whole)
      then record h { file_pre_line = whole; has_asserted = true }
      else if check_is_empty_line line
      then record h { file_pre_line = []; empty_lines = suc h.empty_lines }
      else record h { file_pre_line = []; lines_sha1 = h.lines_sha1 ++ sha1 line ∷ [] }

  -- The loop of `compute_sha1_by_lines`; `line` is the bytes from `cur_line_begin` to `i`.
  compute_loop : Bytes → Bytes → Content D M → Content D M
  unfolding compute_sha1_of_single_line
  compute_loop line [] h = append_to_pre_line line h
  compute_loop line (c ∷ s) h = elim (c == b'\n') [
    | true ↦ compute_loop [] s (compute_sha1_of_single_line line h)
    | false ↦ compute_loop (line ++ c ∷ []) s h
  ]

  unfoldable pub compute_sha1_by_lines : Bytes → Content D M → Content D M
  unfolding compute_loop
  compute_sha1_by_lines buf = compute_loop [] buf

  -- The line that the file ends with, if no line end follows it. An empty line is counted, and
  -- its bytes are kept. The digest is of the whole line, its length a `size_t`.
  finish_line : Bytes → Content D M → Content D M
  unfolding check_is_empty_line is_negative
  finish_line [] h = h
  finish_line (c ∷ s) h =
      let len = int_length (c ∷ s) in
      if is_negative len
      then record h { has_asserted = true }
      else if check_is_empty_line (take len (c ∷ s))
      then record h { empty_lines = suc h.empty_lines }
      else record h { file_pre_line = []; lines_sha1 = h.lines_sha1 ++ sha1 (c ∷ s) ∷ [] }

  unfoldable pub finish : Content D M → Content D M
  unfolding finish_line
  finish h = finish_line h.file_pre_line h

  module _ (md5_of : Bytes → M) where
    -- `file_content_read`, of what `read` gives.
    unfoldable pub file_content_read : Option Bytes → Content D M → ReadCode × Content D M
    unfolding compute_sha1_by_lines finish
    file_content_read none h = (read_error, h)
    file_content_read (some []) h =
        (over, record (finish (record h { md5 = some (md5_of []) })) { is_open = false })
    file_content_read (some (c ∷ s)) h =
        let hashed = compute_sha1_by_lines (c ∷ s) (record h { md5 = some (md5_of (c ∷ s)) }) in
        if ltb (length (c ∷ s)) file_read_buf
        then (over, record (finish hashed) { is_open = false })
        else (success, hashed)

    -- Reads until the code is not `S_SUCCESS`, as the commands ask for them.
    unfoldable pub read_file : List (Option Bytes) → Content D M → ReadCode × Content D M
    unfolding file_content_read
    read_file [] h = (success, h)
    read_file (r ∷ rs) h = while_success (file_content_read r h) (read_file rs)
