-- ===== src/Content/Lines.antt =====
-- The lines of a file are hashed the same however the reads cut it.
use wfrest.Base.{
  inl, inr, ℕ, suc, ◌≡◌, refl, ap, ◌∙◌, true, false, List, [], ◌∷◌, ◌++◌, map, some, ◌==◌, ltb,
  if◌then◌else◌, length, Bytes, arith, All, Bool-cases, ◌^◌, ◌<◌,
}
use mathlib.Core.List.{append-nil, append_assoc}
use wfrest.Content.{
  Content, ReadCode, success, over, file_read_buf, check_is_empty_line, whole_line,
  append_to_pre_line, compute_sha1_of_single_line, compute_loop, compute_sha1_by_lines, finish_line,
  finish, file_content_read, read_file, while_success, int_length, is_negative,
}

-- A line whose length an `int` holds.
abbrev pub IsShort : Bytes → Type 0
IsShort line = length line < 2 ^ 31

int_length-short : (s : Bytes) → IsShort s → int_length s ≡ length s
int_length-short s short = omega arith

pub not_negative-short : (s : Bytes) → IsShort s → is_negative (int_length s) ≡ false
unfolding is_negative
not_negative-short s short = rw (int_length-short s short) (ground arith)

pub whole_line_lem : (a b : Bytes) → whole_line a b ≡ a ++ b
whole_line_lem [] b = refl
whole_line_lem (c ∷ a) b = refl

module _ {ℓ} {D M : Type ℓ} (sha1 : Bytes → D) where
  -- Bytes that were left are bytes of the line.
  single_line-append :
      (s t : Bytes) (h : Content D M)
      → compute_sha1_of_single_line sha1 t (append_to_pre_line s h)
        ≡ compute_sha1_of_single_line sha1 (s ++ t) h
  unfolding compute_sha1_of_single_line
  single_line-append s t h =
      rw (whole_line_lem (h.file_pre_line ++ s) t)
        (rw (whole_line_lem h.file_pre_line (s ++ t)) (rw (append_assoc h.file_pre_line s t) refl))

  loop-append :
      (line s t : Bytes) (h : Content D M)
      → compute_loop sha1 line t (append_to_pre_line s h) ≡ compute_loop sha1 (s ++ line) t h
  unfolding compute_loop
  loop-append line s [] h = rw (append_assoc h.file_pre_line s line) refl
  loop-append line s (c ∷ t) h = elim (Bool-cases (c == b'\n')) [
    | inl e ↦ rw (e, compute_loop) (ap (compute_loop sha1 [] t) (single_line-append s line h))
    | inr e ↦
        rw (e, compute_loop)
          (loop-append (line ++ c ∷ []) s t h ∙ rw (append_assoc s line (c ∷ [])) refl)
  ]

  -- Two buffers are one.
  loop-loop :
      (line a b : Bytes) (h : Content D M)
      → compute_loop sha1 [] b (compute_loop sha1 line a h) ≡ compute_loop sha1 line (a ++ b) h
  unfolding compute_loop
  loop-loop line [] b h = loop-append [] line b h ∙ rw (append-nil line) refl
  loop-loop line (c ∷ a) b h = elim (Bool-cases (c == b'\n')) [
    | inl e ↦ rw (e, compute_loop) (loop-loop [] a b (compute_sha1_of_single_line sha1 line h))
    | inr e ↦ rw (e, compute_loop) (loop-loop (line ++ c ∷ []) a b h)
  ]

-- The independent description: the lines of a text, as `split_piece` gives them, the last one only
-- if it has bytes; of each whether it is blank, or its digest.
module _ {ℓ} {D : Type ℓ} (sha1 : Bytes → D) where
  unfoldable pub count_line : Bytes → List D × ℕ → List D × ℕ
  unfolding check_is_empty_line
  count_line line (digests, blanks) =
      if check_is_empty_line line
      then (digests, suc blanks)
      else (digests ++ sha1 line ∷ [], blanks)

  unfoldable pub count_lines : List Bytes → List D × ℕ → List D × ℕ
  unfolding count_line
  count_lines [] n = n
  count_lines ([] ∷ []) n = n
  count_lines ((c ∷ line) ∷ []) n = count_line (c ∷ line) n
  count_lines (line ∷ next ∷ lines) n = count_lines (next ∷ lines) (count_line line n)

module _ {ℓ} {D M : Type ℓ} where
  abbrev pub counted : Content D M → List D × ℕ
  counted h = (h.lines_sha1, h.empty_lines)

module _ {ℓ} {D M : Type ℓ} (sha1 : Bytes → D) where
  -- What a line that fits an `int` adds, with nothing left before it.
  hashed_line : Bytes → Content D M → Content D M
  hashed_line line h =
      if check_is_empty_line line
      then record h { file_pre_line = []; empty_lines = suc h.empty_lines }
      else record h { file_pre_line = []; lines_sha1 = h.lines_sha1 ++ sha1 line ∷ [] }

-- The bytes of several buffers.
unfoldable pub joined : List Bytes → Bytes
joined [] = []
joined (b ∷ bufs) = b ++ joined bufs

module _ {ℓ} {D M : Type ℓ} (sha1 : Bytes → D) where
  abbrev set_md5 : M → Content D M → Content D M
  set_md5 m h = record h { md5 = some m }

  single_line-set_md5 :
      (s : Bytes) (m : M) (h : Content D M)
      → compute_sha1_of_single_line sha1 s (set_md5 m h)
        ≡ set_md5 m (compute_sha1_of_single_line sha1 s h)
  unfolding compute_sha1_of_single_line
  single_line-set_md5 s m h = ground arith

  loop-set_md5 :
      (line s : Bytes) (m : M) (h : Content D M)
      → compute_loop sha1 line s (set_md5 m h) ≡ set_md5 m (compute_loop sha1 line s h)
  unfolding compute_loop
  loop-set_md5 line [] m h = refl
  loop-set_md5 line (c ∷ s) m h = elim (Bool-cases (c == b'\n')) [
    | inl n ↦
        rw (n, compute_loop)
          (ap (compute_loop sha1 [] s) (single_line-set_md5 line m h)
            ∙ loop-set_md5 [] s m (compute_sha1_of_single_line sha1 line h))
    | inr n ↦ rw (n, compute_loop) (loop-set_md5 (line ++ c ∷ []) s m h)
  ]

  finish_line-set_md5 :
      (s : Bytes) (m : M) (h : Content D M)
      → finish_line sha1 s (set_md5 m h) ≡ set_md5 m (finish_line sha1 s h)
  unfolding finish_line
  finish_line-set_md5 [] m h = refl
  finish_line-set_md5 (c ∷ s) m h = ground arith

  finish-set_md5 : (m : M) (h : Content D M) → finish sha1 (set_md5 m h) ≡ set_md5 m (finish sha1 h)
  unfolding finish
  finish-set_md5 m h = finish_line-set_md5 h.file_pre_line m h

  module _ (md5_of : Bytes → M) where
    read-full :
        (b : Bytes) (h : Content D M)
        → length b ≡ file_read_buf
        → file_content_read sha1 md5_of (some b) h
          ≡ (success, compute_sha1_by_lines sha1 b (set_md5 (md5_of b) h))
    unfolding file_content_read
    read-full [] h e = ground arith
    read-full (c ∷ s) h e = rw (full) refl
      where
        full : ltb (length (c ∷ s)) file_read_buf ≡ false
        full = ground arith

    read-tail :
        (b : Bytes) (h : Content D M)
        → ltb (length b) file_read_buf ≡ true
        → file_content_read sha1 md5_of (some b) h ≡ (
          over,
          record (finish sha1 (compute_sha1_by_lines sha1 b (set_md5 (md5_of b) h))) {
            is_open = false;
          },
        )
    unfolding file_content_read compute_sha1_by_lines compute_loop
    read-tail [] h e = rw (append-nil h.file_pre_line) refl
    read-tail (c ∷ s) h e = rw (e, file_content_read) refl

    -- For every digest functions and state, and a file that the reads cut into full buffers and a
    -- shorter rest: the file is read to its end and closed, its lines are hashed as if one buffer
    -- held it, a failed assertion included, and the digest of the file is that of the rest alone.
    pub read_file-buffers :
        (bufs : List Bytes) (rest : Bytes) (h : Content D M)
        → All (λ b. length b ≡ file_read_buf) bufs
        → ltb (length rest) file_read_buf ≡ true
        → read_file sha1 md5_of (map (λ b. some b) bufs ++ some rest ∷ []) h ≡ (
          over,
          record (finish sha1 (compute_sha1_by_lines sha1 (joined bufs ++ rest) h)) {
            md5 = some (md5_of rest);
            is_open = false;
          },
        )
    unfolding read_file joined compute_sha1_by_lines
    read_file-buffers [] rest h full short =
        ap (λ r. while_success r (read_file sha1 md5_of [])) (read-tail rest h short)
        ∙ ap (λ k. (over, record (finish sha1 k) { is_open = false }))
            (loop-set_md5 [] rest (md5_of rest) h)
        ∙ ap (λ k. (over, record k { is_open = false }))
            (finish-set_md5 (md5_of rest) (compute_loop sha1 [] rest h))
    read_file-buffers (b ∷ bufs) rest h full short =
        let text = joined bufs ++ rest in
        let result : Content D M → ReadCode × Content D M =
          λ k. (over, record (finish sha1 k) { md5 = some (md5_of rest); is_open = false }) in
        ap (λ r. while_success r (read_file sha1 md5_of (map (λ c. some c) bufs ++ some rest ∷ [])))
          (read-full b h full.0)
        ∙ read_file-buffers bufs rest (compute_sha1_by_lines sha1 b (set_md5 (md5_of b) h)) full.1
            short
        ∙ ap result (
            loop-loop sha1 [] b text (set_md5 (md5_of b) h)
            ∙ loop-set_md5 [] (b ++ text) (md5_of b) h)
        ∙ ap (λ k. (over, record k { md5 = some (md5_of rest); is_open = false }))
            (finish-set_md5 (md5_of b) (compute_loop sha1 [] (b ++ text) h))
        ∙ rw (append_assoc b (joined bufs) rest) refl
