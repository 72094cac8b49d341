-- ===== src/Reader/Polling.antt =====
-- The caller and the worker read a file to its end, whatever the order of their turns.
use wfrest.Base.{
  ℕ, suc, ◌+◌, ◌*◌, ◌≤◌, ◌≡◌, refl, sym, ap, ◌∙◌, inl, inr, Bool, true, false, not, ◌&&◌, ◌||◌,
  List, [], ◌∷◌, ◌++◌, Option, none, some, if◌then◌else◌, length, arith, Bytes, subst, ◌<◌, ◌^◌,
}
use wfrest.CommonCode.{CommonCode, s_success, e_os_env_read, e_dc_content_over}
use wfrest.Content.{
  Content, ReadCode, success, over, read_error, file_content_read, read_file, finish,
}
use wfrest.Content.Open.{file_content_read-cases, read_length, finish_fits}
use wfrest.Reader.{
  Local, System, Command, ReadState, cmd_file_content_prepare, cmd_file_content_read, read_init,
  read_prepar, read_over, read_do, is_error, code_of, is_empty, next_read, do_file_content,
  do_in_state, get_prepared, get_done, get_in_state, get_file_content, open_file,
  file_content_prepare, read_next, worker_read, run_command, answer, work_on, thd_worker,
}
use wfrest.Reader.Schedules.{turns, run, Will, by_work, by_poll, at_last, Finishes, turns-Finishes}

abbrev stages {ℓ} : {A : Type ℓ} → List A → ℕ
stages [] = 2
stages (r ∷ rs) = suc (suc (suc (stages rs)))

stages-length {ℓ} : {A : Type ℓ} (rs : List A) → stages rs ≡ 3 * length rs + 2
stages-length [] = refl
stages-length (r ∷ rs) = omega (arith, stages-length rs)

-- How many bytes the reads give.
unfoldable pub read_lengths : List (Option Bytes) → ℕ
read_lengths [] = 0
read_lengths (r ∷ rs) = read_length r + read_lengths rs

module _ {ℓ} {D M : Type ℓ} (sha1 : Bytes → D) (md5_of : Bytes → M) where
  -- What reading the buffers, and then the end of the file, gives.
  abbrev pub whole_file : List (Option Bytes) → Content D M → CommonCode × Content D M
  whole_file rs content =
      let (code, done) = read_file sha1 md5_of (rs ++ some [] ∷ []) content in (code_of code, done)

module _ {ℓ} {D M : Type ℓ} (sha1 : Bytes → D) (md5_of : Bytes → M) (system : System) where
  module _ (h : Local D M) (named : is_empty h.file_path ≡ false) where
    abbrev pub at :
        ReadState → List Command → List CommonCode → Content D M → List (Option Bytes) → Local D M
    at state cmds rets content rs = record h {
      content = content;
      unread = rs;
      file_read_state = state;
      cmd_q = cmds;
      ret_q = rets;
    }

    worker_read-open :
        (content done : Content D M) (rs : List (Option Bytes)) (code : ReadCode)
        → content.is_open ≡ true
        → file_content_read sha1 md5_of (next_read rs).0 content ≡ (code, done)
        → done.has_asserted ≡ false
        → worker_read sha1 md5_of (at read_do [] [] content rs)
          ≡ some (code_of code, at read_do [] [] done (next_read rs).1)
    unfolding worker_read read_next
    worker_read-open content done rs code opened reads sound =
        let asserted : (not (is_empty h.file_path) && content.is_open) ≡ true = ground arith in
        let asked = at read_do [] [] content rs in
        let next = (next_read rs).1 in
        ap (λ b. if b then read_next sha1 md5_of (next_read rs) asked else none) asserted
        ∙ ap
            (λ given.
              if given.1.has_asserted
              then none
              else some (code_of given.0, at read_do [] [] given.1 next))
            reads
        ∙ ap (λ b. if b then none else some (code_of code, at read_do [] [] done next)) sound

    pub work-read :
        (content done : Content D M) (rs : List (Option Bytes)) (code : ReadCode)
        → content.is_open ≡ true
        → file_content_read sha1 md5_of (next_read rs).0 content ≡ (code, done)
        → done.has_asserted ≡ false
        → thd_worker sha1 md5_of system (at read_do (cmd_file_content_read ∷ []) [] content rs)
          ≡ some (at read_do [] (code_of code ∷ []) done (next_read rs).1)
    unfolding thd_worker work_on run_command answer
    work-read content done rs code opened reads sound =
        ap (answer sha1 md5_of system) (worker_read-open content done rs code opened reads sound)

    read-over :
        (n : ℕ) (content done : Content D M) (rs : List (Option Bytes))
        → content.is_open ≡ true
        → file_content_read sha1 md5_of (next_read rs).0 content ≡ (over, done)
        → done.has_asserted ≡ false
        → done.is_open ≡ false
        → Will sha1 md5_of system
            (e_dc_content_over, done)
            (suc (suc n))
            (at read_do (cmd_file_content_read ∷ []) [] content rs)
    unfolding get_file_content get_in_state get_done code_of thd_worker work_on
    read-over n content done rs opened reads sound closed =
        by_work (suc n) _ (at read_do [] (e_dc_content_over ∷ []) done (next_read rs).1)
          (work-read content done rs over opened reads sound) refl
          (at_last n _ (at read_init [] [] done (next_read rs).1) refl (rw closed refl) refl refl)

    read-error :
        (n : ℕ) (content : Content D M) (rs : List (Option Bytes))
        → content.is_open ≡ true
        → file_content_read sha1 md5_of (next_read rs).0 content ≡ (read_error, content)
        → content.has_asserted ≡ false
        → Will sha1 md5_of system
            (e_os_env_read, content)
            (suc (suc n))
            (at read_do (cmd_file_content_read ∷ []) [] content rs)
    unfolding get_file_content get_in_state get_done code_of thd_worker work_on
    read-error n content rs opened reads sound =
        by_work (suc n) _ (at read_do [] (e_os_env_read ∷ []) content (next_read rs).1)
          (work-read content content rs read_error opened reads sound) refl
          (at_last n _ (at read_do [] [] content (next_read rs).1) refl refl refl refl)

    read-success :
        (n : ℕ) (target : CommonCode × Content D M) (content done : Content D M)
        (rs : List (Option Bytes))
        → content.is_open ≡ true
        → file_content_read sha1 md5_of (next_read rs).0 content ≡ (success, done)
        → done.has_asserted ≡ false
        → Will sha1 md5_of system target n
            (at read_do (cmd_file_content_read ∷ []) [] done (next_read rs).1)
        → Will sha1 md5_of system target
            (suc (suc (suc n)))
            (at read_do (cmd_file_content_read ∷ []) [] content rs)
    unfolding get_file_content get_in_state get_done code_of thd_worker work_on
    read-success n target content done rs opened reads sound will =
        by_work (suc (suc n)) _ (at read_do [] (s_success ∷ []) done (next_read rs).1)
          (work-read content done rs success opened reads sound) refl
          (by_poll (suc n) _ (at read_over [] [] done (next_read rs).1) refl refl (
            by_poll n _ (at read_do (cmd_file_content_read ∷ []) [] done (next_read rs).1) refl refl
              will))

    finished :
        (content : Content D M)
        → content.has_asserted ≡ false
        → length content.file_pre_line < 2 ^ 31
        → (finish sha1 (record content { md5 = some (md5_of []) })).has_asserted ≡ false
    finished content sound fits =
        finish_fits sha1 (record content { md5 = some (md5_of []) }) fits ∙ sound

    reading :
        (rs : List (Option Bytes)) (content : Content D M)
        → content.is_open ≡ true
        → content.has_asserted ≡ false
        → length content.file_pre_line + read_lengths rs < 2 ^ 31
        → Will sha1 md5_of system
            (whole_file sha1 md5_of rs content)
            (stages rs)
            (at read_do (cmd_file_content_read ∷ []) [] content rs)
    unfolding next_read read_file code_of file_content_read read_lengths
    reading [] content opened sound fits =
        read-over 0 content
          (record (finish sha1 (record content { md5 = some (md5_of []) })) { is_open = false }) []
          opened refl (finished content sound (omega arith)) refl
    reading (r ∷ rs) content opened sound fits =
        elim (file_content_read-cases sha1 md5_of r content opened sound (omega arith)) [
          | inl (done, reads, still, good, grown) ↦ rw reads (
              read-success (stages rs) (whole_file sha1 md5_of rs done) content done (r ∷ rs) opened
                reads good (reading rs done still good (omega arith)))
          | inr (inl (done, reads, closed, good)) ↦
              rw reads (read-over (suc (stages rs)) content done (r ∷ rs) opened reads good closed)
          | inr (inr reads) ↦
              rw reads (read-error (suc (stages rs)) content (r ∷ rs) opened reads sound)
        ]

  -- The server's state behind `do_file_content`, in what it has of commands, answers and open files.
  abbrev asked_for : Bytes → Local D M → List Command → List CommonCode → Bool → Local D M
  asked_for path h cmds rets opened = record h {
    file_path = path;
    content = record h.content { lines_sha1 = []; empty_lines = 0; is_open = opened };
    file_read_state = read_prepar;
    cmd_q = cmds ++ cmd_file_content_prepare ∷ [];
    ret_q = rets;
  }

  -- The same behind the worker's answer to the first command.
  abbrev prepared : Bytes → Local D M → List CommonCode → Local D M
  prepared path h rets = record h {
    file_path = path;
    content = record h.content { lines_sha1 = []; empty_lines = 0; is_open = true };
    file_read_state = read_prepar;
    has_read_buf = true;
    cmd_q = [];
    ret_q = rets;
  }

  prepare-opens :
      (path : Bytes) (h : Local D M)
      → is_empty path ≡ false
      → (h.has_read_buf || system.mem) ≡ true
      → system.opens ≡ true
      → file_content_prepare system.mem system.opens
          (record (asked_for path h [] [] false) { cmd_q = [] })
        ≡ some (s_success, prepared path h [])
  unfolding file_content_prepare open_file is_empty
  prepare-opens path h named buffer opens =
      rw (named, file_content_prepare) (rw buffer (rw (opens, open_file) refl))

  asked-Will :
      (path : Bytes) (h : Local D M)
      → is_empty path ≡ false
      → (h.has_read_buf || system.mem) ≡ true
      → system.opens ≡ true
      → h.content.has_asserted ≡ false
      → length h.content.file_pre_line + read_lengths h.unread < 2 ^ 31
      → Will sha1 md5_of system
          (whole_file sha1 md5_of h.unread
            (record h.content { lines_sha1 = []; empty_lines = 0; is_open = true }))
          (suc (suc (stages h.unread)))
          (asked_for path h [] [] false)
  unfolding thd_worker work_on run_command answer get_file_content get_in_state get_prepared
      is_error
  asked-Will path h named buffer opens sound fits =
      let content = record h.content { lines_sha1 = []; empty_lines = 0; is_open = true } in
      by_work (suc (stages h.unread)) _ (prepared path h (s_success ∷ []))
        (ap (answer sha1 md5_of system) (prepare-opens path h named buffer opens)) refl
        (by_poll (stages h.unread) _ _ refl refl
          (reading (prepared path h []) named h.unread content refl sound fits))

  -- For every server of local files of which no command is under way, no file is open and no assertion
  -- has failed, where the file and what is left of a line before it have less than 2^31 bytes, every
  -- path with bytes, and every system that has memory for the buffer and opens the file: the
  -- caller may begin to read the file; and if the worker and the caller then get turns, in any
  -- order and as often as they like, but 3 times as many rounds as there are buffers and 4 more,
  -- then no assertion fails, and the last poll tells the code, and leaves the digests and counts,
  -- that reading the buffers and the file's end in one go gives.
  pub run-whole_file :
      (rounds : List (ℕ × ℕ)) (path : Bytes) (h : Local D M)
      → is_empty path ≡ false
      → h.file_read_state ≡ read_init
      → h.cmd_q ≡ []
      → h.ret_q ≡ []
      → h.content.is_open ≡ false
      → (h.has_read_buf || system.mem) ≡ true
      → system.opens ≡ true
      → h.content.has_asserted ≡ false
      → length h.content.file_pre_line + read_lengths h.unread < 2 ^ 31
      → 3 * length h.unread + 4 ≤ length rounds
      → (asked : Local D M) × (do_file_content path [] 0 h ≡ some asked)
        × Finishes sha1 md5_of system
            (whole_file sha1 md5_of h.unread
              (record h.content { lines_sha1 = []; empty_lines = 0; is_open = true }))
            (run sha1 md5_of system (turns rounds) asked)
  unfolding do_file_content do_in_state
  run-whole_file rounds path h named state cmds rets closed buffer opens sound fits enough =
      let asked = asked_for path h h.cmd_q h.ret_q h.content.is_open in
      let quiet : asked ≡ asked_for path h [] [] false =
        ap (λ q. asked_for path h q h.ret_q h.content.is_open) cmds
        ∙ (ap (λ q. asked_for path h [] q h.content.is_open) rets
            ∙ ap (λ b. asked_for path h [] [] b) closed) in
      let content = record h.content { lines_sha1 = []; empty_lines = 0; is_open = true } in
      let target = whole_file sha1 md5_of h.unread content in
      (
        asked,
        ap
            (λ s. do_in_state s (record h {
              file_path = path;
              content = record h.content { lines_sha1 = []; empty_lines = 0 };
            }))
            state,
        subst (λ a. Finishes sha1 md5_of system target (run sha1 md5_of system (turns rounds) a))
            (sym quiet)
            (turns-Finishes sha1 md5_of system target rounds (suc (suc (stages h.unread)))
              (asked_for path h [] [] false) (asked-Will path h named buffer opens sound fits)
              (omega (arith, stages-length h.unread))),
      )
