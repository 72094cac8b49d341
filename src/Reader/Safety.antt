-- ===== src/Reader/Safety.antt =====
-- No assertion of the two threads fails, and the queues never hold more than one message.
use wfrest.Base.{
  ◌+◌, ◌≤◌, ◌≡◌, ◌≢◌, refl, sym, ap, ◌∙◌, subst, ◌⊎◌, inl, inr, Bool, true, false, ◌||◌, List, [],
  ◌∷◌, some, length, arith, Bytes, Bool-cases,
}
use wfrest.CommonCode.{
  CommonCode, s_success, e_os_env_mem, e_os_env_open, e_os_env_read, e_dc_content_retry,
  e_dc_content_over,
}
use wfrest.Content.{Content, success, over, read_error}
use wfrest.Content.Open.{file_content_read-cases, Fits}
use wfrest.Reader.{
  Local, System, Command, ReadState, cmd_file_content_prepare, cmd_file_content_read, read_init,
  read_prepar, read_over, read_do, is_error, code_of, is_empty, next_read, do_file_content,
  do_in_state, get_prepared, get_done, get_in_state, get_file_content, open_file,
  file_content_prepare, run_command, answer, work_on, thd_worker,
}
use wfrest.Reader.Polling.{work-read}
use wfrest.Reader.Stuck.{awaits, tells-error}

false≢true : false ≢ true
false≢true e = ground arith

is_init : ReadState → Bool
is_init read_init = true
is_init read_prepar = false
is_init read_over = false
is_init read_do = false

not_init : (state : ReadState) → is_init state ≡ false → state ≢ read_init
unfolding is_init
not_init state other e = false≢true (sym other ∙ ap is_init e)

awaits-not_init : (state : ReadState) → awaits state ≡ true → state ≢ read_init
unfolding awaits
awaits-not_init state a e = false≢true (sym (ap awaits e) ∙ a)

module _ {ℓ} {D M : Type ℓ} where
  abbrev put : Local D M → ReadState → List Command → List CommonCode → Content D M → Local D M
  put h state cmds rets content = record h {
    content = content;
    file_read_state = state;
    cmd_q = cmds;
    ret_q = rets;
  }

  -- The states that the two threads may be in: the caller's state, what is in the queues, and
  -- whether the file is open.
  pub data InStep : Local D M → Type ℓ where
    idle : (h : Local D M) (c : Content D M) → c.is_open ≡ false → InStep (put h read_init [] [] c)
    preparing :
        (h : Local D M) (c : Content D M)
        → is_empty h.file_path ≡ false
        → InStep (
            put h read_prepar
              (cmd_file_content_prepare ∷ [])
              []
              (record c { lines_sha1 = []; empty_lines = 0; is_open = false }))
    prepared :
        (h : Local D M) (c : Content D M)
        → is_empty h.file_path ≡ false
        → c.is_open ≡ true
        → InStep (put h read_prepar [] (s_success ∷ []) c)
    asked :
        (h : Local D M) (c : Content D M)
        → is_empty h.file_path ≡ false
        → c.is_open ≡ true
        → InStep (put h read_do (cmd_file_content_read ∷ []) [] c)
    answered :
        (h : Local D M) (c : Content D M)
        → is_empty h.file_path ≡ false
        → c.is_open ≡ true
        → InStep (put h read_do [] (s_success ∷ []) c)
    between :
        (h : Local D M) (c : Content D M)
        → is_empty h.file_path ≡ false
        → c.is_open ≡ true
        → InStep (put h read_over [] [] c)
    ended :
        (h : Local D M) (c : Content D M)
        → c.is_open ≡ false
        → InStep (put h read_do [] (e_dc_content_over ∷ []) c)
    broken :
        (h : Local D M) (c : Content D M) (state : ReadState) (code : CommonCode)
        → awaits state ≡ true
        → is_error code ≡ true
        → InStep (put h state [] (code ∷ []) c)
    stuck :
        (h : Local D M) (c : Content D M) (state : ReadState)
        → awaits state ≡ true
        → InStep (put h state [] [] c)

  -- Never more than one message is on its way.
  one_message : (h : Local D M) → InStep h → length h.cmd_q + length h.ret_q ≤ 1
  one_message _ (idle h c e) = omega arith
  one_message _ (preparing h c n) = omega arith
  one_message _ (prepared h c n e) = omega arith
  one_message _ (asked h c n e) = omega arith
  one_message _ (answered h c n e) = omega arith
  one_message _ (between h c n e) = omega arith
  one_message _ (ended h c e) = omega arith
  one_message _ (broken h c state code a e) = omega arith
  one_message _ (stuck h c state a) = omega arith

  get_file_content-awaits :
      (state : ReadState) (h : Local D M) (c : Content D M)
      → awaits state ≡ true
      → get_file_content (put h state [] [] c) ≡ some (e_dc_content_retry, put h state [] [] c)
  unfolding get_file_content get_in_state get_prepared get_done awaits
  get_file_content-awaits read_prepar h c a = refl
  get_file_content-awaits read_do h c a = refl
  get_file_content-awaits read_init h c a = absurd (ground arith)
  get_file_content-awaits read_over h c a = absurd (ground arith)

  -- A call that the caller's state allows leaves a state of the protocol.
  Begins : Bytes → Local D M → Type ℓ
  Begins path h =
      (h.file_read_state ≢ read_init)
      ⊎ ((later : Local D M) × ((do_file_content path [] 0 h ≡ some later) × InStep later))

  Polls : Local D M → Type ℓ
  Polls h =
      (h.file_read_state ≡ read_init)
      ⊎ ((code : CommonCode) × ((later : Local D M) × ((get_file_content h ≡ some (code, later))
              × InStep later)))

  begins : (path : Bytes) (h : Local D M) → is_empty path ≡ false → InStep h → Begins path h
  unfolding do_file_content do_in_state Begins is_init
  begins path _ named (idle h c e) =
      let started =
        put (record h { file_path = path }) read_prepar (cmd_file_content_prepare ∷ []) [] in
      let same : started (record c { lines_sha1 = []; empty_lines = 0; is_open = false })
          ≡ started (record c { lines_sha1 = []; empty_lines = 0 }) =
        ap (λ b. started (record c { lines_sha1 = []; empty_lines = 0; is_open = b })) (sym e) in
      inr (
        started (record c { lines_sha1 = []; empty_lines = 0 }),
        (refl, subst InStep same (preparing (record h { file_path = path }) c named)),
      )
  begins path _ named (preparing h c n) = inl (not_init read_prepar refl)
  begins path _ named (prepared h c n e) = inl (not_init read_prepar refl)
  begins path _ named (asked h c n e) = inl (not_init read_do refl)
  begins path _ named (answered h c n e) = inl (not_init read_do refl)
  begins path _ named (between h c n e) = inl (not_init read_over refl)
  begins path _ named (ended h c e) = inl (not_init read_do refl)
  begins path _ named (broken h c state code a e) = inl (awaits-not_init state a)
  begins path _ named (stuck h c state a) = inl (awaits-not_init state a)

module _ {ℓ} {D M : Type ℓ} (sha1 : Bytes → D) (md5_of : Bytes → M) (system : System) where
  polls : (h : Local D M) → InStep h → Polls h
  unfolding get_file_content get_in_state get_prepared get_done is_error Polls
  polls _ (idle h c e) = inl refl
  polls _ (preparing h c n) = inr (e_dc_content_retry, (_, (refl, preparing h c n)))
  polls _ (prepared h c n e) = inr (e_dc_content_retry, (_, (refl, asked h c n e)))
  polls _ (asked h c n e) = inr (e_dc_content_retry, (_, (refl, asked h c n e)))
  polls _ (answered h c n e) = inr (e_dc_content_retry, (_, (refl, between h c n e)))
  polls _ (between h c n e) = inr (e_dc_content_retry, (_, (refl, asked h c n e)))
  polls _ (ended h c e) =
      inr (e_dc_content_over, (put h read_init [] [] c, (rw e refl, idle h c e)))
  polls _ (broken h c state code a e) = inr (
    code,
    (
      put h state [] [] c,
      (tells-error sha1 md5_of system state code (record h { content = c }) a e, stuck h c state a),
    ),
  )
  polls _ (stuck h c state a) =
      inr (e_dc_content_retry, (_, (get_file_content-awaits state h c a, stuck h c state a)))

  Works : Local D M → Type ℓ
  Works h =
      (later : Local D M) × ((thd_worker sha1 md5_of system h ≡ some later)
        × (InStep later × (later.content.has_asserted ≡ false)))

  -- No assertion has failed, and what is left of a line and the next read have less than 2^31 bytes.
  abbrev pub IsSound : Local D M → Type 0
  IsSound h = (h.content.has_asserted ≡ false) × Fits (next_read h.unread).0 h.content

  abbrev unprepared : Content D M → Content D M
  unprepared c = record c { lines_sha1 = []; empty_lines = 0; is_open = false }

  works-preparing :
      (h : Local D M) (c : Content D M)
      → is_empty h.file_path ≡ false
      → c.has_asserted ≡ false
      → Works (put h read_prepar (cmd_file_content_prepare ∷ []) [] (unprepared c))
  unfolding thd_worker work_on run_command answer file_content_prepare open_file is_empty is_error
      awaits Works
  works-preparing h c n sound =
      let taken = put h read_prepar [] [] (unprepared c) in
      let mem = h.has_read_buf || system.mem in
      elim (Bool-cases mem) [
        | inr no_mem ↦
            let out : file_content_prepare system.mem system.opens taken
                ≡ some (e_os_env_mem, taken) =
              rw (n, file_content_prepare) (rw no_mem refl) in
            (
              put h read_prepar [] (e_os_env_mem ∷ []) (unprepared c),
              (
                ap (answer sha1 md5_of system) out,
                (broken h (unprepared c) read_prepar e_os_env_mem refl refl, sound),
              ),
            )
        | inl buffer ↦ elim (Bool-cases system.opens) [
          | inl opened ↦
              let content = record (unprepared c) { is_open = true } in
              let out : file_content_prepare system.mem system.opens taken
                  ≡ some (s_success, record taken { has_read_buf = true; content = content }) =
                rw (n, file_content_prepare) (rw buffer (rw (opened, open_file) refl)) in
              (
                put (record h { has_read_buf = true }) read_prepar [] (s_success ∷ []) content,
                (
                  ap (answer sha1 md5_of system) out,
                  (prepared (record h { has_read_buf = true }) content n refl, sound),
                ),
              )
          | inr closed ↦
              let out : file_content_prepare system.mem system.opens taken
                  ≡ some (e_os_env_open, record taken { has_read_buf = true }) =
                rw (n, file_content_prepare) (rw buffer (rw (closed, open_file) refl)) in
              (
                put (record h { has_read_buf = true }) read_prepar [] (e_os_env_open ∷ [])
                    (unprepared c),
                (
                  ap (answer sha1 md5_of system) out,
                  (
                    broken (record h { has_read_buf = true }) (unprepared c) read_prepar
                        e_os_env_open refl refl,
                    sound,
                  ),
                ),
              )
        ]
      ]

  works-asked :
      (h : Local D M) (c : Content D M)
      → is_empty h.file_path ≡ false
      → c.is_open ≡ true
      → c.has_asserted ≡ false
      → Fits (next_read h.unread).0 c
      → Works (put h read_do (cmd_file_content_read ∷ []) [] c)
  unfolding Works code_of is_error awaits
  works-asked h c n e sound fits =
      let (r, rest) = next_read h.unread in
      let later = record h { unread = (next_read h.unread).1 } in
      elim (file_content_read-cases sha1 md5_of (next_read h.unread).0 c e sound fits) [
        | inl (done, reads, still, good, grown) ↦ (
          put later read_do [] (s_success ∷ []) done,
          (
            work-read sha1 md5_of system h n c done h.unread success e reads good,
            (answered later done n still, good),
          ),
        )
        | inr (inl (done, reads, closed, good)) ↦ (
          put later read_do [] (e_dc_content_over ∷ []) done,
          (
            work-read sha1 md5_of system h n c done h.unread over e reads good,
            (ended later done closed, good),
          ),
        )
        | inr (inr reads) ↦ (
          put later read_do [] (e_os_env_read ∷ []) c,
          (
            work-read sha1 md5_of system h n c c h.unread read_error e reads sound,
            (broken later c read_do e_os_env_read refl refl, sound),
          ),
        )
      ]

  works : (h : Local D M) → IsSound h → InStep h → Works h
  unfolding thd_worker work_on Works
  works _ (sound, fits) (idle h c e) = (_, (refl, (idle h c e, sound)))
  works _ (sound, fits) (preparing h c n) = works-preparing h c n sound
  works _ (sound, fits) (prepared h c n e) = (_, (refl, (prepared h c n e, sound)))
  works _ (sound, fits) (asked h c n e) = works-asked h c n e sound fits
  works _ (sound, fits) (answered h c n e) = (_, (refl, (answered h c n e, sound)))
  works _ (sound, fits) (between h c n e) = (_, (refl, (between h c n e, sound)))
  works _ (sound, fits) (ended h c e) = (_, (refl, (ended h c e, sound)))
  works _ (sound, fits) (broken h c state code a e) =
      (_, (refl, (broken h c state code a e, sound)))
  works _ (sound, fits) (stuck h c state a) = (_, (refl, (stuck h c state a, sound)))

  -- For every system and every state of the protocol in which no assertion has failed, and in which
  -- the bytes that are left of a line and those of the next read are less than 2^31: at most one
  -- message is in the queues; no assertion of the worker's turn fails, and it leaves a state of the
  -- protocol in which none has failed; a poll leaves a state of the protocol
  -- too, but where no file has been asked for; and where that is so, to ask for a path of some bytes
  -- does so.
  pub InStep_safe :
      (path : Bytes) (h : Local D M)
      → is_empty path ≡ false
      → IsSound h
      → InStep h
      → (length h.cmd_q + length h.ret_q ≤ 1)
        × (((later : Local D M) × ((thd_worker sha1 md5_of system h ≡ some later)
                × (InStep later × (later.content.has_asserted ≡ false))))
            × (((h.file_read_state ≡ read_init)
                  ⊎ ((code : CommonCode) × ((later : Local D M) × ((get_file_content h
                            ≡ some (code, later))
                          × InStep later))))
                × ((h.file_read_state ≢ read_init)
                    ⊎ ((later : Local D M) × ((do_file_content path [] 0 h ≡ some later)
                          × InStep later)))))
  unfolding Works Polls Begins
  InStep_safe path h named sound in_step = (
    one_message h in_step,
    (works h sound in_step, (polls h in_step, begins path h named in_step)),
  )
