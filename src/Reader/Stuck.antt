-- ===== src/Reader/Stuck.antt =====
-- A server that has told an error.
use wfrest.Base.{◌≡◌, refl, Bool, true, false, List, [], ◌∷◌, ◌==◌, none, some, Bytes, ℕ, arith}
use wfrest.CommonCode.{CommonCode, s_success, e_dc_content_retry, e_dc_content_over}
use wfrest.Reader.{
  Local, System, ReadState, read_init, read_prepar, read_over, read_do, is_error, do_file_content,
  do_in_state, get_prepared, get_done, get_in_state, get_file_content, thd_worker, work_on,
}
use wfrest.Reader.Schedules.{Turn, work_turn, poll_turn, run}

-- The states in which the caller waits for an answer.
unfoldable pub awaits : ReadState → Bool
awaits read_init = false
awaits read_prepar = true
awaits read_over = false
awaits read_do = true

module _ {ℓ} {D M : Type ℓ} where
  abbrev pub waiting : ReadState → Local D M → List CommonCode → Local D M
  waiting state h rets = record h { file_read_state = state; cmd_q = []; ret_q = rets }

  module _ (sha1 : Bytes → D) (md5_of : Bytes → M) (system : System) where
    waits :
        (ts : List Turn) (state : ReadState) (h : Local D M)
        → awaits state ≡ true
        → run sha1 md5_of system ts (waiting state h [])
          ≡ some (e_dc_content_retry, waiting state h [])
    unfolding run thd_worker work_on get_file_content get_in_state get_prepared get_done awaits
    waits [] state h e = refl
    waits (work_turn ∷ ts) state h e = waits ts state h e
    waits (poll_turn ∷ ts) read_prepar h e = waits ts read_prepar h e
    waits (poll_turn ∷ ts) read_do h e = waits ts read_do h e
    waits (poll_turn ∷ ts) read_init h e = absurd (ground arith)
    waits (poll_turn ∷ ts) read_over h e = absurd (ground arith)

    pub tells-error :
        (state : ReadState) (code : CommonCode) (h : Local D M)
        → awaits state ≡ true
        → is_error code ≡ true
        → get_file_content (waiting state h (code ∷ [])) ≡ some (code, waiting state h [])
    unfolding get_file_content get_in_state get_prepared get_done awaits is_error
    tells-error read_prepar code h e wrong = rw (wrong, get_prepared) refl
    tells-error read_do code h e wrong =
        let unlike : (code == s_success) ≡ false = ground arith in
        let unended : (code == e_dc_content_over) ≡ false = ground arith in
        rw (unlike, get_done) (rw unended refl)
    tells-error read_init code h e wrong = absurd (ground arith)
    tells-error read_over code h e wrong = absurd (ground arith)

    asserts-init :
        (state : ReadState) (path : Bytes) (lines : List D) (blank : ℕ) (h : Local D M)
        → awaits state ≡ true
        → do_file_content path lines blank (waiting state h []) ≡ none
    unfolding do_file_content do_in_state awaits
    asserts-init read_prepar path lines blank h e = refl
    asserts-init read_do path lines blank h e = refl
    asserts-init read_init path lines blank h e = absurd (ground arith)
    asserts-init read_over path lines blank h e = absurd (ground arith)

    -- For every server that awaits the answer to the prepare or to a read command, and every code
    -- of an error as that answer: the next poll tells the code; behind it every order of turns only
    -- ever tells to try again and changes nothing; and the assertion fails with which the next
    -- file's reading begins.
    pub get_file_content-stuck :
        (state : ReadState) (code : CommonCode) (h : Local D M)
        → awaits state ≡ true
        → is_error code ≡ true
        → (get_file_content (waiting state h (code ∷ [])) ≡ some (code, waiting state h []))
          × ((ts : List Turn)
              → run sha1 md5_of system ts (waiting state h [])
                ≡ some (e_dc_content_retry, waiting state h []))
          × ((path : Bytes) (lines : List D) (blank : ℕ)
              → do_file_content path lines blank (waiting state h []) ≡ none)
    get_file_content-stuck state code h e wrong = (
      tells-error state code h e wrong,
      λ ts. waits ts state h e,
      λ path lines blank. asserts-init state path lines blank h e,
    )
