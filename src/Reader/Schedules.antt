-- ===== src/Reader/Schedules.antt =====
-- Turns of the caller and of the worker in any order, and what they come to.
use wfrest.Base.{
  true, ℕ, zero, suc, ◌≤◌, ◌≡◌, refl, false, List, [], ◌∷◌, ◌++◌, Option, none, some, ◌==◌, length,
  replicate, arith, Bytes,
}
use wfrest.CommonCode.{CommonCode, e_dc_content_retry}
use wfrest.Content.{Content}
use wfrest.Reader.{Local, System, get_file_content, thd_worker}

pub data Turn : Type 0 where
  work_turn : Turn
  poll_turn : Turn

-- Both threads go on getting turns: first some of the worker, then some of the caller, again and
-- again. A pair stands for the numbers of turns, each less one.
unfoldable pub turns : List (ℕ × ℕ) → List Turn
turns [] = []
turns ((works, polls) ∷ rounds) =
    replicate (suc works) work_turn ++ (replicate (suc polls) poll_turn ++ turns rounds)

module _ {ℓ} {D M : Type ℓ} (sha1 : Bytes → D) (md5_of : Bytes → M) (system : System) where
  -- The caller polls until it is told anything but to try again.
  unfoldable pub run : List Turn → Local D M → Option (CommonCode × Local D M)
  run [] h = some (e_dc_content_retry, h)
  run (work_turn ∷ ts) h = elim (thd_worker sha1 md5_of system h) [
    | none ↦ none
    | some worked ↦ run ts worked
  ]
  run (poll_turn ∷ ts) h = elim (get_file_content h) [
    | none ↦ none
    | some (code, polled) ↦ elim (code == e_dc_content_retry) [
      | true ↦ run ts polled
      | false ↦ some (code, polled)
    ]
  ]

  -- In each of at most `n` stages one of the threads has something to do and the other waits, and
  -- at the end of them the caller is told the code and has the content of `target`.
  pub data Will (target : CommonCode × Content D M) : ℕ → Local D M → Type ℓ where
    by_work :
        (n : ℕ) (h later : Local D M)
        → thd_worker sha1 md5_of system h ≡ some later
        → get_file_content h ≡ some (e_dc_content_retry, h)
        → Will target n later
        → Will target (suc n) h
    by_poll :
        (n : ℕ) (h later : Local D M)
        → get_file_content h ≡ some (e_dc_content_retry, later)
        → thd_worker sha1 md5_of system h ≡ some h
        → Will target n later
        → Will target (suc n) h
    at_last :
        (n : ℕ) (h later : Local D M)
        → (target.0 == e_dc_content_retry) ≡ false
        → get_file_content h ≡ some (target.0, later)
        → thd_worker sha1 md5_of system h ≡ some h
        → later.content ≡ target.1
        → Will target (suc n) h

  unfoldable pub Finishes : CommonCode × Content D M → Option (CommonCode × Local D M) → Type ℓ
  Finishes target out =
      (later : Local D M) × (out ≡ some (target.0, later)) × (later.content ≡ target.1)

  module _ (target : CommonCode × Content D M) where
    last_poll :
        (ts : List Turn) (h later : Local D M)
        → (target.0 == e_dc_content_retry) ≡ false
        → get_file_content h ≡ some (target.0, later)
        → later.content ≡ target.1
        → Finishes target (run (poll_turn ∷ ts) h)
    unfolding Finishes run
    last_poll ts h later told polled same = (later, rw (polled, run) (rw told refl), same)

    idle_works :
        (k : ℕ) (ts : List Turn) (h : Local D M)
        → thd_worker sha1 md5_of system h ≡ some h
        → run (replicate k work_turn ++ ts) h ≡ run ts h
    unfolding run
    idle_works zero ts h idle = refl
    idle_works (suc k) ts h idle = rw (idle, run) (idle_works k ts h idle)

    -- Turns in any order lose nothing.
    any_turns :
        (us ts : List Turn) (n : ℕ) (h : Local D M)
        → Will target n h
        → ((m : ℕ) (later : Local D M)
            → m ≤ n
            → Will target m later
            → Finishes target (run ts later))
        → Finishes target (run (us ++ ts) h)
    unfolding run
    any_turns [] ts n h will rest = rest n h (omega arith) will
    any_turns (work_turn ∷ us) ts _ _ (by_work n h later worked polled will) rest =
        rw (worked, run) (any_turns us ts n later will (λ m l under. rest m l (omega arith)))
    any_turns (work_turn ∷ us) ts _ _ (by_poll n h later polled worked will) rest =
        rw (worked, run) (any_turns us ts (suc n) h (by_poll n h later polled worked will) rest)
    any_turns (work_turn ∷ us) ts _ _ (at_last n h later told polled worked same) rest =
        rw (worked, run)
          (any_turns us ts (suc n) h (at_last n h later told polled worked same) rest)
    any_turns (poll_turn ∷ us) ts _ _ (by_work n h later worked polled will) rest =
        rw (polled, run) (any_turns us ts (suc n) h (by_work n h later worked polled will) rest)
    any_turns (poll_turn ∷ us) ts _ _ (by_poll n h later polled worked will) rest =
        rw (polled, run) (any_turns us ts n later will (λ m l under. rest m l (omega arith)))
    any_turns (poll_turn ∷ us) ts _ _ (at_last n h later told polled worked same) rest =
        last_poll (us ++ ts) h later told polled same

    -- A round takes at least one stage.
    round :
        (works polls : ℕ) (ts : List Turn) (n : ℕ) (h : Local D M)
        → Will target (suc n) h
        → ((m : ℕ) (later : Local D M)
            → m ≤ n
            → Will target m later
            → Finishes target (run ts later))
        → Finishes target
            (run (replicate (suc works) work_turn ++ (replicate (suc polls) poll_turn ++ ts)) h)
    unfolding run
    round works polls ts _ _ (by_work n h later worked polled will) rest =
        rw (worked, run)
          (any_turns (replicate works work_turn) (replicate (suc polls) poll_turn ++ ts) n later
            will
            (λ m l under will_too.
              any_turns (replicate (suc polls) poll_turn) ts m l will_too
                (λ k e less. rest k e (omega arith))))
    round works polls ts _ _ (by_poll n h later polled worked will) rest =
        rw (idle_works (suc works) (replicate (suc polls) poll_turn ++ ts) h worked)
          (rw (polled, run) (any_turns (replicate polls poll_turn) ts n later will rest))
    round works polls ts _ _ (at_last n h later told polled worked same) rest =
        rw (idle_works (suc works) (replicate (suc polls) poll_turn ++ ts) h worked)
          (last_poll (replicate polls poll_turn ++ ts) h later told polled same)

    pub turns-Finishes :
        (rounds : List (ℕ × ℕ)) (n : ℕ) (h : Local D M)
        → Will target n h
        → n ≤ length rounds
        → Finishes target (run (turns rounds) h)
    unfolding turns
    turns-Finishes rounds zero h will enough = elim will [ ]
    turns-Finishes [] (suc n) h will enough = absurd (omega arith)
    turns-Finishes ((works, polls) ∷ rounds) (suc n) h will enough =
        round works polls (turns rounds) n h will
          (λ m l under will_too. turns-Finishes rounds m l will_too (omega arith))
