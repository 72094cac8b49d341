-- ===== src/Compare/Servers/Waiting.antt =====
-- The servers are waited for until each has answered.
use wfrest.Base.{
  ℕ, zero, suc, ◌+◌, ◌<◌, ◌≡◌, refl, ap, true, false, List, [], ◌∷◌, ◌++◌, map, some, ◌==◌,
  replicate, subst, All, Bool-cases, inl, inr, arith,
}
use wfrest.CommonCode.{CommonCode, s_success, e_dc_content_retry}
use wfrest.Compare.Servers.{Waiter, ask, told, poll_undone, poll, all_done, poll_all}

-- A server that lets the caller try again so many times, then answers with a code, and would give
-- more codes afterwards.
pub record Replies : Type 0 where
  pub retries : ℕ
  pub code : CommonCode
  pub unasked : List CommonCode

abbrev waiting : ℕ → Replies → Waiter
waiting k a = ask s_success (replicate k e_dc_content_retry ++ a.code ∷ a.unasked)

abbrev pub asked : Replies → Waiter
asked a = waiting a.retries a

abbrev pub answered : Replies → Waiter
answered a = record { has_done = true; has_failed = a.code; answers = a.unasked }

abbrev pub IsReplies : ℕ → Replies → Type 0
IsReplies turns a = ((a.code == e_dc_content_retry) ≡ false) × (a.retries < turns)

-- A server after so many turns, of one that has so many retries left.
after : ℕ → ℕ → Replies → Waiter
unfolding ask
after zero k a = waiting k a
after (suc t) zero a = answered a
after (suc t) (suc k) a = after t k a

poll-after :
    (t k : ℕ) (a : Replies)
    → (a.code == e_dc_content_retry) ≡ false
    → poll (after t k a) ≡ after (suc t) k a
unfolding poll poll_undone told after ask
poll-after zero zero a final = elim (Bool-cases (a.code == s_success)) [
  | inl e ↦
      let zero_code : s_success ≡ a.code = ground arith in
      rw (final, told)
        (rw e (ap (λ c. record { has_done = true; has_failed = c; answers = a.unasked }) zero_code))
  | inr e ↦ rw (final, told) (rw e refl)
]
poll-after zero (suc k) a final = refl
poll-after (suc t) zero a final = refl
poll-after (suc t) (suc k) a final = poll-after t k a final

poll-map-after :
    (t n : ℕ) (answers : List Replies)
    → All (IsReplies n) answers
    → map poll (map (λ a. after t a.retries a) answers)
      ≡ map (λ a. after (suc t) a.retries a) answers
poll-map-after t n [] h = refl
poll-map-after t n (a ∷ answers) h =
    let first = poll-after t a.retries a h.0.0 in
    let rest = poll-map-after t n answers h.1 in λ i. first i ∷ rest i

-- Enough turns, and the server has answered.
after-enough : (t k : ℕ) (a : Replies) → k < t → after t k a ≡ answered a
unfolding after
after-enough (suc t) zero a under = refl
after-enough (suc t) (suc k) a under = after-enough t k a (omega arith)
after-enough zero k a under = absurd (omega arith)

-- A server that is done has answered.
after-done : (t k : ℕ) (a : Replies) → (after t k a).has_done ≡ true → after t k a ≡ answered a
unfolding after ask
after-done zero k a done = ground arith
after-done (suc t) zero a done = refl
after-done (suc t) (suc k) a done = after-done t k a done

all_done-answered :
    (t : ℕ) (answers : List Replies)
    → all_done (map (λ a. after t a.retries a) answers) ≡ true
    → map (λ a. after t a.retries a) answers ≡ map answered answers
unfolding all_done
all_done-answered t [] done = refl
all_done-answered t (a ∷ answers) done = elim (Bool-cases (after t a.retries a).has_done) [
  | inl e ↦
      let first = after-done t a.retries a e in
      let rest = all_done-answered t answers (ground arith) in λ i. first i ∷ rest i
  | inr e ↦ ground arith
]

all_done-enough :
    (t : ℕ) (answers : List Replies)
    → All (IsReplies t) answers
    → all_done (map (λ a. after t a.retries a) answers) ≡ true
unfolding all_done
all_done-enough t [] h = refl
all_done-enough t (a ∷ answers) h =
    rw (after-enough t a.retries a h.0.1, all_done) (all_done-enough t answers h.1)

poll_all-after :
    (n t : ℕ) (answers : List Replies)
    → All (IsReplies (t + n)) answers
    → poll_all n (map (λ a. after t a.retries a) answers) ≡ some (map answered answers)
unfolding poll_all
poll_all-after zero t answers h =
    let done = all_done-enough t answers (subst (λ m. All (IsReplies m) answers) (omega arith) h) in
    rw (done, poll_all) (ap some (all_done-answered t answers done))
poll_all-after (suc n) t answers h =
    elim (Bool-cases (all_done (map (λ a. after t a.retries a) answers))) [
      | inl e ↦ rw (e, poll_all) (ap some (all_done-answered t answers e))
      | inr e ↦
          rw (e, poll_all)
            (rw (poll-map-after t (t + suc n) answers h) (
              poll_all-after n (suc t) answers
                (subst (λ m. All (IsReplies m) answers) (omega arith) h)))
    ]

-- For every list of servers of which each answers with a code other than to try again, after fewer
-- tries than there are turns: the loop ends within the turns, and each server is done and has its
-- code in `has_failed`, whatever the others' tries were.
pub poll_all-answered :
    (turns : ℕ) (answers : List Replies)
    → All (IsReplies turns) answers
    → poll_all turns (map asked answers) ≡ some (map answered answers)
unfolding after
poll_all-answered turns answers h =
    poll_all-after turns 0 answers (subst (λ m. All (IsReplies m) answers) (omega arith) h)
