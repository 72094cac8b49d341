-- ===== src/Compare/Walk/Complete.antt =====
-- What a comparison that succeeds has compared, and how a path is taken apart.
use mathlib.Core.List.{append-nil}
use wfrest.Base.{
  ℕ, ◌≡◌, refl, sym, ap, ◌∙◌, Bool, false, List, [], ◌∷◌, ◌++◌, some, ◌==◌, ltb, if◌then◌else◌,
  length, subst, take-append, Bytes, Bool-cases, inl, inr, All, arith,
}
use wfrest.CommonCode.{s_success}
use wfrest.PathUtil.{is_slash}
use wfrest.PathUtil.Laws.{find_last-none, find_last-hit, drop_behind}
use wfrest.Compare.Walk.{
  Listing, Walk, compare_dirs, exe_sql_job_for_dir, rest_of_dirs, exe_sql_job1, target_dir,
  get_base_and_file_name,
}
use wfrest.Compare.Walk.Queue.{dir_places, IsCollected, exe_sql_job_for_dir-IsCollected, places}

abbrev pub empty_walk : Walk
empty_walk = record { diffs = []; dir_q = []; compared = [] }

length-none {ℓ} : {A : Type ℓ} (xs : List A) → ltb 0 (length xs) ≡ false → xs ≡ []
length-none [] h = refl
length-none (x ∷ xs) h = absurd (ground arith)

-- Each directory of the result has been compared, and none is queued.
abbrev IsComplete : Walk → Type 0
IsComplete w = (places w.compared ≡ dir_places 0 w.diffs) × (w.dir_q ≡ [])

abbrev all_compared : Walk → Walk
all_compared w = if ltb 0 (length w.dir_q) then compare_dirs w else w

all_compared-IsComplete : (w : Walk) → IsCollected w → IsComplete (all_compared w)
unfolding IsCollected compare_dirs
all_compared-IsComplete w h = elim (Bool-cases (ltb 0 (length w.dir_q))) [
  | inl e ↦ rw e (h.0, refl)
  | inr e ↦
      let empty = length-none w.dir_q e in
      rw e (
        ap places (sym (append-nil w.compared))
            ∙ (ap (λ q. places (w.compared ++ q)) (sym empty) ∙ h.0),
        empty,
      )
]

rest_of_dirs-IsComplete :
    (code : ℕ) (walked w : Walk)
    → IsCollected walked
    → rest_of_dirs (code, walked) ≡ (s_success, w)
    → IsComplete w
unfolding rest_of_dirs
rest_of_dirs-IsComplete code walked w h e = elim (Bool-cases (code == s_success)) [
  | inl done ↦
      let came : rest_of_dirs (code, walked) ≡ (s_success, all_compared walked) =
        rw (done, rest_of_dirs) refl in
      subst IsComplete (ap (λ p. p.1) (sym came ∙ e)) (all_compared-IsComplete walked h)
  | inr failed ↦
      let came : rest_of_dirs (code, walked) ≡ (code, walked) = rw (failed, rest_of_dirs) refl in
      let zero_code : code ≡ s_success = ap (λ p. p.0) (sym came ∙ e) in ground arith
]

-- For every path of a directory and whatever is in it: if the comparison returns success, then each
-- directory of the result has been compared, once and in their order, and none is queued.
pub exe_sql_job1_complete :
    (path : Bytes) (opened : Bool) (listing : Listing) (w : Walk)
    → exe_sql_job1 path (target_dir opened listing) empty_walk ≡ some (s_success, w)
    → (places w.compared ≡ dir_places 0 w.diffs) × (w.dir_q ≡ [])
unfolding exe_sql_job1 IsCollected dir_places
exe_sql_job1_complete path opened listing w e =
    let out = exe_sql_job_for_dir path 0 opened listing empty_walk in
    rest_of_dirs-IsComplete out.0 out.1 w
      (exe_sql_job_for_dir-IsCollected path 0 opened listing empty_walk (refl, omega arith)) cc

-- For every directory's path and file name without a slash: the path that joins them is taken apart
-- into both; a name alone is of the directory `.`.
pub get_base_and_file_name_lem :
    (dir name : Bytes)
    → All (λ c. is_slash c ≡ false) name
    → (get_base_and_file_name (dir ++ b'/' ∷ name) ≡ (dir, name))
      × (get_base_and_file_name name ≡ (b'.' ∷ [], name))
unfolding get_base_and_file_name
get_base_and_file_name_lem dir name h = (
  rw (find_last-hit is_slash dir b'/' name refl h, get_base_and_file_name)
      (λ i. (take-append dir (b'/' ∷ name) i, drop_behind dir b'/' name i)),
  rw (find_last-none is_slash name h, get_base_and_file_name) refl,
)
