-- ===== src/ApiTask/Standard.antt =====
-- What a task that is built holds.
use wfrest.Base.{
  ℕ, suc, ◌+◌, ◌<◌, ◌≡◌, refl, ap, ◌∙◌, Bool, true, false, not, ◌==◌, List, [], ◌∷◌, map, none,
  some, if◌then◌else◌, get_elem?, codes, arith, inl, inr, Bool-cases,
}
use wfrest.ApiTask.{
  ServerInfo, ApiTask, built, invalid, handle_error, find_std, set_std, choose_std,
}

-- How many of the servers are the standard.
unfoldable pub standards : List ServerInfo → ℕ
standards [] = 0
standards (s ∷ servers) = if s.c_standard then suc (standards servers) else standards servers

abbrev pub is_standard : ServerInfo → Bool
is_standard s = s.c_standard

find_std-some :
    (i k : ℕ) (servers : List ServerInfo)
    → find_std i (some k) servers ≡ (some k, not (standards servers == 0))
unfolding find_std standards
find_std-some i k [] = refl
find_std-some i k (s ∷ servers) = elim (Bool-cases s.c_standard) [
  | inl e ↦ rw (e, find_std) (ground arith)
  | inr e ↦ rw (e, find_std) (find_std-some (suc i) k servers)
]

find_std-none :
    (i : ℕ) (servers : List ServerInfo)
    → standards servers ≡ 0
    → find_std i none servers ≡ (none, false)
unfolding find_std standards
find_std-none i [] h = refl
find_std-none i (s ∷ servers) h = elim (Bool-cases s.c_standard) [
  | inl e ↦ ground arith
  | inr e ↦ rw (e, find_std) (find_std-none (suc i) servers (ground arith))
]

find_std-first :
    (i : ℕ) (servers : List ServerInfo)
    → 0 < standards servers
    → (m : ℕ) × ((find_std i none servers ≡ (some (i + m), not (standards servers == 1)))
        × (get_elem? (map is_standard servers) m ≡ some true))
unfolding find_std standards
find_std-first i [] h = absurd (omega arith)
find_std-first i (s ∷ servers) h = elim (Bool-cases s.c_standard) [
  | inl e ↦
      let here : i ≡ i + 0 = omega arith in
      let n = standards servers in
      let more : not (n == 0) ≡ not (suc n == 1) = ground arith in
      (
        0,
        (
          rw (e, find_std) (find_std-some (suc i) i servers ∙ (λ j. (some (here j), more j))),
          ap some e,
        ),
      )
  | inr e ↦
      let some_left : 0 < standards servers = ground arith in
      let (m, (found, shown)) = find_std-first (suc i) servers some_left in
      let next : suc i + m ≡ i + suc m = omega arith in
      (
        suc m,
        (rw (e, find_std) (found ∙ ap (λ k. (some k, not (standards servers == 1))) next), shown),
      )
]

-- For every task: without a standard among its servers the choice of it is an error with its message;
-- with one it succeeds, and the index is that of the standard; with more it is an error of which the
-- task's error and message are not set.
pub choose_std_lem :
    (t : ApiTask)
    → (standards t.t_server_info_arr ≡ 0
        → choose_std t
          ≡ handle_error (codes "no standard server provided") (record t { t_std_idx = none }))
      × ((standards t.t_server_info_arr ≡ 1
            → (i : ℕ) × ((choose_std t ≡ built (record t { t_std_idx = some i }))
                × (get_elem? (map is_standard t.t_server_info_arr) i ≡ some true)))
          × (1 < standards t.t_server_info_arr
              → (i : ℕ) × (choose_std t ≡ invalid (record t { t_std_idx = some i }))))
unfolding choose_std set_std
choose_std_lem t = (
  λ none_there. rw (find_std-none 0 t.t_server_info_arr none_there, choose_std) refl,
  (
    λ one.
        let (m, (found, shown)) = find_std-first 0 t.t_server_info_arr (ground arith) in
        let single : not (standards t.t_server_info_arr == 1) ≡ false = ground arith in
        let index : 0 + m ≡ m = omega arith in
        (m, (rw (found, choose_std) (rw single (rw index refl)), shown)),
    λ more.
        let (m, (found, shown)) = find_std-first 0 t.t_server_info_arr (ground arith) in
        let many : not (standards t.t_server_info_arr == 1) ≡ true = ground arith in
        (0 + m, rw (found, choose_std) (rw many refl)),
  ),
)
