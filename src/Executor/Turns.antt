-- ===== src/Executor/Turns.antt =====
-- The tasks are run one at a time, in the order in which they were added.
use wfrest.Base.{
  ◌≡◌, refl, ◌∙◌, ◌⊎◌, subst, Bool, true, false, List, [], ◌∷◌, some, Bytes, arith, Option-cases,
  inl, inr,
}
use wfrest.Executor.{
  TaskStatus, t_task_init, t_task_running, t_task_over, InternalTask, add, get, pick_task_to_run,
  set_task_over, Executor, Step, step_add, step_get, step_pick, step_over, Reachable, start, later,
}

status-cases : (s : TaskStatus) → (s ≡ t_task_init) ⊎ ((s ≡ t_task_running) ⊎ (s ≡ t_task_over))
status-cases t_task_init = inl refl
status-cases t_task_running = inr (inl refl)
status-cases t_task_over = inr (inr refl)

some-eq {ℓ} : {A : Type ℓ} {a b : A} → some a ≡ some b → a ≡ b
some-eq e = cc

module _ {ℓ} {J : Type ℓ} where
  -- No task has been started.
  unfoldable pub all_init : List (InternalTask J) → Bool
  all_init [] = true
  all_init (task ∷ tasks) = elim task.i_task_status [
    | t_task_init ↦ all_init tasks
    | t_task_running ↦ false
    | t_task_over ↦ false
  ]

  -- First tasks that are over, then the one that runs if the worker is busy, then tasks that have
  -- not been started.
  unfoldable pub in_turn : Bool → List (InternalTask J) → Bool
  unfolding all_init
  in_turn busy [] = elim busy [ true ↦ false | false ↦ true ]
  in_turn busy (task ∷ tasks) =
      let rest = all_init tasks in
      elim task.i_task_status [
        | t_task_init ↦ elim busy [ true ↦ false | false ↦ rest ]
        | t_task_running ↦ elim busy [ true ↦ rest | false ↦ false ]
        | t_task_over ↦ in_turn busy tasks
      ]

  abbrev fresh_task : Bytes → J → InternalTask J
  fresh_task uuid out = record { i_uuid = uuid; i_task_status = t_task_init; i_out_json = out }

  all_init-add :
      (uuid : Bytes) (out : J) (tasks : List (InternalTask J))
      → all_init (add (fresh_task uuid out) tasks) ≡ all_init tasks
  unfolding add all_init
  all_init-add uuid out [] = refl
  all_init-add uuid out (task ∷ tasks) = ground (arith, all_init-add uuid out tasks)

  in_turn-add :
      (uuid : Bytes) (out : J) (busy : Bool) (tasks : List (InternalTask J))
      → in_turn busy (add (fresh_task uuid out) tasks) ≡ in_turn busy tasks
  unfolding add in_turn all_init
  in_turn-add uuid out busy [] = refl
  in_turn-add uuid out busy (task ∷ tasks) =
      ground (arith, in_turn-add uuid out busy tasks, all_init-add uuid out tasks)

  all_init-get :
      (uuid : Bytes) (tasks : List (InternalTask J))
      → all_init tasks ≡ true
      → all_init (get uuid tasks).1 ≡ true
  unfolding get all_init
  all_init-get uuid [] h = refl
  all_init-get uuid (task ∷ tasks) h = ground (arith, all_init-get uuid tasks)

  in_turn-get :
      (uuid : Bytes) (busy : Bool) (tasks : List (InternalTask J))
      → in_turn busy tasks ≡ true
      → in_turn busy (get uuid tasks).1 ≡ true
  unfolding get in_turn
  in_turn-get uuid busy [] h = h
  in_turn-get uuid busy (task ∷ tasks) h =
      ground (arith, in_turn-get uuid busy tasks, all_init-get uuid tasks)

  all_init-in_turn :
      (tasks : List (InternalTask J)) → all_init tasks ≡ true → in_turn false tasks ≡ true
  unfolding all_init in_turn
  all_init-in_turn [] h = refl
  all_init-in_turn (task ∷ tasks) h = ground arith

  in_turn-pick :
      (tasks picked : List (InternalTask J))
      → in_turn false tasks ≡ true
      → pick_task_to_run tasks ≡ some picked
      → in_turn true picked ≡ true
  unfolding pick_task_to_run in_turn
  in_turn-pick [] picked h e = cc
  in_turn-pick (task ∷ tasks) picked h e = elim (status-cases task.i_task_status) [
    | inl i ↦
        (let now = some-eq (rw (i, pick_task_to_run) at e) in
          subst (λ k. in_turn true k ≡ true) now (rw (i, in_turn) at h))
    | inr (inl r) ↦ (let no : false ≡ true = rw (r, in_turn) at h in ground arith)
    | inr (inr o) ↦ elim (Option-cases (pick_task_to_run tasks)) [
      | inl none_left ↦ (let no = rw none_left at (rw (o, pick_task_to_run) at e) in cc)
      | inr (rest, next) ↦
          let now = some-eq (rw next at (rw (o, pick_task_to_run) at e)) in
          subst (λ k. in_turn true k ≡ true) now
            (rw (o, in_turn) (in_turn-pick tasks rest (rw (o, in_turn) at h) next))
    ]
  ]

  in_turn-over :
      (out : J) (tasks : List (InternalTask J))
      → in_turn true tasks ≡ true
      → in_turn false (set_task_over out tasks) ≡ true
  unfolding set_task_over in_turn
  in_turn-over out [] h = ground arith
  in_turn-over out (task ∷ tasks) h = elim (status-cases task.i_task_status) [
    | inl i ↦ (let no : false ≡ true = rw (i, in_turn) at h in ground arith)
    | inr (inl r) ↦ rw (r, set_task_over) (all_init-in_turn tasks (rw (r, in_turn) at h))
    | inr (inr o) ↦
        rw (o, set_task_over) (rw (o, in_turn) (in_turn-over out tasks (rw (o, in_turn) at h)))
  ]

  in_turn-step :
      (e f : Executor J)
      → Step e f
      → in_turn e.busy e.task_list ≡ true
      → in_turn f.busy f.task_list ≡ true
  in_turn-step _ _ (step_add uuid out e) h = in_turn-add uuid out e.busy e.task_list ∙ h
  in_turn-step _ _ (step_get uuid e) h = in_turn-get uuid e.busy e.task_list h
  in_turn-step _ _ (step_pick tasks picked e) h = in_turn-pick tasks picked h e
  in_turn-step _ _ (step_over tasks out) h = in_turn-over out tasks h

  -- In every state that adding, getting, picking and ending tasks can reach in any order: the list
  -- begins with tasks that are over, then comes one that runs exactly if the worker is busy, and no
  -- task behind has been started.
  pub Reachable-in_turn : (e : Executor J) → Reachable e → in_turn e.busy e.task_list ≡ true
  unfolding in_turn
  Reachable-in_turn _ start = refl
  Reachable-in_turn f (later e _ before step) = in_turn-step e f step (Reachable-in_turn e before)
