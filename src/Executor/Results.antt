-- ===== src/Executor/Results.antt =====
-- What `get` returns for each state of the list.
use wfrest.Base.{◌≡◌, refl, sym, ap, ◌∙◌, true, false, List, [], ◌∷◌, ◌++◌, All, equal, Bytes}
use mathlib.Core.List.{append-nil}
use wfrest.Executor.{
  TaskStatus, t_task_init, t_task_running, t_task_over, InternalTask, GetCode, success, retry,
  not_found, get,
}

module _ {ℓ} {J : Type ℓ} where
  abbrev pub Others : Bytes → List (InternalTask J) → Type 0
  Others uuid = All (λ task. equal task.i_uuid uuid ≡ false)

  -- What `get` does with the first task of the uuid, by its status.
  abbrev hit :
      InternalTask J → List (InternalTask J) → TaskStatus → GetCode J × List (InternalTask J)
  hit task tasks t_task_init = (retry, task ∷ tasks)
  hit task tasks t_task_running = (retry, task ∷ tasks)
  hit task tasks t_task_over = (success task.i_out_json, tasks)

  get-hit :
      (uuid : Bytes) (task : InternalTask J) (tasks : List (InternalTask J))
      → equal task.i_uuid uuid ≡ true
      → get uuid (task ∷ tasks) ≡ hit task tasks task.i_task_status
  unfolding get
  get-hit uuid task tasks same = rw (same, get) refl

  get-behind :
      (uuid : Bytes) (others tasks : List (InternalTask J))
      → Others uuid others
      → get uuid (others ++ tasks) ≡ ((get uuid tasks).0, others ++ (get uuid tasks).1)
  unfolding get
  get-behind uuid [] tasks h = refl
  get-behind uuid (task ∷ others) tasks h =
      rw (h.0, get) (ap (λ r. (r.0, task ∷ r.1)) (get-behind uuid others tasks h.1))

  -- For every list of tasks of other uuids, one task of the uuid and any tasks behind it: `get`
  -- gives the result of that task and takes it out if it is over, and otherwise asks to retry and
  -- leaves the list as it is. Where no task has the uuid `get` says so and leaves the list too.
  pub get-append :
      (uuid : Bytes) (others : List (InternalTask J)) (task : InternalTask J)
      (tasks : List (InternalTask J))
      → Others uuid others
      → equal task.i_uuid uuid ≡ true
      → (task.i_task_status ≡ t_task_over
          → get uuid (others ++ task ∷ tasks) ≡ (success task.i_out_json, others ++ tasks))
        × (task.i_task_status ≡ t_task_init
            → get uuid (others ++ task ∷ tasks) ≡ (retry, others ++ task ∷ tasks))
        × (task.i_task_status ≡ t_task_running
            → get uuid (others ++ task ∷ tasks) ≡ (retry, others ++ task ∷ tasks))
        × (get uuid others ≡ (not_found, others))
  unfolding get
  get-append uuid others task tasks h same =
      let behind =
        get-behind uuid others (task ∷ tasks) h
        ∙ ap (λ r. (r.0, others ++ r.1)) (get-hit uuid task tasks same) in
      let at_status : TaskStatus → GetCode J × List (InternalTask J) =
        λ s. ((hit task tasks s).0, others ++ (hit task tasks s).1) in
      (
        λ e. behind ∙ ap at_status e,
        λ e. behind ∙ ap at_status e,
        λ e. behind ∙ ap at_status e,
        ap (get uuid) (sym (append-nil others))
            ∙ get-behind uuid others [] h
            ∙ ap (λ l. (not_found, l)) (append-nil others),
      )
