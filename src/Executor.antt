-- ===== src/Executor.antt =====
-- file_compare/internal/dc_internal_task.{h,cc}: the tasks that one worker thread runs in turn.
--
-- Each function below holds the mutex for its whole length, so the threads' work is a sequence of
-- these steps. The worker holds a reference to the task that it runs; that is the one whose status
-- says so. `J` is the type of a task's result.
pub mod Turns
pub mod Results
use wfrest.Base.{◌≡◌, Bool, true, false, List, [], ◌∷◌, ◌++◌, Option, none, some, equal, Bytes}

-- The statuses that this file uses, of those of all tasks.
pub data TaskStatus : Type 0 where
  t_task_init : TaskStatus
  t_task_running : TaskStatus
  t_task_over : TaskStatus

pub record InternalTask {ℓ} (J : Type ℓ) : Type ℓ where
  pub i_uuid : Bytes
  pub i_task_status : TaskStatus
  pub i_out_json : J

-- What `get` returns: `S_SUCCESS` with the result, `E_DC_CONTENT_RETRY`, or `E_NOT_FOUND`.
pub data GetCode {ℓ} (J : Type ℓ) : Type ℓ where
  success : J → GetCode J
  retry : GetCode J
  not_found : GetCode J

module _ {ℓ} {J : Type ℓ} where
  unfoldable pub add : InternalTask J → List (InternalTask J) → List (InternalTask J)
  add task tasks = tasks ++ task ∷ []

  -- `get` looks at the first task of the uuid only, and takes it out once it is over.
  unfoldable pub get : Bytes → List (InternalTask J) → GetCode J × List (InternalTask J)
  get uuid [] = (not_found, [])
  get uuid (task ∷ tasks) =
      let (code, rest) = get uuid tasks in
      elim (equal task.i_uuid uuid) [
        | true ↦ elim task.i_task_status [
          | t_task_over ↦ (success task.i_out_json, tasks)
          | t_task_init ↦ (retry, task ∷ tasks)
          | t_task_running ↦ (retry, task ∷ tasks)
        ]
        | false ↦ (code, task ∷ rest)
      ]

  -- `thd_worker_pick_task_to_run`: the first task that has not been started; where there is none
  -- the worker waits.
  unfoldable pub pick_task_to_run : List (InternalTask J) → Option (List (InternalTask J))
  pick_task_to_run [] = none
  pick_task_to_run (task ∷ tasks) =
      let rest = pick_task_to_run tasks in
      elim task.i_task_status [
        | t_task_init ↦ some (record task { i_task_status = t_task_running } ∷ tasks)
        | t_task_running ↦ elim rest [ none ↦ none | some picked ↦ some (task ∷ picked) ]
        | t_task_over ↦ elim rest [ none ↦ none | some picked ↦ some (task ∷ picked) ]
      ]

  -- The end of a run: the result is written, and `thd_worker_set_task_over`.
  unfoldable pub set_task_over : J → List (InternalTask J) → List (InternalTask J)
  set_task_over out [] = []
  set_task_over out (task ∷ tasks) =
      let rest = set_task_over out tasks in
      elim task.i_task_status [
        | t_task_running ↦ record task { i_task_status = t_task_over; i_out_json = out } ∷ tasks
        | t_task_init ↦ task ∷ rest
        | t_task_over ↦ task ∷ rest
      ]

-- The tasks, and whether the worker is between picking a task and its end.
pub record Executor {ℓ} (J : Type ℓ) : Type ℓ where
  pub task_list : List (InternalTask J)
  pub busy : Bool

-- A step of any thread. A task is added with the status that its constructor gives it.
pub data Step {ℓ} {J : Type ℓ} : Executor J → Executor J → Type ℓ where
  step_add :
      (uuid : Bytes) (out : J) (e : Executor J)
      → Step e (record e {
        task_list =
            add
              (record { i_uuid = uuid; i_task_status = t_task_init; i_out_json = out })
              e.task_list;
      })
  step_get :
      (uuid : Bytes) (e : Executor J) → Step e (record e { task_list = (get uuid e.task_list).1 })
  step_pick :
      (tasks picked : List (InternalTask J))
      → pick_task_to_run tasks ≡ some picked
      → Step
          (record { task_list = tasks; busy = false })
          (record { task_list = picked; busy = true })
  step_over :
      (tasks : List (InternalTask J)) (out : J)
      → Step
          (record { task_list = tasks; busy = true })
          (record { task_list = set_task_over out tasks; busy = false })

pub data Reachable {ℓ} {J : Type ℓ} : Executor J → Type ℓ where
  start : Reachable (record { task_list = []; busy = false })
  later : (e f : Executor J) → Reachable e → Step e f → Reachable f
