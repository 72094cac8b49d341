-- ===== src/Tests/Files.antt =====
-- The theorems on the file comparison server at concrete inputs.
use wfrest.Base.{
  ◌<◌, ◌≤◌, ◌+◌, ℕ, ◌≡◌, ◌<◌, ◌≤◌, refl, true, false, List, [], ◌∷◌, ◌++◌, map, none, some, length,
  Bytes, codes, arith,
}
use wfrest.Content.{Content, read_file, finish, compute_sha1_by_lines, over}
use wfrest.Content.Lines.{read_file-buffers, joined}
use wfrest.Executor.{
  t_task_init, t_task_running, t_task_over, InternalTask, success, retry, not_found, add,
  pick_task_to_run, Executor, step_add, step_pick, Reachable, start, later,
}
use wfrest.Executor
use wfrest.Executor.Turns.{in_turn, Reachable-in_turn}
use wfrest.Executor.Results.{get-append}
use wfrest.Chan.{SpscQueue, push, read_once, pop, size}
use wfrest.Chan.Size.{size-IsQueue}
use wfrest.Chan.Fifo.{IsQueue, push-IsQueue, read_once-IsQueue}

abbrev hello : Bytes
hello = codes "hello"

-- Digests of a byte string: its length.
abbrev fresh : Content ℕ ℕ
fresh = record {
  file_pre_line = [];
  lines_sha1 = [];
  empty_lines = 0;
  md5 = none;
  is_open = true;
  has_asserted = false;
}

abbrev file_text : Bytes
file_text = codes "ab" ++ b'\n' ∷ b' ' ∷ b'\n' ∷ codes "c"

read_file-buffers_example :
    read_file {D = ℕ} {M = ℕ}
      (λ s. length s)
      (λ s. length s)
      (map (λ b. some b) [] ++ some file_text ∷ [])
      fresh
    ≡ (
      over,
      record (finish
          (λ s. length s)
          (compute_sha1_by_lines (λ s. length s) (joined [] ++ file_text) fresh)) {
            md5 = some (length file_text);
            is_open = false;
          },
    )
read_file-buffers_example =
    read_file-buffers (λ s. length s) (λ s. length s) [] file_text fresh tt refl

-- A ring of four places that holds the value 5 in the last one.
abbrev ring : SpscQueue ℕ
ring = record { cap = 4; head = 0; tail = 3; buf = none ∷ none ∷ none ∷ some 5 ∷ [] }

ring-IsQueue : IsQueue ring (5 ∷ [])
unfolding IsQueue
ring-IsQueue = (omega arith, refl, omega arith, refl, (refl, tt))

push-IsQueue_example :
    (2 < 4 → (q' : SpscQueue ℕ) × (push 6 ring ≡ some q') × IsQueue q' (5 ∷ 6 ∷ []))
    × (4 ≤ 2 → push 6 ring ≡ none)
push-IsQueue_example = push-IsQueue ring (5 ∷ []) 6 ring-IsQueue

read_once-IsQueue_example :
    (IsQueue ring [] → read_once ring ≡ (none, ring))
    × ((x : ℕ) (xs : List ℕ)
        → IsQueue ring (x ∷ xs)
        → (read_once ring ≡ (some x, pop ring)) × IsQueue (pop ring) xs)
read_once-IsQueue_example = read_once-IsQueue ring

abbrev waiting : InternalTask ℕ
waiting = record { i_uuid = hello; i_task_status = t_task_init; i_out_json = 0 }

abbrev idle : Executor ℕ
idle = record { task_list = []; busy = false }

abbrev one_waiting : Executor ℕ
one_waiting = record { task_list = add waiting []; busy = false }

abbrev one_running : Executor ℕ
one_running = record {
  task_list = record waiting { i_task_status = t_task_running } ∷ [];
  busy = true;
}

waiting-picked : pick_task_to_run one_waiting.task_list ≡ some one_running.task_list
unfolding add pick_task_to_run
waiting-picked = refl

one_running-Reachable : Reachable one_running
one_running-Reachable =
    later one_waiting one_running (later idle one_waiting start (step_add hello 0 idle))
      (step_pick one_waiting.task_list one_running.task_list waiting-picked)

Reachable-in_turn_example : in_turn one_running.busy one_running.task_list ≡ true
Reachable-in_turn_example = Reachable-in_turn one_running one_running-Reachable

get-append_example :
    (waiting.i_task_status ≡ t_task_over → Executor.get hello (waiting ∷ []) ≡ (success 0, []))
    × (waiting.i_task_status ≡ t_task_init
        → Executor.get hello (waiting ∷ []) ≡ (retry, waiting ∷ []))
    × (waiting.i_task_status ≡ t_task_running
        → Executor.get hello (waiting ∷ []) ≡ (retry, waiting ∷ []))
    × (Executor.get {J = ℕ} hello [] ≡ (not_found, []))
get-append_example = get-append hello [] waiting [] tt refl

size-IsQueue_example : (3 ≤ 0 → size ring ≡ 1) × (0 < 3 → size ring + 4 ≡ 1 + 18446744073709551616)
size-IsQueue_example = size-IsQueue ring (5 ∷ []) ring-IsQueue (omega arith)
