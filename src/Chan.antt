-- ===== src/Chan.antt =====
-- file_compare/diff/chan.h: the ring queue of one producer and one consumer.
--
-- The producer and the consumer each do one step at a time; a step here is a call between the loads
-- and the store of an index. `push` waits while the ring is full: the step is then not possible, and
-- `push` is `none`.
pub mod Fifo
pub mod Size
use wfrest.Base.{
  ℕ, zero, suc, ◌+◌, ◌-◌, ◌%◌, ◌^◌, Bool, true, false, List, [], ◌∷◌, Option, none, some, ◌==◌, ltb,
  if◌then◌else◌, length, get_or, set,
}

-- `buf` holds `cap_` places; a place that has never been written, or that was popped, is `none`.
pub record SpscQueue {ℓ} (T : Type ℓ) : Type ℓ where
  pub cap : ℕ
  pub head : ℕ
  pub tail : ℕ
  pub buf : List (Option T)

-- The index behind `i`, at the end of the ring the first one.
unfoldable pub next_index : ℕ → ℕ → ℕ
next_index places i = if i + 1 == places then 0 else i + 1

module _ {ℓ} {T : Type ℓ} where
  nothing_in : ℕ → List (Option T)
  nothing_in zero = []
  nothing_in (suc n) = none ∷ nothing_in n

  -- The constructor: `std::max<int>(cap + 1, 4)` places.
  unfoldable pub make : ℕ → SpscQueue T
  unfolding nothing_in
  make cap =
      let places = if ltb (cap + 1) 4 then 4 else cap + 1 in
      record { cap = places; head = 0; tail = 0; buf = nothing_in places }

  unfoldable pub push : T → SpscQueue T → Option (SpscQueue T)
  unfolding next_index
  push x q =
      let next_head = next_index q.cap q.head in
      if next_head == q.tail
      then none
      else some (record q { head = next_head; buf = set q.buf q.head (some x) })

  -- `front()`: where there is one, the place that it points to.
  unfoldable pub front : SpscQueue T → Option T
  front q = if q.head == q.tail then none else get_or q.buf q.tail none

  unfoldable pub pop : SpscQueue T → SpscQueue T
  unfolding next_index
  pop q = record q { tail = next_index q.cap q.tail; buf = set q.buf q.tail none }

  -- `size()`: the difference is a `size_t`, of which `diff < 0` is never true.
  unfoldable pub size : SpscQueue T → ℕ
  size q = (q.head + 2 ^ 64 - q.tail) % 2 ^ 64

  -- `read_once` of both channels: the value, where there is one, and the queue.
  unfoldable pub read_once : SpscQueue T → Option T × SpscQueue T
  unfolding front pop
  read_once q = elim (front q) [ none ↦ (none, q) | some x ↦ (some x, pop q) ]
