-- ===== src/Chan/Size.antt =====
-- What `size` gives for the values in the ring.
use wfrest.Base.{◌+◌, ◌<◌, ◌≤◌, ◌≡◌, List, length, arith}
use wfrest.Chan.{SpscQueue, size}
use wfrest.Chan.Fifo.{wrap, IsQueue}

-- For every queue of fewer than 2^31 places that stands for `xs`: `size` is the number of values
-- if they do not go around the end of the ring; if they do, it is too large by 2^64 less the
-- number of places.
pub size-IsQueue {ℓ} :
    {T : Type ℓ} (q : SpscQueue T) (xs : List T)
    → IsQueue q xs
    → q.cap < 2147483648
    → (q.tail ≤ q.head → size q ≡ length xs)
      × (q.head < q.tail → size q + q.cap ≡ length xs + 18446744073709551616)
unfolding size IsQueue wrap
size-IsQueue q xs is_queue small =
    let (tail, places, room, head, holds) = is_queue in
    (λ straight. ground arith, λ around. ground arith)
