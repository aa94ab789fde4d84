-- ===== src/Deque/QueueV1.antt =====
-- ds/queue/mutex_deque_queue_v1.hpp: `MutexDequeQueueV1`.
use yutil.Common.{
  Bool, true, false, not, ◌||◌, Option, none, some, List, [], ◌∷◌, ◌++◌, is_empty, if◌then◌else◌,
}
use yutil.Fifo.{Wait, block, finish, Push, Fifo}
use yutil.Deque.Ops.{Ops}

-- Its data members; the mutex and the condition variable are in `Deque.System`.
pub record MutexDequeQueueV1 {ℓ} (A : Type ℓ) : Type ℓ where
  pub queue : List A
  pub closed : Bool

module _ {ℓ} {A : Type ℓ} where
  abbrev pub initial : MutexDequeQueueV1 A
  initial = record { queue = []; closed = false }

  unfoldable pub emplace : A → MutexDequeQueueV1 A → Push (MutexDequeQueueV1 A)
  emplace x s = if s.closed then record { accepted = false; notify = false; next = s } else record {
    accepted = true;
    notify = true;
    next = record s { queue = s.queue ++ (x ∷ []) };
  }

  unfoldable pub push : A → MutexDequeQueueV1 A → Push (MutexDequeQueueV1 A)
  unfolding emplace
  push x s = emplace x s

  -- The end of both pops: `out` and the queue without its front, or false if there is none.
  take_front : MutexDequeQueueV1 A → Option A × MutexDequeQueueV1 A
  take_front s = elim s.queue [ [] ↦ (none, s) | x ∷ xs ↦ (some x, record s { queue = xs }) ]

  -- `cv_.wait` with a predicate tests it before each sleep.
  unfoldable pub wait_pop : MutexDequeQueueV1 A → Wait A (MutexDequeQueueV1 A)
  unfolding take_front
  wait_pop s =
      if s.closed || not (is_empty s.queue)
      then (let (r, s') = take_front s in finish r s')
      else block s

  unfoldable pub try_pop : MutexDequeQueueV1 A → Option A × MutexDequeQueueV1 A
  unfolding take_front
  try_pop s = take_front s

  unfoldable pub close : MutexDequeQueueV1 A → MutexDequeQueueV1 A
  close s = record s { closed = true }

  abbrev pub view : MutexDequeQueueV1 A → Fifo A
  view s = record { items = s.queue; closed = s.closed }

  unfoldable pub ops : Ops A (MutexDequeQueueV1 A)
  unfolding emplace wait_pop try_pop close
  ops = record {
    initial = initial;
    emplace = emplace;
    wait_pop = wait_pop;
    resume = wait_pop;
    try_pop = try_pop;
    close = close;
  }
