-- ===== src/Deque/QueueV3.antt =====
-- ds/queue/mutex_deque_queue_v3.hpp: `MutexDequeQueueV3`.
use yutil.Common.{
  ℕ, ltb, inc, dec, Bool, true, false, not, ◌&&◌, Option, none, some, List, [], ◌∷◌, ◌++◌, is_empty,
  if◌then◌else◌,
}
use yutil.Fifo.{Wait, block, finish, Push, Fifo}
use yutil.Deque.Ops.{Ops}

-- Its data members; the mutex and the condition variable are in `Deque.System`.
pub record MutexDequeQueueV3 {ℓ} (A : Type ℓ) : Type ℓ where
  pub queue : List A
  pub waiting_consumers : ℕ
  pub closed : Bool

module _ {ℓ} {A : Type ℓ} where
  abbrev pub initial : MutexDequeQueueV3 A
  initial = record { queue = []; waiting_consumers = 0; closed = false }

  unfoldable pub emplace : A → MutexDequeQueueV3 A → Push (MutexDequeQueueV3 A)
  emplace x s = if s.closed then record { accepted = false; notify = false; next = s } else record {
    accepted = true;
    notify = is_empty s.queue && ltb 0 s.waiting_consumers;
    next = record s { queue = s.queue ++ (x ∷ []) };
  }

  unfoldable pub push : A → MutexDequeQueueV3 A → Push (MutexDequeQueueV3 A)
  unfolding emplace
  push x s = emplace x s

  -- The end of both pops: `out` and the queue without its front, or false if there is none.
  take_front : MutexDequeQueueV3 A → Option A × MutexDequeQueueV3 A
  take_front s = elim s.queue [ [] ↦ (none, s) | x ∷ xs ↦ (some x, record s { queue = xs }) ]

  -- The loop of `wait_pop`, from the test on.
  unfoldable pub wait_loop : MutexDequeQueueV3 A → Wait A (MutexDequeQueueV3 A)
  unfolding take_front
  wait_loop s =
      if is_empty s.queue && not s.closed
      then block (record s { waiting_consumers = inc s.waiting_consumers })
      else (let (r, s') = take_front s in finish r s')

  unfoldable pub wait_pop : MutexDequeQueueV3 A → Wait A (MutexDequeQueueV3 A)
  unfolding wait_loop
  wait_pop s = wait_loop s

  -- Behind `cv_.wait`, with the mutex.
  unfoldable pub resume : MutexDequeQueueV3 A → Wait A (MutexDequeQueueV3 A)
  unfolding wait_loop
  resume s = wait_loop (record s { waiting_consumers = dec s.waiting_consumers })

  unfoldable pub try_pop : MutexDequeQueueV3 A → Option A × MutexDequeQueueV3 A
  unfolding take_front
  try_pop s = take_front s

  unfoldable pub close : MutexDequeQueueV3 A → MutexDequeQueueV3 A
  close s = record s { closed = true }

  abbrev pub view : MutexDequeQueueV3 A → Fifo A
  view s = record { items = s.queue; closed = s.closed }

  unfoldable pub ops : Ops A (MutexDequeQueueV3 A)
  unfolding emplace wait_pop resume try_pop close
  ops = record {
    initial = initial;
    emplace = emplace;
    wait_pop = wait_pop;
    resume = resume;
    try_pop = try_pop;
    close = close;
  }
