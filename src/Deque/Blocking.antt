-- ===== src/Deque/Blocking.antt =====
-- ds/mutex_blocking_queue.hpp: `MutexBlockingQueue`.
use yutil.Common.{
  ℕ, length, Bool, true, false, not, ◌||◌, Option, none, some, List, [], ◌∷◌, ◌++◌, is_empty,
  if◌then◌else◌,
}
use yutil.Fifo.{Wait, block, finish, Push, Fifo}
use yutil.Deque.Ops.{Ops}

-- Its data members; the mutex and the condition variable are in `Deque.System`.
pub record MutexBlockingQueue {ℓ} (A : Type ℓ) : Type ℓ where
  pub queue : List A
  pub closed : Bool

module _ {ℓ} {A : Type ℓ} where
  abbrev pub initial : MutexBlockingQueue A
  initial = record { queue = []; closed = false }

  unfoldable pub emplace : A → MutexBlockingQueue A → Push (MutexBlockingQueue A)
  emplace x s = if s.closed then record { accepted = false; notify = false; next = s } else record {
    accepted = true;
    notify = true;
    next = record s { queue = s.queue ++ (x ∷ []) };
  }

  unfoldable pub push : A → MutexBlockingQueue A → Push (MutexBlockingQueue A)
  unfolding emplace
  push x s = emplace x s

  -- The end of both pops: `out` and the queue without its front, or false if there is none.
  take_front : MutexBlockingQueue A → Option A × MutexBlockingQueue A
  take_front s = elim s.queue [ [] ↦ (none, s) | x ∷ xs ↦ (some x, record s { queue = xs }) ]

  -- `cv_.wait` with a predicate tests it before each sleep.
  unfoldable pub wait_pop : MutexBlockingQueue A → Wait A (MutexBlockingQueue A)
  unfolding take_front
  wait_pop s =
      if s.closed || not (is_empty s.queue)
      then (let (r, s') = take_front s in finish r s')
      else block s

  unfoldable pub try_pop : MutexBlockingQueue A → Option A × MutexBlockingQueue A
  unfolding take_front
  try_pop s = take_front s

  unfoldable pub close : MutexBlockingQueue A → MutexBlockingQueue A
  close s = record s { closed = true }

  -- The overload of `wait_pop` that returns a `std::optional`: `nullopt` where the other returns
  -- false.
  unfoldable pub wait_pop_optional : MutexBlockingQueue A → Wait A (MutexBlockingQueue A)
  unfolding wait_pop
  wait_pop_optional s = elim (wait_pop s) [
    | block s' ↦ block s'
    | finish none s' ↦ finish none s'
    | finish (some value) s' ↦ finish (some value) s'
  ]

  unfoldable pub is_closed : MutexBlockingQueue A → Bool
  is_closed s = s.closed

  unfoldable pub size : MutexBlockingQueue A → ℕ
  size s = length s.queue

  abbrev pub view : MutexBlockingQueue A → Fifo A
  view s = record { items = s.queue; closed = s.closed }

  unfoldable pub ops : Ops A (MutexBlockingQueue A)
  unfolding emplace wait_pop try_pop close
  ops = record {
    initial = initial;
    emplace = emplace;
    wait_pop = wait_pop;
    resume = wait_pop;
    try_pop = try_pop;
    close = close;
  }
