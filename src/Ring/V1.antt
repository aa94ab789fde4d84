-- ===== src/Ring/V1.antt =====
-- ds/queue/ring_mutex_mpmc_queue_v1.hpp: `RingMutexMpmcQueueV1`.
use yutil.Common.{ℕ, Bool, true, false, not, ◌||◌, ◌==◌, Option, none, some, if◌then◌else◌, ltb}
use yutil.Fifo.{Fifo}
use yutil.Ring.Storage.{Storage, create, put, take}
use yutil.Ring.Storage.Contents.{items}
use yutil.Ring.Ops.{
  Ops, Section, fault, block, done, Reply, accepted, refused, Notice, quiet, everyone,
}

-- Its data members; the mutex and the condition variable are in `Ring.System`.
pub record RingMutexMpmcQueueV1 {ℓ} (A : Type ℓ) : Type ℓ where
  pub storage : Storage A
  pub closed : Bool

module _ {ℓ} {A : Type ℓ} where
  unfoldable pub initial : A → ℕ → RingMutexMpmcQueueV1 A
  initial default capacity = record { storage = create default capacity; closed = false }

  -- The lines of a push that store the item: what they signal is given.
  store : A → Notice → Notice → RingMutexMpmcQueueV1 A → Section Reply (RingMutexMpmcQueueV1 A)
  store x held after s = elim (put x s.storage) [
    | none ↦ fault
    | some st ↦ done accepted held after (record s { storage = st })
  ]

  -- The lines of a pop that take the first item.
  remove : (A → A) → Notice → RingMutexMpmcQueueV1 A → Section (Option A) (RingMutexMpmcQueueV1 A)
  remove moved after s = elim (take moved s.storage) [
    | none ↦ fault
    | some (v, st) ↦ done (some v) quiet after (record s { storage = st })
  ]

  -- `wait` with a predicate tests it before each sleep.
  unfoldable pub emplace : A → RingMutexMpmcQueueV1 A → Section Reply (RingMutexMpmcQueueV1 A)
  unfolding store
  emplace x s =
      if s.closed || ltb s.storage.size s.storage.capacity
      then (if s.closed then done refused quiet quiet s else store x quiet everyone s)
      else block s

  unfoldable pub push : A → RingMutexMpmcQueueV1 A → Section Reply (RingMutexMpmcQueueV1 A)
  unfolding emplace
  push x s = emplace x s

  unfoldable pub try_emplace : A → RingMutexMpmcQueueV1 A → Section Reply (RingMutexMpmcQueueV1 A)
  unfolding store
  try_emplace x s =
      if s.closed || not (ltb s.storage.size s.storage.capacity)
      then done refused quiet quiet s
      else store x everyone quiet s

  unfoldable pub try_push : A → RingMutexMpmcQueueV1 A → Section Reply (RingMutexMpmcQueueV1 A)
  unfolding try_emplace
  try_push x s = try_emplace x s

  unfoldable pub wait_pop :
      (A → A) → RingMutexMpmcQueueV1 A → Section (Option A) (RingMutexMpmcQueueV1 A)
  unfolding remove
  wait_pop moved s =
      if s.closed || ltb 0 s.storage.size
      then (if s.storage.size == 0 then done none quiet quiet s else remove moved everyone s)
      else block s

  unfoldable pub try_pop :
      (A → A) → RingMutexMpmcQueueV1 A → Section (Option A) (RingMutexMpmcQueueV1 A)
  unfolding remove
  try_pop moved s = if s.storage.size == 0 then done none quiet quiet s else remove moved quiet s

  unfoldable pub close : RingMutexMpmcQueueV1 A → Notice × RingMutexMpmcQueueV1 A
  close s = (everyone, record s { closed = true })

  abbrev pub view : RingMutexMpmcQueueV1 A → Fifo A
  view s = record { items = items s.storage; closed = s.closed }

  unfoldable pub ops : (A → A) → A → ℕ → Ops A (RingMutexMpmcQueueV1 A)
  unfolding initial emplace try_emplace wait_pop try_pop close
  ops moved default capacity = record {
    initial = initial default capacity;
    emplace = emplace;
    resume_push = emplace;
    try_emplace = try_emplace;
    wait_pop = wait_pop moved;
    resume_pop = wait_pop moved;
    try_pop = try_pop moved;
    close = close;
  }
