-- ===== src/Ring/V3.antt =====
-- ds/queue/ring_mutex_mpmc_queue_v3.hpp: `RingMutexMpmcQueueV3`.
use yutil.Common.{
  ℕ, Bool, true, false, not, ◌&&◌, ◌||◌, ◌==◌, Option, none, some, if◌then◌else◌, ltb, inc, dec,
}
use yutil.Fifo.{Fifo}
use yutil.Ring.Storage.{Storage, create, put, take}
use yutil.Ring.Storage.Contents.{items}
use yutil.Ring.Ops.{
  Ops, Section, fault, block, done, Reply, accepted, refused, Notice, quiet, one_consumer,
  one_producer, consumers_then_producers,
}

-- Its data members; the mutex and the condition variables are in `Ring.System`.
pub record RingMutexMpmcQueueV3 {ℓ} (A : Type ℓ) : Type ℓ where
  pub storage : Storage A
  pub waiting_consumers : ℕ
  pub waiting_producers : ℕ
  pub closed : Bool

module _ {ℓ} {A : Type ℓ} where
  unfoldable pub initial : A → ℕ → RingMutexMpmcQueueV3 A
  initial default capacity = record {
    storage = create default capacity;
    waiting_consumers = 0;
    waiting_producers = 0;
    closed = false;
  }

  abbrev was_empty : Storage A → Bool
  was_empty s = s.size == 0

  abbrev was_full : Storage A → Bool
  was_full s = s.size == s.capacity

  -- The lines of a push that store the item: what they signal is given.
  store : A → Notice → Notice → RingMutexMpmcQueueV3 A → Section Reply (RingMutexMpmcQueueV3 A)
  store x held after s = elim (put x s.storage) [
    | none ↦ fault
    | some st ↦ done accepted held after (record s { storage = st })
  ]

  -- The lines of a pop that take the first item.
  remove : (A → A) → Notice → RingMutexMpmcQueueV3 A → Section (Option A) (RingMutexMpmcQueueV3 A)
  remove moved after s = elim (take moved s.storage) [
    | none ↦ fault
    | some (v, st) ↦ done (some v) quiet after (record s { storage = st })
  ]

  -- `emplace` from the predicate of its wait on.
  unfoldable pub resume_push : A → RingMutexMpmcQueueV3 A → Section Reply (RingMutexMpmcQueueV3 A)
  unfolding store
  resume_push x s =
      if s.closed || ltb s.storage.size s.storage.capacity
      then (let s' : RingMutexMpmcQueueV3 A = record s {
        waiting_producers = dec s.waiting_producers;
      } in
          if s.closed
          then done refused quiet quiet s'
          else store x quiet
              (if was_empty s.storage && ltb 0 s.waiting_consumers then one_consumer else quiet) s')
      else block s

  unfoldable pub emplace : A → RingMutexMpmcQueueV3 A → Section Reply (RingMutexMpmcQueueV3 A)
  unfolding resume_push
  emplace x s = resume_push x (record s { waiting_producers = inc s.waiting_producers })

  unfoldable pub push : A → RingMutexMpmcQueueV3 A → Section Reply (RingMutexMpmcQueueV3 A)
  unfolding emplace
  push x s = emplace x s

  unfoldable pub try_emplace : A → RingMutexMpmcQueueV3 A → Section Reply (RingMutexMpmcQueueV3 A)
  unfolding store
  try_emplace x s =
      if s.closed || not (ltb s.storage.size s.storage.capacity)
      then done refused quiet quiet s
      else store x quiet
          (if was_empty s.storage && ltb 0 s.waiting_consumers then one_consumer else quiet) s

  unfoldable pub try_push : A → RingMutexMpmcQueueV3 A → Section Reply (RingMutexMpmcQueueV3 A)
  unfolding try_emplace
  try_push x s = try_emplace x s

  -- `wait_pop` from the predicate of its wait on.
  unfoldable pub resume_pop :
      (A → A) → RingMutexMpmcQueueV3 A → Section (Option A) (RingMutexMpmcQueueV3 A)
  unfolding remove
  resume_pop moved s =
      if s.closed || ltb 0 s.storage.size
      then (let s' : RingMutexMpmcQueueV3 A = record s {
        waiting_consumers = dec s.waiting_consumers;
      } in
          if s.storage.size == 0
          then done none quiet quiet s'
          else remove moved
              (if was_full s.storage && ltb 0 s.waiting_producers then one_producer else quiet) s')
      else block s

  unfoldable pub wait_pop :
      (A → A) → RingMutexMpmcQueueV3 A → Section (Option A) (RingMutexMpmcQueueV3 A)
  unfolding resume_pop
  wait_pop moved s = resume_pop moved (record s { waiting_consumers = inc s.waiting_consumers })

  unfoldable pub try_pop :
      (A → A) → RingMutexMpmcQueueV3 A → Section (Option A) (RingMutexMpmcQueueV3 A)
  unfolding remove
  try_pop moved s = if s.storage.size == 0 then done none quiet quiet s else remove moved quiet s

  unfoldable pub close : RingMutexMpmcQueueV3 A → Notice × RingMutexMpmcQueueV3 A
  close s = (consumers_then_producers, record s { closed = true })

  abbrev pub view : RingMutexMpmcQueueV3 A → Fifo A
  view s = record { items = items s.storage; closed = s.closed }

  unfoldable pub ops : (A → A) → A → ℕ → Ops A (RingMutexMpmcQueueV3 A)
  unfolding initial emplace try_emplace wait_pop try_pop close resume_push resume_pop
  ops moved default capacity = record {
    initial = initial default capacity;
    emplace = emplace;
    resume_push = resume_push;
    try_emplace = try_emplace;
    wait_pop = wait_pop moved;
    resume_pop = resume_pop moved;
    try_pop = try_pop moved;
    close = close;
  }
