-- ===== src/Deque/Laws.antt =====
-- Each class keeps the contract, and counts its waiters right.
use yutil.Common.{ℕ, ◌≡◌, refl, true, arith}
use yutil.Deque.Ops.{IsFifo, IsTracked, IsPrompt, IsEager}
use yutil.Deque.Class.{
  Class, blocking, mpmc_v1, mpmc_v2, mpmc_v3, queue_v1, queue_v2, queue_v3, State, view, ops,
  notifies_waiters,
}
use yutil.Deque.Blocking
use yutil.Deque.MpmcV1
use yutil.Deque.MpmcV2
use yutil.Deque.MpmcV3
use yutil.Deque.QueueV1
use yutil.Deque.QueueV2
use yutil.Deque.QueueV3
use yutil.Deque.MpmcV3.{MutexDequeMpmcQueueV3}
use yutil.Deque.QueueV3.{MutexDequeQueueV3}

-- What `waiting_consumers_` counts, in the classes that have it.
abbrev pub Tracks {ℓ} : (A : Type ℓ) (c : Class) → State c A → ℕ → Type 0
Tracks A mpmc_v3 s k = s.waiting_consumers ≡ k
Tracks A queue_v3 s k = s.waiting_consumers ≡ k
Tracks A _ s k = Unit

module _ {ℓ} {A : Type ℓ} where
  blocking-IsFifo : IsFifo (Blocking.view {A = A}) Blocking.ops
  unfolding Blocking.ops
  blocking-IsFifo = record {
    initial_lem = refl;
    emplace_lem = λ x s. ground arith;
    wait_pop_lem = λ s. ground arith;
    resume_lem = λ s. ground arith;
    try_pop_lem = λ s. ground arith;
    close_lem = λ s. refl;
  }

  mpmc_v1-IsFifo : IsFifo (MpmcV1.view {A = A}) MpmcV1.ops
  unfolding MpmcV1.ops
  mpmc_v1-IsFifo = record {
    initial_lem = refl;
    emplace_lem = λ x s. ground arith;
    wait_pop_lem = λ s. ground arith;
    resume_lem = λ s. ground arith;
    try_pop_lem = λ s. ground arith;
    close_lem = λ s. refl;
  }

  mpmc_v2-IsFifo : IsFifo (MpmcV2.view {A = A}) MpmcV2.ops
  unfolding MpmcV2.ops
  mpmc_v2-IsFifo = record {
    initial_lem = refl;
    emplace_lem = λ x s. ground arith;
    wait_pop_lem = λ s. ground arith;
    resume_lem = λ s. ground arith;
    try_pop_lem = λ s. ground arith;
    close_lem = λ s. refl;
  }

  mpmc_v3-IsFifo : IsFifo (MpmcV3.view {A = A}) MpmcV3.ops
  unfolding MpmcV3.ops
  mpmc_v3-IsFifo = record {
    initial_lem = refl;
    emplace_lem = λ x s. ground arith;
    wait_pop_lem = λ s. ground arith;
    resume_lem = λ s. ground arith;
    try_pop_lem = λ s. ground arith;
    close_lem = λ s. refl;
  }

  queue_v1-IsFifo : IsFifo (QueueV1.view {A = A}) QueueV1.ops
  unfolding QueueV1.ops
  queue_v1-IsFifo = record {
    initial_lem = refl;
    emplace_lem = λ x s. ground arith;
    wait_pop_lem = λ s. ground arith;
    resume_lem = λ s. ground arith;
    try_pop_lem = λ s. ground arith;
    close_lem = λ s. refl;
  }

  queue_v2-IsFifo : IsFifo (QueueV2.view {A = A}) QueueV2.ops
  unfolding QueueV2.ops
  queue_v2-IsFifo = record {
    initial_lem = refl;
    emplace_lem = λ x s. ground arith;
    wait_pop_lem = λ s. ground arith;
    resume_lem = λ s. ground arith;
    try_pop_lem = λ s. ground arith;
    close_lem = λ s. refl;
  }

  queue_v3-IsFifo : IsFifo (QueueV3.view {A = A}) QueueV3.ops
  unfolding QueueV3.ops
  queue_v3-IsFifo = record {
    initial_lem = refl;
    emplace_lem = λ x s. ground arith;
    wait_pop_lem = λ s. ground arith;
    resume_lem = λ s. ground arith;
    try_pop_lem = λ s. ground arith;
    close_lem = λ s. refl;
  }

  pub ops-IsFifo : (c : Class) → IsFifo (view {A = A} c) (ops c)
  ops-IsFifo blocking = blocking-IsFifo
  ops-IsFifo mpmc_v1 = mpmc_v1-IsFifo
  ops-IsFifo mpmc_v2 = mpmc_v2-IsFifo
  ops-IsFifo mpmc_v3 = mpmc_v3-IsFifo
  ops-IsFifo queue_v1 = queue_v1-IsFifo
  ops-IsFifo queue_v2 = queue_v2-IsFifo
  ops-IsFifo queue_v3 = queue_v3-IsFifo

  blocking-IsTracked : IsTracked (Tracks A blocking) Blocking.ops
  unfolding Blocking.ops
  blocking-IsTracked = record {
    initial_lem = tt;
    emplace_lem = λ x s k h. ground arith;
    wait_pop_lem = λ s k h f. ground arith;
    resume_lem = λ s k h f. ground arith;
    try_pop_lem = λ s k h. ground arith;
    close_lem = λ s k h. h;
  }

  mpmc_v1-IsTracked : IsTracked (Tracks A mpmc_v1) MpmcV1.ops
  unfolding MpmcV1.ops
  mpmc_v1-IsTracked = record {
    initial_lem = tt;
    emplace_lem = λ x s k h. ground arith;
    wait_pop_lem = λ s k h f. ground arith;
    resume_lem = λ s k h f. ground arith;
    try_pop_lem = λ s k h. ground arith;
    close_lem = λ s k h. h;
  }

  mpmc_v2-IsTracked : IsTracked (Tracks A mpmc_v2) MpmcV2.ops
  unfolding MpmcV2.ops
  mpmc_v2-IsTracked = record {
    initial_lem = tt;
    emplace_lem = λ x s k h. ground arith;
    wait_pop_lem = λ s k h f. ground arith;
    resume_lem = λ s k h f. ground arith;
    try_pop_lem = λ s k h. ground arith;
    close_lem = λ s k h. h;
  }

  mpmc_v3-IsTracked : IsTracked (Tracks A mpmc_v3) MpmcV3.ops
  unfolding MpmcV3.ops
  mpmc_v3-IsTracked = record {
    initial_lem = refl;
    emplace_lem = λ x s k h. ground arith;
    wait_pop_lem = λ s k h f. ground arith;
    resume_lem = λ s k h f. ground arith;
    try_pop_lem = λ s k h. ground arith;
    close_lem = λ s k h. h;
  }

  queue_v1-IsTracked : IsTracked (Tracks A queue_v1) QueueV1.ops
  unfolding QueueV1.ops
  queue_v1-IsTracked = record {
    initial_lem = tt;
    emplace_lem = λ x s k h. ground arith;
    wait_pop_lem = λ s k h f. ground arith;
    resume_lem = λ s k h f. ground arith;
    try_pop_lem = λ s k h. ground arith;
    close_lem = λ s k h. h;
  }

  queue_v2-IsTracked : IsTracked (Tracks A queue_v2) QueueV2.ops
  unfolding QueueV2.ops
  queue_v2-IsTracked = record {
    initial_lem = tt;
    emplace_lem = λ x s k h. ground arith;
    wait_pop_lem = λ s k h f. ground arith;
    resume_lem = λ s k h f. ground arith;
    try_pop_lem = λ s k h. ground arith;
    close_lem = λ s k h. h;
  }

  queue_v3-IsTracked : IsTracked (Tracks A queue_v3) QueueV3.ops
  unfolding QueueV3.ops
  queue_v3-IsTracked = record {
    initial_lem = refl;
    emplace_lem = λ x s k h. ground arith;
    wait_pop_lem = λ s k h f. ground arith;
    resume_lem = λ s k h f. ground arith;
    try_pop_lem = λ s k h. ground arith;
    close_lem = λ s k h. h;
  }

  pub ops-IsTracked : (c : Class) → IsTracked (Tracks A c) (ops c)
  ops-IsTracked blocking = blocking-IsTracked
  ops-IsTracked mpmc_v1 = mpmc_v1-IsTracked
  ops-IsTracked mpmc_v2 = mpmc_v2-IsTracked
  ops-IsTracked mpmc_v3 = mpmc_v3-IsTracked
  ops-IsTracked queue_v1 = queue_v1-IsTracked
  ops-IsTracked queue_v2 = queue_v2-IsTracked
  ops-IsTracked queue_v3 = queue_v3-IsTracked

  pub ops-IsPrompt : (c : Class) → notifies_waiters c ≡ true → IsPrompt (Tracks A c) (ops c)
  unfolding Blocking.ops MpmcV1.ops MpmcV2.ops MpmcV3.ops QueueV1.ops QueueV2.ops QueueV3.ops
  ops-IsPrompt blocking h x s k i pos = ground arith
  ops-IsPrompt mpmc_v1 h x s k i pos = ground arith
  ops-IsPrompt mpmc_v2 h x s k i pos = ground arith
  ops-IsPrompt mpmc_v3 h x s k i pos = ground arith
  ops-IsPrompt queue_v1 h x s k i pos = ground arith
  ops-IsPrompt queue_v2 h x s k i pos = ground arith
  ops-IsPrompt queue_v3 h x s k i pos = ground arith

  pub ops-IsEager : (c : Class) → IsEager (view c) (Tracks A c) (ops c)
  unfolding Blocking.ops MpmcV1.ops MpmcV2.ops MpmcV3.ops QueueV1.ops QueueV2.ops QueueV3.ops
  ops-IsEager blocking x s k i pos e = ground arith
  ops-IsEager mpmc_v1 x s k i pos e = ground arith
  ops-IsEager mpmc_v2 x s k i pos e = ground arith
  ops-IsEager mpmc_v3 x s k i pos e = ground arith
  ops-IsEager queue_v1 x s k i pos e = ground arith
  ops-IsEager queue_v2 x s k i pos e = ground arith
  ops-IsEager queue_v3 x s k i pos e = ground arith
