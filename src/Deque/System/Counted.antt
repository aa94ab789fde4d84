-- ===== src/Deque/System/Counted.antt =====
-- How many threads there are, and that the queue's own count of its waiters is right.
use yutil.Common.{ℕ, ◌+◌, ◌-◌, ◌<◌, ◌≡◌, some, word, arith}
use yutil.Deque.Ops.{Ops, IsTracked}
use yutil.Deque.System.{
  System, Event, push, notify_one, wait_pop, resume, spurious, try_pop, close, notify_all, step,
  start,
}

-- The bookkeeping after `n` threads have interleaved.
pub record IsCounted {ℓ} {A S : Type ℓ} (Tracks : S → ℕ → Type 0) (n : ℕ) (s : System A S)
    : Type 0 where
  pub total : s.idle + s.sleeping + s.woken + s.notifying + s.closing ≡ n
  pub tracked : Tracks s.queue (s.sleeping + s.woken)

module _ {ℓ} {A S : Type ℓ} (Tracks : S → ℕ → Type 0) (ops : Ops A S) (laws : IsTracked Tracks ops)
    (n : ℕ) (few : n < word) where
  pub step-IsCounted :
      (e : Event A) (s : System A S) {t : System A S}
      → step ops e s ≡ some t
      → IsCounted Tracks n s
      → IsCounted Tracks n t
  unfolding step
  step-IsCounted (push x) s h i = ground (arith, laws.emplace_lem x s.queue (s.sleeping + s.woken))
  step-IsCounted notify_one s h i = ground arith
  step-IsCounted wait_pop s h i = ground (arith, laws.wait_pop_lem s.queue (s.sleeping + s.woken))
  step-IsCounted resume s h i = ground (arith, laws.resume_lem s.queue (s.sleeping + s.woken - 1))
  step-IsCounted spurious s h i = ground arith
  step-IsCounted try_pop s h i = ground (arith, laws.try_pop_lem s.queue (s.sleeping + s.woken))
  step-IsCounted close s h i = ground (arith, laws.close_lem s.queue (s.sleeping + s.woken))
  step-IsCounted notify_all s h i = ground arith

  pub start-IsCounted : IsCounted Tracks n (start ops n)
  start-IsCounted = ground (arith, laws.initial_lem)
