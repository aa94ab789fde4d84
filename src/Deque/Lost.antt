-- ===== src/Deque/Lost.antt =====
-- The lost wakeup of the classes that notify only on the way from empty to non-empty.
use yutil.Common.{ℕ, ◌+◌, ◌-◌, ◌≤◌, ◌<◌, ◌≡◌, refl, false, true, some, List, [], ◌∷◌, arith}
use yutil.Fifo.{Call}
use yutil.Deque.System.{System, Event, run, start, step}
use yutil.Deque.Class.{
  Class, blocking, mpmc_v1, mpmc_v2, mpmc_v3, queue_v1, queue_v2, queue_v3, State, view, ops,
  notifies_waiters,
}
use yutil.Deque.MpmcV2
use yutil.Deque.QueueV2
use yutil.Deque.QueueV3

module _ {ℓ} {A : Type ℓ} (x y : A) where
  -- Two consumers go to sleep, `x` is pushed and wakes one of them, `y` is pushed before that one
  -- has the mutex, and it takes `x`.
  abbrev pub burst : List (Event A)
  burst =
      Event.wait_pop
      ∷ Event.wait_pop
      ∷ Event.push x
      ∷ Event.notify_one
      ∷ Event.push y
      ∷ Event.resume
      ∷ []

  abbrev pub IsStuck : (c : Class) → System A (State c A) → Type ℓ
  IsStuck c t =
      ((view c t.queue).items ≡ y ∷ []) × (0 < t.sleeping) × (t.woken + t.notifying + t.closing ≡ 0)

  -- What is left of `n` threads at an open queue that holds `y`.
  after_burst : {S : Type ℓ} → S → ℕ → System A S
  after_burst q n = record {
    queue = q;
    idle = n - 1;
    sleeping = 1;
    woken = 0;
    notifying = 0;
    closing = 0;
    log = Call.wait_pop (some x) ∷ Call.push y true ∷ Call.push x true ∷ [];
  }

  -- In `MutexDequeMpmcQueueV2`, `MutexDequeQueueV2` and `MutexDequeQueueV3`, with three threads or
  -- more and any two values: after two waits and a burst of two pushes the second value is in the
  -- queue, one consumer sleeps, and no thread is woken or about to notify.
  pub lost_wakeup :
      (c : Class) (n : ℕ)
      → notifies_waiters c ≡ false
      → 3 ≤ n
      → (t : System A (State c A)) × (run (ops c) burst (start (ops c) n) ≡ some t) × IsStuck c t
  unfolding run step MpmcV2.ops QueueV2.ops QueueV3.ops after_burst
  lost_wakeup blocking n h k = cc
  lost_wakeup mpmc_v1 n h k = cc
  lost_wakeup mpmc_v3 n h k = cc
  lost_wakeup queue_v1 n h k = cc
  lost_wakeup mpmc_v2 n h k = (
    after_burst (record { queue = y ∷ []; closed = false }) n,
    ground arith,
    (refl, omega arith, refl),
  )
  lost_wakeup queue_v2 n h k = (
    after_burst (record { queue = y ∷ []; closed = false }) n,
    ground arith,
    (refl, omega arith, refl),
  )
  lost_wakeup queue_v3 n h k = (
    after_burst (record { queue = y ∷ []; waiting_consumers = 1; closed = false }) n,
    ground arith,
    (refl, omega arith, refl),
  )
