-- ===== src/Deque/System.antt =====
-- Threads that share one unbounded queue, a critical section at a time. The threads differ only in
-- where they stand, so the state counts them by place; an event names what one of them does next.
pub mod Linear
pub mod Closing
pub mod Counted
pub mod Wakeups
pub mod Single
use yutil.Common.{
  arith, refl, ℕ, ◌+◌, ◌-◌, ◌≡◌, Bool, true, false, Option, none, some, List, [], ◌∷◌, ◌==◌,
  if◌then◌else◌,
}
use yutil.Fifo.{Wait, block, finish, Push, Call}
use yutil.Deque.Ops.{Ops}

pub record System {ℓ} (A S : Type ℓ) : Type ℓ where
  pub queue : S
  pub idle : ℕ  -- threads outside every method
  pub sleeping : ℕ  -- blocked in `cv_.wait`
  pub woken : ℕ  -- notified in `cv_.wait`, without the mutex yet
  pub notifying : ℕ  -- in a push, before `cv_.notify_one`
  pub closing : ℕ  -- in `close`, before `cv_.notify_all`
  pub log : List (Call A)  -- the critical sections that returned, newest first

-- What a thread does next. `spurious` is a wakeup of `cv_.wait` without a notification.
pub data Event {ℓ} (A : Type ℓ) : Type ℓ where
  push : A → Event A
  notify_one : Event A
  wait_pop : Event A
  resume : Event A
  spurious : Event A
  try_pop : Event A
  close : Event A
  notify_all : Event A

module _ {ℓ} {A S : Type ℓ} where
  -- One thread of those counted by a place, if there is one.
  abbrev pub one_of : ℕ → System A S → Option (System A S)
  one_of k s = if k == 0 then none else some s

  abbrev pub after_push : A → System A S → Push S → System A S
  after_push x s p = record s {
    queue = p.next;
    idle = if p.notify then s.idle - 1 else s.idle;
    notifying = if p.notify then s.notifying + 1 else s.notifying;
    log = Call.push x p.accepted ∷ s.log;
  }

  abbrev pub after_wait : System A S → Wait A S → System A S
  after_wait s (block q) = record s { queue = q; sleeping = s.sleeping + 1 }
  after_wait s (finish r q) = record s {
    queue = q;
    idle = s.idle + 1;
    log = Call.wait_pop r ∷ s.log;
  }

  abbrev pub after_try : System A S → Option A × S → System A S
  after_try s (r, q) = record s { queue = q; log = Call.try_pop r ∷ s.log }

  -- `notify_one` wakes a sleeper if there is one.
  abbrev pub wake_one : System A S → System A S
  wake_one s =
      if s.sleeping == 0 then s else record s { sleeping = s.sleeping - 1; woken = s.woken + 1 }

  module _ (ops : Ops A S) where
    abbrev pub start : ℕ → System A S
    start n = record {
      queue = ops.initial;
      idle = n;
      sleeping = 0;
      woken = 0;
      notifying = 0;
      closing = 0;
      log = [];
    }

    -- `none`: no thread stands where the event needs one.
    unfoldable pub step : Event A → System A S → Option (System A S)
    step (push x) s = one_of s.idle (after_push x s (ops.emplace x s.queue))
    step notify_one s =
        one_of s.notifying (wake_one (record s { notifying = s.notifying - 1; idle = s.idle + 1 }))
    step wait_pop s =
        one_of s.idle (after_wait (record s { idle = s.idle - 1 }) (ops.wait_pop s.queue))
    step resume s =
        one_of s.woken (after_wait (record s { woken = s.woken - 1 }) (ops.resume s.queue))
    step spurious s = one_of s.sleeping (wake_one s)
    step try_pop s = one_of s.idle (after_try s (ops.try_pop s.queue))
    step close s = one_of s.idle (record s {
      queue = ops.close s.queue;
      idle = s.idle - 1;
      closing = s.closing + 1;
      log = Call.close ∷ s.log;
    })
    step notify_all s = one_of s.closing (record s {
      closing = s.closing - 1;
      idle = s.idle + 1;
      woken = s.woken + s.sleeping;
      sleeping = 0;
    })

    -- The events one after another.
    unfoldable pub run : List (Event A) → System A S → Option (System A S)
    run [] s = some s
    run (e ∷ es) s = elim (step e s) [ none ↦ none | some t ↦ run es t ]

  -- What a step and a run that succeed have done.
  pub one_of-eq : (k : ℕ) {s t : System A S} → one_of k s ≡ some t → s ≡ t
  one_of-eq k h = ground arith

  pub run-cons :
      (ops : Ops A S) (e : Event A) (es : List (Event A)) (s : System A S) {t : System A S}
      → run ops (e ∷ es) s ≡ some t
      → (u : System A S) × (step ops e s ≡ some u) × (run ops es u ≡ some t)
  unfolding run
  run-cons ops e es s {t} = go (step ops e s) refl
    where
      go :
          (r : Option (System A S))
          → step ops e s ≡ r
          → elim r [ none ↦ none | some u ↦ run ops es u ] ≡ some t
          → (u : System A S) × (step ops e s ≡ some u) × (run ops es u ≡ some t)
      go none p h = cc
      go (some u) p h = (u, p, h)
