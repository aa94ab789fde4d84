-- ===== src/Ring/System.antt =====
-- Threads that share one ring queue, a critical section at a time. Consumers, and threads outside
-- every method, differ only in where they stand, so the state counts them; of a producer that waits
-- it keeps the argument.
pub mod Linear
pub mod Awake
pub mod Wakeups
pub mod Closing
pub mod Alert
pub mod Single
use yutil.Common.{
  ℕ, ◌+◌, ◌-◌, ◌<◌, ◌≡◌, Bool, true, false, Option, none, some, List, [], ◌∷◌, ◌++◌, ◌==◌,
  if◌then◌else◌, pick, refl, arith,
}
use yutil.Fifo.Bounded.{Call}
use yutil.Ring.Ops.{
  Ops, Section, fault, block, done, Reply, is_accepted, Notice, quiet, one_consumer, one_producer,
  everyone, consumers_then_producers, all_producers,
}

pub record System {ℓ} (A S : Type ℓ) : Type ℓ where
  pub queue : S
  pub idle : ℕ  -- threads outside every method
  pub consumers : ℕ  -- asleep in `wait_pop`
  pub consumers_woken : ℕ  -- notified in `wait_pop`, without the mutex yet
  pub producers : List A  -- asleep in `push`
  pub producers_woken : List A  -- notified in `push`, without the mutex yet
  pub pending : List Notice  -- for each thread behind its critical section, what it will signal
  pub crashed : Bool  -- an access outside the vector has been made
  pub log : List (Call A)  -- the critical sections that returned, newest first

-- What a thread does next. A number chooses among several threads at the same place; `deliver i j`
-- sends the notice of thread `i`, and if it goes to one producer, `j` chooses that one.
pub data Event {ℓ} (A : Type ℓ) : Type ℓ where
  push : A → Event A
  resume_push : ℕ → Event A
  try_push : A → Event A
  wait_pop : Event A
  resume_pop : Event A
  try_pop : Event A
  close : Event A
  deliver : ℕ → ℕ → Event A
  spurious_consumer : Event A
  spurious_producer : ℕ → Event A

module _ {ℓ} {A S : Type ℓ} where
  abbrev pub one_of : ℕ → System A S → Option (System A S)
  one_of k s = if k == 0 then none else some s

  abbrev pub wake_consumer : System A S → System A S
  wake_consumer s =
      if s.consumers == 0
      then s
      else record s { consumers = s.consumers - 1; consumers_woken = s.consumers_woken + 1 }

  abbrev pub wake_producer : ℕ → System A S → System A S
  wake_producer j s = elim (pick j s.producers) [
    | none ↦ s
    | some (x, xs) ↦ record s { producers = xs; producers_woken = x ∷ s.producers_woken }
  ]

  abbrev pub wake_consumers : System A S → System A S
  wake_consumers s = record s { consumers = 0; consumers_woken = s.consumers_woken + s.consumers }

  abbrev pub wake_producers : System A S → System A S
  wake_producers s = record s { producers = []; producers_woken = s.producers ++ s.producers_woken }

  -- What a notice does. The two halves of `consumers_then_producers` are two steps.
  abbrev pub signal : Notice → ℕ → System A S → System A S
  signal quiet j s = s
  signal one_consumer j s = wake_consumer s
  signal one_producer j s = wake_producer j s
  signal everyone j s = wake_consumers (wake_producers s)
  signal consumers_then_producers j s =
      wake_consumers (record s { idle = s.idle - 1; pending = all_producers ∷ s.pending })
  signal all_producers j s = wake_producers s

  -- A thread with nothing to signal has returned.
  abbrev pub leave : Notice → System A S → System A S
  leave quiet s = record s { idle = s.idle + 1 }
  leave n s = record s { pending = n ∷ s.pending }

  abbrev pub after_push : A → (Bool → Call A) → System A S → Section Reply S → System A S
  after_push x call s fault = record s { crashed = true }
  after_push x call s (block q) = record s { queue = q; producers = x ∷ s.producers }
  after_push x call s (done r held after q) =
      leave after (signal held 0 (record s { queue = q; log = call (is_accepted r) ∷ s.log }))

  abbrev pub after_pop : (Option A → Call A) → System A S → Section (Option A) S → System A S
  after_pop call s fault = record s { crashed = true }
  after_pop call s (block q) = record s { queue = q; consumers = s.consumers + 1 }
  after_pop call s (done r held after q) =
      leave after (signal held 0 (record s { queue = q; log = call r ∷ s.log }))

  abbrev pub after_close : System A S → Notice × S → System A S
  after_close s (n, q) = leave n (record s { queue = q; log = Call.close ∷ s.log })

  module _ (ops : Ops A S) where
    abbrev pub start : ℕ → System A S
    start n = record {
      queue = ops.initial;
      idle = n;
      consumers = 0;
      consumers_woken = 0;
      producers = [];
      producers_woken = [];
      pending = [];
      crashed = false;
      log = [];
    }

    -- `none`: no thread stands where the event needs one.
    unfoldable pub step : Event A → System A S → Option (System A S)
    step (push x) s =
        one_of s.idle
          (after_push x (Call.push x) (record s { idle = s.idle - 1 }) (ops.emplace x s.queue))
    step (resume_push i) s = elim (pick i s.producers_woken) [
      | none ↦ none
      | some (x, xs) ↦ some (
          after_push x (Call.push x) (record s { producers_woken = xs })
            (ops.resume_push x s.queue))
    ]
    step (try_push x) s = one_of s.idle (
        after_push x (Call.try_push x) (record s { idle = s.idle - 1 }) (ops.try_emplace x s.queue))
    step wait_pop s =
        one_of s.idle
          (after_pop Call.wait_pop (record s { idle = s.idle - 1 }) (ops.wait_pop s.queue))
    step resume_pop s = one_of s.consumers_woken (
        after_pop Call.wait_pop (record s { consumers_woken = s.consumers_woken - 1 })
          (ops.resume_pop s.queue))
    step try_pop s =
        one_of s.idle
          (after_pop Call.try_pop (record s { idle = s.idle - 1 }) (ops.try_pop s.queue))
    step close s = one_of s.idle (after_close (record s { idle = s.idle - 1 }) (ops.close s.queue))
    step (deliver i j) s = elim (pick i s.pending) [
      | none ↦ none
      | some (n, ns) ↦ some (signal n j (record s { pending = ns; idle = s.idle + 1 }))
    ]
    step spurious_consumer s = one_of s.consumers (wake_consumer s)
    step (spurious_producer i) s = elim (pick i s.producers) [
      | none ↦ none
      | some p ↦ some (wake_producer i s)
    ]

    -- The events one after another.
    unfoldable pub run : List (Event A) → System A S → Option (System A S)
    run [] s = some s
    run (e ∷ es) s = elim (step e s) [ none ↦ none | some t ↦ run es t ]

  -- What a step and a run that succeed have done.
  pub one_of-eq : (k : ℕ) {s t : System A S} → one_of k s ≡ some t → s ≡ t
  one_of-eq k h = ground arith

  pub one_of-pos : (k : ℕ) (s : System A S) {t : System A S} → one_of k s ≡ some t → 0 < k
  one_of-pos k s h = ground arith

  pub run-cons :
      (ops : Ops A S) (e : Event A) (es : List (Event A)) (s : System A S) {t : System A S}
      → run ops (e ∷ es) s ≡ some t
      → (u : System A S) × (step ops e s ≡ some u) × (run ops es u ≡ some t)
  unfolding run
  run-cons ops e es s {t} = go (step ops e s) refl
    where
      go :
          (r : Option (System A S))
          → step ops e s ≡ r
          → elim r [ none ↦ none | some u ↦ run ops es u ] ≡ some t
          → (u : System A S) × (step ops e s ≡ some u) × (run ops es u ≡ some t)
      go none p h = cc
      go (some u) p h = (u, p, h)

  pub run-append :
      (ops : Ops A S) (es fs : List (Event A)) (s u : System A S) {t : System A S}
      → run ops es s ≡ some u
      → run ops fs u ≡ some t
      → run ops (es ++ fs) s ≡ some t
  unfolding run
  run-append ops [] fs s u p q = ground arith
  run-append ops (e ∷ es) fs s u {t} p q =
      let (v, h, r) = run-cons ops e es s p in rw (h, run) (run-append ops es fs v u r q)
