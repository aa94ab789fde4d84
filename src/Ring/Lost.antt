-- ===== src/Ring/Lost.antt =====
-- The wakeups that the ring classes lose.
use yutil.Common.{ℕ, ◌-◌, ◌≤◌, ◌≡◌, refl, false, true, some, List, [], ◌∷◌, length, arith}
use yutil.Fifo.Bounded.{Call}
use yutil.Ring.Storage.{Storage, create, put, take}
use yutil.Ring.Ops.{one_consumer}
use yutil.Ring.System.{System, Event, run, start, step, run-append}
use yutil.Ring.Class.{Class, v1, v2, v3, State, view, ops, try_push_signals}
use yutil.Ring.V1
use yutil.Ring.V2
use yutil.Ring.V3

-- Nothing is on its way: no thread is woken or about to signal.
abbrev pub IsQuiet : {A S : Type 0} → System A S → Type 0
IsQuiet t =
    (t.consumers_woken ≡ 0)
    × (length t.producers_woken ≡ 0)
    × (length t.pending ≡ 0)
    × (t.crashed ≡ false)

module _ {A : Type 0} (x y : A) where
  -- A push fills the ring of capacity 1, a second one goes to sleep, and `try_pop` makes room.
  abbrev pub try_pop_schedule : Class → List (Event A)
  try_pop_schedule v3 = Event.push x ∷ Event.push y ∷ Event.try_pop ∷ []
  try_pop_schedule _ = Event.push x ∷ Event.deliver 0 0 ∷ Event.push y ∷ Event.try_pop ∷ []

  -- Two consumers go to sleep, `x` is pushed and wakes one of them, `y` is pushed before that one
  -- has the mutex, and it takes `x`. In V2 the pushes are `try_push`.
  abbrev pub burst : Class → List (Event A)
  burst v3 =
      Event.wait_pop
      ∷ Event.wait_pop
      ∷ Event.push x
      ∷ Event.deliver 0 0
      ∷ Event.push y
      ∷ Event.resume_pop
      ∷ []
  burst _ =
      Event.wait_pop
      ∷ Event.wait_pop
      ∷ Event.try_push x
      ∷ Event.try_push y
      ∷ Event.resume_pop
      ∷ Event.deliver 0 0
      ∷ []

module _ {A : Type 0} (moved : A → A) (default x y : A) where
  emptied : Storage A
  emptied = record { capacity = 1; buffer = moved x ∷ []; head = 0; tail = 0; size = 0 }

  asleep : {S : Type 0} → S → ℕ → System A S
  asleep q n = record {
    queue = q;
    idle = n - 1;
    consumers = 0;
    consumers_woken = 0;
    producers = y ∷ [];
    producers_woken = [];
    pending = [];
    crashed = false;
    log = Call.try_pop (some x) ∷ Call.push x true ∷ [];
  }

  -- In each ring class, with a capacity of 1 and two threads or more: after a push, a push that
  -- waits and a `try_pop`, the ring is empty, the producer sleeps, and nothing will wake it.
  pub try_pop_lost_wakeup :
      (c : Class) (n : ℕ)
      → 2 ≤ n
      → (t : System A (State c A)) × (run
            (ops c moved default 1)
            (try_pop_schedule x y c)
            (start (ops c moved default 1) n)
          ≡ some t)
        × (length (view c t.queue).items ≡ 0)
        × (t.producers ≡ y ∷ [])
        × IsQuiet t
  unfolding run step V1.ops V2.ops V3.ops asleep emptied create put take
  try_pop_lost_wakeup v1 n h = (
    asleep (record { storage = emptied; closed = false }) n,
    ground arith,
    refl,
    refl,
    (refl, refl, refl, refl),
  )
  try_pop_lost_wakeup v2 n h = (
    asleep (record { storage = emptied; closed = false }) n,
    ground arith,
    refl,
    refl,
    (refl, refl, refl, refl),
  )
  try_pop_lost_wakeup v3 n h = (
    asleep
        (record { storage = emptied; waiting_consumers = 0; waiting_producers = 1; closed = false })
        n,
    ground arith,
    refl,
    refl,
    (refl, refl, refl, refl),
  )

  left_over : Storage A
  left_over = record { capacity = 2; buffer = moved x ∷ y ∷ []; head = 1; tail = 0; size = 1 }

  starving : {S : Type 0} → S → ℕ → List (Call A) → System A S
  starving q n log = record {
    queue = q;
    idle = n - 1;
    consumers = 1;
    consumers_woken = 0;
    producers = [];
    producers_woken = [];
    pending = [];
    crashed = false;
    log = log;
  }

  -- V3 in the middle of the burst: two sleep and `x` is in the ring.
  halfway : ℕ → System A (State v3 A)
  halfway n = record {
    queue = record {
      storage = record { capacity = 2; buffer = x ∷ default ∷ []; head = 0; tail = 1; size = 1 };
      waiting_consumers = 2;
      waiting_producers = 0;
      closed = false;
    };
    idle = n - 1 - 1 - 1;
    consumers = 2;
    consumers_woken = 0;
    producers = [];
    producers_woken = [];
    pending = one_consumer ∷ [];
    crashed = false;
    log = Call.push x true ∷ [];
  }

  v3_first_half :
      (n : ℕ)
      → 3 ≤ n
      → run
          (V3.ops moved default 2)
          (Event.wait_pop ∷ Event.wait_pop ∷ Event.push x ∷ [])
          (start (V3.ops moved default 2) n)
        ≡ some (halfway n)
  unfolding run step V3.ops halfway create put
  v3_first_half n h = ground arith

  after_v3 : ℕ → System A (State v3 A)
  unfolding starving left_over
  after_v3 n =
      starving
        (record {
          storage = left_over;
          waiting_consumers = 1;
          waiting_producers = 0;
          closed = false;
        })
        n (Call.wait_pop (some x) ∷ Call.push y true ∷ Call.push x true ∷ [])

  v3_second_half :
      (n : ℕ)
      → 3 ≤ n
      → run
          (V3.ops moved default 2)
          (Event.deliver 0 0 ∷ Event.push y ∷ Event.resume_pop ∷ [])
          (halfway n)
        ≡ some (after_v3 n)
  unfolding run step V3.ops halfway after_v3 put take
  v3_second_half n h = ground arith

  -- In V2 with `try_push` and in V3 with `push`, with a capacity of 2 and three threads or more:
  -- after two waits and a burst of two pushes the second value is in the ring, a consumer sleeps,
  -- and nothing will wake it.
  pub burst_lost_wakeup :
      (c : Class) (n : ℕ)
      → try_push_signals c ≡ false
      → 3 ≤ n
      → (t : System A (State c A)) × (run
            (ops c moved default 2)
            (burst x y c)
            (start (ops c moved default 2) n)
          ≡ some t)
        × ((view c t.queue).items ≡ y ∷ [])
        × (t.consumers ≡ 1)
        × IsQuiet t
  unfolding run step V1.ops V2.ops V3.ops starving left_over after_v3 create put take
  burst_lost_wakeup v1 n h k = cc
  burst_lost_wakeup v2 n h k = (
    starving (record { storage = left_over; closed = false }) n
        (Call.wait_pop (some x) ∷ Call.try_push y true ∷ Call.try_push x true ∷ []),
    ground arith,
    refl,
    refl,
    (refl, refl, refl, refl),
  )
  burst_lost_wakeup v3 n h h2 = (
    after_v3 n,
    run-append (V3.ops moved default 2) (Event.wait_pop ∷ Event.wait_pop ∷ Event.push x ∷ [])
        (Event.deliver 0 0 ∷ Event.push y ∷ Event.resume_pop ∷ [])
        (start (V3.ops moved default 2) n) (halfway n) (v3_first_half n h2) (v3_second_half n h2),
    refl,
    refl,
    (refl, refl, refl, refl),
  )
