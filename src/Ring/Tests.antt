-- ===== src/Ring/Tests.antt =====
-- Schedules of the ring classes, and the theorems of `Contract` and `Lost` at them.
use yutil.Common.{ℕ, ◌≤◌, ◌≡◌, ◌⊎◌, refl, true, false, some, List, [], ◌∷◌, ◌++◌, length, arith}
use yutil.Fifo.Bounded.{Call, Explained, accepted, delivered}
use yutil.Ring.Storage.{create, put, take}
use yutil.Ring.System.{System, Event, run, start, step}
use yutil.Ring.Class.{Valid, v2, v3, State, view, ops}
use yutil.Ring.V2
use yutil.Ring.V3
use yutil.Ring.System.Single.{OnePair}
use yutil.Ring.Ops.{Ops}
use yutil.Ring.Contract.{
  ring_linearizable, ring_order, ring_close_wakes, ring_no_lost_wakeup, ring_no_lost_wakeup_of_one,
}
use yutil.Ring.RoundTrip.{push_close_pop, ring_pushed_are_popped}
use yutil.Ring.V3.{RingMutexMpmcQueueV3}
use yutil.Ring.Lost
use yutil.Ring.Lost.{try_pop_schedule, IsQuiet, try_pop_lost_wakeup, burst_lost_wakeup}

abbrev v2_ops : Ops ℕ (State v2 ℕ)
v2_ops = ops v2 (λ x. 0) 0 2

-- Two pushes fill V2 at capacity 2, a third waits; a pop makes room and wakes it, its item goes
-- round the end of the vector; the queue is closed.
abbrev session : List (Event ℕ)
session =
    Event.push 1
    ∷ Event.deliver 0 0
    ∷ Event.push 2
    ∷ Event.deliver 0 0
    ∷ Event.push 3
    ∷ Event.wait_pop
    ∷ Event.deliver 0 0
    ∷ Event.resume_push 0
    ∷ Event.deliver 0 0
    ∷ Event.close
    ∷ Event.deliver 0 0
    ∷ Event.deliver 0 0
    ∷ Event.try_push 4
    ∷ []

abbrev after_session : System ℕ (State v2 ℕ)
after_session = record {
  queue = record {
    storage = record { capacity = 2; buffer = 3 ∷ 2 ∷ []; head = 1; tail = 1; size = 2 };
    closed = true;
  };
  idle = 2;
  consumers = 0;
  consumers_woken = 0;
  producers = [];
  producers_woken = [];
  pending = [];
  crashed = false;
  log =
      Call.try_push 4 false
      ∷ Call.close
      ∷ Call.push 3 true
      ∷ Call.wait_pop (some 1)
      ∷ Call.push 2 true
      ∷ Call.push 1 true
      ∷ [];
}

session-run : run v2_ops session (start v2_ops 2) ≡ some after_session
unfolding run step V2.ops create put take
session-run = refl

abbrev waits : List (Event ℕ)
waits = Event.push 1 ∷ Event.deliver 0 0 ∷ Event.wait_pop ∷ Event.deliver 0 0 ∷ Event.wait_pop ∷ []

abbrev after_waits : System ℕ (State v2 ℕ)
after_waits = record {
  queue = record {
    storage = record { capacity = 2; buffer = 0 ∷ 0 ∷ []; head = 1; tail = 1; size = 0 };
    closed = false;
  };
  idle = 1;
  consumers = 1;
  consumers_woken = 0;
  producers = [];
  producers_woken = [];
  pending = [];
  crashed = false;
  log = Call.wait_pop (some 1) ∷ Call.push 1 true ∷ [];
}

waits-run : run v2_ops waits (start v2_ops 2) ≡ some after_waits
unfolding run step V2.ops create put take
waits-run = refl

ring_linearizable_example :
    (after_session.crashed ≡ false)
    × Explained 2 after_session.log (record { items = 2 ∷ 3 ∷ []; closed = true })
ring_linearizable_example = ring_linearizable v2 (λ x. 0) 0 2 (omega arith) 2 session session-run

ring_order_example :
    (accepted after_session.log ≡ delivered after_session.log ++ (2 ∷ 3 ∷ []))
    × (length (view v2 after_session.queue).items ≤ 2)
ring_order_example = ring_order v2 (λ x. 0) 0 2 (omega arith) 2 session session-run

ring_close_wakes_example : (after_session.consumers ≡ 0) × (length after_session.producers ≡ 0)
ring_close_wakes_example =
    ring_close_wakes v2 (λ x. 0) 0 2 (omega arith) 2 session session-run refl refl

ring_no_lost_wakeup_example :
    ((after_waits.consumers ≡ 0) ⊎ (length (view v2 after_waits.queue).items ≡ 0))
    × ((length after_waits.producers ≡ 0) ⊎ (length (view v2 after_waits.queue).items ≡ 2))
ring_no_lost_wakeup_example =
    ring_no_lost_wakeup v2 (λ x. 0) 0 2 (omega arith) 2 waits waits-run refl
      (refl, (refl, (refl, (refl, (refl, tt))))) refl refl refl

try_pop_lost_wakeup_example :
    (t : System ℕ (State v3 ℕ)) × (run
        (ops v3 (λ x. 0) 0 1)
        (try_pop_schedule 5 6 v3)
        (start (ops v3 (λ x. 0) 0 1) 2)
      ≡ some t)
    × (length (view v3 t.queue).items ≡ 0)
    × (t.producers ≡ 6 ∷ [])
    × IsQuiet t
try_pop_lost_wakeup_example = try_pop_lost_wakeup (λ x. 0) 0 5 6 v3 2 (omega arith)

burst_lost_wakeup_example :
    (t : System ℕ (State v3 ℕ)) × (run
        (ops v3 (λ x. 0) 0 2)
        (Lost.burst 5 6 v3)
        (start (ops v3 (λ x. 0) 0 2) 3)
      ≡ some t)
    × ((view v3 t.queue).items ≡ 6 ∷ [])
    × (t.consumers ≡ 1)
    × IsQuiet t
burst_lost_wakeup_example = burst_lost_wakeup (λ x. 0) 0 5 6 v3 3 refl (omega arith)

-- The next item goes to the start of the vector.
abbrev one_inside : RingMutexMpmcQueueV3 ℕ
one_inside = record {
  storage = record { capacity = 2; buffer = 9 ∷ 7 ∷ []; head = 1; tail = 0; size = 1 };
  waiting_consumers = 0;
  waiting_producers = 0;
  closed = false;
}

one_inside-Valid : Valid ℕ v3 2 one_inside
one_inside-Valid = (
  record {
    positive = omega arith;
    small = omega arith;
    filled = refl;
    head_in = omega arith;
    size_in = omega arith;
    tail_at = refl;
  },
  refl,
)

ring_pushed_are_popped_example :
    (end : RingMutexMpmcQueueV3 ℕ) × (push_close_pop (ops v3 (λ x. 0) 0 2) 3 (8 ∷ []) one_inside
      ≡ some (7 ∷ 8 ∷ [], end))
    × (view v3 end ≡ record { items = []; closed = true })
ring_pushed_are_popped_example =
    ring_pushed_are_popped (λ x. 0) 0 2 (omega arith) v3 one_inside one_inside-Valid (8 ∷ []) 3 refl
      (omega arith) (omega arith)

-- V3 at capacity 1: a second push waits, the pop of the first item wakes it, and the consumer takes
-- its item and sleeps.
abbrev pair : List (Event ℕ)
pair =
    Event.push 1
    ∷ Event.push 2
    ∷ Event.wait_pop
    ∷ Event.deliver 0 0
    ∷ Event.resume_push 0
    ∷ Event.wait_pop
    ∷ Event.wait_pop
    ∷ []

abbrev v3_ops : Ops ℕ (State v3 ℕ)
v3_ops = ops v3 (λ x. 0) 0 1

abbrev after_pair : System ℕ (State v3 ℕ)
after_pair = record {
  queue = record {
    storage = record { capacity = 1; buffer = 0 ∷ []; head = 0; tail = 0; size = 0 };
    waiting_consumers = 1;
    waiting_producers = 0;
    closed = false;
  };
  idle = 1;
  consumers = 1;
  consumers_woken = 0;
  producers = [];
  producers_woken = [];
  pending = [];
  crashed = false;
  log = Call.wait_pop (some 2) ∷ Call.push 2 true ∷ Call.wait_pop (some 1) ∷ Call.push 1 true ∷ [];
}

pair-run : run v3_ops pair (start v3_ops 2) ≡ some after_pair
unfolding run step V3.ops create put take
pair-run = refl

pair-OnePair : OnePair v3_ops pair (start v3_ops 2)
unfolding step V3.ops create put take
pair-OnePair = (refl, (refl, (refl, (tt, (tt, (refl, (refl, tt)))))))

ring_no_lost_wakeup_of_one_example :
    ((after_pair.consumers ≡ 0) ⊎ (length (view v3 after_pair.queue).items ≡ 0))
    × ((length after_pair.producers ≡ 0) ⊎ (length (view v3 after_pair.queue).items ≡ 1))
ring_no_lost_wakeup_of_one_example =
    ring_no_lost_wakeup_of_one v3 (λ x. 0) 0 1 (omega arith) 2 pair pair-run pair-OnePair refl
