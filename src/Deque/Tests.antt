-- ===== src/Deque/Tests.antt =====
-- Schedules of the unbounded queues, and the theorems of `Contract` and `Lost` at them.
use yutil.Common.{ℕ, ◌≡◌, refl, true, false, some, List, [], ◌∷◌, ◌++◌, length, arith}
use yutil.Fifo.{Call, Explained, accepted, delivered}
use yutil.Deque.System.{System, Event, run, start, step}
use yutil.Deque.System.Single.{OneConsumer}
use yutil.Deque.Class.{mpmc_v2, mpmc_v3, State, view, ops}
use yutil.Deque.MpmcV2
use yutil.Deque.MpmcV3
use yutil.Deque.Blocking
use yutil.Deque.Blocking.{MutexBlockingQueue}
use yutil.Deque.Contract.{
  linearizable, fifo_order, close_wakes, no_lost_wakeup, no_lost_wakeup_of_one,
}
use yutil.Deque.RoundTrip.{push_all, pop_loop, pushed_are_popped}
use yutil.Deque.MpmcV3.{MutexDequeMpmcQueueV3}
use yutil.Deque.Lost.{burst, lost_wakeup, IsStuck}

-- A consumer of `MutexDequeMpmcQueueV3` sleeps, two pushes wake it, it takes 7; the queue is closed
-- and the second item is taken.
abbrev session : List (Event ℕ)
session =
    Event.wait_pop
    ∷ Event.push 7
    ∷ Event.notify_one
    ∷ Event.push 8
    ∷ Event.notify_one
    ∷ Event.resume
    ∷ Event.close
    ∷ Event.notify_all
    ∷ Event.push 9
    ∷ Event.try_pop
    ∷ []

abbrev after_session : System ℕ (State mpmc_v3 ℕ)
after_session = record {
  queue = record { queue = []; waiting_consumers = 0; closed = true };
  idle = 2;
  sleeping = 0;
  woken = 0;
  notifying = 0;
  closing = 0;
  log =
      Call.try_pop (some 8)
      ∷ Call.push 9 false
      ∷ Call.close
      ∷ Call.wait_pop (some 7)
      ∷ Call.push 8 true
      ∷ Call.push 7 true
      ∷ [];
}

session-run : run (ops mpmc_v3) session (start (ops mpmc_v3) 2) ≡ some after_session
unfolding run step MpmcV3.ops
session-run = refl

-- Two consumers asleep, nothing pushed.
abbrev waits : List (Event ℕ)
waits = Event.wait_pop ∷ Event.wait_pop ∷ Event.push 5 ∷ Event.notify_one ∷ Event.resume ∷ []

abbrev after_waits : System ℕ (State mpmc_v3 ℕ)
after_waits = record {
  queue = record { queue = []; waiting_consumers = 1; closed = false };
  idle = 2;
  sleeping = 1;
  woken = 0;
  notifying = 0;
  closing = 0;
  log = Call.wait_pop (some 5) ∷ Call.push 5 true ∷ [];
}

waits-run : run (ops mpmc_v3) waits (start (ops mpmc_v3) 3) ≡ some after_waits
unfolding run step MpmcV3.ops
waits-run = refl

-- The one consumer of `MutexDequeMpmcQueueV2` takes an item and sleeps.
abbrev single : List (Event ℕ)
single = Event.push 5 ∷ Event.notify_one ∷ Event.wait_pop ∷ Event.wait_pop ∷ []

abbrev after_single : System ℕ (State mpmc_v2 ℕ)
after_single = record {
  queue = record { queue = []; closed = false };
  idle = 1;
  sleeping = 1;
  woken = 0;
  notifying = 0;
  closing = 0;
  log = Call.wait_pop (some 5) ∷ Call.push 5 true ∷ [];
}

single-run : run (ops mpmc_v2) single (start (ops mpmc_v2) 2) ≡ some after_single
unfolding run step MpmcV2.ops
single-run = refl

single-OneConsumer : OneConsumer (ops mpmc_v2) single (start (ops mpmc_v2) 2)
unfolding step MpmcV2.ops
single-OneConsumer = (tt, λ t p. (tt, λ u q. (ground arith, λ v r. (ground arith, λ w k. tt))))

linearizable_example : Explained after_session.log (view mpmc_v3 after_session.queue)
linearizable_example = linearizable mpmc_v3 2 session session-run

fifo_order_example : accepted after_session.log ≡ delivered after_session.log ++ []
fifo_order_example = fifo_order mpmc_v3 2 session session-run

close_wakes_example : after_session.sleeping ≡ 0
close_wakes_example = close_wakes mpmc_v3 2 session session-run refl refl

no_lost_wakeup_example : length (view mpmc_v3 after_waits.queue).items ≡ 0
no_lost_wakeup_example =
    no_lost_wakeup mpmc_v3 3 waits waits-run refl (omega arith) refl (omega arith)

no_lost_wakeup_of_one_example : length (view mpmc_v2 after_single.queue).items ≡ 0
no_lost_wakeup_of_one_example =
    no_lost_wakeup_of_one mpmc_v2 2 single single-run (omega arith) single-OneConsumer refl
      (omega arith)

lost_wakeup_example :
    (t : System ℕ (State mpmc_v2 ℕ)) × (run (ops mpmc_v2) (burst 4 5) (start (ops mpmc_v2) 3)
      ≡ some t)
    × IsStuck 4 5 mpmc_v2 t
lost_wakeup_example = lost_wakeup 4 5 mpmc_v2 3 refl (omega arith)

-- The overload of `wait_pop` that returns an optional ends as the other does.
wait_pop_optional_lem :
    (s : MutexBlockingQueue ℕ) → Blocking.wait_pop_optional s ≡ Blocking.wait_pop s
unfolding Blocking.wait_pop_optional Blocking.wait_pop
wait_pop_optional_lem s = ground arith

-- What its accessors show after a push and a `close`.
accessors :
    let s = Blocking.close (Blocking.push {A = ℕ} 3 Blocking.initial).next in
    (Blocking.size s ≡ 1) × (Blocking.is_closed s ≡ true)
unfolding Blocking.size Blocking.is_closed Blocking.push Blocking.close
accessors = (refl, refl)

abbrev one_inside : MutexDequeMpmcQueueV3 ℕ
one_inside = record { queue = 4 ∷ []; waiting_consumers = 0; closed = false }

pushed_are_popped_example :
    (end : MutexDequeMpmcQueueV3 ℕ) × (pop_loop
        (ops mpmc_v3)
        4
        ((ops mpmc_v3).close (push_all (ops mpmc_v3) (5 ∷ 6 ∷ []) one_inside))
      ≡ some (4 ∷ 5 ∷ 6 ∷ [], end))
    × (view mpmc_v3 end ≡ record { items = []; closed = true })
pushed_are_popped_example = pushed_are_popped mpmc_v3 one_inside (5 ∷ 6 ∷ []) 4 refl (omega arith)
