-- ===== src/Spsc/Tests.antt =====
-- A schedule of `SpscBoundedQueue`, and the theorems of `Contract` at it.
use yutil.Common.{
  ◌+◌, ◌-◌, ◌^◌, ◌⊎◌, inl, word, ◌<◌, get_elem?, none, is_empty, ℕ, ◌≡◌, ◌≤◌, refl, true, false,
  none, some, List, [], ◌∷◌, ◌++◌, length, arith,
}
use yutil.Capacity.{grow, normalize_capacity}
use yutil.Fifo.Bounded.{Call, Explained, accepted, delivered}
use yutil.Spsc.Queue.{
  SpscBoundedQueue, Producer, Consumer, Drained, drain, create, slot, is_full, emplace, try_pop,
  size, size_of, empty,
}
use yutil.Spsc.System.{Event, start, step, run}
use yutil.Spsc.Drain.{drain_total}
use yutil.Spsc.Progress.{push_turns, pop_turns, produced, consumed, PushReturns, PopReturns}
use yutil.Spsc.Progress.WaitFree.{wait_free}
use yutil.Spsc.Size.{size_during, size_during_count, size_during_linearizable}
use yutil.Spsc.Contract.{spsc_linearizable, spsc_order}

two_rounded : normalize_capacity 64 1 ≡ some 2
unfolding normalize_capacity grow
two_rounded = refl

-- The producer fills the queue and is refused while the consumer is between the read and the store
-- to `head_`; then it goes on in the slot that the consumer has left.
abbrev session : List (Event ℕ)
session =
    Event.call_pop
    ∷ Event.consume
    ∷ Event.consume
    ∷ Event.call_push 5
    ∷ Event.produce
    ∷ Event.produce
    ∷ Event.produce
    ∷ Event.call_pop
    ∷ Event.consume
    ∷ Event.consume
    ∷ Event.call_push 6
    ∷ Event.produce
    ∷ Event.produce
    ∷ Event.produce
    ∷ Event.consume
    ∷ Event.call_push 7
    ∷ Event.produce
    ∷ Event.produce
    ∷ Event.consume
    ∷ Event.consume
    ∷ Event.call_push 8
    ∷ Event.produce
    ∷ Event.produce
    ∷ Event.produce
    ∷ Event.produce
    ∷ []

abbrev session_log : List (Call ℕ)
session_log =
    Call.try_push 8 true
    ∷ Call.try_pop (some 5)
    ∷ Call.try_push 7 false
    ∷ Call.try_push 6 true
    ∷ Call.try_push 5 true
    ∷ Call.try_pop none
    ∷ []

session-run : (run (λ x. 0) session (start 2)).log ≡ session_log
unfolding run step create slot is_full emplace try_pop
session-run = refl

spsc_linearizable_example :
    let s = run (λ x. 0) session (start 2) in
    (s.crashed ≡ false)
    × (items : List ℕ) × Explained 2 s.log (record { items = items; closed = false })
    × (size s.queue ≡ length items)
spsc_linearizable_example = spsc_linearizable (λ x. 0) 1 2 (omega arith) two_rounded session

spsc_order_example :
    let s = run (λ x. 0) session (start 2) in
    (rest : List ℕ) × (accepted s.log ≡ delivered s.log ++ rest)
    × (size s.queue ≡ length rest)
    × (size s.queue ≤ 2)
    × (empty s.queue ≡ is_empty rest)
spsc_order_example = spsc_order (λ x. 0) 1 2 (omega arith) two_rounded session

producer_idle : (run (λ x. 0) session (start 2)).producer ≡ Producer.idle
unfolding run step create slot is_full emplace try_pop
producer_idle = refl

consumer_idle : (run (λ x. 0) session (start 2)).consumer ≡ Consumer.idle
unfolding run step create slot is_full emplace try_pop
consumer_idle = refl

drain_total_example :
    (q : SpscBoundedQueue ℕ) × (drain 3 (run (λ x. 0) session (start 2)).queue ≡ Drained.done q)
    × ((j : ℕ) → j < 2 → get_elem? q.storage j ≡ some none)
drain_total_example =
    drain_total (λ x. 0) 1 2 (omega arith) two_rounded session 3 (omega arith) producer_idle
      consumer_idle

-- A third thread loads `tail_` of a new queue, an item goes in and out, and then it loads `head_`.
abbrev in_and_out : List (Event ℕ)
in_and_out =
    Event.call_push 5
    ∷ Event.produce
    ∷ Event.produce
    ∷ Event.produce
    ∷ Event.call_pop
    ∷ Event.consume
    ∷ Event.consume
    ∷ Event.consume
    ∷ Event.consume
    ∷ Event.consume
    ∷ []

size_underflow : size_during (λ x. 0) in_and_out (start 2) ≡ 2 ^ 64 - 1
unfolding size_during run step emplace try_pop slot is_full create size_of
size_underflow = refl

size_during_count_example :
    let s = run {A = ℕ} (λ x. 0) [] (start 2) in
    let pushed = length (accepted s.log) in
    let popped = length (delivered (run (λ x. 0) in_and_out s).log) in
    let result = size_during (λ x. 0) in_and_out s in
    ((popped ≤ pushed) × (result + popped ≡ pushed) × (result ≤ 2))
    ⊎ ((pushed < popped) × (result + popped ≡ pushed + word) × (2 < result))
size_during_count_example =
    size_during_count (λ x. 0) 1 2 (omega arith) two_rounded [] in_and_out (omega arith)

-- The producer asks for the size while the consumer takes an item.
abbrev taking : List (Event ℕ)
taking = Event.call_pop ∷ Event.consume ∷ Event.consume ∷ Event.consume ∷ Event.consume ∷ []

size_during_linearizable_example :
    let s = run (λ x. 0) session (start 2) in
    ((size_during (λ x. 0) taking s ≡ size s.queue)
      ⊎ (size_during (λ x. 0) taking s ≡ size (run (λ x. 0) taking s).queue))
    × (size_during (λ x. 0) taking s ≤ 2)
size_during_linearizable_example =
    size_during_linearizable (λ x. 0) 1 2 (omega arith) two_rounded session taking (inl tt)

-- The producer is in a push that the consumer overlaps.
abbrev begun : List (Event ℕ)
begun = Event.call_push 9 ∷ Event.call_pop ∷ []

abbrev overlap : List (Event ℕ)
overlap = Event.consume ∷ Event.produce ∷ Event.consume ∷ Event.produce ∷ taking ++ session

overlap_enough : (4 ≤ produced overlap) × (5 ≤ consumed overlap)
overlap_enough = omega arith

wait_free_example :
    let s = run (λ x. 0) begun (start 2) in
    (push_turns s.producer ≤ 4)
    × (pop_turns s.consumer ≤ 5)
    × (PushReturns (λ x. 0) overlap s ⊎ (produced overlap < push_turns s.producer))
    × (PopReturns (λ x. 0) overlap s ⊎ (consumed overlap < pop_turns s.consumer))
wait_free_example = wait_free (λ x. 0) 1 2 (omega arith) two_rounded begun overlap
