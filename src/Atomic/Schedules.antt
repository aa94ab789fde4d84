-- ===== src/Atomic/Schedules.antt =====
-- Schedules of `BoundedAtomicMpmcQueueV3`, and the theorems of `Contract`, `Refusals`, `Destructor`
-- and `RealTime` at them.
pub mod Calls
use yutil.Common.{
  Bool, ◌*◌, ◌-◌, ap, zero, suc, ℕ, ◌+◌, ◌%◌, ◌^◌, ◌<◌, ◌≤◌, ◌≡◌, ◌⊎◌, refl, true, false, none,
  some, List, [], ◌∷◌, ◌++◌, length, get_elem?, arith,
}
use yutil.Capacity.{grow, normalize_capacity}
use yutil.Atomic.Cells.{Cells, Drained, Place, Reply, is_behind, numbered, slot, write}
use yutil.Atomic.V3
use yutil.Atomic.Class.{Class, construct, emplace, drain_remaining}
use yutil.Atomic.System.{System, Event, start, step, run, take_turn}
use yutil.Atomic.Frame.{count}
use yutil.Atomic.Protocol.{filling, emptying}
use yutil.Atomic.Protocol.Ledger.{AllRecorded, pushed_at, popped_at}
use yutil.Atomic.Drain.{failures}
use yutil.Atomic.Progress.{effort, turns_of, failures_of, claims, Returns}
use yutil.Atomic.Progress.LockFree.{lock_free}
use yutil.Atomic.Construct.{IsNew, construct_lem}
use yutil.Atomic.Alone.{solo}
use yutil.Atomic.Solo.{PushOutcome, solo_push}
use yutil.Atomic.Destructor.{drain_remaining_total}
use yutil.Atomic.RealTime.{claims_follow}
use yutil.Atomic.Bystander.{run-places}
use yutil.Atomic.Contract.{atomic_safe, atomic_fifo, atomic_complete}
use yutil.Atomic.Refusals.{refused_reason, nothing_reason}

pub two_rounded : normalize_capacity 64 2 ≡ some 2
unfolding normalize_capacity grow
two_rounded = refl

-- Thread 0 pushes 5 and thread 1 pushes 6; their turns alternate, so one compare-exchange fails.
abbrev pub fill : List (Event ℕ)
fill =
    Event.call_push 0 5
    ∷ Event.call_push 1 6
    ∷ Event.go 0 false
    ∷ Event.go 1 false
    ∷ Event.go 0 false
    ∷ Event.go 1 false
    ∷ Event.go 0 false
    ∷ Event.go 1 false
    ∷ Event.go 0 false
    ∷ Event.go 1 false
    ∷ Event.go 0 false
    ∷ Event.go 1 false
    ∷ Event.go 0 false
    ∷ Event.go 1 false
    ∷ Event.go 1 false
    ∷ Event.go 1 false
    ∷ []

-- Thread 2 pops the first value.
abbrev pub pop_one : List (Event ℕ)
pop_one =
    Event.call_pop 2
    ∷ Event.go 2 false
    ∷ Event.go 2 false
    ∷ Event.go 2 false
    ∷ Event.go 2 false
    ∷ Event.go 2 false
    ∷ Event.go 2 false
    ∷ []

abbrev pub filled : System ℕ
filled = run Class.v3 (λ x. 0) (fill ++ pop_one) (start Class.v3 2)

filled-log : filled.log ≡ Reply.popped 0 5 ∷ Reply.pushed 1 6 ∷ Reply.pushed 0 5 ∷ []
unfolding run step take_turn V3.create V3.emplace V3.try_pop V3.is_closed V3.backoff numbered slot
    write is_behind
filled-log = refl

filled_idle : (i : ℕ) → filled.places i ≡ Place.idle
unfolding run step take_turn V3.create V3.emplace V3.try_pop V3.is_closed V3.backoff numbered slot
    write is_behind
filled_idle zero = refl
filled_idle (suc zero) = refl
filled_idle (suc (suc zero)) = refl
filled_idle (suc (suc (suc i))) =
    run-places Class.v3 (λ x. 0) (suc (suc (suc i))) (fill ++ pop_one) (start Class.v3 2)
      (ground arith)

pub filled_calm : (i : ℕ) → (filling (filled.places i) ≡ none) × (emptying (filled.places i) ≡ none)
filled_calm i = (ap filling (filled_idle i), ap emptying (filled_idle i))

atomic_safe_example :
    (filled.crashed ≡ false)
    × (filled.queue.dequeue_pos ≤ filled.queue.enqueue_pos)
    × (filled.queue.enqueue_pos ≤ filled.queue.dequeue_pos + 2)
atomic_safe_example =
    atomic_safe Class.v3 (λ x. 0) 2 2 (omega arith) two_rounded (fill ++ pop_one) (omega arith)

atomic_fifo_example :
    (pushes : List ℕ) × (length pushes ≡ filled.queue.enqueue_pos)
    × AllRecorded filled.queue.enqueue_pos filled.queue.dequeue_pos pushes filled.log
    × ((p : ℕ) → (count (pushed_at p) filled.log ≤ 1) × (count (popped_at p) filled.log ≤ 1))
atomic_fifo_example =
    atomic_fifo Class.v3 (λ x. 0) 2 2 (omega arith) two_rounded (fill ++ pop_one) (omega arith)

atomic_complete_example :
    (pushes : List ℕ) × (length pushes ≡ filled.queue.enqueue_pos)
    × AllRecorded filled.queue.enqueue_pos filled.queue.dequeue_pos pushes filled.log
    × ((p : ℕ) → p < filled.queue.enqueue_pos → count (pushed_at p) filled.log ≡ 1)
    × ((p : ℕ) → p < filled.queue.dequeue_pos → count (popped_at p) filled.log ≡ 1)
    × ((p : ℕ)
        → filled.queue.dequeue_pos ≤ p
        → p < filled.queue.enqueue_pos
        → get_elem? filled.queue.cells (p % 2)
          ≡ some (record { sequence = p + 1; storage = get_elem? pushes p }))
    × ((p : ℕ)
        → filled.queue.enqueue_pos ≤ p
        → p < filled.queue.dequeue_pos + 2
        → get_elem? filled.queue.cells (p % 2) ≡ some (record { sequence = p; storage = none }))
atomic_complete_example =
    atomic_complete Class.v3 (λ x. 0) 2 2 (omega arith) two_rounded (fill ++ pop_one) (omega arith)
      filled_calm

-- Thread 0 comes with a third value while the pop has not given its cell back, and looks at it.
abbrev crowd : List (Event ℕ)
crowd =
    fill
    ++ (Event.call_pop 2
        ∷ Event.go 2 false
        ∷ Event.go 2 false
        ∷ Event.go 2 false
        ∷ Event.call_push 0 7
        ∷ Event.go 0 false
        ∷ Event.go 0 false
        ∷ [])

abbrev crowded : System ℕ
crowded = run Class.v3 (λ x. 0) crowd (start Class.v3 2)

crowded-refused :
    (step Class.v3 (λ x. 0) (Event.go 0 false) crowded).log ≡ Reply.refused 7 ∷ crowded.log
unfolding run step take_turn V3.create V3.emplace V3.try_pop V3.is_closed V3.backoff numbered slot
    write is_behind
crowded-refused = refl

refused_reason_example :
    (crowded.queue.closed ≡ true)
    ⊎ (crowded.queue.enqueue_pos ≡ crowded.queue.dequeue_pos + 2)
    ⊎ ((j pos : ℕ) × (emptying (crowded.places j) ≡ some pos)
        × (pos + 2 ≡ crowded.queue.enqueue_pos))
refused_reason_example =
    refused_reason Class.v3 (λ x. 0) 2 2 (omega arith) two_rounded crowd (omega arith) 0 false 7
      crowded-refused

-- Thread 2 comes before any value is published.
abbrev early : List (Event ℕ)
early =
    Event.call_push 0 5
    ∷ Event.go 0 false
    ∷ Event.go 0 false
    ∷ Event.go 0 false
    ∷ Event.go 0 false
    ∷ Event.call_pop 2
    ∷ Event.go 2 false
    ∷ []

abbrev unpublished : System ℕ
unpublished = run Class.v3 (λ x. 0) early (start Class.v3 2)

unpublished-nothing :
    (step Class.v3 (λ x. 0) (Event.go 2 false) unpublished).log ≡ Reply.nothing ∷ unpublished.log
unfolding run step take_turn V3.create V3.emplace V3.try_pop V3.is_closed V3.backoff numbered slot
    write is_behind
unpublished-nothing = refl

nothing_reason_example :
    (unpublished.queue.enqueue_pos ≡ unpublished.queue.dequeue_pos)
    ⊎ ((j : ℕ) × (filling (unpublished.places j) ≡ some unpublished.queue.dequeue_pos))
nothing_reason_example =
    nothing_reason Class.v3 (λ x. 0) 2 2 (omega arith) two_rounded early (omega arith) 2 false
      unpublished-nothing

-- The first compare-exchange of the destructor fails for no reason.
abbrev failures_once : List Bool
failures_once = false ∷ false ∷ true ∷ false ∷ false ∷ false ∷ false ∷ false ∷ false ∷ false ∷ []

filled_enough :
    6 * (filled.queue.enqueue_pos - filled.queue.dequeue_pos) + 2 + 2 * failures failures_once
    ≤ length failures_once
unfolding run step take_turn V3.create V3.emplace V3.try_pop V3.is_closed V3.backoff numbered slot
    write is_behind
filled_enough = omega arith

drain_remaining_total_example :
    (q : Cells ℕ) × (drain_remaining Class.v3 (λ x. 0) failures_once filled.queue Place.pop_called
      ≡ Drained.done q)
    × (q.dequeue_pos ≡ q.enqueue_pos)
    × ((j : ℕ)
        → j < 2
        → (seq : ℕ) × (get_elem? q.cells j ≡ some (record { sequence = seq; storage = none })))
drain_remaining_total_example =
    drain_remaining_total Class.v3 (λ x. 0) 2 2 (omega arith) two_rounded (fill ++ pop_one)
      (omega arith) filled_idle failures_once filled_enough

thread_2_idle : (run Class.v3 (λ x. 0) fill (start Class.v3 2)).places 2 ≡ Place.idle
thread_2_idle = run-places Class.v3 (λ x. 0) 2 fill (start Class.v3 2) (ground arith)

claims_follow_example :
    let s = run Class.v3 (λ x. 0) fill (start Class.v3 2) in
    let t = run Class.v3 (λ x. 0) pop_one s in
    ((p : ℕ) → filling (t.places 2) ≡ some p → s.queue.enqueue_pos ≤ p)
    × ((p : ℕ) → emptying (t.places 2) ≡ some p → s.queue.dequeue_pos ≤ p)
claims_follow_example =
    claims_follow Class.v3 (λ x. 0) 2 2 (omega arith) two_rounded fill pop_one (omega arith) 2
      (ap filling thread_2_idle) (ap emptying thread_2_idle)
