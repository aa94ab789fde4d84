-- ===== src/Atomic/Schedules/Calls.antt =====
-- Calls alone, a call that others slow down, and a constructor: the theorems of `Solo`, `Sequential`,
-- `Progress`, `Stalled` and `Construct` at an input.
use yutil.Common.{
  Bool, ◌*◌, ℕ, ◌+◌, ◌^◌, ◌<◌, ◌≤◌, ◌≡◌, ◌⊎◌, refl, true, false, none, some, List, [], ◌∷◌, ◌++◌,
  arith,
}
use yutil.Atomic.Cells.{Reply, Cells, Place, is_behind, numbered, slot, write}
use yutil.Atomic.V3
use yutil.Atomic.Class.{Class, construct, emplace}
use yutil.Atomic.System.{Event, start, step, run, take_turn}
use yutil.Atomic.Progress.{effort, turns_of, failures_of, claims, Returns}
use yutil.Atomic.Progress.LockFree.{lock_free}
use yutil.Atomic.Stalled.{stalled}
use yutil.Atomic.Bystander.{IsAbsent}
use yutil.Atomic.Frame.{count}
use yutil.Atomic.Protocol.{filling, emptying}
use yutil.Atomic.Protocol.Ledger.{pushed_at, popped_at}
use yutil.Atomic.System.{System}
use yutil.Atomic.Construct.{IsNew, construct_lem}
use yutil.Atomic.Alone.{attempt}
use yutil.Atomic.Solo.{PushOutcome, solo_push}
use yutil.Atomic.Sequential.{Request, Answer, contents, calls, serve_all}
use yutil.Atomic.Sequential.Run.{sequential}
use yutil.Atomic.Schedules.{two_rounded, fill, pop_one, filled, filled_calm}

-- The compare-exchange fails once for no reason, and the call takes eight turns.
abbrev one_failure : List Bool
one_failure = false ∷ false ∷ false ∷ true ∷ false ∷ false ∷ false ∷ false ∷ []

solo_push_example :
    PushOutcome 2 filled.queue 7
      (attempt (emplace Class.v3) one_failure filled.queue (Place.push_called 7))
solo_push_example =
    solo_push Class.v3 (λ x. 0) 2 2 (omega arith) two_rounded (fill ++ pop_one) (omega arith) 7
      one_failure (omega arith) filled_calm

-- On the queue with one item and room for two: two pushes, one of which finds it full, three pops,
-- the last of which finds it empty, `close` twice, and a push that is refused.
abbrev requests : List (Request ℕ)
requests =
    Request.call_push 7
    ∷ Request.call_push 8
    ∷ Request.call_pop
    ∷ Request.call_pop
    ∷ Request.call_pop
    ∷ Request.call_close
    ∷ Request.call_close
    ∷ Request.call_push 9
    ∷ []

filled-contents : contents filled.queue ≡ record { items = 6 ∷ []; closed = false }
unfolding run step take_turn V3.create V3.emplace V3.try_pop V3.is_closed V3.backoff numbered slot
    write is_behind
filled-contents = refl

requests-answers :
    (serve_all 2 requests (record { items = 6 ∷ []; closed = false })).0
    ≡ Answer.pushed true
      ∷ Answer.pushed false
      ∷ Answer.popped (some 6)
      ∷ Answer.popped (some 7)
      ∷ Answer.popped none
      ∷ Answer.closed true
      ∷ Answer.closed false
      ∷ Answer.pushed false
      ∷ []
requests-answers = refl

sequential_example :
    (q' : Cells ℕ) × (calls Class.v3 (λ x. 0) (λ i. one_failure) requests filled.queue
      ≡ some ((serve_all 2 requests (contents filled.queue)).0, q'))
    × (contents q' ≡ (serve_all 2 requests (contents filled.queue)).1)
sequential_example =
    sequential Class.v3 (λ x. 0) 2 2 (omega arith) two_rounded (fill ++ pop_one) requests
      (omega arith) (λ i. one_failure) (λ i l. omega arith) filled_calm

-- Threads 0 and 1 begin a push; then thread 1 claims the position for which thread 0 tries, and
-- thread 0 goes round its loop once.
abbrev both : List (Event ℕ)
both = Event.call_push 0 5 ∷ Event.call_push 1 6 ∷ []

abbrev contended : List (Event ℕ)
contended =
    Event.go 0 false
    ∷ Event.go 0 false
    ∷ Event.go 0 false
    ∷ Event.go 1 false
    ∷ Event.go 1 false
    ∷ Event.go 1 false
    ∷ Event.go 1 false
    ∷ Event.go 0 false
    ∷ Event.go 0 false
    ∷ Event.go 0 false
    ∷ Event.go 0 false
    ∷ Event.go 0 false
    ∷ Event.go 0 false
    ∷ Event.go 0 false
    ∷ Event.go 0 false
    ∷ []

contended_enough :
    let s = run {A = ℕ} Class.v3 (λ x. 0) both (start Class.v3 2) in
    effort s.queue (s.places 0)
      + 2 * failures_of 0 contended
      + 2 * claims s (run Class.v3 (λ x. 0) contended s)
    < turns_of 0 contended
unfolding run step take_turn V3.create V3.emplace V3.try_pop V3.is_closed V3.backoff numbered slot
    write is_behind
contended_enough = omega arith

lock_free_example :
    Returns Class.v3 (λ x. 0) 0 contended (run Class.v3 (λ x. 0) both (start Class.v3 2))
lock_free_example =
    lock_free Class.v3 (λ x. 0) 2 2 (omega arith) two_rounded both contended (omega arith) 0
      contended_enough

construct_lem_example :
    ((5 ≤ 2 ^ 63) × (q : Cells ℕ) × (construct Class.v2 64 5 ≡ some q) × IsNew 5 q)
    ⊎ ((2 ^ 63 < 5) × (construct {A = ℕ} Class.v2 64 5 ≡ none))
construct_lem_example = construct_lem Class.v2 64 5 (omega arith)

-- Thread 0 claims position 0 for its push and stops; then thread 1 pushes 6 and pops.
abbrev claimed : List (Event ℕ)
claimed =
    Event.call_push 0 5
    ∷ Event.go 0 false
    ∷ Event.go 0 false
    ∷ Event.go 0 false
    ∷ Event.go 0 false
    ∷ []

abbrev push_and_pop : List (Event ℕ)
push_and_pop =
    Event.call_push 1 6
    ∷ Event.go 1 false
    ∷ Event.go 1 false
    ∷ Event.go 1 false
    ∷ Event.go 1 false
    ∷ Event.go 1 false
    ∷ Event.go 1 false
    ∷ Event.call_pop 1
    ∷ Event.go 1 false
    ∷ Event.go 1 false
    ∷ []

abbrev stopped : System ℕ
stopped = run Class.v3 (λ x. 0) claimed (start Class.v3 2)

abbrev passed_by : System ℕ
passed_by = run Class.v3 (λ x. 0) push_and_pop stopped

stopped-filling : filling (stopped.places 0) ≡ some 0
unfolding run step take_turn V3.create V3.emplace V3.try_pop V3.is_closed V3.backoff numbered slot
    write is_behind
stopped-filling = refl

-- The pop finds nothing although the push of its own thread has returned.
passed_by-log : passed_by.log ≡ Reply.nothing ∷ Reply.pushed 1 6 ∷ []
unfolding run step take_turn V3.create V3.emplace V3.try_pop V3.is_closed V3.backoff numbered slot
    write is_behind
passed_by-log = refl

push_and_pop-IsAbsent : IsAbsent 0 push_and_pop
push_and_pop-IsAbsent = ground arith

stalled_example :
    ((p : ℕ)
      → filling (stopped.places 0) ≡ some p
      → (p < passed_by.queue.enqueue_pos)
        × (passed_by.queue.dequeue_pos ≤ p)
        × ((q : ℕ) → p ≤ q → count (popped_at q) passed_by.log ≡ 0))
    × ((p : ℕ)
        → emptying (stopped.places 0) ≡ some p
        → (p < passed_by.queue.dequeue_pos)
          × (passed_by.queue.enqueue_pos ≤ p + 2)
          × ((q : ℕ) → p + 2 ≤ q → count (pushed_at q) passed_by.log ≡ 0))
stalled_example =
    stalled Class.v3 (λ x. 0) 2 2 (omega arith) two_rounded claimed push_and_pop (omega arith) 0
      push_and_pop-IsAbsent
