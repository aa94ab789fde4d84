-- ===== src/Atomic/Tests.antt =====
-- A schedule of the atomic queues, and the theorems of `Closing`, `Backoff` and `Versions` at it.
use yutil.Common.{
  zero, suc, ◌⊎◌, ◌%◌, ℕ, ◌≡◌, refl, true, false, none, some, List, [], ◌∷◌, if◌then◌else◌,
}
use yutil.Atomic.Cells.{Place, Reply, is_behind, numbered, slot, write}
use yutil.Atomic.V3
use yutil.Atomic.Class.{Class}
use yutil.Atomic.System.{System, Event, start, step, run, take_turn}
use yutil.Atomic.Frame.{closing, pushing, count}
use yutil.Atomic.Versions.{Same, versions_agree}
use yutil.Atomic.Closing.{close_once, close_refuses}
use yutil.Atomic.Backoff.{fail_spins, rounds, backoff_counts}

-- Thread 0 pushes, and its compare-exchange fails once for no reason; thread 1 pops; both close.
abbrev session : List (Event ℕ)
session =
    Event.call_push 0 5
    ∷ Event.go 0 false
    ∷ Event.go 0 false
    ∷ Event.go 0 false
    ∷ Event.go 0 true
    ∷ Event.go 0 false
    ∷ Event.go 0 false
    ∷ Event.go 0 false
    ∷ Event.go 0 false
    ∷ Event.call_pop 1
    ∷ Event.go 1 false
    ∷ Event.go 1 false
    ∷ Event.go 1 false
    ∷ Event.go 1 false
    ∷ Event.go 1 false
    ∷ Event.go 1 false
    ∷ Event.call_close 0
    ∷ Event.call_close 1
    ∷ []

session-log :
    (run Class.v3 (λ x. 0) session (start Class.v3 2)).log
    ≡ Reply.closed false ∷ Reply.closed true ∷ Reply.popped 0 5 ∷ Reply.pushed 0 5 ∷ []
unfolding run step take_turn V3.create V3.emplace V3.try_pop V3.close V3.is_closed V3.backoff
    numbered slot write is_behind
session-log = refl

close_once_example :
    count closing (run Class.v3 (λ x. 0) session (start Class.v3 2)).log
    ≡ (if (run Class.v3 (λ x. 0) session (start Class.v3 2)).queue.closed then 1 else 0)
close_once_example = close_once Class.v3 (λ x. 0) 2 session

-- Thread 0 pushes, and 66 of its compare-exchanges fail for no reason.
abbrev failing : ℕ → List (Event ℕ)
failing zero = []
failing (suc m) = Event.go 0 false ∷ Event.go 0 true ∷ failing m

abbrev unlucky : List (Event ℕ)
unlucky = Event.call_push 0 5 ∷ Event.go 0 false ∷ Event.go 0 false ∷ failing 66

unlucky-rounds : rounds (λ x. 0) 0 unlucky (start Class.v3 2) 0 ≡ 66
unfolding step take_turn V3.create V3.emplace V3.is_closed V3.backoff numbered slot is_behind
unlucky-rounds = refl

unlucky-spins : fail_spins ((run Class.v3 (λ x. 0) unlucky (start Class.v3 2)).places 0) ≡ some 1
unfolding run step take_turn V3.create V3.emplace V3.is_closed V3.backoff numbered slot is_behind
unlucky-spins = refl

backoff_counts_example :
    let p = (run Class.v3 (λ x. 0) unlucky (start Class.v3 2)).places 0 in
    (fail_spins p ≡ none)
    ⊎ (fail_spins p ≡ some (rounds (λ x. 0) 0 unlucky (start Class.v3 2) 0 % 65))
backoff_counts_example = backoff_counts (λ x. 0) 0 2 unlucky

-- A closed queue of capacity 2 with one item; every thread is outside a call.
abbrev shut : System ℕ
shut = record {
  queue = record {
    capacity = 2;
    mask = 1;
    cells =
        record { sequence = 1; storage = some 5 } ∷ record { sequence = 1; storage = none } ∷ [];
    enqueue_pos = 1;
    dequeue_pos = 0;
    closed = true;
  };
  places = λ i. Place.idle;
  crashed = false;
  log = Reply.closed true ∷ Reply.pushed 0 5 ∷ [];
}

abbrev late_push : List (Event ℕ)
late_push = Event.call_push 0 6 ∷ Event.go 0 false ∷ []

late_push-log :
    (run Class.v3 (λ x. 0) late_push shut).log
    ≡ Reply.refused 6 ∷ Reply.closed true ∷ Reply.pushed 0 5 ∷ []
unfolding run step take_turn V3.emplace V3.is_closed
late_push-log = refl

close_refuses_example :
    ((run Class.v3 (λ x. 0) late_push shut).queue.closed ≡ true)
    × (count pushing (run Class.v3 (λ x. 0) late_push shut).log ≡ 1)
close_refuses_example = close_refuses Class.v3 (λ x. 0) late_push shut refl (λ i. refl)

versions_agree_example :
    Same
      (run Class.v3 (λ x. 0) session (start Class.v3 2))
      (run Class.v1 (λ x. 0) session (start Class.v1 2))
versions_agree_example = versions_agree Class.v3 (λ x. 0) 2 session
