-- ===== src/Atomic/Progress.antt =====
-- How many turns a call needs: the loops of `emplace` and `try_pop` go round again only where another
-- thread has claimed a position, or where the compare-exchange failed for no reason.
pub mod Turns
pub mod Run
pub mod LockFree
use yutil.Common.{
  ℕ, ◌+◌, ◌-◌, ◌*◌, ◌==◌, ◌≤◌, ◌≡◌, ◌⊎◌, Bool, true, false, Option, none, some, List, [], ◌∷◌,
  if◌then◌else◌,
}
use yutil.Atomic.Cells.{Cells, Place, Turn}
use yutil.Atomic.Class.{Class}
use yutil.Atomic.System.{System, Event, step}
use yutil.Atomic.Drain.{waste}

module _ {A : Type 0} where
  -- The turns that a call has left if no other thread claims a position from now on and no
  -- compare-exchange fails for no reason. A counter that has moved on since it was read costs two.
  abbrev pub effort : Cells A → Place A → ℕ
  effort q Place.idle = 0
  effort q (Place.push_called x) = 6
  effort q (Place.push_start x) = 5
  effort q (Place.push_look x pos spins) = 4 + 2 * (q.enqueue_pos - pos)
  effort q (Place.push_reload x spins) = 5
  effort q (Place.push_claim x pos spins) = 3 + 2 * (q.enqueue_pos - pos)
  effort q (Place.construct x pos) = 2
  effort q (Place.push_publish x pos) = 1
  effort q Place.pop_called = 6
  effort q (Place.pop_look pos spins) = 5 + 2 * (q.dequeue_pos - pos)
  effort q (Place.pop_reload spins) = 6
  effort q (Place.pop_claim pos spins) = 4 + 2 * (q.dequeue_pos - pos)
  effort q (Place.read pos) = 3
  effort q (Place.destroy pos v) = 2
  effort q (Place.pop_publish pos v) = 1

  -- A turn ends the call or leaves less to do.
  abbrev pub Works : Cells A → Bool → Place A → Option (Turn A) → Type 0
  Works q fails p none = Unit
  Works q fails p (some t) =
      (t.place ≡ Place.idle) ⊎ (effort t.queue t.place + 1 ≤ effort q p + 2 * waste fails)

  -- The turns of thread `i` in a schedule, and those at which a compare-exchange may fail for no
  -- reason.
  abbrev pub turn_by : ℕ → Event A → ℕ
  turn_by i (Event.go j fails) = if i == j then 1 else 0
  turn_by i e = 0

  abbrev pub turns_of : ℕ → List (Event A) → ℕ
  turns_of i [] = 0
  turns_of i (e ∷ es) = turn_by i e + turns_of i es

  abbrev pub failure_by : ℕ → Event A → ℕ
  failure_by i (Event.go j fails) = if i == j then waste fails else 0
  failure_by i e = 0

  abbrev pub failures_of : ℕ → List (Event A) → ℕ
  failures_of i [] = 0
  failures_of i (e ∷ es) = failure_by i e + failures_of i es

  -- The positions that have been claimed from one state to a later one.
  abbrev pub claims : System A → System A → ℕ
  claims s t =
      (t.queue.enqueue_pos - s.queue.enqueue_pos) + (t.queue.dequeue_pos - s.queue.dequeue_pos)

  -- Thread `i` is outside a call in one of the states that a schedule goes through.
  abbrev pub Returns : Class → (A → A) → ℕ → List (Event A) → System A → Type 0
  Returns v moved i [] s = s.places i ≡ Place.idle
  Returns v moved i (e ∷ es) s = (s.places i ≡ Place.idle) ⊎ Returns v moved i es (step v moved e s)
