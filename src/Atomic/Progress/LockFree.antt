-- ===== src/Atomic/Progress/LockFree.antt =====
-- How long a call lasts under each of the three classes.
use yutil.Common.{
  ℕ, ◌+◌, ◌*◌, ◌^◌, ◌<◌, ◌≤◌, ◌≡◌, inl, inr, some, List, [], ◌∷◌, length, arith, sym, ap, ap₂, ◌∙◌,
  refl,
}
use yutil.Capacity.{normalize_capacity}
use yutil.Atomic.Cells.{Cells, Place}
use yutil.Atomic.Class.{Class}
use yutil.Atomic.System.{System, Event, start, step, run}
use yutil.Atomic.Versions.{Same, step-Same, run-Same, versions_agree}
use yutil.Atomic.Versions.Turns.{erase}
use yutil.Atomic.Reached.{normalized, reached}
use yutil.Atomic.Progress.{effort, turns_of, failures_of, claims, Returns}
use yutil.Atomic.Progress.Run.{run-Returns}

module _ {A : Type 0} where
  effort-erase : (q : Cells A) (p : Place A) → effort q (erase p) ≡ effort q p
  effort-erase q (Place.push_look x pos spins) = refl
  effort-erase q p = refl

  idle_of_erase : (p : Place A) → erase p ≡ Place.idle → p ≡ Place.idle
  idle_of_erase (Place.push_look x pos spins) e = cc
  idle_of_erase p e = cc

  module _ (v : Class) (moved : A → A) (i : ℕ) where
    Returns-Same :
        (es : List (Event A)) (s t : System A)
        → Same s t
        → Returns Class.v1 moved i es t
        → Returns v moved i es s
    Returns-Same [] s t h e = idle_of_erase (s.places i) (sym (h.places i) ∙ e)
    Returns-Same (x ∷ es) s t h (inl e) = inl (idle_of_erase (s.places i) (sym (h.places i) ∙ e))
    Returns-Same (x ∷ es) s t h (inr r) =
        inr (
          Returns-Same es (step v moved x s) (step Class.v1 moved x t) (step-Same v moved x s t h)
            r)

module _ {A : Type 0} (v : Class) (moved : A → A) (requested n : ℕ) (bounded : requested ≤ 2 ^ 63)
    (rounded : normalize_capacity 64 requested ≡ some n) (es more : List (Event A))
    (few : length es + length more + n < 2 ^ 63) (i : ℕ) where
  -- Each class is lock-free. From any state that an interleaving reaches, within the bounds that the
  -- counters need: a thread is outside a call at some time of any schedule in which it takes more
  -- turns than its call has left (six if it has just begun), two for each position that any thread
  -- claims meanwhile, and two for each of its turns at which a compare-exchange may fail for no
  -- reason. So a call goes on without end only while others claim positions without end.
  pub lock_free :
      let s = run v moved es (start v n) in
      effort s.queue (s.places i) + 2 * failures_of i more + 2 * claims s (run v moved more s)
        < turns_of i more
      → Returns v moved i more s
  lock_free enough =
      let w = normalized Class.v1 moved requested n bounded rounded es (omega (arith, few)) in
      let safe = reached Class.v1 moved requested n bounded rounded es (omega (arith, few)) in
      let s = run v moved es (start v n) in
      let t = run Class.v1 moved es (start Class.v1 n) in
      let h = versions_agree v moved n es in
      let g = run-Same v moved more s t h in
      let (_, _, r) =
        run-Returns i moved w.log (0 + length es) more t (omega (arith, few, w.power)) safe in
      elim r [
        | inl b ↦ Returns-Same v moved i more s t h b
        | inr b ↦
            let before : (s.queue.enqueue_pos ≡ t.queue.enqueue_pos)
                × (s.queue.dequeue_pos ≡ t.queue.dequeue_pos) =
              (ap (λ q. q.enqueue_pos) h.queue, ap (λ q. q.dequeue_pos) h.queue) in
            let behind : ((run v moved more s).queue.enqueue_pos
                  ≡ (run Class.v1 moved more t).queue.enqueue_pos)
                × ((run v moved more s).queue.dequeue_pos
                    ≡ (run Class.v1 moved more t).queue.dequeue_pos) =
              (ap (λ q. q.enqueue_pos) g.queue, ap (λ q. q.dequeue_pos) g.queue) in
            let work : effort t.queue (t.places i) ≡ effort s.queue (s.places i) =
              ap₂ effort (sym h.queue) (h.places i) ∙ effort-erase s.queue (s.places i) in
            absurd (omega (arith, b, enough, before, behind, work))
      ]
