-- ===== src/Atomic/Progress/Run.antt =====
-- A call that does not return although it takes turns: other threads claim positions meanwhile.
use yutil.Common.{
  ℕ, ◌+◌, ◌-◌, ◌*◌, ◌==◌, ◌^◌, ◌<◌, ◌≤◌, ◌≡◌, ◌⊎◌, Bool, inl, inr, Bool-cases, Option, none, some,
  List, [], ◌∷◌, length, arith, ap, ◌∙◌, refl,
}
use mathlib.Core.Path.{subst}
use yutil.Atomic.Cells.{Cells, Place, Turn}
use yutil.Atomic.V1
use yutil.Atomic.Class.{Class}
use yutil.Atomic.System.{System, Event, step, run, take_turn, after, begin, after_close}
use yutil.Atomic.Safety.{Safe, step-Safe}
use yutil.Atomic.Refine.Turns.{take_turn-IsMove}
use yutil.Atomic.Refine.{IsMove}
use yutil.Atomic.RealTime.{IsLater, take_turn-IsLater}
use yutil.Atomic.Progress.{
  effort, Works, turn_by, turns_of, failure_by, failures_of, claims, Returns,
}
use yutil.Atomic.Progress.Turns.{take_turn-Works}

module _ {A : Type 0} where
  effort-grow :
      (q q' : Cells A) (p : Place A)
      → q.enqueue_pos ≤ q'.enqueue_pos
      → q.dequeue_pos ≤ q'.dequeue_pos
      → effort q' p
        ≤ effort q p + 2 * ((q'.enqueue_pos - q.enqueue_pos) + (q'.dequeue_pos - q.dequeue_pos))
  effort-grow q q' (Place.push_look x pos spins) e d = omega arith
  effort-grow q q' (Place.push_claim x pos spins) e d = omega arith
  effort-grow q q' (Place.pop_look pos spins) e d = omega arith
  effort-grow q q' (Place.pop_claim pos spins) e d = omega arith
  effort-grow q q' p e d = omega arith

  module _ (i : ℕ) where
    -- The work that some turns of thread `i` leave, beside what other threads have added.
    abbrev Leaves : (turns fails : ℕ) → System A → System A → Type 0
    Leaves turns fails s t =
        turns + effort t.queue (t.places i)
        ≤ effort s.queue (s.places i) + 2 * fails + 2 * claims s t

    pub record Step (turns fails : ℕ) (s t : System A) : Type 0 where
      pub pushes : s.queue.enqueue_pos ≤ t.queue.enqueue_pos
      pub pops : s.queue.dequeue_pos ≤ t.queue.dequeue_pos
      pub work : (s.places i ≡ Place.idle) ⊎ (t.places i ≡ Place.idle) ⊎ Leaves turns fails s t

    begin-Step :
        (s : System A) (j : ℕ) (p p0 : Place A) → s.places j ≡ p0 → Step 0 0 s (begin s j p p0)
    begin-Step s j p Place.idle e = elim (Bool-cases (i == j)) [
      | inl t ↦ record {
        pushes = omega arith;
        pops = omega arith;
        work = inl (let z : i ≡ j = ground arith in ap s.places z ∙ e);
      }
      | inr t ↦ record {
        pushes = omega arith;
        pops = omega arith;
        work = inr (inr (rw t (omega arith)));
      }
    ]
    begin-Step s j p p0 e = record {
      pushes = omega arith;
      pops = omega arith;
      work = inr (inr (omega arith));
    }

    close-Step : (s : System A) (p : Place A) → Step 0 0 s (after_close s p (V1.close s.queue))
    unfolding V1.close
    close-Step s Place.idle = record {
      pushes = omega arith;
      pops = omega arith;
      work = inr (
          inr (
            omega (
              arith,
              effort-grow s.queue (V1.close s.queue).1 (s.places i) (omega arith) (omega arith),
            )));
    }
    close-Step s p = record {
      pushes = omega arith;
      pops = omega arith;
      work = inr (inr (omega arith));
    }

    after-Step :
        (s : System A) (j : ℕ) (fails : Bool) (o : Option (Turn A))
        → s.queue.enqueue_pos < 2 ^ 63
        → s.queue.dequeue_pos < 2 ^ 63
        → (o ≡ none → ⊥)
        → IsLater s.queue (s.places j) o
        → Works s.queue fails (s.places j) o
        → Step
            (turn_by {A = A} i (Event.go j fails))
            (failure_by {A = A} i (Event.go j fails))
            s
            (after s j o)
    after-Step s j fails none l m n later w = absurd (n refl)
    after-Step s j fails (some t) l m n later w = elim (Bool-cases (i == j)) [
      | inl e ↦ record {
        pushes = ground (arith, later.2, l);
        pops = ground (arith, later.3, m);
        work = rw e (elim w [
          | inl h ↦ inr (inl h)
          | inr h ↦
              let z : i ≡ j = ground arith in
              inr (inr (omega (arith, h, ap (λ n. effort s.queue (s.places n)) z)))
        ]);
      }
      | inr e ↦ record {
        pushes = ground (arith, later.2, l);
        pops = ground (arith, later.3, m);
        work = rw e (
            inr (
              inr (
                omega (
                  arith,
                  effort-grow s.queue t.queue (s.places i) (ground (arith, later.2, l))
                      (ground (arith, later.3, m)),
                ))));
      }
    ]

    module _ (moved : A → A) (k : ℕ) where
      step-Step :
          (count : ℕ) (e : Event A) (s : System A)
          → count + 2 ^ k < 2 ^ 63
          → Safe moved k count s
          → Step (turn_by i e) (failure_by i e) s (step Class.v1 moved e s)
      unfolding step
      step-Step count (Event.call_push j x) s l h =
          begin-Step s j (Place.push_called x) (s.places j) refl
      step-Step count (Event.call_pop j) s l h = begin-Step s j Place.pop_called (s.places j) refl
      step-Step count (Event.go j fails) s l h =
          let bound : h.board.enq + 2 ^ k < 2 ^ 63 = omega (arith, h.claimed, l) in
          let mv =
            take_turn-IsMove moved k h.inv h.matches bound fails (s.places j) (h.inv.fits j) in
          after-Step s j fails (take_turn Class.v1 moved fails s.queue (s.places j))
            (omega (arith, h.matches.enq, bound)) (omega (arith, h.matches.deq, h.inv.order, bound))
            (λ n. subst (IsMove k h.board (s.places j)) n mv)
            (take_turn-IsLater moved fails s.queue (s.places j))
            (take_turn-Works k h.inv h.matches bound moved fails (s.places j) (h.inv.fits j))
      step-Step count (Event.call_close j) s l h = close-Step s (s.places j)

      Returns-idle :
          (es : List (Event A)) (s : System A)
          → s.places i ≡ Place.idle
          → Returns Class.v1 moved i es s
      Returns-idle [] s e = e
      Returns-idle (x ∷ es) s e = inl e

      pub run-Returns :
          (count : ℕ) (es : List (Event A)) (s : System A)
          → count + length es + 2 ^ k < 2 ^ 63
          → Safe moved k count s
          → let t = run Class.v1 moved es s in
            (s.queue.enqueue_pos ≤ t.queue.enqueue_pos)
            × (s.queue.dequeue_pos ≤ t.queue.dequeue_pos)
            × (Returns Class.v1 moved i es s ⊎ Leaves (turns_of i es) (failures_of i es) s t)
      unfolding run
      run-Returns count [] s l h = (omega arith, omega arith, inr (omega arith))
      run-Returns count (e ∷ es) s l h =
          let u = step Class.v1 moved e s in
          let c = step-Step count e s (omega arith) h in
          let (pushes, pops, r) =
            run-Returns (count + 1) es u (omega arith)
              (step-Safe moved k count e s (omega arith) h) in
          (
            omega (arith, c.pushes, pushes),
            omega (arith, c.pops, pops),
            elim c.work [
              | inl a ↦ inl (inl a)
              | inr (inl a) ↦ inl (inr (Returns-idle es u a))
              | inr (inr a) ↦ elim r [
                | inl b ↦ inl (inr b)
                | inr b ↦ inr (omega (arith, a, b, c.pushes, c.pops, pushes, pops))
              ]
            ],
          )
