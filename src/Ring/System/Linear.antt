-- ===== src/Ring/System/Linear.antt =====
-- Every interleaving of the threads is explained by the contract, and stays inside the vector.
use yutil.Common.{
  some-inj, ℕ, ◌-◌, ◌≡◌, Bool, false, Option, none, pick, some, List, [], ◌∷◌, refl, arith,
}
use mathlib.Core.Path.{subst}
use yutil.Fifo.{Fifo}
use yutil.Fifo.Bounded.{Call, Explained}
use yutil.Ring.Ops.{Ops, Section, fault, block, done, Reply, Notice, PushLegal, PopLegal, IsBounded}
use yutil.Ring.System.{
  System, Event, push, resume_push, try_push, wait_pop, resume_pop, try_pop, close, deliver,
  spurious_consumer, spurious_producer, step, run, start, signal, leave, after_push, after_pop,
  one_of-eq, run-cons,
}

module _ {A S : Type 0} (c : ℕ) (Valid : S → Type 0) (view : S → Fifo A) where
  abbrev pub IsExplained : System A S → Type 0
  IsExplained s = Valid s.queue × (s.crashed ≡ false) × Explained c s.log (view s.queue)

  signal-IsExplained :
      (n : Notice) (j : ℕ) (s : System A S) → IsExplained s → IsExplained (signal n j s)
  signal-IsExplained n j s h = ground arith

  leave-IsExplained : (n : Notice) (s : System A S) → IsExplained s → IsExplained (leave n s)
  leave-IsExplained n s h = ground arith

  after_push-IsExplained :
      (x : A) (call : Bool → Call A) (s : System A S) (w : Section Reply S)
      → IsExplained s
      → PushLegal c Valid view (view s.queue) call w
      → IsExplained (after_push x call s w)
  after_push-IsExplained x call s fault h l = absurd l.1
  after_push-IsExplained x call s (block q) h l = ground arith
  after_push-IsExplained x call s (done r held after q) h l =
      leave-IsExplained after _ (signal-IsExplained held 0 _ (l.0, h.1, (view s.queue, h.2, l.1)))

  after_pop-IsExplained :
      (call : Option A → Call A) (s : System A S) (w : Section (Option A) S)
      → IsExplained s
      → PopLegal c Valid view (view s.queue) call w
      → IsExplained (after_pop call s w)
  after_pop-IsExplained call s fault h l = absurd l.1
  after_pop-IsExplained call s (block q) h l = ground arith
  after_pop-IsExplained call s (done r held after q) h l =
      leave-IsExplained after _ (signal-IsExplained held 0 _ (l.0, h.1, (view s.queue, h.2, l.1)))

  module _ (ops : Ops A S) (laws : IsBounded c Valid view ops) where
    pub step-IsExplained :
        (e : Event A) (s : System A S) {t : System A S}
        → step ops e s ≡ some t
        → IsExplained s
        → IsExplained t
    unfolding step
    step-IsExplained (push x) s h i = rw (← one_of-eq _ h) (
        after_push-IsExplained x (Call.push x) (record s { idle = s.idle - 1 }) _ i
          (laws.emplace_lem x s.queue i.0))
    step-IsExplained (resume_push k) s {t} h i = resumed (pick k s.producers_woken) h
      where
        resumed :
            (o : Option (A × List A))
            → elim o [
              | none ↦ none
              | some (x, xs) ↦ some (
                  after_push x
                    (Call.push x)
                    (record s { producers_woken = xs })
                    (ops.resume_push x s.queue))
            ]
              ≡ some t
            → IsExplained t
        resumed none h = cc
        resumed (some (x, xs)) h = subst IsExplained (some-inj h) (
            after_push-IsExplained x (Call.push x) (record s { producers_woken = xs })
              (ops.resume_push x s.queue) i (laws.resume_push_lem x s.queue i.0))
    step-IsExplained (try_push x) s h i = rw (← one_of-eq _ h) (
        after_push-IsExplained x (Call.try_push x) (record s { idle = s.idle - 1 }) _ i
          (laws.try_emplace_lem x s.queue i.0))
    step-IsExplained wait_pop s h i = rw (← one_of-eq _ h) (
        after_pop-IsExplained _ (record s { idle = s.idle - 1 }) _ i
          (laws.wait_pop_lem s.queue i.0))
    step-IsExplained resume_pop s h i = rw (← one_of-eq _ h) (
        after_pop-IsExplained _ (record s { consumers_woken = s.consumers_woken - 1 }) _ i
          (laws.resume_pop_lem s.queue i.0))
    step-IsExplained try_pop s h i = rw (← one_of-eq _ h) (
        after_pop-IsExplained _ (record s { idle = s.idle - 1 }) _ i (laws.try_pop_lem s.queue i.0))
    step-IsExplained close s h i =
        let l = laws.close_lem s.queue i.0 in
        rw (← one_of-eq _ h)
          (leave-IsExplained (ops.close s.queue).0 _ (l.0, i.1, (view s.queue, i.2, l.1)))
    step-IsExplained (deliver k j) s h i = ground (arith)
    step-IsExplained spurious_consumer s h i = ground arith
    step-IsExplained (spurious_producer k) s h i = ground arith

    run-IsExplained :
        (es : List (Event A)) (s : System A S) {t : System A S}
        → run ops es s ≡ some t
        → IsExplained s
        → IsExplained t
    unfolding run
    run-IsExplained [] s h i = ground arith
    run-IsExplained (e ∷ es) s h i =
        let (u, p, q) = run-cons ops e es s h in run-IsExplained es u q (step-IsExplained e s p i)

    -- The contract explains what every interleaving of `n` threads has returned, and no access was
    -- outside the vector.
    pub run-Explained :
        (n : ℕ) (es : List (Event A)) {t : System A S}
        → run ops es (start ops n) ≡ some t
        → Valid t.queue × (t.crashed ≡ false) × Explained c t.log (view t.queue)
    run-Explained n es h =
        run-IsExplained es (start ops n) h (laws.initial_lem.0, refl, laws.initial_lem.1)
