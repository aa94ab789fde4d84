-- ===== src/Ring/System/Wakeups.antt =====
-- No wakeup is lost in the classes that signal the other side after every push and every pop, as
-- long as nobody calls a method that does not.
use yutil.Common.{
  ℕ, ◌+◌, ◌-◌, ◌≤◌, ◌≡◌, ◌⊎◌, refl, inl, inr, Bool, true, false, Option, none, some, List, [], ◌∷◌,
  length, pick, pick-Picked, Picked, some-inj, arith,
}
use mathlib.Core.Path.{subst}
use yutil.Fifo.{Fifo}
use yutil.Fifo.Bounded.{Call, Explained-IsOrdered}
use yutil.Ring.Ops.{Ops, Notice, IsBounded}
use yutil.Ring.System.{
  System, Event, push, resume_push, try_push, wait_pop, resume_pop, try_pop, close, deliver,
  spurious_consumer, spurious_producer, step, run, start, signal, after_push, one_of-eq, run-cons,
}
use yutil.Ring.System.Linear.{IsExplained, step-IsExplained}
use yutil.Ring.System.Awake.{
  to_consumers, to_producers, PushSignals, PopSignals, IsAwake, signal-IsAwake, push-PushEffect,
  try_push-PushEffect, wait_pop-PopEffect, after_push-IsAwake, after_pop-IsAwake,
}

-- `tries`: whether `try_push` signals too.
pub record IsSignalling {ℓ} {A S : Type ℓ} (c : ℕ) (Valid : S → Type 0) (tries : Bool)
    (ops : Ops A S) : Type ℓ where
  pub emplace_lem : (x : A) (s : S) → Valid s → PushSignals c (ops.emplace x s)
  pub resume_push_lem : (x : A) (s : S) → Valid s → PushSignals c (ops.resume_push x s)
  pub try_emplace_lem :
      (x : A) (s : S) → tries ≡ true → Valid s → PushSignals c (ops.try_emplace x s)
  pub wait_pop_lem : (s : S) → Valid s → PopSignals c (ops.wait_pop s)
  pub resume_pop_lem : (s : S) → Valid s → PopSignals c (ops.resume_pop s)

-- The methods that signal.
abbrev pub allowed {ℓ} : {A : Type ℓ} → Bool → Event A → Bool
allowed tries try_pop = false
allowed tries (try_push x) = tries
allowed tries _ = true

abbrev pub AllAllowed {ℓ} : {A : Type ℓ} → Bool → List (Event A) → Type 0
AllAllowed tries [] = Unit
AllAllowed tries (e ∷ es) = (allowed tries e ≡ true) × AllAllowed tries es

module _ {A S : Type 0} (c : ℕ) (Valid : S → Type 0) (view : S → Fifo A) (ops : Ops A S)
    (laws : IsBounded c Valid view ops) (tries : Bool)
    (signalling : IsSignalling c Valid tries ops) where
  room : (s : System A S) → IsExplained c Valid view s → length (view s.queue).items ≤ c
  room s i = (Explained-IsOrdered c s.log (view s.queue) i.2).1

  step-IsAwake :
      (e : Event A) (s : System A S) {t : System A S}
      → step ops e s ≡ some t
      → allowed tries e ≡ true
      → IsExplained c Valid view s
      → IsAwake c view 0 0 s
      → IsAwake c view 0 0 t
  unfolding step
  step-IsAwake (push x) s h a i w = rw (← one_of-eq _ h) (
      after_push-IsAwake c Valid view x (Call.push x) (record s { idle = s.idle - 1 })
        (ops.emplace x s.queue) (room s i)
        (push-PushEffect c Valid view x (view s.queue) (ops.emplace x s.queue)
          (laws.emplace_lem x s.queue i.0))
        (signalling.emplace_lem x s.queue i.0) (ground arith))
  step-IsAwake (resume_push k) s {t} h a i w =
      resumed (pick k s.producers_woken) (pick-Picked (λ x. 0) k s.producers_woken) h
    where
      resumed :
          (o : Option (A × List A))
          → Picked (λ x. 0) s.producers_woken o
          → elim o [
            | none ↦ none
            | some (x, xs) ↦ some (
                after_push x
                  (Call.push x)
                  (record s { producers_woken = xs })
                  (ops.resume_push x s.queue))
          ]
            ≡ some t
          → IsAwake c view 0 0 t
      resumed none p h = cc
      resumed (some (x, xs)) p h = subst (IsAwake c view 0 0) (some-inj h) (
          after_push-IsAwake c Valid view x (Call.push x) (record s { producers_woken = xs })
            (ops.resume_push x s.queue) (room s i)
            (push-PushEffect c Valid view x (view s.queue) (ops.resume_push x s.queue)
              (laws.resume_push_lem x s.queue i.0))
            (signalling.resume_push_lem x s.queue i.0) (ground arith))
  step-IsAwake (try_push x) s h a i w = rw (← one_of-eq _ h) (
      after_push-IsAwake c Valid view x (Call.try_push x) (record s { idle = s.idle - 1 })
        (ops.try_emplace x s.queue) (room s i)
        (try_push-PushEffect c Valid view x (view s.queue) (ops.try_emplace x s.queue)
          (laws.try_emplace_lem x s.queue i.0))
        (signalling.try_emplace_lem x s.queue a i.0) (ground arith))
  step-IsAwake wait_pop s h a i w = rw (← one_of-eq _ h) (
      after_pop-IsAwake c Valid view Call.wait_pop (record s { idle = s.idle - 1 })
        (ops.wait_pop s.queue) (room s i)
        (wait_pop-PopEffect c Valid view (view s.queue) (ops.wait_pop s.queue)
          (laws.wait_pop_lem s.queue i.0))
        (signalling.wait_pop_lem s.queue i.0) (ground arith))
  step-IsAwake resume_pop s h a i w = rw (← one_of-eq _ h) (
      after_pop-IsAwake c Valid view Call.wait_pop
        (record s { consumers_woken = s.consumers_woken - 1 }) (ops.resume_pop s.queue) (room s i)
        (wait_pop-PopEffect c Valid view (view s.queue) (ops.resume_pop s.queue)
          (laws.resume_pop_lem s.queue i.0))
        (signalling.resume_pop_lem s.queue i.0) (ground arith))
  step-IsAwake try_pop s h a i w = cc
  step-IsAwake close s h a i w = ground (arith, laws.close_lem s.queue i.0)
  step-IsAwake (deliver k j) s {t} h a i w =
      delivered (pick k s.pending) (pick-Picked (to_consumers c) k s.pending)
        (pick-Picked (to_producers c) k s.pending) h
    where
      delivered :
          (o : Option (Notice × List Notice))
          → Picked (to_consumers c) s.pending o
          → Picked (to_producers c) s.pending o
          → elim o [
            | none ↦ none
            | some (n, ns) ↦ some (signal n j (record s { pending = ns; idle = s.idle + 1 }))
          ]
            ≡ some t
          → IsAwake c view 0 0 t
      delivered none p q h = cc
      delivered (some (n, ns)) p q h = subst (IsAwake c view 0 0) (some-inj h) (
          signal-IsAwake c Valid view n j 0 0 (record s { pending = ns; idle = s.idle + 1 })
            (room s i) (ground arith))
  step-IsAwake spurious_consumer s h a i w = ground arith
  step-IsAwake (spurious_producer k) s h a i w = ground (arith, pick-Picked (λ x. 0) k s.producers)

  run-IsAwake :
      (es : List (Event A)) (s : System A S) {t : System A S}
      → run ops es s ≡ some t
      → AllAllowed tries es
      → IsExplained c Valid view s
      → IsAwake c view 0 0 s
      → IsAwake c view 0 0 t
  unfolding run
  run-IsAwake [] s h a i w = ground arith
  run-IsAwake (e ∷ es) s h a i w =
      let (u, p, q) = run-cons ops e es s h in
      run-IsAwake es u q a.1 (step-IsExplained c Valid view ops laws e s p i)
        (step-IsAwake e s p a.0 i w)

  -- When nothing is on its way, a consumer sleeps on an empty queue only, and a producer on a full
  -- or closed one.
  pub no_lost_wakeup :
      (n : ℕ) (es : List (Event A)) {t : System A S}
      → run ops es (start ops n) ≡ some t
      → AllAllowed tries es
      → t.pending ≡ []
      → t.consumers_woken ≡ 0
      → length t.producers_woken ≡ 0
      → ((t.consumers ≡ 0) ⊎ (length (view t.queue).items ≡ 0))
        × (((view t.queue).closed ≡ true)
            ⊎ (length t.producers ≡ 0)
            ⊎ (c ≤ length (view t.queue).items))
  no_lost_wakeup n es h a p q r =
      let w =
        run-IsAwake es (start ops n) h a (laws.initial_lem.0, refl, laws.initial_lem.1)
          (record { consumers = inl refl; producers = inr (inl refl) }) in
      ground (arith, w.consumers, w.producers)
