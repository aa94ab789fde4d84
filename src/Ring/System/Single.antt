-- ===== src/Ring/System/Single.antt =====
-- With one producer and one consumer that wait, no wakeup is lost if the push that ends an empty ring
-- and the pop that ends a full one signal.
use yutil.Common.{
  ℕ, ◌+◌, ◌-◌, ◌<◌, ◌≤◌, ◌≡◌, ◌⊎◌, inl, inr, true, Option, none, some, List, [], ◌∷◌, length, pick,
  pick-Picked, Picked, some-inj, sym, arith, refl,
}
use mathlib.Core.Path.{subst}
use yutil.Fifo.{Fifo}
use yutil.Fifo.Bounded.{Call}
use yutil.Ring.Ops.{Ops, Notice, IsBounded}
use yutil.Ring.System.{
  System, Event, push, resume_push, try_push, wait_pop, resume_pop, try_pop, close, deliver,
  spurious_consumer, spurious_producer, step, run, start, signal, after_push, one_of-eq, one_of-pos,
  run-cons,
}
use yutil.Ring.System.Linear.{IsExplained, step-IsExplained}
use yutil.Ring.System.Awake.{
  to_consumers, to_producers, push-PushEffect, try_push-PushEffect, wait_pop-PopEffect,
  try_pop-PopEffect,
}
use yutil.Ring.System.Alert.{
  IsAlert, IsServed, signal-ServedAt, after_push-IsServed, after_pop-IsServed, signal-queue,
  leave-queue,
}

module _ {A S : Type 0} where
  -- Nobody starts to wait while another thread of its side waits, and nobody calls `try_pop` while a
  -- producer sleeps.
  abbrev pub Admits : Event A → System A S → Type 0
  Admits (push x) s = length s.producers + length s.producers_woken ≡ 0
  Admits wait_pop s = s.consumers + s.consumers_woken ≡ 0
  Admits try_pop s = length s.producers ≡ 0
  Admits _ s = Unit

  abbrev pub EachResult : (System A S → Type 0) → Option (System A S) → Type 0
  EachResult P none = Unit
  EachResult P (some t) = P t

  -- In each state of a run: there is one producer and one consumer that wait.
  abbrev pub OnePair : Ops A S → List (Event A) → System A S → Type 0
  OnePair ops [] s = Unit
  OnePair ops (e ∷ es) s = Admits e s × EachResult (OnePair ops es) (step ops e s)

module _ {A S : Type 0} (c : ℕ) (positive : 0 < c) (Valid : S → Type 0) (view : S → Fifo A)
    (Tracks : S → ℕ → ℕ → Type 0) (ops : Ops A S) (laws : IsBounded c Valid view ops)
    (alert : IsAlert c view Tracks Valid ops) where
  step-IsServed :
      (e : Event A) (s : System A S) {t : System A S}
      → step ops e s ≡ some t
      → Admits e s
      → Valid s.queue
      → IsServed c view Tracks s
      → IsServed c view Tracks t
  unfolding step
  step-IsServed (push x) s h a v (k, m, w, tr) = rw (← one_of-eq _ h) (
      after_push-IsServed c view Tracks positive Valid (λ q. Tracks q k 1) x (Call.push x) k 0
        (record s { idle = s.idle - 1 }) (ops.emplace x s.queue)
        (push-PushEffect c Valid view x (view s.queue) (ops.emplace x s.queue)
          (laws.emplace_lem x s.queue v))
        (alert.emplace_lem x s.queue k v
          (subst (Tracks s.queue k) (omega (arith, a, w.producers_counted)) tr)
          w.one_consumer_waits)
        (λ q u. (refl, u)) (ground arith))
  step-IsServed (resume_push i) s {t} h a v (k, m, w, tr) =
      resumed (pick i s.producers_woken) (pick-Picked (λ x. 0) i s.producers_woken) h
    where
      resumed :
          (o : Option (A × List A))
          → Picked (λ x. 0) s.producers_woken o
          → elim o [
            | none ↦ none
            | some (x, xs) ↦ some (
                after_push x
                  (Call.push x)
                  (record s { producers_woken = xs })
                  (ops.resume_push x s.queue))
          ]
            ≡ some t
          → IsServed c view Tracks t
      resumed none p h = cc
      resumed (some (x, xs)) p h = subst (IsServed c view Tracks) (some-inj h) (
          after_push-IsServed c view Tracks positive Valid (λ q. Tracks q k 1) x (Call.push x) k 0
            (record s { producers_woken = xs }) (ops.resume_push x s.queue)
            (push-PushEffect c Valid view x (view s.queue) (ops.resume_push x s.queue)
              (laws.resume_push_lem x s.queue v))
            (alert.resume_push_lem x s.queue k v
              (subst (Tracks s.queue k)
                (omega (arith, p, w.producers_counted, w.one_producer_waits)) tr)
              w.one_consumer_waits)
            (λ q u. (refl, u)) (ground arith))
  step-IsServed (try_push x) s h a v (k, m, w, tr) = rw (← one_of-eq _ h) (
      after_push-IsServed c view Tracks positive Valid (λ q. ⊥) x (Call.try_push x) k m
        (record s { idle = s.idle - 1 }) (ops.try_emplace x s.queue)
        (try_push-PushEffect c Valid view x (view s.queue) (ops.try_emplace x s.queue)
          (laws.try_emplace_lem x s.queue v))
        (alert.try_emplace_lem x s.queue k m v tr) (λ q u. absurd u) (ground arith))
  step-IsServed wait_pop s h a v (k, m, w, tr) = rw (← one_of-eq _ h) (
      after_pop-IsServed c view Tracks positive Valid (λ q. Tracks q 1 m) Call.wait_pop 0 m m
        (record s { idle = s.idle - 1 }) (ops.wait_pop s.queue)
        (wait_pop-PopEffect c Valid view (view s.queue) (ops.wait_pop s.queue)
          (laws.wait_pop_lem s.queue v))
        (alert.wait_pop_lem s.queue m v
          (subst (λ j. Tracks s.queue j m) (omega (arith, a, w.consumers_counted)) tr)
          w.one_producer_waits)
        (λ q u. (refl, u)) (omega (arith, w.producers_counted)) (ground arith))
  step-IsServed resume_pop s h a v (k, m, w, tr) =
      let woken = one_of-pos s.consumers_woken _ h in
      rw (← one_of-eq _ h) (
        after_pop-IsServed c view Tracks positive Valid (λ q. Tracks q 1 m) Call.wait_pop 0 m m
          (record s { consumers_woken = s.consumers_woken - 1 }) (ops.resume_pop s.queue)
          (wait_pop-PopEffect c Valid view (view s.queue) (ops.resume_pop s.queue)
            (laws.resume_pop_lem s.queue v))
          (alert.resume_pop_lem s.queue m v
            (subst (λ j. Tracks s.queue j m)
              (omega (arith, woken, w.consumers_counted, w.one_consumer_waits)) tr)
            w.one_producer_waits)
          (λ q u. (refl, u)) (omega (arith, w.producers_counted)) (ground (arith, woken)))
  step-IsServed try_pop s h a v (k, m, w, tr) = rw (← one_of-eq _ h) (
      after_pop-IsServed c view Tracks positive Valid (λ q. ⊥) Call.try_pop k m 0
        (record s { idle = s.idle - 1 }) (ops.try_pop s.queue)
        (try_pop-PopEffect c Valid view (view s.queue) (ops.try_pop s.queue)
          (laws.try_pop_lem s.queue v))
        (alert.try_pop_lem s.queue k m v tr) (λ q u. absurd u) (omega (arith, a)) (ground arith))
  step-IsServed close s h a v (k, m, w, tr) = rw (← one_of-eq _ h) (
    k,
    m,
    ground (arith, laws.close_lem s.queue v),
    subst (λ q. Tracks q k m)
        (sym (
          leave-queue (ops.close s.queue).0 (record s {
            queue = (ops.close s.queue).1;
            idle = s.idle - 1;
            log = Call.close ∷ s.log;
          })))
        (alert.close_lem s.queue k m tr),
  )
  step-IsServed (deliver i j) s {t} h a v (k, m, w, tr) =
      delivered (pick i s.pending) (pick-Picked (to_consumers c) i s.pending)
        (pick-Picked (to_producers c) i s.pending) h
    where
      delivered :
          (o : Option (Notice × List Notice))
          → Picked (to_consumers c) s.pending o
          → Picked (to_producers c) s.pending o
          → elim o [
            | none ↦ none
            | some (n, ns) ↦ some (signal n j (record s { pending = ns; idle = s.idle + 1 }))
          ]
            ≡ some t
          → IsServed c view Tracks t
      delivered none p q h = cc
      delivered (some (n, ns)) p q h = subst (IsServed c view Tracks) (some-inj h) (
        k,
        m,
        signal-ServedAt c view Tracks positive n j k m 0 0
            (record s { pending = ns; idle = s.idle + 1 }) (ground arith),
        subst (λ q. Tracks q k m)
            (sym (signal-queue n j (record s { pending = ns; idle = s.idle + 1 }))) tr,
      )
  step-IsServed spurious_consumer s h a v (k, m, w, tr) = rw (← one_of-eq _ h) (
    k,
    m,
    ground arith,
    subst (λ q. Tracks q k m) (sym (signal-queue Notice.one_consumer 0 s)) tr,
  )
  step-IsServed (spurious_producer i) s {t} h a v (k, m, w, tr) =
      let e : t.queue ≡ s.queue = ground arith in
      (
        k,
        m,
        ground (arith, pick-Picked (λ x. 0) i s.producers),
        subst (λ q. Tracks q k m) (sym e) tr,
      )

  run-IsServed :
      (es : List (Event A)) (s : System A S) {t : System A S}
      → run ops es s ≡ some t
      → OnePair ops es s
      → IsExplained c Valid view s
      → IsServed c view Tracks s
      → IsServed c view Tracks t
  unfolding run
  run-IsServed [] s h a i w = subst (IsServed c view Tracks) (some-inj h) w
  run-IsServed (e ∷ es) s h a i w =
      let (u, p, q) = run-cons ops e es s h in
      run-IsServed es u q (subst (EachResult (OnePair ops es)) p a.1)
        (step-IsExplained c Valid view ops laws e s p i) (step-IsServed e s p a.0 i.0 w)

  -- When no thread is about to signal, the consumer sleeps on an empty queue only, and the producer on
  -- a full or closed one.
  pub no_lost_wakeup :
      (n : ℕ) (es : List (Event A)) {t : System A S}
      → run ops es (start ops n) ≡ some t
      → OnePair ops es (start ops n)
      → t.pending ≡ []
      → ((t.consumers ≡ 0) ⊎ (length (view t.queue).items ≡ 0))
        × (((view t.queue).closed ≡ true)
            ⊎ (length t.producers ≡ 0)
            ⊎ (c ≤ length (view t.queue).items))
  no_lost_wakeup n es h a p =
      let (k, m, w, _) =
        run-IsServed es (start ops n) h a (laws.initial_lem.0, refl, laws.initial_lem.1)
          (
            0,
            0,
            record {
              one_consumer_waits = omega arith;
              one_producer_waits = omega arith;
              consumers_counted = refl;
              producers_counted = refl;
              consumers = inl refl;
              producers = inr (inl refl);
            },
            alert.initial_lem,
          ) in
      ground (arith, w.consumers, w.producers)
