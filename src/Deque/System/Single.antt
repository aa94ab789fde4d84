-- ===== src/Deque/System/Single.antt =====
-- With one consumer no wakeup is lost if a push onto an empty queue notifies.
use yutil.Common.{
  ℕ, ◌+◌, ◌<◌, ◌≤◌, ◌≡◌, ◌⊎◌, inl, refl, some, List, [], ◌∷◌, length, length-snoc, word, arith,
}
use yutil.Fifo.{Fifo}
use yutil.Deque.Ops.{Ops, IsFifo, IsTracked, IsEager}
use yutil.Deque.System.{
  System, Event, push, notify_one, wait_pop, resume, spurious, try_pop, close, notify_all, step,
  run, start, run-cons,
}
use yutil.Deque.System.Counted.{IsCounted, step-IsCounted, start-IsCounted}

module _ {ℓ} {A S : Type ℓ} where
  -- Nobody starts to wait while another thread does.
  abbrev pub Admits : Event A → System A S → Type 0
  Admits wait_pop s = s.sleeping + s.woken ≡ 0
  Admits _ s = Unit

  -- Every wait of a run starts while no thread waits: there is one consumer.
  abbrev pub OneConsumer : Ops A S → List (Event A) → System A S → Type ℓ
  OneConsumer ops [] s = Unit
  OneConsumer ops (e ∷ es) s =
      Admits e s × ((t : System A S) → step ops e s ≡ some t → OneConsumer ops es t)

  -- While the consumer sleeps, the first item has a notification on its way.
  record IsServed (view : S → Fifo A) (s : System A S) : Type 0 where
    alone : s.sleeping + s.woken ≤ 1
    served : (s.sleeping ≡ 0) ⊎ (length (view s.queue).items ≡ 0) ⊎ (0 < s.notifying)

module _ {ℓ} {A S : Type ℓ} (view : S → Fifo A) (Tracks : S → ℕ → Type 0) (ops : Ops A S)
    (fifo : IsFifo view ops) (laws : IsTracked Tracks ops) (eager : IsEager view Tracks ops) (n : ℕ)
    (few : n < word) where
  step-IsServed :
      (e : Event A) (s : System A S) {t : System A S}
      → step ops e s ≡ some t
      → Admits e s
      → IsCounted Tracks n s
      → IsServed view s
      → IsServed view t
  unfolding step
  step-IsServed (push x) s h a c i = ground (
    arith,
    fifo.emplace_lem x s.queue,
    length-snoc (view s.queue).items x,
    eager x s.queue (s.sleeping + s.woken),
  )
  step-IsServed notify_one s h a c i = ground arith
  step-IsServed wait_pop s h a c i = ground (arith, fifo.wait_pop_lem s.queue)
  step-IsServed resume s h a c i = ground (arith, fifo.resume_lem s.queue)
  step-IsServed spurious s h a c i = ground arith
  step-IsServed try_pop s h a c i = ground (arith, fifo.try_pop_lem s.queue)
  step-IsServed close s h a c i = ground (arith, fifo.close_lem s.queue)
  step-IsServed notify_all s h a c i = ground arith

  run-IsServed :
      (es : List (Event A)) (s : System A S) {t : System A S}
      → run ops es s ≡ some t
      → OneConsumer ops es s
      → IsCounted Tracks n s
      → IsServed view s
      → IsServed view t
  unfolding run
  run-IsServed [] s h a c i = ground arith
  run-IsServed (e ∷ es) s h a c i =
      let (u, p, q) = run-cons ops e es s h in
      run-IsServed es u q (a.1 u p) (step-IsCounted Tracks ops laws n few e s p c)
        (step-IsServed e s p a.0 c i)

  -- When no notification is on its way, the consumer sleeps on an empty queue only.
  pub no_lost_wakeup_single :
      (es : List (Event A)) {t : System A S}
      → run ops es (start ops n) ≡ some t
      → OneConsumer ops es (start ops n)
      → t.notifying ≡ 0
      → 0 < t.sleeping
      → length (view t.queue).items ≡ 0
  no_lost_wakeup_single es {t} h a quiet asleep =
      let i : IsServed view t =
        run-IsServed es (start ops n) h a (start-IsCounted Tracks ops laws n few)
          (record { alone = omega arith; served = inl refl }) in
      ground (arith, i.served)
