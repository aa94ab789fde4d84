-- ===== src/Deque/System/Wakeups.antt =====
-- No wakeup is lost if a push notifies whenever a consumer is between the start of a wait and its
-- end.
use yutil.Common.{
  ℕ, ◌+◌, ◌<◌, ◌≤◌, ◌≡◌, ◌⊎◌, inl, refl, some, List, [], ◌∷◌, length, length-snoc, word, arith,
}
use yutil.Fifo.{Fifo}
use yutil.Deque.Ops.{Ops, IsFifo, IsTracked, IsPrompt}
use yutil.Deque.System.{
  System, Event, push, notify_one, wait_pop, resume, spurious, try_pop, close, notify_all, step,
  run, start, run-cons,
}
use yutil.Deque.System.Counted.{IsCounted, step-IsCounted, start-IsCounted}

module _ {ℓ} {A S : Type ℓ} (view : S → Fifo A) where
  -- While a thread sleeps, each item has a notification on its way.
  abbrev IsAwake : System A S → Type 0
  IsAwake s = (s.sleeping ≡ 0) ⊎ (length (view s.queue).items ≤ s.woken + s.notifying)

module _ {ℓ} {A S : Type ℓ} (view : S → Fifo A) (Tracks : S → ℕ → Type 0) (ops : Ops A S)
    (fifo : IsFifo view ops) (laws : IsTracked Tracks ops) (prompt : IsPrompt Tracks ops) (n : ℕ)
    (few : n < word) where
  step-IsAwake :
      (e : Event A) (s : System A S) {t : System A S}
      → step ops e s ≡ some t
      → IsCounted Tracks n s
      → IsAwake view s
      → IsAwake view t
  unfolding step
  step-IsAwake (push x) s h c i = ground (
    arith,
    fifo.emplace_lem x s.queue,
    prompt x s.queue (s.sleeping + s.woken),
    length-snoc (view s.queue).items x,
  )
  step-IsAwake notify_one s h c i = ground arith
  step-IsAwake wait_pop s h c i = ground (arith, fifo.wait_pop_lem s.queue)
  step-IsAwake resume s h c i = ground (arith, fifo.resume_lem s.queue)
  step-IsAwake spurious s h c i = ground arith
  step-IsAwake try_pop s h c i = ground (arith, fifo.try_pop_lem s.queue)
  step-IsAwake close s h c i = ground (arith, fifo.close_lem s.queue)
  step-IsAwake notify_all s h c i = ground arith

  run-IsAwake :
      (es : List (Event A)) (s : System A S) {t : System A S}
      → run ops es s ≡ some t
      → IsCounted Tracks n s
      → IsAwake view s
      → IsAwake view t
  unfolding run
  run-IsAwake [] s h c i = ground arith
  run-IsAwake (e ∷ es) s h c i =
      let (u, p, q) = run-cons ops e es s h in
      run-IsAwake es u q (step-IsCounted Tracks ops laws n few e s p c) (step-IsAwake e s p c i)

  -- When no notification is on its way, a thread that sleeps has nothing to wait for.
  pub no_lost_wakeup :
      (es : List (Event A)) {t : System A S}
      → run ops es (start ops n) ≡ some t
      → t.woken + t.notifying ≡ 0
      → 0 < t.sleeping
      → length (view t.queue).items ≡ 0
  no_lost_wakeup es {t} h quiet asleep =
      ground
        (arith, run-IsAwake es (start ops n) h (start-IsCounted Tracks ops laws n few) (inl refl))
