-- ===== src/Deque/System/Linear.antt =====
-- Every interleaving of the threads is explained by the contract.
use yutil.Common.{ℕ, ◌-◌, ◌≡◌, some, List, [], ◌∷◌, arith}
use yutil.Fifo.{Fifo, Wait, block, finish, Explained}
use yutil.Deque.Ops.{Ops, WaitLegal, IsFifo}
use yutil.Deque.System.{
  System, Event, push, notify_one, wait_pop, resume, spurious, try_pop, close, notify_all, step,
  run, start, after_wait, one_of-eq, run-cons,
}

module _ {ℓ} {A S : Type ℓ} (view : S → Fifo A) (ops : Ops A S) (laws : IsFifo view ops) where
  abbrev IsExplained : System A S → Type ℓ
  IsExplained s = Explained s.log (view s.queue)

  after_wait-IsExplained :
      (s : System A S) (q : S) (w : Wait A S)
      → Explained s.log (view q)
      → WaitLegal view (view q) w
      → IsExplained (after_wait s w)
  after_wait-IsExplained s q (block q') h l = ground arith
  after_wait-IsExplained s q (finish r q') h l = (view q, h, l)

  step-IsExplained :
      (e : Event A) (s : System A S) {t : System A S}
      → step ops e s ≡ some t
      → IsExplained s
      → IsExplained t
  unfolding step
  step-IsExplained (push x) s h i =
      rw (← one_of-eq _ h) (view s.queue, i, laws.emplace_lem x s.queue)
  step-IsExplained notify_one s h i = ground arith
  step-IsExplained wait_pop s h i = rw (← one_of-eq _ h) (
      after_wait-IsExplained (record s { idle = s.idle - 1 }) s.queue _ i
        (laws.wait_pop_lem s.queue))
  step-IsExplained resume s h i = rw (← one_of-eq _ h) (
      after_wait-IsExplained (record s { woken = s.woken - 1 }) s.queue _ i
        (laws.resume_lem s.queue))
  step-IsExplained spurious s h i = ground arith
  step-IsExplained try_pop s h i = rw (← one_of-eq _ h) (view s.queue, i, laws.try_pop_lem s.queue)
  step-IsExplained close s h i = rw (← one_of-eq _ h) (view s.queue, i, laws.close_lem s.queue)
  step-IsExplained notify_all s h i = ground arith

  run-IsExplained :
      (es : List (Event A)) (s : System A S) {t : System A S}
      → run ops es s ≡ some t
      → IsExplained s
      → IsExplained t
  unfolding run
  run-IsExplained [] s h i = ground arith
  run-IsExplained (e ∷ es) s h i =
      let (u, p, q) = run-cons ops e es s h in run-IsExplained es u q (step-IsExplained e s p i)

  -- The contract explains what every interleaving of `n` threads has returned.
  pub run-Explained :
      (n : ℕ) (es : List (Event A)) {t : System A S}
      → run ops es (start ops n) ≡ some t
      → Explained t.log (view t.queue)
  run-Explained n es h = run-IsExplained es (start ops n) h laws.initial_lem
