-- ===== src/Deque/System/Closing.antt =====
-- `close` leaves nobody asleep.
use yutil.Common.{ℕ, ◌<◌, ◌≡◌, ◌⊎◌, false, true, some, List, [], ◌∷◌, arith}
use yutil.Fifo.{Fifo}
use yutil.Deque.Ops.{Ops, IsFifo}
use yutil.Deque.System.{
  System, Event, push, notify_one, wait_pop, resume, spurious, try_pop, close, notify_all, step,
  run, start, run-cons,
}

module _ {ℓ} {A S : Type ℓ} (view : S → Fifo A) where
  abbrev IsShut : System A S → Type 0
  IsShut s = ((view s.queue).closed ≡ false) ⊎ (s.sleeping ≡ 0) ⊎ (0 < s.closing)

  module _ (ops : Ops A S) (fifo : IsFifo view ops) where
    step-IsShut :
        (e : Event A) (s : System A S) {t : System A S}
        → step ops e s ≡ some t
        → IsShut s
        → IsShut t
    unfolding step
    step-IsShut (push x) s h i = ground (arith, fifo.emplace_lem x s.queue)
    step-IsShut notify_one s h i = ground arith
    step-IsShut wait_pop s h i = ground (arith, fifo.wait_pop_lem s.queue)
    step-IsShut resume s h i = ground (arith, fifo.resume_lem s.queue)
    step-IsShut spurious s h i = ground arith
    step-IsShut try_pop s h i = ground (arith, fifo.try_pop_lem s.queue)
    step-IsShut close s h i = ground (arith, fifo.close_lem s.queue)
    step-IsShut notify_all s h i = ground arith

    run-IsShut :
        (es : List (Event A)) (s : System A S) {t : System A S}
        → run ops es s ≡ some t
        → IsShut s
        → IsShut t
    unfolding run
    run-IsShut [] s h i = ground arith
    run-IsShut (e ∷ es) s h i =
        let (u, p, q) = run-cons ops e es s h in run-IsShut es u q (step-IsShut e s p i)

    -- Once the queue is closed and every `notify_all` is over, no thread sleeps.
    pub closed-sleeping :
        (n : ℕ) (es : List (Event A)) {t : System A S}
        → run ops es (start ops n) ≡ some t
        → (view t.queue).closed ≡ true
        → t.closing ≡ 0
        → t.sleeping ≡ 0
    closed-sleeping n es {t} h c z =
        let i = run-IsShut es (start ops n) h (ground (arith, fifo.initial_lem)) in ground arith
