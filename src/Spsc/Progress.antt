-- ===== src/Spsc/Progress.antt =====
-- How many turns the calls of the producer and the consumer of `SpscBoundedQueue` take.
pub mod WaitFree
use yutil.Common.{
  ℕ, zero, ◌+◌, ◌^◌, ◌≤◌, ◌≡◌, ◌⊎◌, inl, inr, false, Option, none, some, List, [], ◌∷◌, arith, refl,
  ap, ◌∙◌,
}
use mathlib.Core.Path.{subst}
use yutil.Capacity.{normalize_capacity}
use yutil.Spsc.Queue.{SpscBoundedQueue, Producer, Consumer, Turn, emplace, try_pop}
use yutil.Spsc.System.{
  System, Event, call_push, produce, call_pop, consume, start, step, run, after_produce,
  after_consume, begin_push, begin_pop,
}
use yutil.Spsc.Inv.Produce.{emplace-Kept}
use yutil.Spsc.Inv.Consume.{try_pop-Kept}
use yutil.Spsc.Contract.{IsSafe, step-IsSafe, normalized, run-IsSafe_of_rounded}

module _ {A : Type 0} where
  -- The turns that the call of a thread has left.
  abbrev pub push_turns : Producer A → ℕ
  push_turns Producer.idle = 0
  push_turns (Producer.called x) = 4
  push_turns (Producer.reload x tail) = 3
  push_turns (Producer.construct x tail) = 2
  push_turns (Producer.publish x tail) = 1

  abbrev pub pop_turns : Consumer A → ℕ
  pop_turns Consumer.idle = 0
  pop_turns Consumer.called = 5
  pop_turns (Consumer.reload head) = 4
  pop_turns (Consumer.read head) = 3
  pop_turns (Consumer.destroy head v) = 2
  pop_turns (Consumer.publish head v) = 1

  -- The turns of each thread in a schedule.
  abbrev pub produced : List (Event A) → ℕ
  produced [] = 0
  produced (produce ∷ es) = 1 + produced es
  produced (_ ∷ es) = produced es

  abbrev pub consumed : List (Event A) → ℕ
  consumed [] = 0
  consumed (consume ∷ es) = 1 + consumed es
  consumed (_ ∷ es) = consumed es

  -- The thread is outside a call in one of the states that a schedule goes through.
  abbrev pub PushReturns : (A → A) → List (Event A) → System A → Type 0
  PushReturns moved [] s = s.producer ≡ Producer.idle
  PushReturns moved (e ∷ es) s =
      (s.producer ≡ Producer.idle) ⊎ PushReturns moved es (step moved e s)

  abbrev pub PopReturns : (A → A) → List (Event A) → System A → Type 0
  PopReturns moved [] s = s.consumer ≡ Consumer.idle
  PopReturns moved (e ∷ es) s = (s.consumer ≡ Consumer.idle) ⊎ PopReturns moved es (step moved e s)

  pub push_done : (p : Producer A) → push_turns p ≤ 0 → p ≡ Producer.idle
  push_done Producer.idle h = refl
  push_done (Producer.called x) h = absurd (omega arith)
  push_done (Producer.reload x tail) h = absurd (omega arith)
  push_done (Producer.construct x tail) h = absurd (omega arith)
  push_done (Producer.publish x tail) h = absurd (omega arith)

  pub pop_done : (c : Consumer A) → pop_turns c ≤ 0 → c ≡ Consumer.idle
  pop_done Consumer.idle h = refl
  pop_done Consumer.called h = absurd (omega arith)
  pop_done (Consumer.reload head) h = absurd (omega arith)
  pop_done (Consumer.read head) h = absurd (omega arith)
  pop_done (Consumer.destroy head v) h = absurd (omega arith)
  pop_done (Consumer.publish head v) h = absurd (omega arith)

  pub push_turns-le : (p : Producer A) → push_turns p ≤ 4
  push_turns-le p = ground arith

  pub pop_turns-le : (c : Consumer A) → pop_turns c ≤ 5
  pop_turns-le c = ground arith

  pub produced-cons :
      (e : Event A) (es : List (Event A)) → produced (e ∷ es) ≡ produced (e ∷ []) + produced es
  produced-cons e es = ground arith

  pub consumed-cons :
      (e : Event A) (es : List (Event A)) → consumed (e ∷ es) ≡ consumed (e ∷ []) + consumed es
  consumed-cons e es = ground arith

  -- A turn takes one off.
  pub emplace-turns :
      (q : SpscBoundedQueue A) (p : Producer A) (t : Turn A (Producer A))
      → emplace q p ≡ some t
      → (p ≡ Producer.idle) ⊎ (push_turns t.place + 1 ≤ push_turns p)
  unfolding emplace
  emplace-turns q Producer.idle t e = inl refl
  emplace-turns q (Producer.called x) t e = ground arith
  emplace-turns q (Producer.reload x tail) t e = ground arith
  emplace-turns q (Producer.construct x tail) t e = ground arith
  emplace-turns q (Producer.publish x tail) t e = ground arith

  pub try_pop-turns :
      (moved : A → A) (q : SpscBoundedQueue A) (c : Consumer A) (t : Turn A (Consumer A))
      → try_pop moved q c ≡ some t
      → (c ≡ Consumer.idle) ⊎ (pop_turns t.place + 1 ≤ pop_turns c)
  unfolding try_pop
  try_pop-turns moved q Consumer.idle t e = inl refl
  try_pop-turns moved q Consumer.called t e = ground arith
  try_pop-turns moved q (Consumer.reload head) t e = ground arith
  try_pop-turns moved q (Consumer.read head) t e = ground arith
  try_pop-turns moved q (Consumer.destroy head v) t e = ground arith
  try_pop-turns moved q (Consumer.publish head v) t e = ground arith

  pub begin_push-turns :
      (x : A) (s : System A) (p : Producer A)
      → s.producer ≡ p
      → (p ≡ Producer.idle) ⊎ (push_turns (begin_push x s p).producer ≤ push_turns p)
  begin_push-turns x s Producer.idle e = inl refl
  begin_push-turns x s p e = inr (rw e (omega arith))

  pub begin_pop-turns :
      (s : System A) (c : Consumer A)
      → s.consumer ≡ c
      → (c ≡ Consumer.idle) ⊎ (pop_turns (begin_pop s c).consumer ≤ pop_turns c)
  begin_pop-turns s Consumer.idle e = inl refl
  begin_pop-turns s c e = inr (rw e (omega arith))

  -- A call of one thread leaves the other where it is.
  pub begin_push-consumer :
      (x : A) (s : System A) (p : Producer A) → (begin_push x s p).consumer ≡ s.consumer
  begin_push-consumer x s Producer.idle = refl
  begin_push-consumer x s p = refl

  pub begin_pop-producer : (s : System A) (c : Consumer A) → (begin_pop s c).producer ≡ s.producer
  begin_pop-producer s Consumer.idle = refl
  begin_pop-producer s c = refl
