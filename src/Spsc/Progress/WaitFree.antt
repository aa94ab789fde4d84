-- ===== src/Spsc/Progress/WaitFree.antt =====
-- The calls of both threads of `SpscBoundedQueue` in any schedule.
use yutil.Common.{◌<◌, ℕ, ◌+◌, ◌^◌, ◌≤◌, ◌≡◌, ◌⊎◌, inl, inr, some, List, [], ◌∷◌, arith, refl}
use native.Mathlib.Decide.{dec_lt}
use yutil.Capacity.{normalize_capacity}
use yutil.Spsc.Queue.{Producer, Consumer, emplace, try_pop}
use yutil.Spsc.System.{
  System, Event, call_push, produce, call_pop, consume, start, step, run, after_produce,
  after_consume,
}
use yutil.Spsc.Inv.Produce.{emplace-Kept}
use yutil.Spsc.Inv.Consume.{try_pop-Kept}
use yutil.Spsc.Contract.{IsSafe, step-IsSafe, normalized, run-IsSafe_of_rounded}
use yutil.Spsc.Progress.{
  push_turns, pop_turns, produced, consumed, PushReturns, PopReturns, push_done, pop_done,
  push_turns-le, pop_turns-le, produced-cons, consumed-cons, emplace-turns, try_pop-turns,
  begin_push-turns, begin_pop-turns, begin_push-consumer, begin_pop-producer,
}

module _ {A : Type 0} (moved : A → A) (k : ℕ) (small : k ≤ 63) where
  produce-turns :
      (s : System A)
      → IsSafe moved k small s
      → (s.producer ≡ Producer.idle)
        ⊎ (push_turns (after_produce s (emplace s.queue s.producer)).producer + 1
            ≤ push_turns s.producer)
  produce-turns s (d, g, i) =
      let (t, g', e, j) = emplace-Kept k small g s.queue s.producer s.consumer s.log i in
      rw e (emplace-turns s.queue s.producer t e)

  consume-turns :
      (s : System A)
      → IsSafe moved k small s
      → (s.consumer ≡ Consumer.idle)
        ⊎ (pop_turns (after_consume s (try_pop moved s.queue s.consumer)).consumer + 1
            ≤ pop_turns s.consumer)
  consume-turns s (d, g, i) =
      let (t, g', e, j) = try_pop-Kept moved k small g s.queue s.producer s.consumer s.log i in
      rw e (try_pop-turns moved s.queue s.consumer t e)

  produce-consumer :
      (s : System A)
      → IsSafe moved k small s
      → (after_produce s (emplace s.queue s.producer)).consumer ≡ s.consumer
  produce-consumer s (d, g, i) =
      let (t, g', e, j) = emplace-Kept k small g s.queue s.producer s.consumer s.log i in rw e refl

  consume-producer :
      (s : System A)
      → IsSafe moved k small s
      → (after_consume s (try_pop moved s.queue s.consumer)).producer ≡ s.producer
  consume-producer s (d, g, i) =
      let (t, g', e, j) = try_pop-Kept moved k small g s.queue s.producer s.consumer s.log i in
      rw e refl

  step-push_turns :
      (e : Event A) (s : System A)
      → IsSafe moved k small s
      → (s.producer ≡ Producer.idle)
        ⊎ (push_turns (step moved e s).producer + produced (e ∷ []) ≤ push_turns s.producer)
  unfolding step
  step-push_turns (call_push x) s i = ground (arith, begin_push-turns x s s.producer refl)
  step-push_turns produce s i = produce-turns s i
  step-push_turns call_pop s i = ground (arith, begin_pop-producer s s.consumer)
  step-push_turns consume s i = ground (arith, consume-producer s i)

  step-pop_turns :
      (e : Event A) (s : System A)
      → IsSafe moved k small s
      → (s.consumer ≡ Consumer.idle)
        ⊎ (pop_turns (step moved e s).consumer + consumed (e ∷ []) ≤ pop_turns s.consumer)
  unfolding step
  step-pop_turns (call_push x) s i = ground (arith, begin_push-consumer x s s.producer)
  step-pop_turns produce s i = ground (arith, produce-consumer s i)
  step-pop_turns call_pop s i = ground (arith, begin_pop-turns s s.consumer refl)
  step-pop_turns consume s i = consume-turns s i

  run-PushReturns :
      (es : List (Event A)) (s : System A)
      → IsSafe moved k small s
      → push_turns s.producer ≤ produced es
      → PushReturns moved es s
  run-PushReturns [] s i h = push_done s.producer h
  run-PushReturns (e ∷ es) s i h = elim (step-push_turns e s i) [
    | inl z ↦ inl z
    | inr l ↦ inr (
        run-PushReturns es (step moved e s) (step-IsSafe moved k small e s i)
          (omega (arith, l, h, produced-cons e es)))
  ]

  run-PopReturns :
      (es : List (Event A)) (s : System A)
      → IsSafe moved k small s
      → pop_turns s.consumer ≤ consumed es
      → PopReturns moved es s
  run-PopReturns [] s i h = pop_done s.consumer h
  run-PopReturns (e ∷ es) s i h = elim (step-pop_turns e s i) [
    | inl z ↦ inl z
    | inr l ↦ inr (
        run-PopReturns es (step moved e s) (step-IsSafe moved k small e s i)
          (omega (arith, l, h, consumed-cons e es)))
  ]

module _ {A : Type 0} (moved : A → A) (requested n : ℕ) (bounded : requested ≤ 2 ^ 63)
    (rounded : normalize_capacity 64 requested ≡ some n) (es more : List (Event A)) where
  -- For every request of at most 2^63 and every interleaving `es` behind which `more` follows: the
  -- producer is outside a call at some time within `more`, or it takes fewer turns in it than its call
  -- has accesses left, which are four at most; whatever the consumer does. So is the consumer, whose
  -- calls make five accesses at most.
  pub wait_free :
      let s = run moved es (start n) in
      (push_turns s.producer ≤ 4)
      × (pop_turns s.consumer ≤ 5)
      × (PushReturns moved more s ⊎ (produced more < push_turns s.producer))
      × (PopReturns moved more s ⊎ (consumed more < pop_turns s.consumer))
  wait_free =
      let w = normalized moved requested n bounded rounded es in
      let h = run-IsSafe_of_rounded moved requested n bounded rounded es in
      let s = run moved es (start n) in
      (
        push_turns-le s.producer,
        pop_turns-le s.consumer,
        elim (dec_lt (produced more) (push_turns s.producer)) [
          | yes l ↦ inr l
          | no l ↦ inl (run-PushReturns moved w.log w.log_small more s h (omega arith))
        ],
        elim (dec_lt (consumed more) (pop_turns s.consumer)) [
          | yes l ↦ inr l
          | no l ↦ inl (run-PopReturns moved w.log w.log_small more s h (omega arith))
        ],
      )
