-- ===== src/Spsc/Counters/Delivered.antt =====
-- How many items the turns of both threads of `SpscBoundedQueue` hand out.
use yutil.Common.{◌+◌, ◌≤◌, Option, none, some, List, [], ◌∷◌, length, arith, length-snoc}
use yutil.Fifo.Bounded.{Call, delivered}
use yutil.Spsc.Queue.{Producer, Consumer, Turn, emplace, try_pop}
use yutil.Spsc.System.{
  System, Event, call_push, produce, call_pop, consume, step, run, after_produce, after_consume,
  begin_push, begin_pop, record_reply,
}

module _ {A : Type 0} (moved : A → A) where
  -- An event hands out at most one item.
  record_reply-delivered :
      (o : Option (Call A)) (log : List (Call A))
      → (length (delivered log) ≤ length (delivered (record_reply o log)))
        × (length (delivered (record_reply o log)) ≤ length (delivered log) + 1)
  record_reply-delivered none log = ground arith
  record_reply-delivered (some (Call.push x b)) log = ground arith
  record_reply-delivered (some (Call.try_push x b)) log = ground arith
  record_reply-delivered (some (Call.wait_pop none)) log = ground arith
  record_reply-delivered (some (Call.wait_pop (some x))) log =
      ground (arith, length-snoc (delivered log) x)
  record_reply-delivered (some (Call.try_pop none)) log = ground arith
  record_reply-delivered (some (Call.try_pop (some x))) log =
      ground (arith, length-snoc (delivered log) x)
  record_reply-delivered (some Call.close) log = ground arith

  abbrev DeliversOne : System A → System A → Type 0
  DeliversOne s t =
      (length (delivered s.log) ≤ length (delivered t.log))
      × (length (delivered t.log) ≤ length (delivered s.log) + 1)

  begin_push-DeliversOne :
      (x : A) (s : System A) (p : Producer A) → DeliversOne s (begin_push x s p)
  begin_push-DeliversOne x s Producer.idle = omega arith
  begin_push-DeliversOne x s p = omega arith

  begin_pop-DeliversOne : (s : System A) (c : Consumer A) → DeliversOne s (begin_pop s c)
  begin_pop-DeliversOne s Consumer.idle = omega arith
  begin_pop-DeliversOne s c = omega arith

  produce-DeliversOne :
      (s : System A) (o : Option (Turn A (Producer A))) → DeliversOne s (after_produce s o)
  produce-DeliversOne s none = omega arith
  produce-DeliversOne s (some t) = record_reply-delivered t.reply s.log

  consume-DeliversOne :
      (s : System A) (o : Option (Turn A (Consumer A))) → DeliversOne s (after_consume s o)
  consume-DeliversOne s none = omega arith
  consume-DeliversOne s (some t) = record_reply-delivered t.reply s.log

  step-DeliversOne : (e : Event A) (s : System A) → DeliversOne s (step moved e s)
  unfolding step
  step-DeliversOne (call_push x) s = begin_push-DeliversOne x s s.producer
  step-DeliversOne produce s = produce-DeliversOne s (emplace s.queue s.producer)
  step-DeliversOne call_pop s = begin_pop-DeliversOne s s.consumer
  step-DeliversOne consume s = consume-DeliversOne s (try_pop moved s.queue s.consumer)

  -- So as many events hand out at most as many items.
  pub run-delivered :
      (es : List (Event A)) (s : System A)
      → (length (delivered s.log) ≤ length (delivered (run moved es s).log))
        × (length (delivered (run moved es s).log) ≤ length (delivered s.log) + length es)
  unfolding run
  run-delivered [] s = omega arith
  run-delivered (e ∷ es) s = omega (arith, step-DeliversOne e s, run-delivered es (step moved e s))
