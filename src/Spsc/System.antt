-- ===== src/Spsc/System.antt =====
-- The producer and the consumer interleaved over one queue.
use yutil.Common.{ℕ, Bool, true, false, Option, none, some, List, [], ◌∷◌}
use yutil.Fifo.Bounded.{Call}
use yutil.Spsc.Queue.{SpscBoundedQueue, Producer, Consumer, Turn, emplace, try_pop, create}

pub record System {ℓ} (A : Type ℓ) : Type ℓ where
  pub queue : SpscBoundedQueue A
  pub producer : Producer A
  pub consumer : Consumer A
  pub crashed : Bool  -- a turn has made an access that it must not
  pub log : List (Call A)  -- the calls that have returned, newest first

-- A thread begins a call, or takes the next turn of the one that it is in.
pub data Event {ℓ} (A : Type ℓ) : Type ℓ where
  call_push : A → Event A
  produce : Event A
  call_pop : Event A
  consume : Event A

module _ {ℓ} {A : Type ℓ} where
  abbrev pub start : ℕ → System A
  start normalized = record {
    queue = create normalized;
    producer = Producer.idle;
    consumer = Consumer.idle;
    crashed = false;
    log = [];
  }

  abbrev pub record_reply : Option (Call A) → List (Call A) → List (Call A)
  record_reply none log = log
  record_reply (some c) log = c ∷ log

  abbrev pub begin_push : A → System A → Producer A → System A
  begin_push x s Producer.idle = record s { producer = Producer.called x }
  begin_push x s _ = s

  abbrev pub begin_pop : System A → Consumer A → System A
  begin_pop s Consumer.idle = record s { consumer = Consumer.called }
  begin_pop s _ = s

  abbrev pub after_produce : System A → Option (Turn A (Producer A)) → System A
  after_produce s none = record s { crashed = true }
  after_produce s (some t) = record s {
    queue = t.queue;
    producer = t.place;
    log = record_reply t.reply s.log;
  }

  abbrev pub after_consume : System A → Option (Turn A (Consumer A)) → System A
  after_consume s none = record s { crashed = true }
  after_consume s (some t) = record s {
    queue = t.queue;
    consumer = t.place;
    log = record_reply t.reply s.log;
  }

  module _ (moved : A → A) where
    -- A thread that is in a call begins no other: such an event changes nothing.
    unfoldable pub step : Event A → System A → System A
    step (call_push x) s = begin_push x s s.producer
    step produce s = after_produce s (emplace s.queue s.producer)
    step call_pop s = begin_pop s s.consumer
    step consume s = after_consume s (try_pop moved s.queue s.consumer)

    unfoldable pub run : List (Event A) → System A → System A
    run [] s = s
    run (e ∷ es) s = run es (step e s)
