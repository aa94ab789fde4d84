-- ===== src/Spsc/Counters.antt =====
-- The counters of `SpscBoundedQueue` are the numbers of items that went in and out, modulo 2^64.
pub mod Delivered
use yutil.Common.{
  ap, ℕ, ◌+◌, ◌%◌, ◌≤◌, ◌≡◌, refl, Option, none, some, List, [], ◌∷◌, length, arith, word,
  length-snoc,
}
use yutil.Fifo.Bounded.{Call, accepted, delivered}
use yutil.Spsc.Queue.{SpscBoundedQueue, Producer, Consumer, Turn, create, emplace, try_pop}
use yutil.Spsc.System.{
  System, Event, call_push, produce, call_pop, consume, start, step, run, after_produce,
  after_consume, begin_push, begin_pop, record_reply,
}

module _ {A : Type 0} where
  -- A counter that a thread has read in its call is still what the queue holds.
  abbrev pub HoldsTail : ℕ → Producer A → Type 0
  HoldsTail n (Producer.reload x tail) = tail ≡ n
  HoldsTail n (Producer.construct x tail) = tail ≡ n
  HoldsTail n (Producer.publish x tail) = tail ≡ n
  HoldsTail n p = Unit

  abbrev pub HoldsHead : ℕ → Consumer A → Type 0
  HoldsHead n (Consumer.reload head) = head ≡ n
  HoldsHead n (Consumer.read head) = head ≡ n
  HoldsHead n (Consumer.destroy head v) = head ≡ n
  HoldsHead n (Consumer.publish head v) = head ≡ n
  HoldsHead n c = Unit

  pub record Counted (s : System A) : Type 0 where
    pub tail : s.queue.tail ≡ length (accepted s.log) % word
    pub head : s.queue.head ≡ length (delivered s.log) % word
    pub holds_tail : HoldsTail s.queue.tail s.producer
    pub holds_head : HoldsHead s.queue.head s.consumer

  -- What a turn of the producer leaves alone, and how it moves the tail with the log.
  abbrev Pushes : SpscBoundedQueue A → List (Call A) → Option (Turn A (Producer A)) → Type 0
  Pushes q log none = Unit
  Pushes q log (some t) =
      (t.queue.head ≡ q.head)
      × (length (delivered (record_reply t.reply log)) ≡ length (delivered log))
      × (t.queue.tail ≡ length (accepted (record_reply t.reply log)) % word)
      × HoldsTail t.queue.tail t.place

  emplace-Pushes :
      (q : SpscBoundedQueue A) (p : Producer A) (log : List (Call A))
      → q.tail ≡ length (accepted log) % word
      → HoldsTail q.tail p
      → Pushes q log (emplace q p)
  unfolding emplace
  emplace-Pushes q Producer.idle log e h = (refl, refl, e, tt)
  emplace-Pushes q (Producer.called x) log e h = ground arith
  emplace-Pushes q (Producer.reload x tail) log e h = ground arith
  emplace-Pushes q (Producer.construct x tail) log e h = ground (arith, h)
  emplace-Pushes q (Producer.publish x tail) log e h =
      ground (arith, h, length-snoc (accepted log) x)

  -- The same of the consumer and the head.
  abbrev Pops : SpscBoundedQueue A → List (Call A) → Option (Turn A (Consumer A)) → Type 0
  Pops q log none = Unit
  Pops q log (some t) =
      (t.queue.tail ≡ q.tail)
      × (length (accepted (record_reply t.reply log)) ≡ length (accepted log))
      × (t.queue.head ≡ length (delivered (record_reply t.reply log)) % word)
      × HoldsHead t.queue.head t.place

  module _ (moved : A → A) where
    try_pop-Pops :
        (q : SpscBoundedQueue A) (c : Consumer A) (log : List (Call A))
        → q.head ≡ length (delivered log) % word
        → HoldsHead q.head c
        → Pops q log (try_pop moved q c)
    unfolding try_pop
    try_pop-Pops q Consumer.idle log e h = (refl, refl, e, tt)
    try_pop-Pops q Consumer.called log e h = ground arith
    try_pop-Pops q (Consumer.reload head) log e h = ground arith
    try_pop-Pops q (Consumer.read head) log e h = ground (arith, h)
    try_pop-Pops q (Consumer.destroy head v) log e h = ground (arith, h)
    try_pop-Pops q (Consumer.publish head v) log e h =
        ground (arith, h, length-snoc (delivered log) v)

    after_produce-Counted :
        (s : System A) (o : Option (Turn A (Producer A)))
        → Pushes s.queue s.log o
        → Counted s
        → Counted (after_produce s o)
    after_produce-Counted s none p c = record {
      tail = c.tail;
      head = c.head;
      holds_tail = c.holds_tail;
      holds_head = c.holds_head;
    }
    after_produce-Counted s (some t) (h, d, e, l) c = record {
      tail = e;
      head = ground (arith, c.head);
      holds_tail = l;
      holds_head = rw h c.holds_head;
    }

    after_consume-Counted :
        (s : System A) (o : Option (Turn A (Consumer A)))
        → Pops s.queue s.log o
        → Counted s
        → Counted (after_consume s o)
    after_consume-Counted s none p c = record {
      tail = c.tail;
      head = c.head;
      holds_tail = c.holds_tail;
      holds_head = c.holds_head;
    }
    after_consume-Counted s (some t) (h, d, e, l) c = record {
      tail = ground (arith, c.tail);
      head = e;
      holds_tail = rw h c.holds_tail;
      holds_head = l;
    }

    begin_push-Counted :
        (x : A) (s : System A) (p : Producer A) → Counted s → Counted (begin_push x s p)
    begin_push-Counted x s Producer.idle c = record {
      tail = c.tail;
      head = c.head;
      holds_tail = tt;
      holds_head = c.holds_head;
    }
    begin_push-Counted x s p c = c

    begin_pop-Counted : (s : System A) (c : Consumer A) → Counted s → Counted (begin_pop s c)
    begin_pop-Counted s Consumer.idle c = record {
      tail = c.tail;
      head = c.head;
      holds_tail = c.holds_tail;
      holds_head = tt;
    }
    begin_pop-Counted s p c = c

    pub step-Counted : (e : Event A) (s : System A) → Counted s → Counted (step moved e s)
    unfolding step
    step-Counted (call_push x) s c = begin_push-Counted x s s.producer c
    step-Counted produce s c =
        after_produce-Counted s (emplace s.queue s.producer)
          (emplace-Pushes s.queue s.producer s.log c.tail c.holds_tail) c
    step-Counted call_pop s c = begin_pop-Counted s s.consumer c
    step-Counted consume s c =
        after_consume-Counted s (try_pop moved s.queue s.consumer)
          (try_pop-Pops s.queue s.consumer s.log c.head c.holds_head) c

    pub run-Counted : (es : List (Event A)) (s : System A) → Counted s → Counted (run moved es s)
    unfolding run
    run-Counted [] s c = c
    run-Counted (e ∷ es) s c = run-Counted es (step moved e s) (step-Counted e s c)

    pub start-Counted : (n : ℕ) → Counted (start {A = A} n)
    unfolding create
    start-Counted n = record { tail = refl; head = refl; holds_tail = tt; holds_head = tt }

    -- A turn of one thread leaves the counter of the other alone.
    after_consume-tail :
        (s : System A) (o : Option (Turn A (Consumer A)))
        → Pops s.queue s.log o
        → (after_consume s o).queue.tail ≡ s.queue.tail
    after_consume-tail s none p = refl
    after_consume-tail s (some t) p = p.0

    after_produce-head :
        (s : System A) (o : Option (Turn A (Producer A)))
        → Pushes s.queue s.log o
        → (after_produce s o).queue.head ≡ s.queue.head
    after_produce-head s none p = refl
    after_produce-head s (some t) p = p.0

    begin_pop-queue : (s : System A) (c : Consumer A) → (begin_pop s c).queue ≡ s.queue
    begin_pop-queue s Consumer.idle = refl
    begin_pop-queue s c = refl

    begin_push-queue : (x : A) (s : System A) (p : Producer A) → (begin_push x s p).queue ≡ s.queue
    begin_push-queue x s Producer.idle = refl
    begin_push-queue x s p = refl

    pub call_pop-tail : (s : System A) → (step moved call_pop s).queue.tail ≡ s.queue.tail
    unfolding step
    call_pop-tail s = ap (λ q. q.tail) (begin_pop-queue s s.consumer)

    pub call_push-head :
        (x : A) (s : System A) → (step moved (call_push x) s).queue.head ≡ s.queue.head
    unfolding step
    call_push-head x s = ap (λ q. q.head) (begin_push-queue x s s.producer)

    pub consume-tail : (s : System A) → Counted s → (step moved consume s).queue.tail ≡ s.queue.tail
    unfolding step
    consume-tail s c =
        after_consume-tail s (try_pop moved s.queue s.consumer)
          (try_pop-Pops s.queue s.consumer s.log c.head c.holds_head)

    pub produce-head : (s : System A) → Counted s → (step moved produce s).queue.head ≡ s.queue.head
    unfolding step
    produce-head s c =
        after_produce-head s (emplace s.queue s.producer)
          (emplace-Pushes s.queue s.producer s.log c.tail c.holds_tail)
