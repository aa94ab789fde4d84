-- ===== src/Spsc/Size.antt =====
-- `size()` of `SpscBoundedQueue` as its two loads, with what other threads do in between.
use yutil.Common.{
  ℕ, ◌+◌, ◌%◌, ◌^◌, ◌<◌, ◌≤◌, ◌≡◌, ◌⊎◌, inl, inr, refl, sym, ◌∙◌, ap, some, List, [], ◌∷◌, ◌++◌,
  length, arith, word, length-append,
}
use native.Mathlib.Decide.{dec_le}
use yutil.Common.Mask.{size-le}
use yutil.Capacity.{normalize_capacity}
use yutil.Fifo.Bounded.{accepted, delivered}
use yutil.Spsc.Queue.{size, size_of}
use yutil.Spsc.System.{System, Event, call_push, produce, call_pop, consume, start, step, run}
use yutil.Spsc.Counters.{
  Counted, call_pop-tail, call_push-head, consume-tail, produce-head, step-Counted, run-Counted,
  start-Counted,
}
use yutil.Spsc.Counters.Delivered.{run-delivered}
use yutil.Spsc.Contract.{normalized, spsc_order}

-- The call of a third thread: the load of `tail_`, the events of the others, the load of `head_`.
unfoldable pub size_during : {A : Type 0} → (A → A) → (between : List (Event A)) → System A → ℕ
size_during moved between s = size_of s.queue.tail (run moved between s).queue.head

-- A difference modulo 2^64 of counters that are `p` and `d` modulo 2^64.
difference :
    (tail head p d d0 r n m : ℕ)
    → tail ≡ p % word
    → head ≡ d % word
    → p ≡ d0 + r
    → d0 ≤ d
    → d ≤ d0 + m
    → r ≤ n
    → n ≤ 2 ^ 63
    → m < 2 ^ 62
    → ((d ≤ p) × (size_of tail head + d ≡ p) × (size_of tail head ≤ n))
      ⊎ ((p < d) × (size_of tail head + d ≡ p + word) × (n < size_of tail head))
unfolding size_of
difference tail head p d d0 r n m t u e l h f b few = elim (dec_le d p) [
  | yes y ↦ inl (omega arith)
  | no k ↦ inr (omega arith)
]

module _ {A : Type 0} (moved : A → A) (requested n : ℕ) (bounded : requested ≤ 2 ^ 63)
    (rounded : normalize_capacity 64 requested ≡ some n) (es between : List (Event A))
    (few : length between < 2 ^ 62) where
  -- `size()` called by a third thread in any reachable state, with fewer than 2^62 events of the
  -- producer and the consumer between its two loads. If not more items have been taken out by the
  -- second load than were in by the first, the result is their difference, at most the rounded
  -- capacity; otherwise it is that difference plus 2^64, above the capacity.
  pub size_during_count :
      let s = run moved es (start n) in
      let pushed = length (accepted s.log) in
      let popped = length (delivered (run moved between s).log) in
      let result = size_during moved between s in
      ((popped ≤ pushed) × (result + popped ≡ pushed) × (result ≤ n))
      ⊎ ((pushed < popped) × (result + popped ≡ pushed + word) × (n < result))
  unfolding size_during
  size_during_count =
      let s = run moved es (start n) in
      let (rest, o, c, le, _) = spsc_order moved requested n bounded rounded es in
      let w = normalized moved requested n bounded rounded es in
      let i = run-Counted moved es (start n) (start-Counted moved n) in
      let j = run-Counted moved between s i in
      let d = run-delivered moved between s in
      let l : length (accepted s.log) ≡ length (delivered s.log) + length rest =
        ap length o ∙ length-append (delivered s.log) rest in
      let n63 : n ≤ 2 ^ 63 = omega (arith, w.power, size-le w.log w.log_small) in
      difference s.queue.tail (run moved between s).queue.head (length (accepted s.log))
        (length (delivered (run moved between s).log)) (length (delivered s.log)) (length rest) n
        (length between) i.tail j.head l d.0 d.1 (omega (arith, c, le)) n63 few

-- The turns of one of the two threads.
abbrev pub ByConsumer : {A : Type 0} → List (Event A) → Type 0
ByConsumer [] = Unit
ByConsumer (call_pop ∷ es) = ByConsumer es
ByConsumer (consume ∷ es) = ByConsumer es
ByConsumer (e ∷ es) = ⊥

abbrev pub ByProducer : {A : Type 0} → List (Event A) → Type 0
ByProducer [] = Unit
ByProducer (call_push x ∷ es) = ByProducer es
ByProducer (produce ∷ es) = ByProducer es
ByProducer (e ∷ es) = ⊥

module _ {A : Type 0} (moved : A → A) where
  run-append :
      (es more : List (Event A)) (s : System A)
      → run moved (es ++ more) s ≡ run moved more (run moved es s)
  unfolding run
  run-append [] more s = refl
  run-append (e ∷ es) more s = run-append es more (step moved e s)

  consumer-tail :
      (es : List (Event A)) (s : System A)
      → Counted s
      → ByConsumer es
      → (run moved es s).queue.tail ≡ s.queue.tail
  unfolding run
  consumer-tail [] s c h = refl
  consumer-tail (call_pop ∷ es) s c h =
      consumer-tail es (step moved call_pop s) (step-Counted moved call_pop s c) h
      ∙ call_pop-tail moved s
  consumer-tail (consume ∷ es) s c h =
      consumer-tail es (step moved consume s) (step-Counted moved consume s c) h
      ∙ consume-tail moved s c
  consumer-tail (call_push x ∷ es) s c h = absurd h
  consumer-tail (produce ∷ es) s c h = absurd h

  producer-head :
      (es : List (Event A)) (s : System A)
      → Counted s
      → ByProducer es
      → (run moved es s).queue.head ≡ s.queue.head
  unfolding run
  producer-head [] s c h = refl
  producer-head (call_push x ∷ es) s c h =
      producer-head es (step moved (call_push x) s) (step-Counted moved (call_push x) s c) h
      ∙ call_push-head moved x s
  producer-head (produce ∷ es) s c h =
      producer-head es (step moved produce s) (step-Counted moved produce s c) h
      ∙ produce-head moved s c
  producer-head (call_pop ∷ es) s c h = absurd h
  producer-head (consume ∷ es) s c h = absurd h

module _ {A : Type 0} (moved : A → A) (requested n : ℕ) (bounded : requested ≤ 2 ^ 63)
    (rounded : normalize_capacity 64 requested ≡ some n) (es between : List (Event A)) where
  -- If only the consumer runs between the two loads, or only the producer, as when one of the two
  -- threads itself asks for the size, the result is the size at the second load or that at the first,
  -- and at most the rounded capacity.
  pub size_during_linearizable :
      ByConsumer between ⊎ ByProducer between
      → let s = run moved es (start n) in
        ((size_during moved between s ≡ size s.queue)
          ⊎ (size_during moved between s ≡ size (run moved between s).queue))
        × (size_during moved between s ≤ n)
  unfolding size_during size
  size_during_linearizable (inl h) =
      let s = run moved es (start n) in
      let i = run-Counted moved es (start n) (start-Counted moved n) in
      let e : size_during moved between s ≡ size (run moved between s).queue =
        ap (λ t. size_of t (run moved between s).queue.head)
          (sym (consumer-tail moved between s i h)) in
      let (rest, o, c, le, _) = spsc_order moved requested n bounded rounded (es ++ between) in
      let r = ap (λ u. size u.queue) (run-append moved es between (start n)) in
      (inr e, omega (arith, e, r, le))
  size_during_linearizable (inr h) =
      let s = run moved es (start n) in
      let i = run-Counted moved es (start n) (start-Counted moved n) in
      let e : size_during moved between s ≡ size s.queue =
        ap (λ d. size_of s.queue.tail d) (producer-head moved between s i h) in
      let (rest, o, c, le, _) = spsc_order moved requested n bounded rounded es in
      (inl e, omega (arith, e, le))
