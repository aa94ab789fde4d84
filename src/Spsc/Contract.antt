-- ===== src/Spsc/Contract.antt =====
-- What `SpscBoundedQueue` promises to its producer and its consumer.
use yutil.Common.{
  ap, ◌==◌, is_empty, ℕ, ◌%◌, ◌^◌, ◌≤◌, ◌≡◌, refl, sym, ◌∙◌, false, none, some, List, [], ◌∷◌, ◌++◌,
  length, length-replicate, get_elem?-replicate, some-inj, arith,
}
use mathlib.Core.Path.{subst}
use native.Mathlib.Nat.{mod-lt}
use yutil.Common.Mask.{size-le, size-pos}
use yutil.Capacity.{normalize_capacity, normalize_total, Normalized}
use yutil.Fifo.Bounded.{Explained, accepted, delivered, Explained-IsOrdered}
use yutil.Spsc.Queue.{Producer, Consumer, create, size, size_of, empty}
use yutil.Spsc.System.{
  System, Event, call_push, produce, call_pop, consume, start, step, run, after_produce,
  after_consume, begin_push, begin_pop,
}
use yutil.Spsc.Inv.{Ghost, Inv}
use yutil.Spsc.Inv.Produce.{emplace-Kept}
use yutil.Spsc.Inv.Consume.{try_pop-Kept}

length-is_empty : {A : Type 0} (xs : List A) → (length xs == 0) ≡ is_empty xs
length-is_empty [] = refl
length-is_empty (x ∷ xs) = ground arith

module _ {A : Type 0} (moved : A → A) (k : ℕ) (small : k ≤ 63) where
  -- Nothing forbidden has been done, and the invariant holds.
  abbrev pub IsSafe : System A → Type 0
  IsSafe s = (s.crashed ≡ false) × (g : Ghost A) × Inv k g s.queue s.producer s.consumer s.log

  begin_push-IsSafe :
      (x : A) (s : System A) (p : Producer A) (g : Ghost A)
      → s.crashed ≡ false
      → Inv k g s.queue p s.consumer s.log
      → s.producer ≡ p
      → IsSafe (begin_push x s p)
  begin_push-IsSafe x s Producer.idle g d i e = (
    d,
    g,
    record {
      shape = i.shape;
      order = i.order;
      producer = tt;
      consumer = i.consumer;
      cells = i.cells;
      explained = i.explained;
    },
  )
  begin_push-IsSafe x s p g d i e = (d, g, rw e i)

  begin_pop-IsSafe :
      (s : System A) (c : Consumer A) (g : Ghost A)
      → s.crashed ≡ false
      → Inv k g s.queue s.producer c s.log
      → s.consumer ≡ c
      → IsSafe (begin_pop s c)
  begin_pop-IsSafe s Consumer.idle g d i e = (
    d,
    g,
    record {
      shape = i.shape;
      order = i.order;
      producer = i.producer;
      consumer = tt;
      cells = i.cells;
      explained = i.explained;
    },
  )
  begin_pop-IsSafe s c g d i e = (d, g, rw e i)

  pub step-IsSafe : (e : Event A) (s : System A) → IsSafe s → IsSafe (step moved e s)
  unfolding step
  step-IsSafe (call_push x) s (d, g, i) = begin_push-IsSafe x s s.producer g d i refl
  step-IsSafe produce s (d, g, i) =
      let (t, g', e, j) = emplace-Kept k small g s.queue s.producer s.consumer s.log i in
      subst (λ o. IsSafe (after_produce s o)) (sym e) (d, g', j)
  step-IsSafe call_pop s (d, g, i) = begin_pop-IsSafe s s.consumer g d i refl
  step-IsSafe consume s (d, g, i) =
      let (t, g', e, j) = try_pop-Kept moved k small g s.queue s.producer s.consumer s.log i in
      subst (λ o. IsSafe (after_consume s o)) (sym e) (d, g', j)

  run-IsSafe : (es : List (Event A)) (s : System A) → IsSafe s → IsSafe (run moved es s)
  unfolding run
  run-IsSafe [] s i = i
  run-IsSafe (e ∷ es) s i = run-IsSafe es (step moved e s) (step-IsSafe e s i)

  start-IsSafe : IsSafe (start (2 ^ k))
  unfolding create
  start-IsSafe = (
    refl,
    record { head = 0; tail = 0; head_cache = 0; tail_cache = 0; items = [] },
    record {
      shape = record {
        capacity = refl;
        mask = refl;
        storage = length-replicate (2 ^ k) none;
        head = refl;
        tail = refl;
        head_cache = refl;
        tail_cache = refl;
      };
      order = omega arith;
      producer = tt;
      consumer = tt;
      cells = λ n lo hi. get_elem?-replicate (2 ^ k) (n % 2 ^ k) none (mod-lt n (size-pos k));
      explained = refl;
    },
  )

module _ {A : Type 0} (moved : A → A) (requested n : ℕ) (bounded : requested ≤ 2 ^ 63)
    (rounded : normalize_capacity 64 requested ≡ some n) (es : List (Event A)) where
  pub normalized : Normalized requested n
  normalized =
      let (m, e, h) = normalize_total 64 requested (omega arith) bounded in
      subst (Normalized requested) (some-inj (sym e ∙ rounded)) h

  pub run-IsSafe_of_rounded :
      IsSafe moved normalized.log normalized.log_small (run moved es (start n))
  run-IsSafe_of_rounded = run-IsSafe moved normalized.log normalized.log_small es (start n) (
      subst (λ c. IsSafe moved normalized.log normalized.log_small (start c)) (sym normalized.power)
        (start-IsSafe moved normalized.log normalized.log_small))

  -- For every request of at most 2^63, every value that a move may leave behind and every
  -- interleaving of the shared accesses of one producer and one consumer, also when the 64-bit
  -- counters wrap: no object is constructed over another, read or destroyed where there is none;
  -- the calls that have returned are a history of a FIFO queue of the rounded capacity; and what
  -- `size` computes is the number of items that this history leaves.
  pub spsc_linearizable :
      let s = run moved es (start n) in
      (s.crashed ≡ false)
      × (items : List A) × Explained n s.log (record { items = items; closed = false })
      × (size s.queue ≡ length items)
  unfolding size size_of
  spsc_linearizable =
      let (d, g, i) = run-IsSafe_of_rounded in
      (
        d,
        g.items,
        subst
            (λ m.
              Explained m (run moved es (start n)).log (record { items = g.items; closed = false }))
            (sym normalized.power) i.explained,
        omega (
          arith,
          i.shape.head,
          i.shape.tail,
          i.order.count,
          i.order.room,
          i.order.head_seen,
          size-le normalized.log normalized.log_small,
        ),
      )

  -- Under the same conditions the values handed out, followed by some `size` further values, are
  -- the values accepted in order; `size` is at most the rounded capacity, and `empty` says whether
  -- there are no further values.
  pub spsc_order :
      let s = run moved es (start n) in
      (rest : List A) × (accepted s.log ≡ delivered s.log ++ rest)
      × (size s.queue ≡ length rest)
      × (size s.queue ≤ n)
      × (empty s.queue ≡ is_empty rest)
  unfolding empty
  spsc_order =
      let (d, items, e, c) = spsc_linearizable in
      let (o, b) =
        Explained-IsOrdered n (run moved es (start n)).log
          (record { items = items; closed = false }) e in
      (items, o, c, omega (arith, c, b), ap (λ m. m == 0) c ∙ length-is_empty items)
