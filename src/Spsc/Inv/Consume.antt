-- ===== src/Spsc/Inv/Consume.antt =====
-- A turn of the consumer keeps the invariant, and makes no access that it must not.
pub mod Keeping
pub mod Slots
use yutil.Common.{
  ℕ, zero, suc, ◌+◌, ◌-◌, ◌%◌, ◌^◌, ◌<◌, ◌≤◌, ◌≡◌, ◌==◌, refl, sym, ap, ap₂, ◌∙◌, inl, inr, false,
  Bool-cases, Option, none, some, List, ◌∷◌, ◌++◌, length, get_elem?, set, word, arith,
  get_elem?-set_self, get_elem?-set_ne, get_elem?-of_ge, length-set, length-append, inc, first-item,
  eq-nil, first-rest,
}
use yutil.Common.Mask.{size-le, size-pos}
use yutil.Common.Slots.{mod-window}
use native.Mathlib.Decide.{ℕ_discrete}
use native.Mathlib.Nat.{mod-lt, add-mod_right}
use yutil.Fifo.Bounded.{Call}
use yutil.Spsc.Queue.{SpscBoundedQueue, Producer, Consumer, Turn, try_pop, slot}
use yutil.Spsc.System.{record_reply}
use yutil.Spsc.Inv.{Ghost, ProducerFits, IsShaped, IsOrdered, Inv, unpublished, taken}
use yutil.Spsc.Inv.Produce.Keeping.{slot_at}
use yutil.Spsc.Inv.Consume.Keeping.{Kept}
use yutil.Spsc.Inv.Consume.Slots.{read-Kept, destroy-Kept}

module _ {A : Type 0} (moved : A → A) (k : ℕ) (small : k ≤ 63) where
  ProducerFits-keep :
      (c : ℕ) (g g' : Ghost A) (p : Producer A)
      → g'.tail ≡ g.tail
      → g'.head_cache ≡ g.head_cache
      → ProducerFits c g p
      → ProducerFits c g' p
  ProducerFits-keep c g g' p e d f = ground arith

  room-unpublished :
      (g : Ghost A) (p : Producer A)
      → IsOrdered (2 ^ k) g
      → ProducerFits (2 ^ k) g p
      → length g.items + length (unpublished p) ≤ 2 ^ k
  room-unpublished g p o f = ground (arith, o)

  called-Kept :
      (g : Ghost A) (q : SpscBoundedQueue A) (p : Producer A) (log : List (Call A))
      → Inv k g q p Consumer.called log
      → Kept moved k q p Consumer.called log
  unfolding try_pop
  called-Kept g q p log i = elim (Bool-cases (q.tail_cache == q.head)) [
    | inl e ↦ (
      record { queue = q; place = Consumer.reload q.head; reply = none },
      g,
      rw e,
      record {
        shape = i.shape;
        order = i.order;
        producer = i.producer;
        consumer = i.shape.head;
        cells = i.cells;
        explained = i.explained;
      },
    )
    | inr e ↦ (
      record { queue = q; place = Consumer.read q.head; reply = none },
      g,
      rw e,
      record {
        shape = i.shape;
        order = i.order;
        producer = i.producer;
        consumer =
            (i.shape.head, ground (arith, i.shape.head, i.shape.tail_cache, i.order.available));
        cells = i.cells;
        explained = i.explained;
      },
    )
  ]

  reload-Kept :
      (g : Ghost A) (q : SpscBoundedQueue A) (p : Producer A) (h : ℕ) (log : List (Call A))
      → Inv k g q p (Consumer.reload h) log
      → Kept moved k q p (Consumer.reload h) log
  unfolding try_pop
  reload-Kept g q p h log i = elim (Bool-cases (q.tail == h)) [
    | inl e ↦ (
      record { queue = q'; place = Consumer.idle; reply = some (Call.try_pop none) },
      g',
      rw e,
      record {
        shape = shape;
        order = order;
        producer = producer;
        consumer = tt;
        cells = i.cells;
        explained = (
          record { items = g.items; closed = false },
          i.explained,
          (
            eq-nil g.items (ground (arith, size-le k small, i.consumer, i.shape.tail, i.order)),
            refl,
          ),
        );
      },
    )
    | inr e ↦ (
      record { queue = q'; place = Consumer.read h; reply = none },
      g',
      rw e,
      record {
        shape = shape;
        order = order;
        producer = producer;
        consumer = (i.consumer, ground (arith, i.consumer, i.shape.tail, i.order));
        cells = i.cells;
        explained = i.explained;
      },
    )
  ]
    where
      q' : SpscBoundedQueue A
      q' = record q { tail_cache = q.tail }

      g' : Ghost A
      g' = record g { tail_cache = g.tail }

      shape : IsShaped k g' q'
      shape = ground (arith, i.shape)

      order : IsOrdered (2 ^ k) g'
      order = ground (arith, i.order)

      producer : ProducerFits (2 ^ k) g' p
      producer = ProducerFits-keep (2 ^ k) g g' p refl refl i.producer

  publish-Kept :
      (g : Ghost A) (q : SpscBoundedQueue A) (p : Producer A) (h : ℕ) (v : A) (log : List (Call A))
      → Inv k g q p (Consumer.publish h v) log
      → Kept moved k q p (Consumer.publish h v) log
  unfolding try_pop
  publish-Kept g q p h v log i = (
    record {
      queue = record q { head = inc h };
      place = Consumer.idle;
      reply = some (Call.try_pop (some v));
    },
    g',
    refl,
    record {
      shape = ground (arith, i.shape, i.consumer.0);
      order = record {
        head_seen = omega (arith, i.order.head_seen);
        tail_seen = i.order.tail_seen;
        available = omega (arith, i.consumer.1);
        room = i.order.room;
        count = omega (arith, i.order.count, ap length split);
      };
      producer = ProducerFits-keep (2 ^ k) g g' p refl refl i.producer;
      consumer = tt;
      cells = cell;
      explained = (
        record { items = g.items; closed = false },
        i.explained,
        ap (λ xs. record { items = xs; closed = false }) split,
      );
    },
  )
    where
      ys : List A
      ys = (first-rest g.items v i.consumer.2).0

      split : g.items ≡ v ∷ ys
      split = (first-rest g.items v i.consumer.2).1

      g' : Ghost A
      g' = record g { head = g.head + 1; items = ys }

      cell :
          (n : ℕ)
          → g.head + 1 + 0 ≤ n
          → n < g.head + 1 + 2 ^ k
          → get_elem? q.storage (n % 2 ^ k)
            ≡ some (get_elem? (ys ++ unpublished p) (n - (g.head + 1)))
      cell n lo hi = elim (ℕ_discrete n (g.head + 2 ^ k)) [
        | yes e ↦
            ap (get_elem? q.storage) (ap (λ m. m % 2 ^ k) e ∙ add-mod_right g.head (2 ^ k))
            ∙ i.consumer.3
            ∙ ap some (
                sym (
                  get_elem?-of_ge (ys ++ unpublished p) (n - (g.head + 1)) (
                    omega (
                      arith,
                      length-append ys (unpublished p),
                      ap length split,
                      room-unpublished g p i.order i.producer,
                    ))))
        | no ne ↦
            i.cells n (omega arith) (omega arith)
            ∙ ap₂ (λ xs m. some (get_elem? (xs ++ unpublished p) m)) {v = suc (n - (g.head + 1))}
                split (omega arith)
      ]

  -- Every turn of the consumer.
  pub try_pop-Kept :
      (g : Ghost A) (q : SpscBoundedQueue A) (p : Producer A) (c : Consumer A) (log : List (Call A))
      → Inv k g q p c log
      → Kept moved k q p c log
  unfolding try_pop
  try_pop-Kept g q p Consumer.idle log i =
      (record { queue = q; place = Consumer.idle; reply = none }, g, refl, i)
  try_pop-Kept g q p Consumer.called log i = called-Kept g q p log i
  try_pop-Kept g q p (Consumer.reload h) log i = reload-Kept g q p h log i
  try_pop-Kept g q p (Consumer.read h) log i = read-Kept moved k small g q p h log i
  try_pop-Kept g q p (Consumer.destroy h v) log i = destroy-Kept moved k small g q p h v log i
  try_pop-Kept g q p (Consumer.publish h v) log i = publish-Kept g q p h v log i
