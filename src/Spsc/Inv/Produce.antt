-- ===== src/Spsc/Inv/Produce.antt =====
-- A turn of the producer keeps the invariant, and makes no access that it must not.
pub mod Keeping
pub mod Construct
use yutil.Common.{
  ℕ, ◌+◌, ◌-◌, ◌%◌, ◌^◌, ◌<◌, ◌≤◌, ◌≡◌, ◌≢◌, refl, sym, ap, ◌∙◌, inl, inr, true, false, Bool-cases,
  Option, none, some, List, [], ◌∷◌, ◌++◌, get_elem?, set, word, ltb, arith, get_elem?-set_self,
  get_elem?-set_ne, get_elem?-snoc_self, get_elem?-snoc_ne, get_elem?-of_ge, length-set,
  length-snoc, inc, append-nil,
}
use yutil.Common.Mask.{bit_and_position, size-le, size-pos}
use yutil.Common.Slots.{mod-window}
use native.Mathlib.Decide.{ℕ_discrete}
use native.Mathlib.Nat.{mod-lt}
use yutil.Fifo.Bounded.{Call}
use yutil.Spsc.Queue.{SpscBoundedQueue, Producer, Consumer, Turn, emplace, is_full, slot}
use yutil.Spsc.System.{record_reply}
use yutil.Spsc.Inv.{Ghost, ConsumerFits, IsShaped, IsOrdered, Inv, taken}
use yutil.Spsc.Inv.Produce.Keeping.{Kept, slot_at, taken-le, ConsumerFits-keep}
use yutil.Spsc.Inv.Produce.Construct.{construct-Kept}

module _ {A : Type 0} (k : ℕ) (small : k ≤ 63) where
  -- The test for room is right however often the counters have wrapped.
  full_at :
      (g : Ghost A) (q : SpscBoundedQueue A) (t : ℕ)
      → IsShaped k g q
      → IsOrdered (2 ^ k) g
      → t ≡ g.tail % word
      → is_full q t ≡ ltb (2 ^ k) (g.tail + 1 - g.head_cache)
  unfolding is_full
  full_at g q t s o e =
      rw (s.capacity) (ap (λ n. ltb (2 ^ k) n) (omega (arith, size-le k small, s.head_cache)))

  called-Kept :
      (g : Ghost A) (q : SpscBoundedQueue A) (x : A) (c : Consumer A) (log : List (Call A))
      → Inv k g q (Producer.called x) c log
      → Kept k q (Producer.called x) c log
  unfolding emplace
  called-Kept g q x c log i = elim (Bool-cases (is_full q q.tail)) [
    | inl full ↦ (
      record { queue = q; place = Producer.reload x q.tail; reply = none },
      g,
      rw full,
      record {
        shape = i.shape;
        order = i.order;
        producer = i.shape.tail;
        consumer = i.consumer;
        cells = i.cells;
        explained = i.explained;
      },
    )
    | inr room ↦ (
      record { queue = q; place = Producer.construct x q.tail; reply = none },
      g,
      rw room,
      record {
        shape = i.shape;
        order = i.order;
        producer = (i.shape.tail, ground (arith, full_at g q q.tail i.shape i.order i.shape.tail));
        consumer = i.consumer;
        cells = i.cells;
        explained = i.explained;
      },
    )
  ]

  reload-Kept :
      (g : Ghost A) (q : SpscBoundedQueue A) (x : A) (t : ℕ) (c : Consumer A) (log : List (Call A))
      → Inv k g q (Producer.reload x t) c log
      → Kept k q (Producer.reload x t) c log
  unfolding emplace
  reload-Kept g q x t c log i = elim (Bool-cases (is_full q' t)) [
    | inl full ↦ (
      record { queue = q'; place = Producer.idle; reply = some (Call.try_push x false) },
      g',
      rw full,
      record {
        shape = shape;
        order = order;
        producer = tt;
        consumer = i.consumer;
        cells = i.cells;
        explained = (
          record { items = g.items; closed = false },
          i.explained,
          (inr (ground (arith, test, i.order.count, i.order.room)), refl),
        );
      },
    )
    | inr room ↦ (
      record { queue = q'; place = Producer.construct x t; reply = none },
      g',
      rw room,
      record {
        shape = shape;
        order = order;
        producer = (i.producer, ground (arith, test));
        consumer = i.consumer;
        cells = i.cells;
        explained = i.explained;
      },
    )
  ]
    where
      q' : SpscBoundedQueue A
      q' = record q { head_cache = q.head }

      g' : Ghost A
      g' = record g { head_cache = g.head }

      shape : IsShaped k g' q'
      shape = ground (arith, i.shape)

      order : IsOrdered (2 ^ k) g'
      order = ground (arith, i.order)

      test : is_full q' t ≡ ltb (2 ^ k) (g.tail + 1 - g.head)
      test = full_at g' q' t shape order i.producer

  publish-Kept :
      (g : Ghost A) (q : SpscBoundedQueue A) (x : A) (t : ℕ) (c : Consumer A) (log : List (Call A))
      → Inv k g q (Producer.publish x t) c log
      → Kept k q (Producer.publish x t) c log
  unfolding emplace
  publish-Kept g q x t c log i = (
    record {
      queue = record q { tail = inc t };
      place = Producer.idle;
      reply = some (Call.try_push x true);
    },
    record g { tail = g.tail + 1; items = g.items ++ (x ∷ []) },
    refl,
    record {
      shape = ground (arith, i.shape, i.producer.0);
      order = ground (arith, i.order, i.producer, length-snoc g.items x);
      producer = tt;
      consumer =
          ConsumerFits-keep _ _ g (record g { tail = g.tail + 1; items = g.items ++ (x ∷ []) }) c
            refl refl
            (λ h. (
              refl,
              get_elem?-snoc_ne g.items x 0 (omega (arith, i.order.count, i.order.tail_seen)),
            ))
            i.consumer;
      cells = λ n lo hi. rw append-nil (i.cells n lo hi);
      explained = (
        record { items = g.items; closed = false },
        i.explained,
        (refl, omega (arith, i.order.count, i.order.head_seen, i.producer.1), refl),
      );
    },
  )

  -- Every turn of the producer.
  pub emplace-Kept :
      (g : Ghost A) (q : SpscBoundedQueue A) (p : Producer A) (c : Consumer A) (log : List (Call A))
      → Inv k g q p c log
      → Kept k q p c log
  unfolding emplace
  emplace-Kept g q Producer.idle c log i =
      (record { queue = q; place = Producer.idle; reply = none }, g, refl, i)
  emplace-Kept g q (Producer.called x) c log i = called-Kept g q x c log i
  emplace-Kept g q (Producer.reload x t) c log i = reload-Kept g q x t c log i
  emplace-Kept g q (Producer.construct x t) c log i = construct-Kept k small g q x t c log i
  emplace-Kept g q (Producer.publish x t) c log i = publish-Kept g q x t c log i
