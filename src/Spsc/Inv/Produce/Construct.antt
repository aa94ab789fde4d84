-- ===== src/Spsc/Inv/Produce/Construct.antt =====
-- The turn of the producer that constructs an object.
use yutil.Common.{
  ℕ, ◌+◌, ◌-◌, ◌%◌, ◌^◌, ◌<◌, ◌≤◌, ◌≡◌, ◌≢◌, refl, sym, ap, ◌∙◌, none, some, List, [], ◌∷◌, ◌++◌,
  get_elem?, set, arith, get_elem?-set_self, get_elem?-set_ne, get_elem?-snoc_self,
  get_elem?-snoc_ne, get_elem?-of_ge, length-set, append-nil,
}
use yutil.Common.Mask.{size-pos}
use yutil.Common.Slots.{mod-window}
use native.Mathlib.Decide.{ℕ_discrete}
use native.Mathlib.Nat.{mod-lt}
use yutil.Fifo.Bounded.{Call}
use yutil.Spsc.Queue.{SpscBoundedQueue, Producer, Consumer, emplace, slot}
use yutil.Spsc.Inv.{Ghost, Inv, taken}
use yutil.Spsc.Inv.Produce.Keeping.{Kept, slot_at, taken-le, ConsumerFits-keep}

module _ {A : Type 0} (k : ℕ) (small : k ≤ 63) where
  pub construct-Kept :
      (g : Ghost A) (q : SpscBoundedQueue A) (x : A) (t : ℕ) (c : Consumer A) (log : List (Call A))
      → Inv k g q (Producer.construct x t) c log
      → Kept k q (Producer.construct x t) c log
  unfolding emplace
  construct-Kept g q x t c log i = (
    record {
      queue = record q { storage = set q.storage (slot q t) (some x) };
      place = Producer.publish x t;
      reply = none;
    },
    g,
    rw (vacant, emplace),
    record {
      shape = record {
        capacity = i.shape.capacity;
        mask = i.shape.mask;
        storage = length-set q.storage (slot q t) (some x) ∙ i.shape.storage;
        head = i.shape.head;
        tail = i.shape.tail;
        head_cache = i.shape.head_cache;
        tail_cache = i.shape.tail_cache;
      };
      order = i.order;
      producer = i.producer;
      consumer =
          ConsumerFits-keep _ _ g g c refl refl
            (λ h. (
              get_elem?-set_ne q.storage (slot q t) (g.head % 2 ^ k) (some x) (
                  apart g.head (omega arith) (omega (arith, size-pos k))
                    (omega (arith, i.order.tail_seen))),
              refl,
            ))
            i.consumer;
      cells = cell;
      explained = i.explained;
    },
  )
    where
      here : slot q t ≡ g.tail % 2 ^ k
      here = slot_at k small g q g.tail t i.shape i.producer.0

      early : g.head + taken c ≤ g.tail
      early = omega (arith, taken-le _ g c i.consumer i.order.available, i.order.tail_seen)

      last : g.tail < g.head + 2 ^ k
      last = omega (arith, i.producer.1, i.order.head_seen)

      vacant : get_elem? q.storage (slot q t) ≡ some none
      vacant =
          ap (get_elem? q.storage) here
          ∙ i.cells g.tail early last
          ∙ ap (λ xs. some (get_elem? xs (g.tail - g.head))) (append-nil g.items)
          ∙ ap some (get_elem?-of_ge g.items (g.tail - g.head) (omega (arith, i.order.count)))

      -- Another position of the window has another slot.
      apart : (n : ℕ) → g.head ≤ n → n < g.head + 2 ^ k → n ≢ g.tail → slot q t ≢ n % 2 ^ k
      apart n lo hi ne e =
          mod-window g.head g.tail n (2 ^ k) (omega (arith, early)) last lo hi (λ f. ne (sym f))
            (sym here ∙ e)

      cell :
          (n : ℕ)
          → g.head + taken c ≤ n
          → n < g.head + 2 ^ k
          → get_elem? (set q.storage (slot q t) (some x)) (n % 2 ^ k)
            ≡ some (get_elem? (g.items ++ (x ∷ [])) (n - g.head))
      cell n lo hi = elim (ℕ_discrete n g.tail) [
        | yes e ↦
            ap (get_elem? (set q.storage (slot q t) (some x))) (ap (λ m. m % 2 ^ k) e ∙ sym here)
            ∙ get_elem?-set_self q.storage (slot q t) (some x)
                (rw (here, i.shape.storage) (mod-lt g.tail (size-pos k)))
            ∙ ap some (
                sym (
                  ap (get_elem? (g.items ++ (x ∷ []))) (omega (arith, i.order.count))
                  ∙ get_elem?-snoc_self g.items x))
        | no ne ↦
            get_elem?-set_ne q.storage (slot q t) (n % 2 ^ k) (some x) (apart n (omega arith) hi ne)
            ∙ i.cells n lo hi
            ∙ ap (λ xs. some (get_elem? xs (n - g.head))) (append-nil g.items)
            ∙ ap some (
                sym (
                  get_elem?-snoc_ne g.items x (n - g.head)
                    (λ f. ne (omega (arith, i.order.count)))))
      ]
