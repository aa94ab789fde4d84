-- ===== src/Spsc/Inv/Consume/Slots.antt =====
-- The two turns of the consumer that write to the slot of the head.
use yutil.Common.{
  ℕ, zero, ◌+◌, ◌-◌, ◌%◌, ◌^◌, ◌<◌, ◌≤◌, ◌≡◌, sym, ap, ap₂, ◌∙◌, Option, none, some, List, ◌∷◌,
  ◌++◌, get_elem?, set, word, arith, get_elem?-set_self, get_elem?-set_ne, length-set, first-item,
}
use yutil.Common.Mask.{size-pos}
use yutil.Common.Slots.{mod-window}
use native.Mathlib.Nat.{mod-lt}
use yutil.Fifo.Bounded.{Call}
use yutil.Spsc.Queue.{SpscBoundedQueue, Producer, Consumer, try_pop, slot}
use yutil.Spsc.Inv.{Ghost, IsShaped, Inv, unpublished, taken}
use yutil.Spsc.Inv.Produce.Keeping.{slot_at}
use yutil.Spsc.Inv.Consume.Keeping.{Kept}

module _ {A : Type 0} (moved : A → A) (k : ℕ) (small : k ≤ 63) where
  -- A write to the first slot while the consumer is in it.
  module _ (g : Ghost A) (q : SpscBoundedQueue A) (p : Producer A) (c : Consumer A) (h : ℕ)
      (log : List (Call A)) (o : Option A) (i : Inv k g q p c log) (at : h ≡ g.head % word) where
    abbrev written : SpscBoundedQueue A
    written = record q { storage = set q.storage (slot q h) o }

    here : slot q h ≡ g.head % 2 ^ k
    here = slot_at k small g q g.head h i.shape at

    written-IsShaped : IsShaped k g written
    written-IsShaped = record {
      capacity = i.shape.capacity;
      mask = i.shape.mask;
      storage = length-set q.storage (slot q h) o ∙ i.shape.storage;
      head = i.shape.head;
      tail = i.shape.tail;
      head_cache = i.shape.head_cache;
      tail_cache = i.shape.tail_cache;
    }

    written-first : get_elem? written.storage (g.head % 2 ^ k) ≡ some o
    written-first =
        ap (get_elem? written.storage) (sym here)
        ∙ get_elem?-set_self q.storage (slot q h) o
            (rw (here, i.shape.storage) (mod-lt g.head (size-pos k)))

    written-cells :
        (n : ℕ)
        → g.head + taken c ≤ n
        → g.head + 1 ≤ n
        → n < g.head + 2 ^ k
        → get_elem? written.storage (n % 2 ^ k)
          ≡ some (get_elem? (g.items ++ unpublished p) (n - g.head))
    written-cells n lo lo' hi =
        get_elem?-set_ne q.storage (slot q h) (n % 2 ^ k) o (λ e.
          mod-window g.head g.head n (2 ^ k) (omega arith) (omega (arith, size-pos k)) (omega arith)
            hi (omega arith) (sym here ∙ e))
        ∙ i.cells n lo hi

  pub read-Kept :
      (g : Ghost A) (q : SpscBoundedQueue A) (p : Producer A) (h : ℕ) (log : List (Call A))
      → Inv k g q p (Consumer.read h) log
      → Kept moved k q p (Consumer.read h) log
  unfolding try_pop
  read-Kept g q p h log i = (
    record {
      queue = written g q p (Consumer.read h) h log (some (moved v)) i at;
      place = Consumer.destroy h v;
      reply = none;
    },
    g,
    rw (live, try_pop),
    record {
      shape = written-IsShaped g q p (Consumer.read h) h log (some (moved v)) i at;
      order = i.order;
      producer = i.producer;
      consumer = (
        at,
        i.consumer.1,
        ap (λ xs. get_elem? xs 0) found.2,
        moved v,
        written-first g q p (Consumer.read h) h log (some (moved v)) i at,
      );
      cells = λ n lo hi.
          written-cells g q p (Consumer.read h) h log (some (moved v)) i at n (omega arith) lo hi;
      explained = i.explained;
    },
  )
    where
      at : h ≡ g.head % word
      at = i.consumer.0

      found : (x : A) × (ys : List A) × (g.items ≡ x ∷ ys)
      found = first-item g.items (omega (arith, i.consumer.1, i.order.tail_seen, i.order.count))

      v : A
      v = found.0

      live : get_elem? q.storage (slot q h) ≡ some (some v)
      live =
          ap (get_elem? q.storage) (slot_at k small g q g.head h i.shape at)
          ∙ i.cells g.head (omega arith) (omega (arith, size-pos k))
          ∙ ap₂ (λ xs n. some (get_elem? (xs ++ unpublished p) n)) {v = zero} found.2 (omega arith)

  pub destroy-Kept :
      (g : Ghost A) (q : SpscBoundedQueue A) (p : Producer A) (h : ℕ) (v : A) (log : List (Call A))
      → Inv k g q p (Consumer.destroy h v) log
      → Kept moved k q p (Consumer.destroy h v) log
  unfolding try_pop
  destroy-Kept g q p h v log i = (
    record {
      queue = written g q p (Consumer.destroy h v) h log none i at;
      place = Consumer.publish h v;
      reply = none;
    },
    g,
    rw (live, try_pop),
    record {
      shape = written-IsShaped g q p (Consumer.destroy h v) h log none i at;
      order = i.order;
      producer = i.producer;
      consumer = (
        at,
        i.consumer.1,
        i.consumer.2,
        written-first g q p (Consumer.destroy h v) h log none i at,
      );
      cells = λ n lo hi. written-cells g q p (Consumer.destroy h v) h log none i at n lo lo hi;
      explained = i.explained;
    },
  )
    where
      at : h ≡ g.head % word
      at = i.consumer.0

      live : get_elem? q.storage (slot q h) ≡ some (some i.consumer.3)
      live = ap (get_elem? q.storage) (slot_at k small g q g.head h i.shape at) ∙ i.consumer.4
