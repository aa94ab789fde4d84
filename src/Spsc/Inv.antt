-- ===== src/Spsc/Inv.antt =====
-- The invariant of the producer and the consumer. The 64-bit counters are read as remainders of
-- positions that grow without bound, so it holds through every wrap.
pub mod Produce
pub mod Consume
use yutil.Common.{
  ℕ, suc, ◌+◌, ◌-◌, ◌%◌, ◌^◌, ◌<◌, ◌≤◌, ◌≡◌, refl, Bool, true, false, Option, none, some, List, [],
  ◌∷◌, ◌++◌, length, get_elem?, word,
}
use yutil.Fifo.Bounded.{Call, Explained}
use yutil.Spsc.Queue.{SpscBoundedQueue, Producer, Consumer}

-- What the state does not show: the positions behind `head_`, `tail_` and their caches, and the
-- items that the calls which have returned leave in the queue.
pub record Ghost (A : Type 0) : Type 0 where
  pub head : ℕ
  pub tail : ℕ
  pub head_cache : ℕ
  pub tail_cache : ℕ
  pub items : List A

module _ {A : Type 0} where
  -- The object that the producer has constructed and not yet published.
  abbrev pub unpublished : Producer A → List A
  unpublished (Producer.publish x t) = x ∷ []
  unpublished _ = []

  -- Whether the consumer has moved out of the first slot.
  abbrev pub taken : Consumer A → ℕ
  taken (Consumer.destroy h v) = 1
  taken (Consumer.publish h v) = 1
  taken _ = 0

  abbrev pub ProducerFits : ℕ → Ghost A → Producer A → Type 0
  ProducerFits c g (Producer.reload x t) = t ≡ g.tail % word
  ProducerFits c g (Producer.construct x t) = (t ≡ g.tail % word) × (g.tail + 1 ≤ g.head_cache + c)
  ProducerFits c g (Producer.publish x t) = (t ≡ g.tail % word) × (g.tail + 1 ≤ g.head_cache + c)
  ProducerFits c g _ = Unit

  -- `first` is what the slot of the head holds.
  abbrev pub ConsumerFits : Option (Option A) → Ghost A → Consumer A → Type 0
  ConsumerFits first g (Consumer.reload h) = h ≡ g.head % word
  ConsumerFits first g (Consumer.read h) = (h ≡ g.head % word) × (g.head < g.tail_cache)
  ConsumerFits first g (Consumer.destroy h v) =
      (h ≡ g.head % word)
      × (g.head < g.tail_cache)
      × (get_elem? g.items 0 ≡ some v)
      × (w : A) × (first ≡ some (some w))
  ConsumerFits first g (Consumer.publish h v) =
      (h ≡ g.head % word)
      × (g.head < g.tail_cache)
      × (get_elem? g.items 0 ≡ some v)
      × (first ≡ some none)
  ConsumerFits first g _ = Unit

  pub record IsShaped (k : ℕ) (g : Ghost A) (q : SpscBoundedQueue A) : Type 0 where
    pub capacity : q.capacity ≡ 2 ^ k
    pub mask : q.mask ≡ 2 ^ k - 1
    pub storage : length q.storage ≡ 2 ^ k
    pub head : q.head ≡ g.head % word
    pub tail : q.tail ≡ g.tail % word
    pub head_cache : q.head_cache ≡ g.head_cache % word
    pub tail_cache : q.tail_cache ≡ g.tail_cache % word

  pub record IsOrdered (c : ℕ) (g : Ghost A) : Type 0 where
    pub head_seen : g.head_cache ≤ g.head
    pub tail_seen : g.tail_cache ≤ g.tail
    pub available : g.head ≤ g.tail_cache
    pub room : g.tail ≤ g.head_cache + c
    pub count : g.tail ≡ g.head + length g.items

  pub record Inv (k : ℕ) (g : Ghost A) (q : SpscBoundedQueue A) (p : Producer A) (c : Consumer A)
      (log : List (Call A)) : Type 0 where
    pub shape : IsShaped k g q
    pub order : IsOrdered (2 ^ k) g
    pub producer : ProducerFits (2 ^ k) g p
    pub consumer : ConsumerFits (get_elem? q.storage (g.head % 2 ^ k)) g c
    pub cells :
        (n : ℕ)
        → g.head + taken c ≤ n
        → n < g.head + 2 ^ k
        → get_elem? q.storage (n % 2 ^ k) ≡ some (get_elem? (g.items ++ unpublished p) (n - g.head))
    pub explained : Explained (2 ^ k) log (record { items = g.items; closed = false })
