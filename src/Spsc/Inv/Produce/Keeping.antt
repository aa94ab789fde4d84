-- ===== src/Spsc/Inv/Produce/Keeping.antt =====
-- What a turn of the producer has to keep.
use yutil.Common.{ℕ, ◌+◌, ◌%◌, ◌^◌, ◌<◌, ◌≤◌, ◌≡◌, ◌∙◌, Option, some, List, get_elem?, word, arith}
use yutil.Common.Mask.{bit_and_position}
use yutil.Fifo.Bounded.{Call}
use yutil.Spsc.Queue.{SpscBoundedQueue, Producer, Consumer, Turn, emplace, slot}
use yutil.Spsc.System.{record_reply}
use yutil.Spsc.Inv.{Ghost, ConsumerFits, IsShaped, Inv, taken}

module _ {A : Type 0} where
  -- What the consumer knows is about the first item alone.
  pub taken-le :
      (first : Option (Option A)) (g : Ghost A) (c : Consumer A)
      → ConsumerFits first g c
      → g.head ≤ g.tail_cache
      → g.head + taken c ≤ g.tail_cache
  taken-le first g c f h = ground arith

  pub ConsumerFits-keep :
      (first first' : Option (Option A)) (g g' : Ghost A) (c : Consumer A)
      → g'.head ≡ g.head
      → g'.tail_cache ≡ g.tail_cache
      → (g.head < g.tail_cache → (first' ≡ first) × (get_elem? g'.items 0 ≡ get_elem? g.items 0))
      → ConsumerFits first g c
      → ConsumerFits first' g' c
  ConsumerFits-keep first first' g g' Consumer.idle e d h f = tt
  ConsumerFits-keep first first' g g' Consumer.called e d h f = tt
  ConsumerFits-keep first first' g g' (Consumer.reload n) e d h f = ground arith
  ConsumerFits-keep first first' g g' (Consumer.read n) e d h f = ground arith
  ConsumerFits-keep first first' g g' (Consumer.destroy n v) e d h (a, b, r, w, s) =
      let (p, q) = h b in (ground arith, omega arith, q ∙ r, w, p ∙ s)
  ConsumerFits-keep first first' g g' (Consumer.publish n v) e d h (a, b, r, s) =
      let (p, q) = h b in (ground arith, omega arith, q ∙ r, p ∙ s)

module _ {A : Type 0} (k : ℕ) where
  abbrev pub Kept : SpscBoundedQueue A → Producer A → Consumer A → List (Call A) → Type 0
  Kept q p c log =
      (t : Turn A (Producer A)) × (g : Ghost A) × (emplace q p ≡ some t)
      × Inv k g t.queue t.place c (record_reply t.reply log)

module _ {A : Type 0} (k : ℕ) (small : k ≤ 63) where
  -- The slot of a position.
  pub slot_at :
      (g : Ghost A) (q : SpscBoundedQueue A) (p i : ℕ)
      → IsShaped k g q
      → i ≡ p % word
      → slot q i ≡ p % 2 ^ k
  unfolding slot
  slot_at g q p i s e = rw (e, s.mask) (bit_and_position k p small)
