-- ===== src/Spsc/Inv/Consume/Keeping.antt =====
-- What a turn of the consumer has to keep.
use yutil.Common.{ℕ, ◌≡◌, some, List}
use yutil.Fifo.Bounded.{Call}
use yutil.Spsc.Queue.{SpscBoundedQueue, Producer, Consumer, Turn, try_pop}
use yutil.Spsc.System.{record_reply}
use yutil.Spsc.Inv.{Ghost, Inv}

module _ {A : Type 0} (moved : A → A) (k : ℕ) where
  abbrev pub Kept : SpscBoundedQueue A → Producer A → Consumer A → List (Call A) → Type 0
  Kept q p c log =
      (t : Turn A (Consumer A)) × (g : Ghost A) × (try_pop moved q c ≡ some t)
      × Inv k g t.queue p t.place (record_reply t.reply log)
