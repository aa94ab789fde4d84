-- ===== src/Atomic/Cells.antt =====
-- The state that the three `BoundedAtomicMpmcQueue` classes share, and the places at which a thread
-- can stand inside `emplace` and `try_pop`: before each access that other threads can observe.
use yutil.Common.{
  ℕ, ◌+◌, ◌%◌, Bool, Option, none, some, List, [], ◌∷◌, suc, zero, ltb, word, set, ◌^◌,
}
use Prim.Native.Nat.{bit_and}

-- `none` in the storage: it holds no object.
pub record Cell {ℓ} (A : Type ℓ) : Type ℓ where
  pub sequence : ℕ
  pub storage : Option A

pub record Cells {ℓ} (A : Type ℓ) : Type ℓ where
  pub capacity : ℕ
  pub mask : ℕ
  pub cells : List (Cell A)
  pub enqueue_pos : ℕ
  pub dequeue_pos : ℕ
  pub closed : Bool

-- With the locals that live there. `spins` is `fail_spins`; V1 and V2 have none, and it stays 0 there.
pub data Place {ℓ} (A : Type ℓ) : Type ℓ where
  idle : Place A
  push_called : A → Place A  -- before the load of `closed_`
  push_start : A → Place A  -- before the first load of `enqueue_pos_`
  push_look : A → (pos spins : ℕ) → Place A  -- before the load of the sequence
  push_reload : A → (spins : ℕ) → Place A  -- before another load of `enqueue_pos_`
  push_claim : A → (pos spins : ℕ) → Place A  -- before the compare-exchange
  construct : A → (pos : ℕ) → Place A  -- before the placement `new`
  push_publish : A → (pos : ℕ) → Place A  -- before the store of the sequence
  pop_called : Place A  -- before the first load of `dequeue_pos_`
  pop_look : (pos spins : ℕ) → Place A  -- before the load of the sequence
  pop_reload : (spins : ℕ) → Place A  -- before another load of `dequeue_pos_`
  pop_claim : (pos spins : ℕ) → Place A  -- before the compare-exchange
  read : (pos : ℕ) → Place A  -- before the move out of the cell
  destroy : (pos : ℕ) → A → Place A  -- before the destructor
  pop_publish : (pos : ℕ) → A → Place A  -- before the store of the sequence

-- What a call has returned. A successful pop and push name the position that they have claimed.
pub data Reply {ℓ} (A : Type ℓ) : Type ℓ where
  pushed : (pos : ℕ) → A → Reply A
  refused : A → Reply A
  popped : (pos : ℕ) → A → Reply A
  nothing : Reply A
  closed : Bool → Reply A

-- The queue, the place that the thread reaches, and what it returns there.
pub record Turn {ℓ} (A : Type ℓ) : Type ℓ where
  pub queue : Cells A
  pub place : Place A
  pub reply : Option (Reply A)

-- How `drain_remaining` ends: `running` if its turns are too few, `fault` at an access that it must
-- not make.
pub data Drained {ℓ} (A : Type ℓ) : Type ℓ where
  running : Drained A
  fault : Drained A
  done : Cells A → Drained A

-- `static_cast<intptr_t>(seq) - static_cast<intptr_t>(pos) < 0`, for a difference that an `intptr_t`
-- can hold: the order of the two as signed numbers.
unfoldable pub is_behind : ℕ → ℕ → Bool
is_behind seq pos = ltb ((seq + 2 ^ 63) % word) ((pos + 2 ^ 63) % word)

module _ {ℓ} {A : Type ℓ} where
  -- The cells from number `i` on.
  unfoldable pub numbered : ℕ → ℕ → List (Cell A)
  numbered i zero = []
  numbered i (suc n) = record { sequence = i; storage = none } ∷ numbered (suc i) n

  -- The index of `cells_[pos & mask_]`.
  unfoldable pub slot : Cells A → ℕ → ℕ
  slot q pos = bit_and pos q.mask

  -- An assignment to that cell.
  unfoldable pub write : Cells A → ℕ → Cell A → Cells A
  unfolding slot
  write q pos c = record q { cells = set q.cells (slot q pos) c }

  abbrev pub move : Cells A → Place A → Turn A
  move q p = record { queue = q; place = p; reply = none }

  abbrev pub return : Cells A → Reply A → Turn A
  return q r = record { queue = q; place = Place.idle; reply = some r }

  -- The loop of `drain_remaining` behind a turn of `try_pop`: it goes on inside the call, ends on
  -- false, and calls again on true.
  abbrev pub loop_reply : (Cells A → Place A → Drained A) → Turn A → Option (Reply A) → Drained A
  loop_reply again t none = again t.queue t.place
  loop_reply again t (some Reply.nothing) = Drained.done t.queue
  loop_reply again t (some r) = again t.queue Place.pop_called

  abbrev pub loop : (Cells A → Place A → Drained A) → Option (Turn A) → Drained A
  loop again none = Drained.fault
  loop again (some t) = loop_reply again t t.reply
