-- ===== src/Atomic/Protocol.antt =====
-- The protocol of the sequence numbers with positions that grow without bound in place of indices,
-- and what threads at their places rely on.
pub mod Others
pub mod Moves
pub mod Tickets
pub mod Ledger
pub mod Calm
use yutil.Common.{
  ℕ, ◌+◌, ◌<◌, ◌≤◌, ◌≡◌, ◌≢◌, ◌⊎◌, Option, none, some, List, [], ◌∷◌, ◌++◌, length, get_elem?,
}
use yutil.Atomic.Cells.{Cell, Place, Reply}
use yutil.Atomic.System.{update}

-- `enq` and `deq` are the next positions to claim, `at p` is the cell of position `p`, and `pushes`
-- the values whose pushes have claimed positions 0, 1, 2 and so on.
pub record Board (A : Type 0) : Type 0 where
  pub enq : ℕ
  pub deq : ℕ
  pub at : ℕ → Option (Cell A)
  pub pushes : List A

module _ {A : Type 0} where
  -- The next push claims its position, and the next pop.
  abbrev pub pushed : Board A → A → Board A
  pushed b x = record b { enq = b.enq + 1; pushes = b.pushes ++ (x ∷ []) }

  abbrev pub popped : Board A → Board A
  popped b = record b { deq = b.deq + 1 }

  abbrev pub rewritten : Board A → (ℕ → Option (Cell A)) → Board A
  rewritten b at' = record b { at = at' }

  -- The position that a thread fills or empties.
  abbrev pub filling : Place A → Option ℕ
  filling (Place.construct x pos) = some pos
  filling (Place.push_publish x pos) = some pos
  filling _ = none

  abbrev pub emptying : Place A → Option ℕ
  emptying (Place.read pos) = some pos
  emptying (Place.destroy pos v) = some pos
  emptying (Place.pop_publish pos v) = some pos
  emptying _ = none

  abbrev pub IsSilent : Option (Reply A) → Type 0
  IsSilent (some (Reply.pushed pos x)) = ⊥
  IsSilent (some (Reply.popped pos v)) = ⊥
  IsSilent _ = Unit

module _ {A : Type 0} (c : ℕ) where
  -- The position whose cell a thread works on alone. A pop gives its cell to the position one round
  -- of `c` cells later.
  abbrev pub key : Place A → Option ℕ
  key (Place.construct x pos) = some pos
  key (Place.push_publish x pos) = some pos
  key (Place.read pos) = some (pos + c)
  key (Place.destroy pos v) = some (pos + c)
  key (Place.pop_publish pos v) = some (pos + c)
  key _ = none

  -- A cell of the window is ready to be popped, being filled, free, or being emptied.
  abbrev pub CellFits : Board A → ℕ → Option (Cell A) → Type 0
  CellFits b p none = ⊥
  CellFits b p (some d) =
      ((p < b.enq) × (d.sequence ≡ p + 1) × (d.storage ≡ get_elem? b.pushes p))
      ⊎ ((p < b.enq) × (d.sequence ≡ p))
      ⊎ ((b.enq ≤ p) × (d.sequence ≡ p) × (d.storage ≡ none))
      ⊎ ((b.enq ≤ p) × (d.sequence + c ≡ p + 1))

  -- A cell that is being filled or emptied.
  abbrev pub IsBusy : Board A → ℕ → Option (Cell A) → Type 0
  IsBusy b p none = ⊥
  IsBusy b p (some d) = ((p < b.enq) × (d.sequence ≡ p)) ⊎ ((b.enq ≤ p) × (d.sequence + c ≡ p + 1))

  abbrev pub cell : ℕ → Option A → Option (Cell A)
  cell s o = some (record { sequence = s; storage = o })

  abbrev pub Fits : Board A → Place A → Type 0
  Fits b (Place.push_look x pos spins) = pos ≤ b.enq
  Fits b (Place.push_claim x pos spins) =
      (pos ≤ b.enq) × (pos ≡ b.enq → (b.enq < b.deq + c) × (b.at b.enq ≡ cell b.enq none))
  Fits b (Place.construct x pos) =
      (pos < b.enq) × (b.deq ≤ pos) × (b.at pos ≡ cell pos none) × (get_elem? b.pushes pos ≡ some x)
  Fits b (Place.push_publish x pos) =
      (pos < b.enq)
      × (b.deq ≤ pos)
      × (b.at pos ≡ cell pos (some x))
      × (get_elem? b.pushes pos ≡ some x)
  Fits b (Place.pop_look pos spins) = pos ≤ b.deq
  Fits b (Place.pop_claim pos spins) =
      (pos ≤ b.deq)
      × (pos ≡ b.deq → (b.deq < b.enq) × (b.at b.deq ≡ cell (b.deq + 1) (get_elem? b.pushes b.deq)))
  Fits b (Place.read pos) =
      (pos < b.deq) × (b.enq ≤ pos + c) × (b.at (pos + c) ≡ cell (pos + 1) (get_elem? b.pushes pos))
  Fits b (Place.destroy pos v) =
      (pos < b.deq)
      × (b.enq ≤ pos + c)
      × (get_elem? b.pushes pos ≡ some v)
      × (w : A) × (b.at (pos + c) ≡ cell (pos + 1) (some w))
  Fits b (Place.pop_publish pos v) =
      (pos < b.deq)
      × (b.enq ≤ pos + c)
      × (get_elem? b.pushes pos ≡ some v)
      × (b.at (pos + c) ≡ cell (pos + 1) none)
  Fits b _ = Unit

  pub record Inv (b : Board A) (places : ℕ → Place A) : Type 0 where
    pub two : 2 ≤ c
    pub count : b.enq ≡ length b.pushes
    pub order : b.deq ≤ b.enq
    pub room : b.enq ≤ b.deq + c
    pub cells : (p : ℕ) → b.deq ≤ p → p < b.deq + c → CellFits b p (b.at p)
    pub fits : (i : ℕ) → Fits b (places i)
    pub apart : (i j a : ℕ) → key (places i) ≡ some a → key (places j) ≡ some a → i ≡ j
    pub held :
        (p : ℕ)
        → b.deq ≤ p
        → p < b.deq + c
        → IsBusy b p (b.at p)
        → (i : ℕ) × (key (places i) ≡ some p)

  -- A write to the cell of position `a`.
  pub record Writes (b : Board A) (a : ℕ) (at' : ℕ → Option (Cell A)) : Type 0 where
    pub same : (q : ℕ) → b.deq ≤ q → q < b.deq + c → q ≢ a → at' q ≡ b.at q
    pub fits : CellFits b a (at' a)

  -- What a turn of a thread may do, and the reply that it may give.
  pub data Move (b : Board A) : Place A → Board A → Place A → Option (Reply A) → Type 0 where
    quiet :
        {p p' : Place A} {r : Option (Reply A)}
        → key p ≡ none
        → key p' ≡ none
        → IsSilent r
        → Fits b p'
        → Move b p b p' r
    claim_push :
        (x : A) (pos spins : ℕ)
        → pos ≡ b.enq
        → Move b (Place.push_claim x pos spins) (pushed b x) (Place.construct x pos) none
    claim_pop :
        (pos spins : ℕ)
        → pos ≡ b.deq
        → b.at (b.deq + c) ≡ b.at b.deq
        → Move b (Place.pop_claim pos spins) (popped b) (Place.read pos) none
    work :
        (a : ℕ) (at' : ℕ → Option (Cell A)) {p p' : Place A}
        → key p ≡ some a
        → key p' ≡ some a
        → filling p' ≡ filling p
        → emptying p' ≡ emptying p
        → Writes b a at'
        → IsBusy b a (at' a)
        → Fits (rewritten b at') p'
        → Move b p (rewritten b at') p' none
    end_push :
        (x : A) (pos : ℕ) (at' : ℕ → Option (Cell A))
        → Writes b pos at'
        → (IsBusy b pos (at' pos) → ⊥)
        → Move b (Place.push_publish x pos) (rewritten b at') Place.idle (some (Reply.pushed pos x))
    end_pop :
        (v : A) (pos : ℕ) (at' : ℕ → Option (Cell A))
        → Writes b (pos + c) at'
        → (IsBusy b (pos + c) (at' (pos + c)) → ⊥)
        → Move b (Place.pop_publish pos v) (rewritten b at') Place.idle (some (Reply.popped pos v))
