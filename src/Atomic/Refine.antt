-- ===== src/Atomic/Refine.antt =====
-- A turn of a thread in `BoundedAtomicMpmcQueueV1` is a move of the protocol, and makes no access that
-- it must not.
pub mod Push
pub mod Pop
pub mod Turns
use yutil.Common.{
  ℕ, suc, ◌+◌, ◌-◌, ◌==◌, ◌%◌, ◌^◌, ◌<◌, ◌≤◌, ◌≡◌, ◌≢◌, ◌⊎◌, Bool, true, false, not, ◌&&◌, Option,
  none, some, List, [], ◌∷◌, ◌++◌, length, get_elem?, arith, set, get_elem?-set_self,
  get_elem?-set_ne, length-set, Bool-cases, inl, inr, if◌then◌else◌, sym, ap, ◌∙◌, refl, inc, word,
  ltb,
}
use mathlib.Core.Path.{subst}
use native.Mathlib.Nat.{mod-lt, add-mod_right}
use yutil.Common.Slots.{mod-window, get_elem?-of_lt}
use yutil.Common.Mask.{bit_and_mask, size-pos}
use yutil.Atomic.Cells.{Cell, Cells, Place, Turn, Reply, slot, write, move}
use yutil.Atomic.V1
use yutil.Atomic.Protocol.{
  Board, key, CellFits, Fits, IsBusy, cell, Inv, Move, Writes, filling, emptying, IsSilent, pushed,
  popped, rewritten,
}

module _ {A : Type 0} (k : ℕ) where
  pub record Matches (b : Board A) (q : Cells A) : Type 0 where
    pub capacity : q.capacity ≡ 2 ^ k
    pub mask : q.mask ≡ 2 ^ k - 1
    pub cells : length q.cells ≡ 2 ^ k
    pub enq : q.enqueue_pos ≡ b.enq
    pub deq : q.dequeue_pos ≡ b.deq
    pub at : (p : ℕ) → b.at p ≡ get_elem? q.cells (p % 2 ^ k)

  -- The turn is made, and it is a move.
  abbrev pub IsMove : Board A → Place A → Option (Turn A) → Type 0
  IsMove b p none = ⊥
  IsMove b p (some t) =
      (b' : Board A) × Move (2 ^ k) b p b' t.place t.reply
      × Matches b' t.queue
      × (b'.enq ≤ b.enq + 1)

module _ {A : Type 0} (k : ℕ) {b : Board A} {q : Cells A} (m : Matches k b q) where
  pub slot_lem : (p : ℕ) → slot q p ≡ p % 2 ^ k
  unfolding slot
  slot_lem p = rw (m.mask) (bit_and_mask k p)

  in_range : (p : ℕ) → p % 2 ^ k < length q.cells
  in_range p = omega (arith, m.cells, mod-lt p (size-pos k))

  -- The cell that is read at `pos`, which is that of `p`.
  pub look :
      (p pos : ℕ)
      → p % 2 ^ k ≡ pos % 2 ^ k
      → (d : Cell A) × (get_elem? q.cells (slot q pos) ≡ some d) × (b.at p ≡ some d)
  look p pos e =
      let (d, f) = get_elem?-of_lt q.cells (pos % 2 ^ k) (in_range pos) in
      (d, ap (get_elem? q.cells) (slot_lem pos) ∙ f, m.at p ∙ ap (get_elem? q.cells) e ∙ f)

  pub round : (p : ℕ) → b.at (p + 2 ^ k) ≡ b.at p
  round p = m.at (p + 2 ^ k) ∙ ap (get_elem? q.cells) (add-mod_right p (2 ^ k)) ∙ sym (m.at p)

  -- The cells behind a write.
  abbrev pub at_after : ℕ → Cell A → ℕ → Option (Cell A)
  at_after pos d p = get_elem? (set q.cells (slot q pos) d) (p % 2 ^ k)

  pub at_after_self : (a pos : ℕ) (d : Cell A) → a % 2 ^ k ≡ pos % 2 ^ k → at_after pos d a ≡ some d
  at_after_self a pos d e =
      ap (get_elem? (set q.cells (slot q pos) d)) (e ∙ sym (slot_lem pos))
      ∙ get_elem?-set_self q.cells (slot q pos) d (omega (arith, slot_lem pos, in_range pos))

  pub write-Matches :
      (pos : ℕ) (d : Cell A) → Matches k (rewritten b (at_after pos d)) (write q pos d)
  unfolding write
  write-Matches pos d = record {
    capacity = m.capacity;
    mask = m.mask;
    cells = length-set q.cells (slot q pos) d ∙ m.cells;
    enq = m.enq;
    deq = m.deq;
    at = λ p. refl;
  }

  pub write-Writes :
      (a pos : ℕ) (d : Cell A)
      → a % 2 ^ k ≡ pos % 2 ^ k
      → b.deq ≤ a
      → a < b.deq + 2 ^ k
      → CellFits (2 ^ k) b a (some d)
      → Writes (2 ^ k) b a (at_after pos d)
  write-Writes a pos d e lo hi f = record {
    same = λ p l h n.
        get_elem?-set_ne q.cells (slot q pos) (p % 2 ^ k) d (λ g.
          mod-window b.deq a p (2 ^ k) lo hi l h (λ t. n (sym t)) (e ∙ sym (slot_lem pos) ∙ g))
        ∙ sym (m.at p);
    fits = subst (CellFits (2 ^ k) b a) (sym (at_after_self a pos d e)) f;
  }

  -- What a read finds.
  pub found :
      (a pos : ℕ) {o : Option (Cell A)}
      → a % 2 ^ k ≡ pos % 2 ^ k
      → b.at a ≡ o
      → get_elem? q.cells (slot q pos) ≡ o
  found a pos e h = ap (get_elem? q.cells) (slot_lem pos ∙ sym e) ∙ sym (m.at a) ∙ h

  -- A thread goes on with the cell that it has.
  pub work-IsMove :
      {p p' : Place A} (a pos : ℕ) (d : Cell A)
      → a % 2 ^ k ≡ pos % 2 ^ k
      → key (2 ^ k) p ≡ some a
      → key (2 ^ k) p' ≡ some a
      → filling p' ≡ filling p
      → emptying p' ≡ emptying p
      → b.deq ≤ a
      → a < b.deq + 2 ^ k
      → CellFits (2 ^ k) b a (some d)
      → IsBusy (2 ^ k) b a (some d)
      → (at_after pos d a ≡ some d → Fits (2 ^ k) (rewritten b (at_after pos d)) p')
      → IsMove k b p (some (move (write q pos d) p'))
  work-IsMove a pos d e h h' f m' lo hi fit busy own =
      let self = at_after_self a pos d e in
      (
        rewritten b (at_after pos d),
        Move.work a (at_after pos d) h h' f m' (write-Writes a pos d e lo hi fit)
            (subst (IsBusy (2 ^ k) b a) (sym self) busy) (own self),
        write-Matches pos d,
        omega arith,
      )

module _ {A : Type 0} (k : ℕ) {b : Board A} {p : Place A} where
  pub if-IsMove :
      (t : Bool) (x y : Turn A)
      → (t ≡ true → IsMove k b p (some x))
      → (t ≡ false → IsMove k b p (some y))
      → IsMove k b p (some (if t then x else y))
  if-IsMove true x y h g = h refl
  if-IsMove false x y h g = g refl

  pub quiet-IsMove :
      (t : Turn A) {q : Cells A}
      → Matches k b q
      → t.queue ≡ q
      → key (2 ^ k) p ≡ none
      → key (2 ^ k) t.place ≡ none
      → IsSilent t.reply
      → Fits (2 ^ k) b t.place
      → IsMove k b p (some t)
  quiet-IsMove t m e h h' s f = (b, Move.quiet h h' s f, subst (Matches k b) (sym e) m, omega arith)
