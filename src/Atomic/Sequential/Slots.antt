-- ===== src/Atomic/Sequential/Slots.antt =====
-- The items that the cells between the two counters hold, and a write to one cell.
use yutil.Common.{
  ℕ, zero, suc, ◌+◌, ◌-◌, ◌%◌, ◌^◌, ◌<◌, ◌≤◌, ◌≡◌, ◌≢◌, some, List, [], ◌∷◌, ◌++◌, length,
  get_elem?, set, arith, ap, refl, get_elem?-set_ne,
}
use yutil.Common.Slots.{slots, mod-window}
use yutil.Common.Mask.{bit_and_mask}
use yutil.Atomic.Cells.{Cell, Cells, slot}
use yutil.Atomic.Sequential.{values, Calm, contents}

module _ {A : Type 0} where
  pub values-snoc :
      (cs : List (Cell A)) (s : ℕ) (x : A)
      → values (cs ++ (record { sequence = s; storage = some x } ∷ [])) ≡ values cs ++ (x ∷ [])
  values-snoc [] s x = refl
  values-snoc (c ∷ cs) s x = ground (arith, values-snoc cs s x)

  -- The slots between two counters hold an object each.
  abbrev IsFull : List (Cell A) → ℕ → ℕ → ℕ → Type 0
  IsFull buf c p n =
      (i : ℕ)
      → p ≤ i
      → i < p + n
      → (v : A) × (get_elem? buf (i % c) ≡ some (record { sequence = i + 1; storage = some v }))

  pub length-values :
      (buf : List (Cell A)) (c p n : ℕ) → IsFull buf c p n → length (values (slots buf c p n)) ≡ n
  length-values buf c p zero h = refl
  length-values buf c p (suc n) h =
      let (v, e) = h p (omega arith) (omega arith) in
      rw e (ap suc (length-values buf c (p + 1) n (λ i l u. h i (omega arith) (omega arith))))

  module _ (k : ℕ) {q : Cells A} (calm : Calm k q) where
    pub slot-calm : (p : ℕ) → slot q p ≡ p % 2 ^ k
    unfolding slot
    slot-calm p = rw (calm.mask) (bit_and_mask k p)

    pub length-contents : length (contents q).items ≡ q.enqueue_pos - q.dequeue_pos
    length-contents = rw (calm.capacity) (
        length-values q.cells (2 ^ k) q.dequeue_pos (q.enqueue_pos - q.dequeue_pos)
          (λ i l u. calm.full i l (omega (arith, calm.order))))

    -- A write to the cell of one position leaves the others of the window alone.
    pub other_cell :
        (p w : ℕ) (c : Cell A)
        → q.dequeue_pos ≤ w
        → w < q.dequeue_pos + 2 ^ k
        → q.dequeue_pos ≤ p
        → p < q.dequeue_pos + 2 ^ k
        → w ≢ p
        → get_elem? (set q.cells (w % 2 ^ k) c) (p % 2 ^ k) ≡ get_elem? q.cells (p % 2 ^ k)
    other_cell p w c a b d e n =
        get_elem?-set_ne q.cells (w % 2 ^ k) (p % 2 ^ k) c
          (mod-window q.dequeue_pos w p (2 ^ k) a b d e n)
