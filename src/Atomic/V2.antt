-- ===== src/Atomic/V2.antt =====
-- ds/queue/bounded_atomic_mpmc_queue_v2.hpp: `BoundedAtomicMpmcQueueV2`.
use yutil.Common.{
  List, [], ◌∷◌, ℕ, ◌+◌, ◌-◌, ◌%◌, ◌==◌, Bool, true, false, not, ◌&&◌, Option, none, some,
  get_elem?, if◌then◌else◌, inc, word,
}
use yutil.Capacity
use mathlib.Core.Option
use yutil.Atomic.Cells.{
  Drained, loop, Cells, Place, Turn, Reply, is_behind, numbered, slot, write, move, return,
}

-- Its data members. Each of the two counters has a cache line of its own, and each cell.
abbrev pub BoundedAtomicMpmcQueueV2 {ℓ} : Type ℓ → Type ℓ
BoundedAtomicMpmcQueueV2 = Cells

-- The private member of this name, on fuel, which is word for word the same in each class.
unfoldable pub normalize_capacity : (fuel capacity : ℕ) → Option ℕ
normalize_capacity = Capacity.normalize_capacity

module _ {ℓ} {A : Type ℓ} where
  -- What the constructor makes of a capacity that `normalize_capacity` has rounded.
  unfoldable pub create : ℕ → Cells A
  unfolding numbered
  create normalized = record {
    capacity = normalized;
    mask = normalized - 1;
    cells = numbered 0 normalized;
    enqueue_pos = 0;
    dequeue_pos = 0;
    closed = false;
  }

  -- The constructor, on the fuel of `normalize_capacity`.
  unfoldable pub construct : (fuel capacity : ℕ) → Option (BoundedAtomicMpmcQueueV2 A)
  unfolding create normalize_capacity
  construct fuel capacity = Option.map create (normalize_capacity fuel capacity)

  unfoldable pub close : Cells A → Bool × Cells A
  close q = (not q.closed, record q { closed = true })

  unfoldable pub is_closed : Cells A → Bool
  is_closed q = q.closed

  -- One turn of `emplace`; `fails` makes the weak compare-exchange fail for no reason. `none`: an
  -- object is constructed over another, or an access is outside the cells.
  unfoldable pub emplace : Bool → Cells A → Place A → Option (Turn A)
  unfolding is_behind slot write is_closed
  emplace fails q (Place.push_called x) =
      some (if is_closed q then return q (Reply.refused x) else move q (Place.push_start x))
  emplace fails q (Place.push_start x) = some (move q (Place.push_look x q.enqueue_pos 0))
  emplace fails q (Place.push_look x pos spins) = elim (get_elem? q.cells (slot q pos)) [
    | none ↦ none
    | some c ↦ some (
        if c.sequence == pos
        then move q (Place.push_claim x pos spins)
        else (if is_behind c.sequence pos
            then return q (Reply.refused x)
            else move q (Place.push_reload x spins)))
  ]
  emplace fails q (Place.push_reload x spins) =
      some (move q (Place.push_look x q.enqueue_pos spins))
  emplace fails q (Place.push_claim x pos spins) = some (
      if (q.enqueue_pos == pos) && not fails
      then move (record q { enqueue_pos = inc pos }) (Place.construct x pos)
      else move q (Place.push_look x q.enqueue_pos spins))
  emplace fails q (Place.construct x pos) = elim (get_elem? q.cells (slot q pos)) [
    | none ↦ none
    | some c ↦ elim c.storage [
      | some w ↦ none
      | none ↦ some (move (write q pos (record c { storage = some x })) (Place.push_publish x pos))
    ]
  ]
  emplace fails q (Place.push_publish x pos) = elim (get_elem? q.cells (slot q pos)) [
    | none ↦ none
    | some c ↦ some (return (write q pos (record c { sequence = inc pos })) (Reply.pushed pos x))
  ]
  emplace fails q p = some (move q p)

  -- Both overloads.
  unfoldable pub try_push : Bool → Cells A → Place A → Option (Turn A)
  unfolding emplace
  try_push fails q p = emplace fails q p

  -- One turn of `try_pop`. `none`: an access to a cell that holds no object or to none at all.
  -- `moved v` is what the move assignment of `T` leaves behind.
  unfoldable pub try_pop : (A → A) → Bool → Cells A → Place A → Option (Turn A)
  unfolding is_behind slot write
  try_pop moved fails q Place.pop_called = some (move q (Place.pop_look q.dequeue_pos 0))
  try_pop moved fails q (Place.pop_look pos spins) = elim (get_elem? q.cells (slot q pos)) [
    | none ↦ none
    | some c ↦ some (
        if c.sequence == inc pos
        then move q (Place.pop_claim pos spins)
        else (if is_behind c.sequence (inc pos)
            then return q Reply.nothing
            else move q (Place.pop_reload spins)))
  ]
  try_pop moved fails q (Place.pop_reload spins) =
      some (move q (Place.pop_look q.dequeue_pos spins))
  try_pop moved fails q (Place.pop_claim pos spins) = some (
      if (q.dequeue_pos == pos) && not fails
      then move (record q { dequeue_pos = inc pos }) (Place.read pos)
      else move q (Place.pop_look q.dequeue_pos spins))
  try_pop moved fails q (Place.read pos) = elim (get_elem? q.cells (slot q pos)) [
    | none ↦ none
    | some c ↦ elim c.storage [
      | none ↦ none
      | some v ↦
          some (move (write q pos (record c { storage = some (moved v) })) (Place.destroy pos v))
    ]
  ]
  try_pop moved fails q (Place.destroy pos v) = elim (get_elem? q.cells (slot q pos)) [
    | none ↦ none
    | some c ↦ elim c.storage [
      | none ↦ none
      | some w ↦ some (move (write q pos (record c { storage = none })) (Place.pop_publish pos v))
    ]
  ]
  try_pop moved fails q (Place.pop_publish pos v) = elim (get_elem? q.cells (slot q pos)) [
    | none ↦ none
    | some c ↦ some (
        return (write q pos (record c { sequence = (pos + q.capacity) % word }))
          (Reply.popped pos v))
  ]
  try_pop moved fails q p = some (move q p)

  -- `while (try_pop(value))` in the thread of the destructor, a turn for each element of the list;
  -- `true` makes a compare-exchange fail for no reason.
  unfoldable pub drain_remaining : (A → A) → List Bool → Cells A → Place A → Drained A
  unfolding try_pop
  drain_remaining moved [] q p = Drained.running
  drain_remaining moved (fails ∷ more) q p =
      loop (drain_remaining moved more) (try_pop moved fails q p)
