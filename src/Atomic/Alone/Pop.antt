-- ===== src/Atomic/Alone/Pop.antt =====
-- The turns of one pop alone.
use yutil.Common.{
  ℕ, ◌+◌, ◌%◌, ◌<◌, ◌==◌, ◌≡◌, true, false, Option, none, some, length, get_elem?, set, arith, ap,
  ◌∙◌, refl, inc, word, get_elem?-set_self, length-set,
}
use yutil.Atomic.Cells.{Cell, Cells, Place, Turn, Reply, slot, write, is_behind, move, return}
use yutil.Atomic.V1
use yutil.Atomic.Alone.{solo, solo_turn}

module _ {A : Type 0} (moved : A → A) (q : Cells A) where
  -- The cell of the next pop has not been published.
  pub empty_pop :
      (d : Cell A)
      → get_elem? q.cells (slot q q.dequeue_pos) ≡ some d
      → (d.sequence == inc q.dequeue_pos) ≡ false
      → is_behind d.sequence (inc q.dequeue_pos) ≡ true
      → solo (V1.try_pop moved false) 6 q Place.pop_called ≡ some (Reply.nothing, q)
  unfolding solo V1.try_pop
  empty_pop d g e b = rw (g, e, b, V1.try_pop) refl

  -- The queue behind the turns of a pop that finds `v`: the cell after each of its three writes.
  abbrev pub popped_queue : ℕ → A → Cells A
  popped_queue pos v =
      let claimed : Cells A = record q { dequeue_pos = inc pos } in
      let emptied : Cells A =
        write claimed pos (record { sequence = inc pos; storage = some (moved v) }) in
      let destroyed : Cells A = write emptied pos (record { sequence = inc pos; storage = none }) in
      write destroyed pos (record { sequence = (pos + q.capacity) % word; storage = none })

  pub full_pop :
      (v : A)
      → get_elem? q.cells (slot q q.dequeue_pos)
        ≡ some (record { sequence = inc q.dequeue_pos; storage = some v })
      → slot q q.dequeue_pos < length q.cells
      → solo (V1.try_pop moved false) 6 q Place.pop_called
        ≡ some (Reply.popped q.dequeue_pos v, popped_queue q.dequeue_pos v)
  unfolding solo V1.try_pop slot write
  full_pop v g l =
      let pos = q.dequeue_pos in
      let f : Cells A → Place A → Option (Turn A) = V1.try_pop moved false in
      let t : (pos == pos) ≡ true = ground arith in
      let u : (inc pos == inc pos) ≡ true = ground arith in
      let claimed : Cells A = record q { dequeue_pos = inc pos } in
      let c1 : Cell A = record { sequence = inc pos; storage = some (moved v) } in
      let c2 : Cell A = record { sequence = inc pos; storage = none } in
      let emptied : Cells A = write claimed pos c1 in
      let destroyed : Cells A = write emptied pos c2 in
      let e2 : f q (Place.pop_look pos 0) ≡ some (move q (Place.pop_claim pos 0)) =
        rw (g, u, V1.try_pop) refl in
      let e3 : f q (Place.pop_claim pos 0) ≡ some (move claimed (Place.read pos)) = rw t refl in
      let e4 : f claimed (Place.read pos) ≡ some (move emptied (Place.destroy pos v)) =
        rw (g, V1.try_pop) refl in
      let h1 = get_elem?-set_self q.cells (slot q pos) c1 l in
      let e5 : f emptied (Place.destroy pos v) ≡ some (move destroyed (Place.pop_publish pos v)) =
        rw (h1, V1.try_pop) refl in
      let h2 =
        get_elem?-set_self (set q.cells (slot q pos) c1) (slot q pos) c2
          (omega (arith, l, length-set q.cells (slot q pos) c1)) in
      let e6 : f destroyed (Place.pop_publish pos v)
          ≡ some (return (popped_queue pos v) (Reply.popped pos v)) =
        rw (h2, V1.try_pop) refl in
      ap (solo_turn (solo f 4)) e2
      ∙ ap (solo_turn (solo f 3)) e3
      ∙ ap (solo_turn (solo f 2)) e4
      ∙ ap (solo_turn (solo f 1)) e5
      ∙ ap (solo_turn (solo f 0)) e6
