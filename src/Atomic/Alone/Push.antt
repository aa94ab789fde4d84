-- ===== src/Atomic/Alone/Push.antt =====
-- The turns of one push alone.
use yutil.Common.{
  ℕ, ◌==◌, ◌<◌, ◌≡◌, true, false, Option, none, some, length, get_elem?, set, arith, ap, ◌∙◌, refl,
  inc, get_elem?-set_self, length-set,
}
use yutil.Atomic.Cells.{Cell, Cells, Place, Turn, Reply, slot, write, is_behind, move, return}
use yutil.Atomic.V1
use yutil.Atomic.Alone.{solo, solo_turn}

module _ {A : Type 0} (q : Cells A) (x : A) where
  pub closed_push :
      q.closed ≡ true
      → solo (V1.emplace false) 6 q (Place.push_called x) ≡ some (Reply.refused x, q)
  unfolding solo V1.emplace V1.is_closed
  closed_push c = rw c refl

  pub full_push :
      (d : Cell A)
      → q.closed ≡ false
      → get_elem? q.cells (slot q q.enqueue_pos) ≡ some d
      → (d.sequence == q.enqueue_pos) ≡ false
      → is_behind d.sequence q.enqueue_pos ≡ true
      → solo (V1.emplace false) 6 q (Place.push_called x) ≡ some (Reply.refused x, q)
  unfolding solo V1.emplace V1.is_closed
  full_push d c g e b = rw (c, g, e, b, V1.emplace) refl

  -- The queue behind the turns of a push that finds a free cell.
  abbrev pub pushed_queue : ℕ → Cells A
  pushed_queue pos =
      write
        (write (record q { enqueue_pos = inc pos }) pos
          (record { sequence = pos; storage = some x }))
        pos (record { sequence = inc pos; storage = some x })

  pub free_push :
      q.closed ≡ false
      → get_elem? q.cells (slot q q.enqueue_pos)
        ≡ some (record { sequence = q.enqueue_pos; storage = none })
      → slot q q.enqueue_pos < length q.cells
      → solo (V1.emplace false) 6 q (Place.push_called x)
        ≡ some (Reply.pushed q.enqueue_pos x, pushed_queue q.enqueue_pos)
  unfolding solo V1.emplace V1.is_closed slot write
  free_push c g l =
      let pos = q.enqueue_pos in
      let f : Cells A → Place A → Option (Turn A) = V1.emplace false in
      let t : (pos == pos) ≡ true = ground arith in
      let claimed : Cells A = record q { enqueue_pos = inc pos } in
      let built : Cells A = write claimed pos (record { sequence = pos; storage = some x }) in
      let e1 : f q (Place.push_called x) ≡ some (move q (Place.push_start x)) = rw c refl in
      let e3 : f q (Place.push_look x pos 0) ≡ some (move q (Place.push_claim x pos 0)) =
        rw (g, t, V1.emplace) refl in
      let e4 : f q (Place.push_claim x pos 0) ≡ some (move claimed (Place.construct x pos)) =
        rw t refl in
      let e5 : f claimed (Place.construct x pos) ≡ some (move built (Place.push_publish x pos)) =
        rw (g, V1.emplace) refl in
      let h =
        get_elem?-set_self q.cells (slot q pos) (record { sequence = pos; storage = some x }) l in
      let e6 : f built (Place.push_publish x pos)
          ≡ some (return (pushed_queue pos) (Reply.pushed pos x)) =
        rw (h, V1.emplace) refl in
      ap (solo_turn (solo f 5)) e1
      ∙ ap (solo_turn (solo f 3)) e3
      ∙ ap (solo_turn (solo f 2)) e4
      ∙ ap (solo_turn (solo f 1)) e5
      ∙ ap (solo_turn (solo f 0)) e6

  pub pushed_cell :
      (pos : ℕ)
      → slot q pos < length q.cells
      → get_elem? (pushed_queue pos).cells (slot q pos)
        ≡ some (record { sequence = inc pos; storage = some x })
  unfolding slot write
  pushed_cell pos l =
      let built : Cell A = record { sequence = pos; storage = some x } in
      get_elem?-set_self (set q.cells (slot q pos) built) (slot q pos)
        (record { sequence = inc pos; storage = some x })
        (omega (arith, l, length-set q.cells (slot q pos) built))

  pub pushed_enqueue_pos : (pos : ℕ) → (pushed_queue pos).enqueue_pos ≡ inc pos
  unfolding write
  pushed_enqueue_pos pos = refl
