-- ===== src/Atomic/Sequential/Pop.antt =====
-- A pop alone beside the pop of the bounded FIFO queue.
use yutil.Common.{
  ℕ, suc, ◌+◌, ◌-◌, ◌%◌, ◌^◌, ◌<◌, ◌≡◌, some, none, ◌∷◌, length, get_elem?, set, arith, ap, ◌∙◌,
  refl, sym, false, inc, word, set-set, length-set, get_elem?-set_self, eq-nil,
}
use mathlib.Core.Path.{subst}
use native.Mathlib.Decide.{dec_lt}
use native.Mathlib.Nat.{mod-lt, add-mod_right}
use yutil.Common.Slots.{slots, prepend, slots-set_ne}
use yutil.Common.Mask.{bit_and_mask, size-pos}
use yutil.Atomic.Cells.{Cell, Cells, Place, Reply, slot, write}
use yutil.Atomic.V1
use yutil.Atomic.Alone.{solo}
use yutil.Atomic.Alone.Pop.{empty_pop, full_pop, popped_queue}
use yutil.Atomic.Reasons.{lt-behind}
use yutil.Atomic.Sequential.{values, Calm, contents, Serves, Request, take_first}
use yutil.Atomic.Sequential.Slots.{slot-calm, length-contents, other_cell}

module _ {A : Type 0} (moved : A → A) (k : ℕ) {q : Cells A} (calm : Calm k q)
    (bound : q.enqueue_pos + 2 ^ k < 2 ^ 63) where
  -- The cell behind the pop, and the queue.
  abbrev bare : Cell A
  bare = record { sequence = q.dequeue_pos + 2 ^ k; storage = none }

  abbrev behind_pop : Cells A
  behind_pop = record q {
    dequeue_pos = q.dequeue_pos + 1;
    cells = set q.cells (q.dequeue_pos % 2 ^ k) bare;
  }

  next : inc q.dequeue_pos ≡ q.dequeue_pos + 1
  next = omega (arith, bound, calm.order)

  popped_queue-eq : (v : A) → popped_queue moved q q.dequeue_pos v ≡ behind_pop
  unfolding write slot
  popped_queue-eq v =
      let d = q.dequeue_pos in
      let i = d % 2 ^ k in
      let c1 : Cell A = record { sequence = d + 1; storage = some (moved v) } in
      let c2 : Cell A = record { sequence = d + 1; storage = none } in
      let wrap : (d + 2 ^ k) % word ≡ d + 2 ^ k = omega (arith, bound, calm.order) in
      rw
        (
          calm.mask,
          bit_and_mask k d,
          next,
          calm.capacity,
          wrap,
          set-set q.cells i c1 c2,
          set-set q.cells i c2 bare,
        )
        refl

  in_range : q.dequeue_pos % 2 ^ k < length q.cells
  in_range = omega (arith, calm.cells, mod-lt q.dequeue_pos (size-pos k))

  behind_pop-Calm : q.dequeue_pos < q.enqueue_pos → Calm k behind_pop
  behind_pop-Calm l =
      let d = q.dequeue_pos in
      let hi = d + 2 ^ k in
      record {
        capacity = calm.capacity;
        mask = calm.mask;
        cells = length-set q.cells (d % 2 ^ k) bare ∙ calm.cells;
        order = omega (arith, l);
        room = omega (arith, calm.room);
        two = calm.two;
        full = λ p lo u.
            let (v, e) = calm.full p (omega arith) u in
            (
              v,
              other_cell k calm p d bare (omega arith) (omega (arith, size-pos k)) (omega arith)
                    (omega (arith, calm.room)) (λ e. omega arith)
                  ∙ e,
            );
        free = λ p lo u. elim (dec_lt p (d + 2 ^ k)) [
          | yes b ↦
              other_cell k calm p d bare (omega arith) (omega (arith, size-pos k))
                (omega (arith, l)) b (λ e. omega (arith, l))
              ∙ calm.free p lo b
          | no b ↦
              let s : p ≡ d + 2 ^ k = omega arith in
              rw (s, add-mod_right d (2 ^ k)) (get_elem?-set_self q.cells (d % 2 ^ k) bare in_range)
        ];
      }

  contents-pop :
      (v : A)
      → q.dequeue_pos < q.enqueue_pos
      → get_elem? q.cells (q.dequeue_pos % 2 ^ k)
        ≡ some (record { sequence = q.dequeue_pos + 1; storage = some v })
      → (contents q).items ≡ v ∷ (contents behind_pop).items
  contents-pop v l g =
      let d = q.dequeue_pos in
      let n = q.enqueue_pos - (d + 1) in
      let more : q.enqueue_pos - d ≡ suc n = omega (arith, l) in
      let cells' = set q.cells (d % 2 ^ k) bare in
      let kept : slots cells' (2 ^ k) (d + 1) n ≡ slots q.cells (2 ^ k) (d + 1) n =
        ap (λ i. slots (set q.cells i bare) (2 ^ k) (d + 1) n) (sym (add-mod_right d (2 ^ k)))
        ∙ slots-set_ne q.cells (2 ^ k) (d + 1) n (d + 2 ^ k) bare (omega (arith, calm.room, l))
            (omega arith) in
      ap (λ c. values (slots q.cells c d (q.enqueue_pos - d))) calm.capacity
      ∙ ap (λ m. values (slots q.cells (2 ^ k) d m)) more
      ∙ ap (λ o. values (prepend o (slots q.cells (2 ^ k) (d + 1) n))) g
      ∙ ap (λ cs. v ∷ values cs) (sym kept)
      ∙ ap (λ c. v ∷ values (slots cells' c (d + 1) n)) (sym calm.capacity)

  pub try_pop-Serves :
      Serves k q Request.call_pop (solo (V1.try_pop moved false) 6 q Place.pop_called)
  try_pop-Serves =
      let d = q.dequeue_pos in
      elim (dec_lt d q.enqueue_pos) [
        | yes l ↦
            let (v, g) = calm.full d (omega arith) l in
            let g' =
              ap (get_elem? q.cells) (slot-calm k calm d)
              ∙ g
              ∙ ap (λ s. some (record { sequence = s; storage = some v })) (sym next) in
            subst (Serves k q Request.call_pop)
              (sym (
                full_pop moved q v g' (omega (arith, slot-calm k calm d, in_range))
                ∙ ap (λ r. some (Reply.popped d v, r)) (popped_queue-eq v)))
              (behind_pop-Calm l, omega arith, rw (contents-pop v l g, take_first) refl)
        | no l ↦
            let same : d ≡ q.enqueue_pos = omega (arith, calm.order) in
            let g =
              ap (get_elem? q.cells) (slot-calm k calm d)
              ∙ calm.free d (omega arith) (omega (arith, size-pos k)) in
            let none_left = eq-nil (contents q).items (omega (arith, length-contents k calm)) in
            subst (Serves k q Request.call_pop)
              (sym (
                empty_pop moved q (record { sequence = d; storage = none }) g (ground (arith, next))
                  (lt-behind d (inc d) (omega (arith, next))
                    (omega (arith, next, bound, calm.order, size-pos k)))))
              (calm, omega arith, sym (ap (take_first (contents q)) none_left))
      ]
