-- ===== src/Atomic/Sequential/Push.antt =====
-- A push alone beside the push of the bounded FIFO queue.
use yutil.Common.{
  ℕ, suc, ◌+◌, ◌-◌, ◌%◌, ◌^◌, ◌<◌, ◌≡◌, some, [], ◌∷◌, ◌++◌, length, get_elem?, set, arith, ap, ◌∙◌,
  refl, sym, true, false, inc, ltb, not, Bool-cases, inl, inr, set-set, length-set,
  get_elem?-set_self, ◌||◌,
}
use mathlib.Core.Path.{subst}
use native.Mathlib.Decide.{dec_lt}
use native.Mathlib.Nat.{mod-lt, add-mod_right}
use yutil.Common.Slots.{slots, slots-set_snoc}
use yutil.Common.Mask.{bit_and_mask, size-pos}
use yutil.Atomic.Cells.{Cell, Cells, Place, Reply, slot, write}
use yutil.Atomic.V1
use yutil.Atomic.Alone.{solo}
use yutil.Atomic.Alone.Push.{closed_push, full_push, free_push, pushed_queue}
use yutil.Atomic.Reasons.{lt-behind}
use yutil.Atomic.Sequential.{values, Calm, contents, Serves, Request, Answer, serve}
use yutil.Atomic.Sequential.Slots.{values-snoc, slot-calm, length-contents, other_cell}

module _ {A : Type 0} (k : ℕ) {q : Cells A} (calm : Calm k q)
    (bound : q.enqueue_pos + 2 ^ k < 2 ^ 63) (x : A) where
  -- The cell behind the push, and the queue.
  abbrev built : Cell A
  built = record { sequence = q.enqueue_pos + 1; storage = some x }

  abbrev behind_push : Cells A
  behind_push = record q {
    enqueue_pos = q.enqueue_pos + 1;
    cells = set q.cells (q.enqueue_pos % 2 ^ k) built;
  }

  next : inc q.enqueue_pos ≡ q.enqueue_pos + 1
  next = omega (arith, bound)

  pushed_queue-eq : pushed_queue q x q.enqueue_pos ≡ behind_push
  unfolding write slot
  pushed_queue-eq =
      rw
        (
          calm.mask,
          bit_and_mask k q.enqueue_pos,
          next,
          set-set q.cells (q.enqueue_pos % 2 ^ k)
              (record { sequence = q.enqueue_pos; storage = some x }) built,
        )
        refl

  in_range : q.enqueue_pos % 2 ^ k < length q.cells
  in_range = omega (arith, calm.cells, mod-lt q.enqueue_pos (size-pos k))

  behind_push-Calm : q.enqueue_pos < q.dequeue_pos + 2 ^ k → Calm k behind_push
  behind_push-Calm l = record {
    capacity = calm.capacity;
    mask = calm.mask;
    cells = length-set q.cells (q.enqueue_pos % 2 ^ k) built ∙ calm.cells;
    order = omega (arith, calm.order);
    room = omega (arith, l);
    two = calm.two;
    full = λ p lo hi. elim (dec_lt p q.enqueue_pos) [
      | yes b ↦
          let (v, e) = calm.full p lo b in
          (
            v,
            other_cell k calm p q.enqueue_pos built calm.order l lo (omega (arith, l))
                  (λ e. omega arith)
                ∙ e,
          )
      | no b ↦
          let s : p ≡ q.enqueue_pos = omega arith in
          (x, rw s (get_elem?-set_self q.cells (q.enqueue_pos % 2 ^ k) built in_range))
    ];
    free = λ p lo hi.
        other_cell k calm p q.enqueue_pos built calm.order l (omega (arith, calm.order)) hi
          (λ e. omega arith)
        ∙ calm.free p (omega arith) hi;
  }

  behind_push-items :
      q.enqueue_pos < q.dequeue_pos + 2 ^ k
      → (contents behind_push).items ≡ (contents q).items ++ (x ∷ [])
  behind_push-items l =
      let n = q.enqueue_pos - q.dequeue_pos in
      let at : q.enqueue_pos ≡ q.dequeue_pos + n = omega (arith, calm.order) in
      let more : (q.enqueue_pos + 1) - q.dequeue_pos ≡ suc n = omega (arith, calm.order) in
      let cells' = set q.cells (q.enqueue_pos % 2 ^ k) built in
      ap (λ c. values (slots cells' c q.dequeue_pos (q.enqueue_pos + 1 - q.dequeue_pos)))
        calm.capacity
      ∙ ap (λ m. values (slots cells' (2 ^ k) q.dequeue_pos m)) more
      ∙ ap values (
          slots-set_snoc q.cells (2 ^ k) q.dequeue_pos n q.enqueue_pos built at (omega (arith, l))
            (omega (arith, calm.cells)))
      ∙ values-snoc (slots q.cells (2 ^ k) q.dequeue_pos n) (q.enqueue_pos + 1) x
      ∙ ap (λ c. values (slots q.cells c q.dequeue_pos n) ++ (x ∷ [])) (sym calm.capacity)

  refused-Serves :
      q.closed || not (ltb (length (contents q).items) (2 ^ k)) ≡ true
      → (Answer.pushed false, contents q) ≡ serve (2 ^ k) (Request.call_push x) (contents q)
  refused-Serves c = rw c refl

  free-Serves :
      q.closed ≡ false
      → q.enqueue_pos < q.dequeue_pos + 2 ^ k
      → Serves k q (Request.call_push x) (solo (V1.emplace false) 6 q (Place.push_called x))
  free-Serves c l =
      let e = q.enqueue_pos in
      let g = ap (get_elem? q.cells) (slot-calm k calm e) ∙ calm.free e (omega arith) l in
      let test : q.closed || not (ltb (length (contents q).items) (2 ^ k)) ≡ false =
        ground (arith, c, length-contents k calm, l, calm.order) in
      subst (Serves k q (Request.call_push x))
        (sym (
          free_push q x c g (omega (arith, slot-calm k calm e, in_range))
          ∙ ap (λ r. some (Reply.pushed e x, r)) pushed_queue-eq))
        (behind_push-Calm l, omega arith, rw (test, behind_push-items l) refl)

  full-Serves :
      q.closed ≡ false
      → q.enqueue_pos ≡ q.dequeue_pos + 2 ^ k
      → Serves k q (Request.call_push x) (solo (V1.emplace false) 6 q (Place.push_called x))
  full-Serves c l =
      let e = q.enqueue_pos in
      let d = q.dequeue_pos in
      let (v, at) = calm.full d (omega arith) (omega (arith, l, calm.two)) in
      let same : slot q e ≡ d % 2 ^ k =
        slot-calm k calm e ∙ ap (λ p. p % 2 ^ k) l ∙ add-mod_right d (2 ^ k) in
      let less : d + 1 < e = omega (arith, l, calm.two) in
      subst (Serves k q (Request.call_push x))
        (sym (
          full_push q x (record { sequence = d + 1; storage = some v }) c
            (ap (get_elem? q.cells) same ∙ at) (ground (arith, less))
            (lt-behind (d + 1) e less (omega (arith, bound)))))
        (calm, omega arith, refused-Serves (ground (arith, length-contents k calm, l)))

  pub push-Serves :
      Serves k q (Request.call_push x) (solo (V1.emplace false) 6 q (Place.push_called x))
  push-Serves = elim (Bool-cases q.closed) [
    | inl c ↦
        subst (Serves k q (Request.call_push x)) (sym (closed_push q x c))
          (calm, omega arith, refused-Serves (rw c refl))
    | inr c ↦ elim (dec_lt q.enqueue_pos (q.dequeue_pos + 2 ^ k)) [
      | yes l ↦ free-Serves c l
      | no l ↦ full-Serves c (omega (arith, calm.room))
    ]
  ]
