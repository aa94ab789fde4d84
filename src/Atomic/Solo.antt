-- ===== src/Atomic/Solo.antt =====
-- A push while no other thread is in a call.
use yutil.Common.{
  Bool, ◌*◌, ℕ, ◌+◌, ◌%◌, ◌^◌, ◌<◌, ◌≤◌, ◌≡◌, ◌⊎◌, true, false, Option, none, some, List, length,
  get_elem?, arith, inl, inr, Bool-cases, sym, ap, ◌∙◌, inc, some-inj,
}
use mathlib.Core.Path.{subst}
use native.Mathlib.Decide.{dec_lt}
use native.Mathlib.Nat.{add-mod_right}
use yutil.Capacity.{normalize_capacity}
use yutil.Atomic.Cells.{Cells, Place, Reply, slot}
use yutil.Atomic.V1
use yutil.Atomic.Alone.{solo, attempt, attempt-erase}
use yutil.Atomic.Alone.Failures.{emplace-attempt}
use yutil.Atomic.Drain.{failures}
use yutil.Atomic.Alone.Push.{
  closed_push, full_push, free_push, pushed_cell, pushed_enqueue_pos, pushed_queue,
}
use yutil.Atomic.Class.{Class, emplace}
use yutil.Atomic.System.{Event, start, run}
use yutil.Atomic.Versions.Turns.{emplace-erase}
use yutil.Atomic.Protocol.Calm.{calm-cell}
use yutil.Atomic.Reasons.{lt-behind}
use yutil.Atomic.Protocol.{Board, Inv, cell, filling, emptying}
use yutil.Common.Mask.{size-pos}
use native.Mathlib.Nat.{mod-lt}
use yutil.Atomic.Refine.{Matches, found, look, slot_lem}
use yutil.Atomic.Reached.{normalized, reached}

-- What a push that runs alone on a queue of `n` cells returns and leaves.
abbrev pub PushOutcome :
    {A : Type 0} (n : ℕ) (q : Cells A) (x : A) → Option (Reply A × Cells A) → Type 0
PushOutcome {A} n q x r =
    ((q.closed ≡ true) × (r ≡ some (Reply.refused x, q)))
    ⊎ ((q.closed ≡ false) × (q.enqueue_pos ≡ q.dequeue_pos + n) × (r ≡ some (Reply.refused x, q)))
    ⊎ ((q.closed ≡ false)
        × (q.enqueue_pos < q.dequeue_pos + n)
        × (q' : Cells A) × (r ≡ some (Reply.pushed q.enqueue_pos x, q'))
        × (q'.enqueue_pos ≡ q.enqueue_pos + 1)
        × (get_elem? q'.cells (q.enqueue_pos % n)
            ≡ some (record { sequence = q.enqueue_pos + 1; storage = some x })))

module _ {A : Type 0} (k : ℕ) {b : Board A} {q : Cells A} {places : ℕ → Place A}
    (inv : Inv (2 ^ k) b places) (m : Matches k b q) (bound : b.enq + 2 ^ k < 2 ^ 63)
    (calm : (i : ℕ) → (filling (places i) ≡ none) × (emptying (places i) ≡ none)) (x : A) where
  in_range : slot q q.enqueue_pos < length q.cells
  in_range = omega (arith, slot_lem k m q.enqueue_pos, m.cells, mod-lt q.enqueue_pos (size-pos k))

  free-PushOutcome :
      q.closed ≡ false
      → b.enq < b.deq + 2 ^ k
      → PushOutcome (2 ^ k) q x (solo (V1.emplace false) 6 q (Place.push_called x))
  free-PushOutcome c l =
      let e = q.enqueue_pos in
      let g = found k m b.enq e (ap (λ p. p % 2 ^ k) (sym m.enq)) (
        (calm-cell (2 ^ k) inv calm b.enq inv.order l).1 (omega arith)
        ∙ ap (λ p. cell (2 ^ k) p none) (sym m.enq)) in
      let next : inc e ≡ e + 1 = omega (arith, m.enq, bound) in
      inr (
        inr (
          c,
          omega (arith, m.enq, m.deq, l),
          pushed_queue q x e,
          free_push q x c g in_range,
          pushed_enqueue_pos q x e ∙ next,
          ap (get_elem? (pushed_queue q x e).cells) (sym (slot_lem k m e))
              ∙ pushed_cell q x e in_range
              ∙ ap (λ p. some (record { sequence = p; storage = some x })) next,
        ))

  full-PushOutcome :
      q.closed ≡ false
      → b.enq ≡ b.deq + 2 ^ k
      → PushOutcome (2 ^ k) q x (solo (V1.emplace false) 6 q (Place.push_called x))
  full-PushOutcome c l =
      let e = q.enqueue_pos in
      let (d, g, at) =
        look k m b.deq e
          (sym (add-mod_right b.deq (2 ^ k)) ∙ ap (λ p. p % 2 ^ k) (sym (m.enq ∙ l))) in
      let h =
        (calm-cell (2 ^ k) inv calm b.deq (omega arith) (omega (arith, size-pos k))).0
          (omega (arith, l, size-pos k)) in
      let s : d.sequence ≡ b.deq + 1 = ap (λ c. c.sequence) (some-inj (sym at ∙ h)) in
      let less : d.sequence < e = omega (arith, s, m.enq, l, inv.two) in
      inr (
        inl (
          c,
          omega (arith, m.enq, m.deq, l),
          full_push q x d c g (ground (arith, less))
              (lt-behind d.sequence e less (omega (arith, m.enq, bound))),
        ))

  solo-PushOutcome : PushOutcome (2 ^ k) q x (solo (V1.emplace false) 6 q (Place.push_called x))
  solo-PushOutcome = elim (Bool-cases q.closed) [
    | inl c ↦ inl (c, closed_push q x c)
    | inr c ↦ elim (dec_lt b.enq (b.deq + 2 ^ k)) [
      | yes l ↦ free-PushOutcome c l
      | no l ↦ full-PushOutcome c (omega (arith, inv.room))
    ]
  ]

module _ {A : Type 0} (n : ℕ) (q : Cells A) (x : A) where
  PushOutcome-some :
      (o : Option (Reply A × Cells A))
      → PushOutcome n q x o
      → (r : Reply A × Cells A) × (o ≡ some r)
  PushOutcome-some o (inl h) = ((Reply.refused x, q), h.1)
  PushOutcome-some o (inr (inl h)) = ((Reply.refused x, q), h.2)
  PushOutcome-some o (inr (inr (c, l, q', h, e, g))) = ((Reply.pushed q.enqueue_pos x, q'), h)

  attempt-PushOutcome :
      (fails : List Bool)
      → 6 + 2 * failures fails ≤ length fails
      → PushOutcome n q x (solo (V1.emplace false) 6 q (Place.push_called x))
      → PushOutcome n q x (attempt V1.emplace fails q (Place.push_called x))
  attempt-PushOutcome fails enough o =
      let (r, e) = PushOutcome-some (solo (V1.emplace false) 6 q (Place.push_called x)) o in
      subst (PushOutcome n q x) (e ∙ sym (emplace-attempt fails 6 q x r e enough)) o

module _ {A : Type 0} (v : Class) (moved : A → A) (requested n : ℕ) (bounded : requested ≤ 2 ^ 63)
    (rounded : normalize_capacity 64 requested ≡ some n) (es : List (Event A))
    (few : length es + n < 2 ^ 63) (x : A) (fails : List Bool)
    (enough : 6 + 2 * failures fails ≤ length fails) where
  -- In each class and behind every interleaving from a new queue, within the bounds that the counters
  -- need, when no thread is between its claim of a position and the store that gives the cell back:
  -- a push that then runs alone returns within six turns and two more for each turn at which a
  -- compare-exchange may fail for no reason. It returns false and changes nothing if the queue is
  -- closed or holds as many items as its capacity, and otherwise returns true, takes the position
  -- `enqueue_pos_`, and leaves the item in the cell of it.
  pub solo_push :
      let q = (run v moved es (start v n)).queue in
      let r = attempt (emplace v) fails q (Place.push_called x) in
      ((i : ℕ)
        → (filling ((run v moved es (start v n)).places i) ≡ none)
          × (emptying ((run v moved es (start v n)).places i) ≡ none))
      → PushOutcome n q x r
  solo_push calm =
      let w = normalized v moved requested n bounded rounded es few in
      let h = reached v moved requested n bounded rounded es few in
      let q = (run v moved es (start v n)).queue in
      let o =
        solo-PushOutcome w.log h.inv h.matches (omega (arith, h.claimed, w.power, few)) calm x in
      subst (λ c. PushOutcome c q x (attempt (emplace v) fails q (Place.push_called x)))
        (sym w.power)
        (subst (PushOutcome (2 ^ w.log) q x)
          (sym (
            attempt-erase (emplace v) V1.emplace (emplace-erase v moved) fails q
              (Place.push_called x)))
          (attempt-PushOutcome (2 ^ w.log) q x fails enough o))
