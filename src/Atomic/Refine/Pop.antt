-- ===== src/Atomic/Refine/Pop.antt =====
-- The turns of `try_pop`.
use yutil.Common.{
  ℕ, ◌+◌, ◌==◌, ◌%◌, ◌^◌, ◌<◌, ◌≤◌, ◌≡◌, Bool, not, ◌&&◌, none, some, get_elem?, arith, inl, inr,
  ap, ◌∙◌, refl, inc, word,
}
use mathlib.Core.Path.{subst}
use native.Mathlib.Nat.{add-mod_right}
use yutil.Common.Slots.{get_elem?-of_lt}
use yutil.Atomic.Cells.{Cell, Cells, Place, Reply, is_behind, move, return}
use yutil.Atomic.V1
use yutil.Atomic.Protocol.{Board, key, Fits, IsBusy, cell, Inv, Move, popped, rewritten}
use yutil.Atomic.Refine.{
  found, work-IsMove, if-IsMove, quiet-IsMove, Matches, IsMove, look, round, at_after,
  at_after_self, write-Matches, write-Writes,
}

module _ {A : Type 0} (k : ℕ) {b : Board A} {q : Cells A} {places : ℕ → Place A}
    (inv : Inv (2 ^ k) b places) (m : Matches k b q) (bound : b.enq + 2 ^ k < 2 ^ 63)
    (moved : A → A) (fails : Bool) where
  pub load-IsMove :
      {p : Place A} (spins : ℕ)
      → key (2 ^ k) p ≡ none
      → IsMove k b p (some (move q (Place.pop_look q.dequeue_pos spins)))
  load-IsMove spins e =
      quiet-IsMove k (move q (Place.pop_look q.dequeue_pos spins)) m refl e refl tt
        (omega (arith, m.deq))

  -- A cell that carries the position behind the one to claim holds its value.
  ready :
      (d : Cell A)
      → b.at b.deq ≡ some d
      → d.sequence ≡ b.deq + 1
      → (b.deq < b.enq) × (b.at b.deq ≡ cell (2 ^ k) (b.deq + 1) (get_elem? b.pushes b.deq))
  ready d g e = (
    ground (arith, inv.cells b.deq, inv.order, inv.two),
    ground (arith, inv.cells b.deq, inv.order, inv.two),
  )

  pub next : (pos : ℕ) → pos ≤ b.deq → inc pos ≡ pos + 1
  next pos f = omega (arith, inv.order, bound)

  pub pop_look-IsMove :
      (pos spins : ℕ)
      → pos ≤ b.deq
      → IsMove k b (Place.pop_look pos spins) (V1.try_pop moved fails q (Place.pop_look pos spins))
  unfolding V1.try_pop
  pop_look-IsMove pos spins f =
      let (d, e, g) = look k m pos pos refl in
      rw (e, V1.try_pop)
        (if-IsMove k (d.sequence == inc pos) (move q (Place.pop_claim pos spins)) _
          (λ t.
            quiet-IsMove k (move q (Place.pop_claim pos spins)) m refl refl refl tt
              (f, λ n. ready d (subst (λ p. b.at p ≡ some d) n g) (ground (arith, t, next pos f))))
          (λ t.
            if-IsMove k (is_behind d.sequence (inc pos)) (return q Reply.nothing)
              (move q (Place.pop_reload spins))
              (λ u. quiet-IsMove k (return q Reply.nothing) m refl refl refl tt tt)
              (λ u. quiet-IsMove k (move q (Place.pop_reload spins)) m refl refl refl tt tt)))

  pub pop_claim-IsMove :
      (pos spins : ℕ)
      → IsMove k b
          (Place.pop_claim pos spins)
          (V1.try_pop moved fails q (Place.pop_claim pos spins))
  unfolding V1.try_pop
  pop_claim-IsMove pos spins =
      if-IsMove k ((q.dequeue_pos == pos) && not fails)
        (move (record q { dequeue_pos = inc pos }) (Place.read pos)) _
        (λ t.
          let n : pos ≡ b.deq = ground (arith, t, m.deq) in
          (
            popped b,
            Move.claim_pop pos spins n (round k m b.deq),
            record {
              capacity = m.capacity;
              mask = m.mask;
              cells = m.cells;
              enq = m.enq;
              deq = next pos (omega (arith, n)) ∙ ap (λ d. d + 1) n;
              at = m.at;
            },
            omega arith,
          ))
        (λ t. load-IsMove spins refl)

  pub value : (pos : ℕ) → pos < b.deq → (v : A) × (get_elem? b.pushes pos ≡ some v)
  value pos l = get_elem?-of_lt b.pushes pos (omega (arith, inv.order, inv.count))

  pub read-IsMove :
      (pos : ℕ)
      → Fits (2 ^ k) b (Place.read pos)
      → IsMove k b (Place.read pos) (V1.try_pop moved fails q (Place.read pos))
  unfolding V1.try_pop
  read-IsMove pos f =
      let (v, e) = value pos f.0 in
      rw
        (
          found k m (pos + 2 ^ k) pos (add-mod_right pos (2 ^ k))
              (f.2 ∙ ap (cell (2 ^ k) (pos + 1)) e),
          V1.try_pop,
        )
        (work-IsMove k m (pos + 2 ^ k) pos (record { sequence = pos + 1; storage = some (moved v) })
          (add-mod_right pos (2 ^ k)) refl refl refl refl (omega (arith, f.1, inv.order))
          (omega (arith, f.0)) (inr (inr (inr (f.1, omega arith)))) (inr (f.1, omega arith))
          (λ self. (f.0, f.1, e, moved v, self)))

  pub destroy-IsMove :
      (pos : ℕ) (v : A)
      → Fits (2 ^ k) b (Place.destroy pos v)
      → IsMove k b (Place.destroy pos v) (V1.try_pop moved fails q (Place.destroy pos v))
  unfolding V1.try_pop
  destroy-IsMove pos v f =
      rw (found k m (pos + 2 ^ k) pos (add-mod_right pos (2 ^ k)) f.4, V1.try_pop)
        (work-IsMove k m (pos + 2 ^ k) pos (record { sequence = pos + 1; storage = none })
          (add-mod_right pos (2 ^ k)) refl refl refl refl (omega (arith, f.1, inv.order))
          (omega (arith, f.0)) (inr (inr (inr (f.1, omega arith)))) (inr (f.1, omega arith))
          (λ self. (f.0, f.1, f.2, self)))

  pub pop_publish-IsMove :
      (pos : ℕ) (v : A)
      → Fits (2 ^ k) b (Place.pop_publish pos v)
      → IsMove k b (Place.pop_publish pos v) (V1.try_pop moved fails q (Place.pop_publish pos v))
  unfolding V1.try_pop
  pop_publish-IsMove pos v f =
      let d : Cell A = record { sequence = (pos + q.capacity) % word; storage = none } in
      let a = pos + 2 ^ k in
      let r : a % 2 ^ k ≡ pos % 2 ^ k = add-mod_right pos (2 ^ k) in
      let e : (pos + q.capacity) % word ≡ a = omega (arith, m.capacity, f.0, inv.order, bound) in
      rw (found k m a pos r f.3, V1.try_pop)
        (
          rewritten b (at_after k m pos d),
          Move.end_pop v pos (at_after k m pos d)
              (write-Writes k m a pos d r (omega (arith, f.1, inv.order)) (omega (arith, f.0))
                (inr (inr (inl (f.1, e, refl)))))
              (λ busy.
                let u = subst (IsBusy (2 ^ k) b a) (at_after_self k m a pos d r) busy in
                ground (arith, u, e, f.1, inv.two)),
          write-Matches k m pos d,
          omega arith,
        )
