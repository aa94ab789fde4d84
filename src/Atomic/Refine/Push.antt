-- ===== src/Atomic/Refine/Push.antt =====
-- The turns of `emplace`.
use yutil.Common.{
  ℕ, ◌+◌, ◌==◌, ◌^◌, ◌<◌, ◌≤◌, ◌≡◌, Bool, not, ◌&&◌, none, some, arith, inl, inr, sym, refl, inc,
}
use mathlib.Core.Path.{subst}
use native.Mathlib.Decide.{dec_lt}
use yutil.Atomic.Cells.{Cell, Cells, Place, Reply, is_behind, move, return}
use yutil.Atomic.V1
use yutil.Atomic.Protocol.{Board, key, Fits, IsBusy, cell, Inv, Move, pushed, rewritten}
use yutil.Atomic.Refine.{
  found, work-IsMove, if-IsMove, quiet-IsMove, Matches, IsMove, look, round, at_after,
  at_after_self, write-Matches, write-Writes,
}

module _ {A : Type 0} (k : ℕ) {b : Board A} {q : Cells A} {places : ℕ → Place A}
    (inv : Inv (2 ^ k) b places) (m : Matches k b q) (bound : b.enq + 2 ^ k < 2 ^ 63)
    (fails : Bool) where
  pub push_called-IsMove :
      (x : A) → IsMove k b (Place.push_called x) (V1.emplace fails q (Place.push_called x))
  unfolding V1.emplace
  push_called-IsMove x =
      if-IsMove k (V1.is_closed q) (return q (Reply.refused x)) (move q (Place.push_start x))
        (λ e. quiet-IsMove k (return q (Reply.refused x)) m refl refl refl tt tt)
        (λ e. quiet-IsMove k (move q (Place.push_start x)) m refl refl refl tt tt)

  pub load-IsMove :
      {p : Place A} (x : A) (spins : ℕ)
      → key (2 ^ k) p ≡ none
      → IsMove k b p (some (move q (Place.push_look x q.enqueue_pos spins)))
  load-IsMove x spins e =
      quiet-IsMove k (move q (Place.push_look x q.enqueue_pos spins)) m refl e refl tt
        (omega (arith, m.enq))

  -- A cell that carries the position to claim is free.
  free :
      (d : Cell A)
      → b.at b.enq ≡ some d
      → d.sequence ≡ b.enq
      → (b.enq < b.deq + 2 ^ k) × (b.at b.enq ≡ cell (2 ^ k) b.enq none)
  free d g e = elim (dec_lt b.enq (b.deq + 2 ^ k)) [
    | yes l ↦ (l, ground (arith, inv.cells b.enq, inv.order))
    | no n ↦ absurd (ground (arith, full, inv.cells b.deq, round k m b.deq, inv.two, inv.room))
  ]
    where
      full : ¬ (b.enq < b.deq + 2 ^ k) → b.enq ≡ b.deq + 2 ^ k
      full n = omega (arith, inv.room)

  pub push_look-IsMove :
      (x : A) (pos spins : ℕ)
      → pos ≤ b.enq
      → IsMove k b (Place.push_look x pos spins) (V1.emplace fails q (Place.push_look x pos spins))
  unfolding V1.emplace
  push_look-IsMove x pos spins f =
      let (d, e, g) = look k m pos pos refl in
      rw (e, V1.emplace)
        (if-IsMove k (d.sequence == pos) (move q (Place.push_claim x pos spins)) _
          (λ t.
            quiet-IsMove k (move q (Place.push_claim x pos spins)) m refl refl refl tt
              (f, λ n. free d (subst (λ p. b.at p ≡ some d) n g) (ground (arith, t))))
          (λ t.
            if-IsMove k (is_behind d.sequence pos) (return q (Reply.refused x))
              (move q (Place.push_reload x spins))
              (λ u. quiet-IsMove k (return q (Reply.refused x)) m refl refl refl tt tt)
              (λ u. quiet-IsMove k (move q (Place.push_reload x spins)) m refl refl refl tt tt)))

  pub push_claim-IsMove :
      (x : A) (pos spins : ℕ)
      → IsMove k b
          (Place.push_claim x pos spins)
          (V1.emplace fails q (Place.push_claim x pos spins))
  unfolding V1.emplace
  push_claim-IsMove x pos spins =
      if-IsMove k ((q.enqueue_pos == pos) && not fails)
        (move (record q { enqueue_pos = inc pos }) (Place.construct x pos)) _
        (λ t.
          let n : pos ≡ b.enq = ground (arith, t, m.enq) in
          (
            pushed b x,
            Move.claim_push x pos spins n,
            record {
              capacity = m.capacity;
              mask = m.mask;
              cells = m.cells;
              enq = omega (arith, n, bound);
              deq = m.deq;
              at = m.at;
            },
            omega arith,
          ))
        (λ t. load-IsMove x spins refl)

  pub construct-IsMove :
      (x : A) (pos : ℕ)
      → Fits (2 ^ k) b (Place.construct x pos)
      → IsMove k b (Place.construct x pos) (V1.emplace fails q (Place.construct x pos))
  unfolding V1.emplace
  construct-IsMove x pos f =
      rw (found k m pos pos refl f.2, V1.emplace)
        (work-IsMove k m pos pos (record { sequence = pos; storage = some x }) refl refl refl refl
          refl f.1 (omega (arith, f.0, inv.room)) (inr (inl (f.0, refl))) (inl (f.0, refl))
          (λ self. (f.0, f.1, self, f.3)))

  pub push_publish-IsMove :
      (x : A) (pos : ℕ)
      → Fits (2 ^ k) b (Place.push_publish x pos)
      → IsMove k b (Place.push_publish x pos) (V1.emplace fails q (Place.push_publish x pos))
  unfolding V1.emplace
  push_publish-IsMove x pos f =
      let d : Cell A = record { sequence = inc pos; storage = some x } in
      let next : inc pos ≡ pos + 1 = omega (arith, f.0, bound) in
      rw (found k m pos pos refl f.2, V1.emplace)
        (
          rewritten b (at_after k m pos d),
          Move.end_push x pos (at_after k m pos d)
              (write-Writes k m pos pos d refl f.1 (omega (arith, f.0, inv.room))
                (inl (f.0, next, sym f.3)))
              (λ busy.
                let u = subst (IsBusy (2 ^ k) b pos) (at_after_self k m pos pos d refl) busy in
                ground (arith, u, next, f.0)),
          write-Matches k m pos d,
          omega arith,
        )
