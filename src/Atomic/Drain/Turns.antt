-- ===== src/Atomic/Drain/Turns.antt =====
-- Each turn of `drain_remaining` makes progress.
use yutil.Common.{
  ℕ, ◌+◌, ◌*◌, ◌==◌, ◌%◌, ◌^◌, ◌≤◌, ◌≡◌, Bool, true, false, none, some, arith, inl, inr, sym, ap,
  ◌∙◌, refl, inc, word,
}
use native.Mathlib.Decide.{dec_lt}
use native.Mathlib.Nat.{add-mod_right}
use yutil.Atomic.Cells.{Cells, Place, Reply, write, is_behind, move, return}
use yutil.Atomic.V1
use yutil.Atomic.Protocol.{Board, Fits, cell, Move}
use yutil.Atomic.Protocol.Calm.{calm-cell}
use yutil.Atomic.Reasons.{lt-behind}
use yutil.Atomic.Refine.{quiet-IsMove, IsMove, found}
use yutil.Atomic.Refine.Pop
use yutil.Atomic.Drain.{waste, Draining, Alone, turns, left, Goes, alone-Inv, calm}

module _ {A : Type 0} (moved : A → A) (k : ℕ) where
  module _ {b : Board A} {q : Cells A} {p : Place A} (h : Alone k b q p) (fails : Bool) where
    move-Goes :
        (q' : Cells A) (p' : Place A)
        → IsMove k b p (some (move q' p'))
        → q'.enqueue_pos ≡ q.enqueue_pos
        → ((b' : Board A)
            → b'.enq ≡ b.enq
            → b'.deq ≡ q'.dequeue_pos
            → Draining k b' p' × (left k b' p' + 1 ≤ left k b p + 2 * waste fails))
        → Goes k b q fails p (some (move q' p'))
    move-Goes q' p' (b', mv, m, l) e d =
        let same : b'.enq ≡ b.enq = sym m.enq ∙ e ∙ h.matches.enq in
        let (dr, le) = d b' same (sym m.deq) in
        inr (
          (λ c. cc),
          b',
          record {
            inv = alone-Inv k h.inv mv;
            matches = m;
            small = omega (arith, same, h.small);
            draining = dr;
          },
          same,
          le,
        )

    popped-Goes :
        (q' : Cells A) (pos : ℕ) (v : A)
        → IsMove k b p (some (return q' (Reply.popped pos v)))
        → q'.enqueue_pos ≡ q.enqueue_pos
        → q'.dequeue_pos ≡ q.dequeue_pos
        → turns k p ≡ 3
        → Goes k b q fails p (some (return q' (Reply.popped pos v)))
    popped-Goes q' pos v (b', mv, m, l) e f z =
        let same : b'.enq ≡ b.enq = sym m.enq ∙ e ∙ h.matches.enq in
        let deq : b'.deq ≡ b.deq = sym m.deq ∙ f ∙ h.matches.deq in
        inr (
          (λ c. cc),
          b',
          record {
            inv = alone-Inv k (alone-Inv k h.inv mv) (Move.quiet {r = none} refl refl tt tt);
            matches = m;
            small = omega (arith, same, h.small);
            draining = tt;
          },
          same,
          omega (arith, same, deq, z),
        )

  module _ {b : Board A} {q : Cells A} (fails : Bool) where
    called-Goes :
        Alone k b q Place.pop_called
        → Goes k b q fails Place.pop_called (V1.try_pop moved fails q Place.pop_called)
    unfolding V1.try_pop
    called-Goes h =
        move-Goes h fails q (Place.pop_look q.dequeue_pos 0)
          (Pop.load-IsMove k h.inv h.matches h.small moved fails 0 refl) refl
          (λ b' e d. (sym d, omega (arith, e, d, h.matches.deq)))

    look-Goes :
        (pos spins : ℕ)
        → Alone k b q (Place.pop_look pos spins)
        → Goes k b q fails
            (Place.pop_look pos spins)
            (V1.try_pop moved fails q (Place.pop_look pos spins))
    unfolding V1.try_pop
    look-Goes pos spins h =
        let n : pos ≡ b.deq = h.draining in
        let i = h.inv in
        let next = Pop.next k i h.matches h.small moved fails pos (omega (arith, n)) in
        let quiet =
          calm-cell (2 ^ k) i (calm k (Place.pop_look pos spins) refl) b.deq (omega arith)
            (omega (arith, i.two)) in
        elim (dec_lt b.deq b.enq) [
          | yes l ↦
              let g = found k h.matches b.deq pos (ap (λ p. p % 2 ^ k) (sym n)) (quiet.0 l) in
              let t : (b.deq + 1 == inc pos) ≡ true = ground (arith, next, n) in
              rw (g, t, V1.try_pop)
                (move-Goes h fails q (Place.pop_claim pos spins)
                  (quiet-IsMove k (move q (Place.pop_claim pos spins)) h.matches refl refl refl tt
                    (omega (arith, n), λ e. (l, quiet.0 l)))
                  refl
                  (λ b' e d. (
                    (n ∙ sym (d ∙ h.matches.deq), omega (arith, e, d, h.matches.deq)),
                    omega (arith, e, d, h.matches.deq),
                  )))
          | no l ↦
              let g =
                found k h.matches b.deq pos (ap (λ p. p % 2 ^ k) (sym n)) (quiet.1 (omega arith)) in
              let t : (b.deq == inc pos) ≡ false = ground (arith, next, n) in
              let u : is_behind b.deq (inc pos) ≡ true =
                ap (is_behind b.deq) next
                ∙ lt-behind b.deq (pos + 1) (omega (arith, n))
                    (omega (arith, n, i.order, h.small)) in
              rw (g, t, u, V1.try_pop) (inl (refl, omega (arith, i.order), refl, refl))
        ]

    read-Goes :
        (pos : ℕ)
        → Alone k b q (Place.read pos)
        → Goes k b q fails (Place.read pos) (V1.try_pop moved fails q (Place.read pos))
    unfolding V1.try_pop write
    read-Goes pos h =
        let f : Fits (2 ^ k) b (Place.read pos) = h.inv.fits 0 in
        let (v, e) = Pop.value k h.inv h.matches h.small moved fails pos f.0 in
        let g =
          found k h.matches (pos + 2 ^ k) pos (add-mod_right pos (2 ^ k))
            (f.2 ∙ ap (cell (2 ^ k) (pos + 1)) e) in
        let mv = Pop.read-IsMove k h.inv h.matches h.small moved fails pos f in
        rw (g, V1.try_pop)
          (move-Goes h fails (write q pos (record { sequence = pos + 1; storage = some (moved v) }))
            (Place.destroy pos v) (rw (g, V1.try_pop) at mv) refl
            (λ b' e d. (tt, omega (arith, e, d, h.matches.deq))))

    destroy-Goes :
        (pos : ℕ) (v : A)
        → Alone k b q (Place.destroy pos v)
        → Goes k b q fails (Place.destroy pos v) (V1.try_pop moved fails q (Place.destroy pos v))
    unfolding V1.try_pop write
    destroy-Goes pos v h =
        let f : Fits (2 ^ k) b (Place.destroy pos v) = h.inv.fits 0 in
        let g = found k h.matches (pos + 2 ^ k) pos (add-mod_right pos (2 ^ k)) f.4 in
        let mv = Pop.destroy-IsMove k h.inv h.matches h.small moved fails pos v f in
        rw (g, V1.try_pop)
          (move-Goes h fails (write q pos (record { sequence = pos + 1; storage = none }))
            (Place.pop_publish pos v) (rw (g, V1.try_pop) at mv) refl
            (λ b' e d. (tt, omega (arith, e, d, h.matches.deq))))

    publish-Goes :
        (pos : ℕ) (v : A)
        → Alone k b q (Place.pop_publish pos v)
        → Goes k b q fails
            (Place.pop_publish pos v)
            (V1.try_pop moved fails q (Place.pop_publish pos v))
    unfolding V1.try_pop write
    publish-Goes pos v h =
        let f : Fits (2 ^ k) b (Place.pop_publish pos v) = h.inv.fits 0 in
        let g = found k h.matches (pos + 2 ^ k) pos (add-mod_right pos (2 ^ k)) f.3 in
        let mv = Pop.pop_publish-IsMove k h.inv h.matches h.small moved fails pos v f in
        rw (g, V1.try_pop)
          (popped-Goes h fails
            (write q pos (record { sequence = (pos + q.capacity) % word; storage = none })) pos v
            (rw (g, V1.try_pop) at mv) refl refl refl)

  claim-Goes :
      {b : Board A} {q : Cells A} (fails : Bool) (pos spins : ℕ)
      → Alone k b q (Place.pop_claim pos spins)
      → Goes k b q fails
          (Place.pop_claim pos spins)
          (V1.try_pop moved fails q (Place.pop_claim pos spins))
  unfolding V1.try_pop
  claim-Goes {q = q} true pos spins h =
      let t : (q.dequeue_pos == pos) ≡ true = ground (arith, h.draining, h.matches.deq) in
      rw t (
        move-Goes h true q (Place.pop_look q.dequeue_pos spins)
          (Pop.load-IsMove k h.inv h.matches h.small moved true spins refl) refl
          (λ b' e d. (sym d, omega (arith, e, d, h.matches.deq))))
  claim-Goes {q = q} false pos spins h =
      let t : (q.dequeue_pos == pos) ≡ true = ground (arith, h.draining, h.matches.deq) in
      let mv = Pop.pop_claim-IsMove k h.inv h.matches h.small moved false pos spins in
      let next = Pop.next k h.inv h.matches h.small moved false pos (omega (arith, h.draining.0)) in
      rw t (
        move-Goes h false (record q { dequeue_pos = inc pos }) (Place.read pos) (rw t at mv) refl
          (λ b' e d. (tt, omega (arith, e, d, next, h.draining.0, h.draining.1))))

  pub turn-Goes :
      {b : Board A} {q : Cells A} (fails : Bool) (p : Place A)
      → Alone k b q p
      → Goes k b q fails p (V1.try_pop moved fails q p)
  turn-Goes fails Place.pop_called h = called-Goes fails h
  turn-Goes fails (Place.pop_look pos spins) h = look-Goes fails pos spins h
  turn-Goes fails (Place.pop_claim pos spins) h = claim-Goes fails pos spins h
  turn-Goes fails (Place.read pos) h = read-Goes fails pos h
  turn-Goes fails (Place.destroy pos v) h = destroy-Goes fails pos v h
  turn-Goes fails (Place.pop_publish pos v) h = publish-Goes fails pos v h
  turn-Goes fails p h = absurd h.draining
