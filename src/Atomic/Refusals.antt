-- ===== src/Atomic/Refusals.antt =====
-- The calls of the three `BoundedAtomicMpmcQueue` classes that return false.
use yutil.Common.{
  ℕ, ◌+◌, ◌^◌, ◌<◌, ◌≤◌, ◌≡◌, ◌⊎◌, inl, inr, true, Bool, Option, none, some, List, ◌∷◌, length,
  arith, sym, ap, ◌∙◌, refl,
}
use yutil.Capacity.{normalize_capacity}
use yutil.Atomic.Cells.{Reply, Turn}
use yutil.Atomic.Class.{Class}
use yutil.Atomic.System.{System, Event, start, run, step, after, record_reply, take_turn}
use yutil.Atomic.Versions.Turns.{erase, erase_turn, take_turn-erase}
use yutil.Atomic.Protocol.{filling, emptying}
use yutil.Atomic.Reasons.{reply_of}
use yutil.Atomic.Reasons.Turns.{refused_turn, nothing_turn}
use yutil.Atomic.Reached.{normalized, reached, erase-Fits}

module _ {A : Type 0} where
  new-reply :
      (r : Reply A) (o : Option (Reply A)) (log : List (Reply A))
      → record_reply o log ≡ r ∷ log
      → o ≡ some r
  new-reply r none log e = absurd (omega (arith, ap length e))
  new-reply r (some t) log e = cc

  after-reply :
      (s : System A) (i : ℕ) (r : Reply A) (o : Option (Turn A))
      → (after s i o).log ≡ r ∷ s.log
      → reply_of o ≡ some r
  after-reply s i r none e = absurd (omega (arith, ap length e))
  after-reply s i r (some t) e = new-reply r t.reply s.log e

  reply-erase : (o : Option (Turn A)) → reply_of (erase_turn o) ≡ reply_of o
  reply-erase none = refl
  reply-erase (some t) = refl

module _ {A : Type 0} (v : Class) (moved : A → A) (requested n : ℕ) (bounded : requested ≤ 2 ^ 63)
    (rounded : normalize_capacity 64 requested ≡ some n) (es : List (Event A))
    (few : length es + n < 2 ^ 63) (i : ℕ) (fails : Bool) where
  bound :
      let h = reached v moved requested n bounded rounded es few in
      h.board.enq + 2 ^ (normalized v moved requested n bounded rounded es few).log < 2 ^ 63
  bound =
      let w = normalized v moved requested n bounded rounded es few in
      let h = reached v moved requested n bounded rounded es few in
      omega (arith, h.claimed, w.power)

  turn_reply :
      (r : Reply A)
      → let s = run v moved es (start v n) in
        (step v moved (Event.go i fails) s).log ≡ r ∷ s.log
        → reply_of (take_turn Class.v1 moved fails s.queue (erase (s.places i))) ≡ some r
  unfolding step
  turn_reply r e =
      let s = run v moved es (start v n) in
      let o = take_turn v moved fails s.queue (s.places i) in
      ap reply_of (sym (take_turn-erase v moved fails s.queue (s.places i)))
      ∙ reply-erase o
      ∙ after-reply s i r o e

  -- In each class and every interleaving from a new queue, within the bounds that the counters need:
  -- when a push returns false, the queue is closed, or all its cells hold claimed values, or a pop
  -- has claimed the cell that the push needs and not given it back.
  pub refused_reason :
      (x : A)
      → let s = run v moved es (start v n) in
        (step v moved (Event.go i fails) s).log ≡ Reply.refused x ∷ s.log
        → (s.queue.closed ≡ true)
          ⊎ (s.queue.enqueue_pos ≡ s.queue.dequeue_pos + n)
          ⊎ ((j pos : ℕ) × (emptying (s.places j) ≡ some pos) × (pos + n ≡ s.queue.enqueue_pos))
  refused_reason x e =
      let w = normalized v moved requested n bounded rounded es few in
      let h = reached v moved requested n bounded rounded es few in
      let s = run v moved es (start v n) in
      elim (refused_turn w.log h.inv h.matches bound moved fails x (erase (s.places i))
        (erase-Fits (2 ^ w.log) h.board (s.places i) (h.inv.fits i))
        (turn_reply (Reply.refused x) e)) [
          | inl c ↦ inl c
          | inr (inl f) ↦ inr (inl (omega (arith, f, h.matches.enq, h.matches.deq, w.power)))
          | inr (inr (j, pos, g, f)) ↦
              inr (inr (j, pos, g, omega (arith, f, h.matches.enq, w.power)))
        ]

  -- Under the same conditions: when a pop returns false, no value is claimed, or the push that has
  -- claimed the first position of the window has not published it.
  pub nothing_reason :
      let s = run v moved es (start v n) in
      (step v moved (Event.go i fails) s).log ≡ Reply.nothing ∷ s.log
      → (s.queue.enqueue_pos ≡ s.queue.dequeue_pos)
        ⊎ ((j : ℕ) × (filling (s.places j) ≡ some s.queue.dequeue_pos))
  nothing_reason e =
      let w = normalized v moved requested n bounded rounded es few in
      let h = reached v moved requested n bounded rounded es few in
      let s = run v moved es (start v n) in
      elim (nothing_turn w.log h.inv h.matches bound moved fails (erase (s.places i))
        (erase-Fits (2 ^ w.log) h.board (s.places i) (h.inv.fits i)) (turn_reply Reply.nothing e)) [
          | inl f ↦ inl (omega (arith, f, h.matches.enq, h.matches.deq))
          | inr (j, g) ↦ inr (j, g ∙ ap some (sym h.matches.deq))
        ]
