-- ===== src/Atomic/Drain/Loop.antt =====
-- The loop of `drain_remaining` ends.
use yutil.Common.{
  ℕ, ◌+◌, ◌*◌, ◌^◌, ◌<◌, ◌≤◌, ◌≡◌, ◌≢◌, Bool, Option, none, some, List, [], ◌∷◌, length, get_elem?,
  arith, inl, inr, sym, ap, ◌∙◌, refl,
}
use mathlib.Core.Path.{subst}
use yutil.Common.Slots.{window-position}
use yutil.Common.Mask.{size-pos}
use yutil.Atomic.Cells.{loop, loop_reply, Cells, Place, Turn, Reply, Drained}
use yutil.Atomic.V1
use yutil.Atomic.Protocol.{Board, key}
use yutil.Atomic.Protocol.Calm.{calm-cell}
use yutil.Atomic.Drain.{waste, failures, Alone, Draining, left, next_of, Goes, calm}
use yutil.Atomic.Drain.Turns.{turn-Goes}

module _ {A : Type 0} (moved : A → A) (k : ℕ) where
  -- The loop has ended, with no object left k in a cell.
  abbrev pub Emptied : Drained A → Type 0
  Emptied d =
      (q : Cells A) × (d ≡ Drained.done q)
      × (q.dequeue_pos ≡ q.enqueue_pos)
      × ((j : ℕ)
          → j < 2 ^ k
          → (s : ℕ) × (get_elem? q.cells j ≡ some (record { sequence = s; storage = none })))

  end-Emptied :
      (b : Board A) (q : Cells A) (p : Place A)
      → Alone k b q p
      → b.enq ≡ b.deq
      → key (2 ^ k) p ≡ none
      → Emptied (Drained.done q)
  end-Emptied b q p h e n = (
    q,
    refl,
    omega (arith, h.matches.enq, h.matches.deq, e),
    λ j l.
        let (a, lo, hi, r) = window-position b.deq (2 ^ k) j (size-pos k) l in
        (
          a,
          ap (get_elem? q.cells) (sym r)
              ∙ sym (h.matches.at a)
              ∙ (calm-cell (2 ^ k) h.inv (calm k p n) a lo hi).1 (omega (arith, e)),
        ),
  )

  reply-Emptied :
      (b b' : Board A) (f : Bool) (p : Place A) (t : Turn A) (o : Option (Reply A))
      (again : Cells A → Place A → Drained A)
      → Alone k b' t.queue (next_of k o t.place)
      → left k b' (next_of k o t.place) + 1 ≤ left k b p + 2 * waste f
      → o ≢ some Reply.nothing
      → ((b' : Board A) (q' : Cells A) (p' : Place A)
          → Alone k b' q' p'
          → left k b' p' + 1 ≤ left k b p + 2 * waste f
          → Emptied (again q' p'))
      → Emptied (loop_reply again t o)
  reply-Emptied b b' f p t none again h l n ih = ih b' t.queue t.place h l
  reply-Emptied b b' f p t (some Reply.nothing) again h l n ih = absurd (n refl)
  reply-Emptied b b' f p t (some r) again h l n ih = ih b' t.queue Place.pop_called h l

  loop-Emptied :
      (b : Board A) (q : Cells A) (f : Bool) (p : Place A) (o : Option (Turn A))
      (again : Cells A → Place A → Drained A)
      → Alone k b q p
      → Goes k b q f p o
      → ((b' : Board A) (q' : Cells A) (p' : Place A)
          → Alone k b' q' p'
          → left k b' p' + 1 ≤ left k b p + 2 * waste f
          → Emptied (again q' p'))
      → Emptied (loop again o)
  loop-Emptied b q f p none again h g ih = absurd g
  loop-Emptied b q f p (some t) again h (inl (r, e, same, n)) ih =
      rw r (subst (λ c. Emptied (Drained.done c)) (sym same) (end-Emptied b q p h e n))
  loop-Emptied b q f p (some t) again h (inr (r, b', al, e, le)) ih =
      reply-Emptied b b' f p t t.reply again al le r ih

  -- A turn is left at each place of the loop.
  left-pos : (b : Board A) (p : Place A) → Draining k b p → 0 < left k b p
  left-pos b p d = ground arith

  pub drain-Emptied :
      (fails : List Bool) (b : Board A) (q : Cells A) (p : Place A)
      → Alone k b q p
      → left k b p + 2 * failures fails ≤ length fails
      → Emptied (V1.drain_remaining moved fails q p)
  unfolding V1.drain_remaining
  drain-Emptied [] b q p h l = absurd (omega (arith, left-pos b p h.draining, l))
  drain-Emptied (f ∷ more) b q p h l =
      loop-Emptied b q f p (V1.try_pop moved f q p) (V1.drain_remaining moved more) h
        (turn-Goes moved k f p h)
        (λ b' q' p' al le. drain-Emptied more b' q' p' al (omega (arith, le)))
