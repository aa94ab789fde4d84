-- ===== src/Atomic/Drain.antt =====
-- `drain_remaining`, which the destructors call when no thread is in a call.
pub mod Turns
pub mod Loop
use yutil.Common.{
  ℕ, ◌+◌, ◌-◌, ◌*◌, ◌==◌, ◌%◌, ◌^◌, ◌<◌, ◌≤◌, ◌≡◌, ◌≢◌, ◌⊎◌, Bool, true, false, Option, none, some,
  List, [], ◌∷◌, length, get_elem?, arith, inl, inr, Bool-cases, sym, ap, ◌∙◌, refl, inc, word,
}
use mathlib.Core.Path.{subst, fun_ext}
use native.Mathlib.Decide.{dec_lt}
use native.Mathlib.Nat.{add-mod_right}
use yutil.Common.Slots.{window-position}
use yutil.Common.Mask.{size-pos}
use yutil.Atomic.Cells.{
  loop, loop_reply, Cells, Place, Turn, Reply, Drained, write, is_behind, move, return,
}
use yutil.Atomic.V1
use yutil.Atomic.System.{update}
use yutil.Atomic.Protocol.{Board, key, filling, emptying, Fits, cell, Inv, Move}
use yutil.Atomic.Protocol.Moves.{Move-Inv}
use yutil.Atomic.Protocol.Calm.{calm-cell}
use yutil.Atomic.Protocol.Ledger.{key-none}
use yutil.Atomic.Reasons.{lt-behind}
use yutil.Atomic.Refine.{quiet-IsMove, Matches, IsMove, found}
use yutil.Atomic.Refine.Pop

-- The turns that fail for no reason.
abbrev pub waste : Bool → ℕ
waste true = 1
waste false = 0

abbrev pub failures : List Bool → ℕ
failures [] = 0
failures (f ∷ fs) = waste f + failures fs

-- One thread at a place, and no other in a call.
abbrev pub alone : {A : Type 0} → Place A → ℕ → Place A
alone p = update (λ j. Place.idle) 0 p

module _ {A : Type 0} (k : ℕ) where
  -- The places that `drain_remaining` passes, with the counter that it has read.
  abbrev pub Draining : Board A → Place A → Type 0
  Draining b Place.pop_called = Unit
  Draining b (Place.pop_look pos spins) = pos ≡ b.deq
  Draining b (Place.pop_claim pos spins) = (pos ≡ b.deq) × (b.deq < b.enq)
  Draining b (Place.read pos) = Unit
  Draining b (Place.destroy pos v) = Unit
  Draining b (Place.pop_publish pos v) = Unit
  Draining b p = ⊥

  pub record Alone (b : Board A) (q : Cells A) (p : Place A) : Type 0 where
    pub inv : Inv (2 ^ k) b (alone p)
    pub matches : Matches k b q
    pub small : b.enq + 2 ^ k < 2 ^ 63
    pub draining : Draining b p

  -- The turns that are left if no compare-exchange fails.
  abbrev pub turns : Place A → ℕ
  turns Place.pop_called = 2
  turns (Place.pop_look pos spins) = 1
  turns (Place.pop_claim pos spins) = 0
  turns (Place.read pos) = 5
  turns (Place.destroy pos v) = 4
  turns (Place.pop_publish pos v) = 3
  turns p = 0

  abbrev pub left : Board A → Place A → ℕ
  left b p = 6 * (b.enq - b.deq) + turns p

  abbrev next_of : Option (Reply A) → Place A → Place A
  next_of none p = p
  next_of (some r) p = Place.pop_called

  abbrev pub next_place : Turn A → Place A
  next_place t = next_of t.reply t.place

  -- The turn ends the loop on an empty queue, or goes on with less to do.
  abbrev pub Goes : Board A → Cells A → Bool → Place A → Option (Turn A) → Type 0
  Goes b q fails p none = ⊥
  Goes b q fails p (some t) =
      ((t.reply ≡ some Reply.nothing) × (b.enq ≡ b.deq) × (t.queue ≡ q) × (key (2 ^ k) p ≡ none))
      ⊎ ((t.reply ≢ some Reply.nothing)
          × (b' : Board A) × Alone b' t.queue (next_place t)
          × (b'.enq ≡ b.enq)
          × (left b' (next_place t) + 1 ≤ left b p + 2 * waste fails))

  pub alone-Inv :
      {b b' : Board A} {p p' : Place A} {r : Option (Reply A)}
      → Inv (2 ^ k) b (alone p)
      → Move (2 ^ k) b p b' p' r
      → Inv (2 ^ k) b' (alone p')
  alone-Inv {b' = b'} {p' = p'} inv mv =
      subst (Inv (2 ^ k) b') (fun_ext (λ j. ground arith)) (Move-Inv 0 inv refl mv)

  pub calm :
      (p : Place A)
      → key (2 ^ k) p ≡ none
      → (i : ℕ) → (filling (alone p i) ≡ none) × (emptying (alone p i) ≡ none)
  calm p e i =
      let (f, g) = key-none (2 ^ k) p e in
      elim (Bool-cases (i == 0)) [ inl t ↦ rw t (f, g) | inr t ↦ rw t (refl, refl) ]
