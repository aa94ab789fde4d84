-- ===== src/Atomic/Progress/Turns.antt =====
-- Each turn of V1 does a part of the work that its call has left.
use yutil.Common.{
  ℕ, ◌+◌, ◌==◌, ◌^◌, ◌<◌, ◌≤◌, ◌≡◌, ◌≢◌, Bool, true, false, inl, inr, Bool-cases, some, arith, ◌∙◌,
  refl, inc,
}
use mathlib.Core.Path.{subst}
use native.Mathlib.Decide.{dec_lt}
use yutil.Atomic.Cells.{Cell, Cells, Place, is_behind}
use yutil.Atomic.V1
use yutil.Atomic.Class.{Class}
use yutil.Atomic.System.{take_turn, is_pop}
use yutil.Atomic.Protocol.{Board, CellFits, Fits, Inv}
use yutil.Atomic.Refine.{Matches, look}
use yutil.Atomic.Reasons.{home, lt-behind}
use yutil.Atomic.Progress.{Works}

le_of_not-behind : (s p : ℕ) → p < 2 ^ 63 → is_behind s p ≡ false → p ≤ s
le_of_not-behind s p l f = elim (dec_lt s p) [
  | yes h ↦ let t = lt-behind s p h l in cc
  | no h ↦ omega arith
]

module _ {A : Type 0} (k : ℕ) {b : Board A} {q : Cells A} {places : ℕ → Place A}
    (inv : Inv (2 ^ k) b places) (m : Matches k b q) (bound : b.enq + 2 ^ k < 2 ^ 63) where
  -- A cell with a number above the position: another push has claimed that position.
  push_ahead :
      (pos : ℕ) (d : Cell A)
      → pos ≤ b.enq
      → b.at pos ≡ some d
      → (d.sequence == pos) ≡ false
      → is_behind d.sequence pos ≡ false
      → pos < b.enq
  push_ahead pos d l e n f = elim (dec_lt pos b.enq) [
    | yes h ↦ h
    | no h ↦
        let (p, w) = home k inv m bound pos in
        let fit : CellFits (2 ^ k) b p (some d) =
          subst (CellFits (2 ^ k) b p) (w.at ∙ e) (inv.cells p w.lo w.hi) in
        let le = le_of_not-behind d.sequence pos (omega (arith, bound, l)) f in
        let ne : d.sequence ≢ pos = λ g. ground (arith, g) in
        let same : pos < b.deq + 2 ^ k → p ≡ pos = w.same (omega (arith, h, inv.order)) in
        let bounds : (2 ≤ 2 ^ k) × (b.enq ≤ b.deq + 2 ^ k) × (p < b.deq + 2 ^ k) =
          (inv.two, inv.room, w.hi) in
        absurd (ground (arith, le, ne, same, bounds, fit))
  ]

  pop_ahead :
      (pos : ℕ) (d : Cell A)
      → pos ≤ b.deq
      → b.at pos ≡ some d
      → (d.sequence == inc pos) ≡ false
      → is_behind d.sequence (inc pos) ≡ false
      → pos < b.deq
  pop_ahead pos d l e n f = elim (dec_lt pos b.deq) [
    | yes h ↦ h
    | no h ↦
        let (p, w) = home k inv m bound pos in
        let fit : CellFits (2 ^ k) b p (some d) =
          subst (CellFits (2 ^ k) b p) (w.at ∙ e) (inv.cells p w.lo w.hi) in
        let next : inc pos ≡ pos + 1 = omega (arith, bound, l, inv.order) in
        let le =
          le_of_not-behind d.sequence (inc pos) (omega (arith, bound, l, next, inv.order)) f in
        let ne : d.sequence ≢ inc pos = λ g. ground (arith, g) in
        let same = w.same (omega (arith, h)) (omega (arith, l, inv.two)) in
        absurd (ground (arith, le, ne, same, next, inv.two, fit))
  ]

  module _ (moved : A → A) (fails : Bool) where
    push-Works :
        (p : Place A) → is_pop p ≡ false → Fits (2 ^ k) b p → Works q fails p (V1.emplace fails q p)
    unfolding V1.emplace V1.is_closed
    push-Works (Place.push_called x) e f = ground arith
    push-Works (Place.push_start x) e f = inr (omega arith)
    push-Works (Place.push_look x pos spins) e f =
        let (d, g, h) = look k m pos pos refl in
        elim (Bool-cases (d.sequence == pos)) [
          | inl t ↦ rw (g, t, V1.emplace) (inr (omega arith))
          | inr t ↦ elim (Bool-cases (is_behind d.sequence pos)) [
            | inl u ↦ rw (g, t, u, V1.emplace) (inl refl)
            | inr u ↦
                rw (g, t, u, V1.emplace) (inr (omega (arith, push_ahead pos d f h t u, m.enq)))
          ]
        ]
    push-Works (Place.push_reload x spins) e f = inr (omega arith)
    push-Works (Place.push_claim x pos spins) e f = inr (ground (arith, f.0, m.enq))
    push-Works (Place.construct x pos) e f = ground arith
    push-Works (Place.push_publish x pos) e f = ground arith
    push-Works p e f = ground arith

    pop-Works :
        (p : Place A)
        → is_pop p ≡ true
        → Fits (2 ^ k) b p
        → Works q fails p (V1.try_pop moved fails q p)
    unfolding V1.try_pop
    pop-Works Place.pop_called e f = inr (omega arith)
    pop-Works (Place.pop_look pos spins) e f =
        let (d, g, h) = look k m pos pos refl in
        elim (Bool-cases (d.sequence == inc pos)) [
          | inl t ↦ rw (g, t, V1.try_pop) (inr (omega arith))
          | inr t ↦ elim (Bool-cases (is_behind d.sequence (inc pos))) [
            | inl u ↦ rw (g, t, u, V1.try_pop) (inl refl)
            | inr u ↦ rw (g, t, u, V1.try_pop) (inr (omega (arith, pop_ahead pos d f h t u, m.deq)))
          ]
        ]
    pop-Works (Place.pop_reload spins) e f = inr (omega arith)
    pop-Works (Place.pop_claim pos spins) e f = inr (ground (arith, f.0, m.deq))
    pop-Works (Place.read pos) e f = ground arith
    pop-Works (Place.destroy pos v) e f = ground arith
    pop-Works (Place.pop_publish pos v) e f = ground arith
    pop-Works p e f = ground arith

    pub take_turn-Works :
        (p : Place A) → Fits (2 ^ k) b p → Works q fails p (take_turn Class.v1 moved fails q p)
    unfolding take_turn
    take_turn-Works p f = elim (Bool-cases (is_pop p)) [
      | inl e ↦ rw e (pop-Works p e f)
      | inr e ↦ rw e (push-Works p e f)
    ]
