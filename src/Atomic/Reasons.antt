-- ===== src/Atomic/Reasons.antt =====
-- Why a push is refused and why a pop finds nothing.
pub mod Turns
use yutil.Common.{
  ℕ, ◌+◌, ◌%◌, ◌^◌, ◌<◌, ◌≤◌, ◌≡◌, ◌≢◌, ◌⊎◌, Bool, true, Option, none, some, get_elem?, arith,
  Bool-cases, inl, inr, sym, ap, ◌∙◌, refl, inc,
}
use mathlib.Core.Path.{subst}
use native.Mathlib.Decide.{dec_lt, ℕ_discrete}
use native.Mathlib.Nat.{mod-lt}
use yutil.Common.Slots.{mod-ne, mod-window, window-position}
use yutil.Common.Mask.{size-pos}
use yutil.Atomic.Cells.{Cell, Cells, Place, Turn, Reply, is_behind}
use yutil.Atomic.V1
use yutil.Atomic.Class.{Class}
use yutil.Atomic.System.{is_pop, take_turn}
use yutil.Atomic.Protocol.{Board, key, filling, emptying, CellFits, Fits, IsBusy, Inv}
use yutil.Atomic.Refine.{Matches, look}

behind-lt : (s p : ℕ) → s < 2 ^ 63 → p < 2 ^ 63 → is_behind s p ≡ true → s < p
unfolding is_behind
behind-lt s p h l e = ground arith

pub lt-behind : (s p : ℕ) → s < p → p < 2 ^ 63 → is_behind s p ≡ true
unfolding is_behind
lt-behind s p l h = ground arith

module _ {A : Type 0} where
  abbrev pub reply_of : Option (Turn A) → Option (Reply A)
  reply_of none = none
  reply_of (some t) = t.reply

module _ {A : Type 0} (k : ℕ) {b : Board A} {q : Cells A} {places : ℕ → Place A}
    (inv : Inv (2 ^ k) b places) (m : Matches k b q) (bound : b.enq + 2 ^ k < 2 ^ 63) where
  -- The position of the window that has the cell of `pos`.
  pub record Home (pos p : ℕ) : Type 0 where
    pub lo : b.deq ≤ p
    pub hi : p < b.deq + 2 ^ k
    pub at : b.at p ≡ b.at pos
    pub past : pos < b.deq → pos + 2 ^ k ≤ p
    pub same : b.deq ≤ pos → pos < b.deq + 2 ^ k → p ≡ pos

  pub home : (pos : ℕ) → (p : ℕ) × Home pos p
  home pos =
      let (p, lo, hi, e) =
        window-position b.deq (2 ^ k) (pos % 2 ^ k) (size-pos k) (mod-lt pos (size-pos k)) in
      (
        p,
        record {
          lo = lo;
          hi = hi;
          at = m.at p ∙ ap (get_elem? q.cells) e ∙ sym (m.at pos);
          past = λ l. elim (dec_lt p (pos + 2 ^ k)) [
            | yes h ↦ absurd (mod-ne pos p (2 ^ k) (omega arith) h (sym e))
            | no h ↦ omega arith
          ];
          same = λ l h. elim (ℕ_discrete p pos) [
            | yes g ↦ g
            | no g ↦ absurd (mod-window b.deq p pos (2 ^ k) lo hi l h g e)
          ];
        },
      )

  -- A cell with a number below the position to push to: the queue is full, or the pop of one round
  -- before has not given the cell back.
  full :
      (pos : ℕ) (d : Cell A)
      → pos ≤ b.enq
      → b.at pos ≡ some d
      → is_behind d.sequence pos ≡ true
      → (b.enq ≡ b.deq + 2 ^ k) ⊎ ((i : ℕ) × (key (2 ^ k) (places i) ≡ some b.enq))
  full pos d l e t =
      let (p, h) = home pos in
      let fit : CellFits (2 ^ k) b p (some d) =
        subst (CellFits (2 ^ k) b p) (h.at ∙ e) (inv.cells p h.lo h.hi) in
      let small : d.sequence < 2 ^ 63 = ground (arith, fit, h.hi, bound, inv.order) in
      let low = behind-lt d.sequence pos small (omega (arith, l, bound)) t in
      elim (dec_lt pos (b.deq + 2 ^ k)) [
        | no n ↦ inl (omega (arith, inv.room, l))
        | yes y ↦
            let last : (p ≡ b.enq) × (b.enq ≤ p) × (d.sequence + 2 ^ k ≡ p + 1) =
              ground (arith, fit, low, h.past, h.same, h.lo, h.hi, l, y) in
            let (i, key_at) =
              inv.held p h.lo h.hi
                (subst (IsBusy (2 ^ k) b p) (sym (h.at ∙ e)) (inr (last.1, last.2))) in
            inr (i, key_at ∙ ap some last.0)
      ]

  -- A cell with a number up to the position to pop from: the queue is empty, or the push to that
  -- position has not published it.
  bare :
      (pos : ℕ) (d : Cell A)
      → pos ≤ b.deq
      → b.at pos ≡ some d
      → is_behind d.sequence (inc pos) ≡ true
      → (b.enq ≡ b.deq) ⊎ ((b.deq < b.enq) × (i : ℕ) × (key (2 ^ k) (places i) ≡ some b.deq))
  bare pos d l e t =
      let (p, h) = home pos in
      let fit : CellFits (2 ^ k) b p (some d) =
        subst (CellFits (2 ^ k) b p) (h.at ∙ e) (inv.cells p h.lo h.hi) in
      let small : d.sequence < 2 ^ 63 = ground (arith, fit, h.hi, bound, inv.order) in
      let next : inc pos ≡ pos + 1 = omega (arith, inv.order, bound) in
      let low =
        behind-lt d.sequence (pos + 1) small (omega (arith, l, bound, inv.order))
          (ap (is_behind d.sequence) (sym next) ∙ t) in
      elim (dec_lt b.deq b.enq) [
        | no n ↦ inl (omega (arith, inv.order))
        | yes y ↦
            let first : (p ≡ b.deq) × (d.sequence ≡ p) =
              ground (arith, fit, low, h.past, h.same, h.lo, h.hi, l, y) in
            let (i, key_at) = inv.held p h.lo h.hi (
              subst (IsBusy (2 ^ k) b p) (sym (h.at ∙ e))
                (inl (omega (arith, first.0), first.1))) in
            inr (y, i, key_at ∙ ap some first.0)
      ]

  key-emptying :
      (p : Place A)
      → Fits (2 ^ k) b p
      → key (2 ^ k) p ≡ some b.enq
      → (pos : ℕ) × (emptying p ≡ some pos) × (pos + 2 ^ k ≡ b.enq)
  key-emptying (Place.construct x pos) f e = absurd (ground arith)
  key-emptying (Place.push_publish x pos) f e = absurd (ground arith)
  key-emptying (Place.read pos) f e = (pos, refl, ground arith)
  key-emptying (Place.destroy pos v) f e = (pos, refl, ground arith)
  key-emptying (Place.pop_publish pos v) f e = (pos, refl, ground arith)
  key-emptying p f e = cc

  key-filling :
      (p : Place A)
      → b.deq < b.enq
      → Fits (2 ^ k) b p
      → key (2 ^ k) p ≡ some b.deq
      → filling p ≡ some b.deq
  key-filling (Place.construct x pos) l f e = e
  key-filling (Place.push_publish x pos) l f e = e
  key-filling (Place.read pos) l f e = absurd (ground arith)
  key-filling (Place.destroy pos v) l f e = absurd (ground arith)
  key-filling (Place.pop_publish pos v) l f e = absurd (ground arith)
  key-filling p l f e = cc

  abbrev pub IsFull : Type 0
  IsFull =
      (b.enq ≡ b.deq + 2 ^ k)
      ⊎ ((i pos : ℕ) × (emptying (places i) ≡ some pos) × (pos + 2 ^ k ≡ b.enq))

  abbrev pub IsBare : Type 0
  IsBare = (b.enq ≡ b.deq) ⊎ ((i : ℕ) × (filling (places i) ≡ some b.deq))

  pub full_lem :
      (pos : ℕ) (d : Cell A)
      → pos ≤ b.enq
      → b.at pos ≡ some d
      → is_behind d.sequence pos ≡ true
      → IsFull
  full_lem pos d l e t = elim (full pos d l e t) [
    | inl h ↦ inl h
    | inr (i, h) ↦ let (pos, e', g) = key-emptying (places i) (inv.fits i) h in inr (i, pos, e', g)
  ]

  pub bare_lem :
      (pos : ℕ) (d : Cell A)
      → pos ≤ b.deq
      → b.at pos ≡ some d
      → is_behind d.sequence (inc pos) ≡ true
      → IsBare
  bare_lem pos d l e t = elim (bare pos d l e t) [
    | inl h ↦ inl h
    | inr (y, i, h) ↦ inr (i, key-filling (places i) y (inv.fits i) h)
  ]
