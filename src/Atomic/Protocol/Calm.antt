-- ===== src/Atomic/Protocol/Calm.antt =====
-- The cells while no thread works on one.
use yutil.Common.{ℕ, ◌+◌, ◌<◌, ◌≤◌, ◌≡◌, inl, inr, Option, none, some, refl, get_elem?, arith}
use yutil.Atomic.Cells.{Cell, Place}
use yutil.Atomic.Protocol.{Board, key, filling, emptying, CellFits, IsBusy, cell, Inv}

module _ {A : Type 0} (c : ℕ) where
  calm-key : (p : Place A) → filling p ≡ none → emptying p ≡ none → key c p ≡ none
  calm-key (Place.construct x pos) f e = cc
  calm-key (Place.push_publish x pos) f e = cc
  calm-key (Place.read pos) f e = cc
  calm-key (Place.destroy pos v) f e = cc
  calm-key (Place.pop_publish pos v) f e = cc
  calm-key p f e = refl

  idle-cell :
      (b : Board A) (p : ℕ) (o : Option (Cell A))
      → CellFits c b p o
      → (IsBusy c b p o → ⊥)
      → (p < b.enq → o ≡ cell c (p + 1) (get_elem? b.pushes p)) × (b.enq ≤ p → o ≡ cell c p none)
  idle-cell b p none f n = absurd f
  idle-cell b p (some d) (inl r) n = (λ l. ground arith, λ g. absurd (omega arith))
  idle-cell b p (some d) (inr (inl r)) n = absurd (n (inl r))
  idle-cell b p (some d) (inr (inr (inl r))) n = (λ l. absurd (omega arith), λ g. ground arith)
  idle-cell b p (some d) (inr (inr (inr r))) n = absurd (n (inr r))

  module _ {b : Board A} {places : ℕ → Place A} (inv : Inv c b places)
      (calm : (i : ℕ) → (filling (places i) ≡ none) × (emptying (places i) ≡ none)) (p : ℕ)
      (lo : b.deq ≤ p) (hi : p < b.deq + c) where
    pub calm-cell :
        (p < b.enq → b.at p ≡ cell c (p + 1) (get_elem? b.pushes p))
        × (b.enq ≤ p → b.at p ≡ cell c p none)
    calm-cell = idle-cell b p (b.at p) (inv.cells p lo hi) (λ busy.
        let (i, e) = inv.held p lo hi busy in
        let k = calm-key (places i) (calm i).0 (calm i).1 in cc)
