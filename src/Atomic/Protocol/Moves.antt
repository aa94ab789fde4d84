-- ===== src/Atomic/Protocol/Moves.antt =====
-- Every move keeps the invariant.
use yutil.Common.{
  ℕ, ◌+◌, ◌==◌, ◌<◌, ◌≤◌, ◌≡◌, ◌≢◌, ◌⊎◌, Option, none, some, get_elem?, arith, get_elem?-snoc_ne,
  get_elem?-snoc_self, length-snoc, Bool-cases, inl, inr, sym, ap, ◌∙◌, refl,
}
use mathlib.Core.Path.{subst}
use native.Mathlib.Decide.{ℕ_discrete}
use yutil.Atomic.Cells.{Cell, Place, Reply}
use yutil.Atomic.System.{update}
use yutil.Atomic.Protocol.{
  Board, key, CellFits, Fits, IsBusy, cell, Inv, Move, pushed, popped, rewritten,
}
use yutil.Atomic.Protocol.Others.{claim_push-Fits, claim_pop-Fits, write-Fits}

module _ {A : Type 0} (c : ℕ) (b : Board A) where
  -- Where a thread works alone.
  Mine : ℕ → Type 0
  Mine a = (b.deq ≤ a) × (a < b.deq + c) × IsBusy c b a (b.at a)

  key-Mine :
      2 ≤ c
      → b.deq ≤ b.enq
      → b.enq ≤ b.deq + c
      → (p : Place A) (a : ℕ) → Fits c b p
      → key c p ≡ some a
      → Mine a
  unfolding Mine
  key-Mine two order room (Place.construct y pos) a f k = ground arith
  key-Mine two order room (Place.push_publish y pos) a f k = ground arith
  key-Mine two order room (Place.read pos) a f k = ground arith
  key-Mine two order room (Place.destroy pos v) a f k = ground arith
  key-Mine two order room (Place.pop_publish pos v) a f k = ground arith
  key-Mine two order room p a f k = cc

update-All :
    {A : Type 0} (P : Place A → Type 0) (places : ℕ → Place A) (i : ℕ) (p' : Place A)
    → P p'
    → ((j : ℕ) → P (places j))
    → (j : ℕ) → P (update places i p' j)
update-All P places i p' h k j = elim (Bool-cases (j == i)) [ inl e ↦ rw e h | inr e ↦ rw e (k j) ]

module _ {A : Type 0} {c : ℕ} {b : Board A} {places : ℕ → Place A} (inv : Inv c b places)
    (i : ℕ) where
  quiet-Inv :
      (p' : Place A)
      → key c (places i) ≡ none
      → key c p' ≡ none
      → Fits c b p'
      → Inv c b (update places i p')
  quiet-Inv p' k k' f = record {
    two = inv.two;
    count = inv.count;
    order = inv.order;
    room = inv.room;
    cells = inv.cells;
    fits = λ j. ground (arith, inv.fits j, f);
    apart = λ j l a e g. ground (arith, inv.apart j l a);
    held = λ p lo hi s. let (j, e) = inv.held p lo hi s in (j, ground arith);
  }

  -- The others work elsewhere.
  mine : (j a : ℕ) → key c (places j) ≡ some a → Mine c b a
  mine j a e = key-Mine c b inv.two inv.order inv.room (places j) a (inv.fits j) e

  module _ (x : A) (pos spins : ℕ) (here : places i ≡ Place.push_claim x pos spins)
      (n : pos ≡ b.enq) where
    free : (b.enq < b.deq + c) × (b.at b.enq ≡ cell c b.enq none)
    free =
        let f : Fits c b (Place.push_claim x pos spins) = subst (Fits c b) here (inv.fits i) in
        f.1 n

    claim_push-cells : (p : ℕ) → b.deq ≤ p → p < b.deq + c → CellFits c (pushed b x) p (b.at p)
    claim_push-cells p lo hi = elim (ℕ_discrete p b.enq) [
      | yes e ↦ ground (arith, free)
      | no ne ↦ ground (arith, inv.cells p, inv.count, get_elem?-snoc_ne b.pushes x p)
    ]

    claim_push-apart :
        (j l a : ℕ)
        → key c (update places i (Place.construct x pos) j) ≡ some a
        → key c (update places i (Place.construct x pos) l) ≡ some a
        → j ≡ l
    unfolding Mine
    claim_push-apart j l a g h = ground (arith, inv.apart j l a, mine j a, mine l a, free, inv.two)

    claim_push-held :
        (p : ℕ)
        → b.deq ≤ p
        → p < b.deq + c
        → IsBusy c (pushed b x) p (b.at p)
        → (j : ℕ) × (key c (update places i (Place.construct x pos) j) ≡ some p)
    claim_push-held p lo hi s = elim (ℕ_discrete p b.enq) [
      | yes e ↦ (i, ground arith)
      | no ne ↦ let (j, e) = inv.held p lo hi (ground arith) in (j, ground (arith, here))
    ]

    claim_push-Inv : Inv c (pushed b x) (update places i (Place.construct x pos))
    claim_push-Inv = record {
      two = inv.two;
      count = omega (arith, inv.count, length-snoc b.pushes x);
      order = omega (arith, inv.order);
      room = omega (arith, free.0);
      cells = claim_push-cells;
      fits =
          update-All (Fits c (pushed b x)) places i (Place.construct x pos)
            (ground (arith, free, inv.order, inv.count, get_elem?-snoc_self b.pushes x))
            (λ j.
              claim_push-Fits c inv.two b inv.order inv.room x inv.count free.1 (places j)
                (inv.fits j));
      apart = claim_push-apart;
      held = claim_push-held;
    }

  module _ (pos spins : ℕ) (here : places i ≡ Place.pop_claim pos spins) (n : pos ≡ b.deq)
      (round : b.at (b.deq + c) ≡ b.at b.deq) where
    ready : (b.deq < b.enq) × (b.at b.deq ≡ cell c (b.deq + 1) (get_elem? b.pushes b.deq))
    ready =
        let f : Fits c b (Place.pop_claim pos spins) = subst (Fits c b) here (inv.fits i) in f.1 n

    claim_pop-cells : (p : ℕ) → b.deq + 1 ≤ p → p < b.deq + 1 + c → CellFits c (popped b) p (b.at p)
    claim_pop-cells p lo hi = elim (ℕ_discrete p (b.deq + c)) [
      | yes e ↦ ground (arith, ready, round, inv.room)
      | no ne ↦ ground (arith, inv.cells p)
    ]

    claim_pop-apart :
        (j l a : ℕ)
        → key c (update places i (Place.read pos) j) ≡ some a
        → key c (update places i (Place.read pos) l) ≡ some a
        → j ≡ l
    unfolding Mine
    claim_pop-apart j l a g h = ground (arith, inv.apart j l a, mine j a, mine l a)

    claim_pop-held :
        (p : ℕ)
        → b.deq + 1 ≤ p
        → p < b.deq + 1 + c
        → IsBusy c (popped b) p (b.at p)
        → (j : ℕ) × (key c (update places i (Place.read pos) j) ≡ some p)
    claim_pop-held p lo hi s = elim (ℕ_discrete p (b.deq + c)) [
      | yes e ↦ (i, ground arith)
      | no ne ↦
          let (j, e) = inv.held p (omega arith) (omega arith) (ground arith) in
          (j, ground (arith, here))
    ]

    claim_pop-Inv : Inv c (popped b) (update places i (Place.read pos))
    claim_pop-Inv = record {
      two = inv.two;
      count = inv.count;
      order = omega (arith, ready.0);
      room = omega (arith, inv.room);
      cells = claim_pop-cells;
      fits =
          update-All (Fits c (popped b)) places i (Place.read pos)
            (ground (arith, ready, round, inv.room))
            (λ j. claim_pop-Fits c inv.two b inv.order inv.room ready.1 (places j) (inv.fits j));
      apart = claim_pop-apart;
      held = claim_pop-held;
    }

  module _ (a : ℕ) (at' : ℕ → Option (Cell A)) (p' : Place A) (here : key c (places i) ≡ some a)
      (end : ((key c p' ≡ some a) × IsBusy c b a (at' a))
        ⊎ ((key c p' ≡ none) × (IsBusy c b a (at' a) → ⊥)))
      (same : (q : ℕ) → b.deq ≤ q → q < b.deq + c → q ≢ a → at' q ≡ b.at q)
      (cell_fits : CellFits c b a (at' a)) (own : Fits c (rewritten b at') p') where
    write-cells : (p : ℕ) → b.deq ≤ p → p < b.deq + c → CellFits c b p (at' p)
    write-cells p lo hi = elim (ℕ_discrete p a) [
      | yes e ↦ subst (λ q. CellFits c b q (at' q)) (sym e) cell_fits
      | no ne ↦ subst (CellFits c b p) (sym (same p lo hi ne)) (inv.cells p lo hi)
    ]

    write-others : (j : ℕ) → Fits c (rewritten b at') (update places i p' j)
    unfolding Mine
    write-others j = elim (Bool-cases (j == i)) [
      | inl e ↦ rw e own
      | inr e ↦ rw e (
          write-Fits c inv.two b inv.order inv.room a at' (mine i a here).2 same (places j)
            (λ k. ground (arith, inv.apart j i a, e)) (inv.fits j))
    ]

    write-apart :
        (j l d : ℕ)
        → key c (update places i p' j) ≡ some d
        → key c (update places i p' l) ≡ some d
        → j ≡ l
    write-apart j l d g h =
        ground (arith, inv.apart j l d, inv.apart i l d, inv.apart j i d, here, end)

    write-held :
        (p : ℕ)
        → b.deq ≤ p
        → p < b.deq + c
        → IsBusy c b p (at' p)
        → (j : ℕ) × (key c (update places i p' j) ≡ some p)
    write-held p lo hi s = elim (ℕ_discrete p a) [
      | yes e ↦ (
        i,
        elim end [
          | inl k ↦ ground (arith, k)
          | inr k ↦ absurd (k.1 (subst (λ q. IsBusy c b q (at' q)) e s))
        ],
      )
      | no ne ↦
          let (j, e) = inv.held p lo hi (subst (IsBusy c b p) (same p lo hi ne) s) in
          (j, ground (arith, here))
    ]

    write-Inv : Inv c (rewritten b at') (update places i p')
    write-Inv = record {
      two = inv.two;
      count = inv.count;
      order = inv.order;
      room = inv.room;
      cells = write-cells;
      fits = write-others;
      apart = write-apart;
      held = write-held;
    }

pub Move-Inv :
    {A : Type 0} {c : ℕ} {b b' : Board A} {places : ℕ → Place A} (i : ℕ) {p p' : Place A}
    {r : Option (Reply A)}
    → Inv c b places
    → places i ≡ p
    → Move c b p b' p' r
    → Inv c b' (update places i p')
Move-Inv {c = c} i {p' = p'} inv e (Move.quiet k k' s f) =
    quiet-Inv inv i p' (ap (key c) e ∙ k) k' f
Move-Inv i inv e (Move.claim_push x pos spins n) = claim_push-Inv inv i x pos spins e n
Move-Inv i inv e (Move.claim_pop pos spins n round) = claim_pop-Inv inv i pos spins e n round
Move-Inv {c = c} i {p' = p'} inv e (Move.work a at' k k' fl em w busy f) =
    write-Inv inv i a at' p' (ap (key c) e ∙ k) (inl (k', busy)) w.same w.fits f
Move-Inv {c = c} i inv e (Move.end_push x pos at' w busy) =
    write-Inv inv i pos at' Place.idle (ap (key c) e) (inr (refl, busy)) w.same w.fits tt
Move-Inv {c = c} i inv e (Move.end_pop v pos at' w busy) =
    write-Inv inv i (pos + c) at' Place.idle (ap (key c) e) (inr (refl, busy)) w.same w.fits tt
