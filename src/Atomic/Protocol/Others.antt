-- ===== src/Atomic/Protocol/Others.antt =====
-- What a thread relies on still holds behind the move of another.
use yutil.Common.{
  ℕ, ◌+◌, ◌<◌, ◌≤◌, ◌≡◌, ◌≢◌, Option, none, some, length, get_elem?, arith, get_elem?-snoc_ne,
}
use yutil.Atomic.Cells.{Cell, Place}
use yutil.Atomic.Protocol.{Board, key, Fits, IsBusy, cell, pushed, popped, rewritten}

module _ {A : Type 0} (c : ℕ) (two : 2 ≤ c) (b : Board A) (order : b.deq ≤ b.enq)
    (room : b.enq ≤ b.deq + c) where
  module _ (x : A) (count : b.enq ≡ length b.pushes) (free : b.at b.enq ≡ cell c b.enq none) where
    pub claim_push-Fits : (p : Place A) → Fits c b p → Fits c (pushed b x) p
    claim_push-Fits (Place.push_look y pos spins) f = omega (arith, f)
    claim_push-Fits (Place.push_claim y pos spins) f = ground (arith, f.0)
    claim_push-Fits (Place.construct y pos) f = ground (arith, f, get_elem?-snoc_ne b.pushes x pos)
    claim_push-Fits (Place.push_publish y pos) f =
        ground (arith, f, get_elem?-snoc_ne b.pushes x pos)
    claim_push-Fits (Place.pop_look pos spins) f = f
    claim_push-Fits (Place.pop_claim pos spins) f =
        ground (arith, f, get_elem?-snoc_ne b.pushes x b.deq)
    claim_push-Fits (Place.read pos) f =
        ground (arith, f, free, two, get_elem?-snoc_ne b.pushes x pos)
    claim_push-Fits (Place.destroy pos v) f =
        ground (arith, f, free, two, get_elem?-snoc_ne b.pushes x pos)
    claim_push-Fits (Place.pop_publish pos v) f =
        ground (arith, f, free, two, get_elem?-snoc_ne b.pushes x pos)
    claim_push-Fits p f = tt

  module _ (ready : b.at b.deq ≡ cell c (b.deq + 1) (get_elem? b.pushes b.deq)) where
    pub claim_pop-Fits : (p : Place A) → Fits c b p → Fits c (popped b) p
    claim_pop-Fits (Place.push_claim y pos spins) f = ground (arith, f)
    claim_pop-Fits (Place.construct y pos) f = ground (arith, f, ready)
    claim_pop-Fits (Place.push_publish y pos) f = ground (arith, f, ready)
    claim_pop-Fits (Place.pop_look pos spins) f = omega (arith, f)
    claim_pop-Fits (Place.pop_claim pos spins) f = ground (arith, f.0)
    claim_pop-Fits (Place.read pos) f = ground (arith, f)
    claim_pop-Fits (Place.destroy pos v) f = ground (arith, f)
    claim_pop-Fits (Place.pop_publish pos v) f = ground (arith, f)
    claim_pop-Fits p f = f

  module _ (a : ℕ) (at' : ℕ → Option (Cell A)) (busy : IsBusy c b a (b.at a))
      (same : (q : ℕ) → b.deq ≤ q → q < b.deq + c → q ≢ a → at' q ≡ b.at q) where
    pub write-Fits : (p : Place A) → key c p ≢ some a → Fits c b p → Fits c (rewritten b at') p
    write-Fits (Place.push_look y pos spins) n f = f
    write-Fits (Place.push_claim y pos spins) n f =
        (f.0, λ e. ground (arith, f.1 e, same b.enq, busy))
    write-Fits (Place.construct y pos) n f = ground (arith, f, same pos)
    write-Fits (Place.push_publish y pos) n f = ground (arith, f, same pos)
    write-Fits (Place.pop_claim pos spins) n f = (f.0, λ e. ground (arith, f.1 e, same b.deq, busy))
    write-Fits (Place.read pos) n f = ground (arith, f, same (pos + c))
    write-Fits (Place.destroy pos v) n f = ground (arith, f, same (pos + c))
    write-Fits (Place.pop_publish pos v) n f = ground (arith, f, same (pos + c))
    write-Fits p n f = f
