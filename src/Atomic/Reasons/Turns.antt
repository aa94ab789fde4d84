-- ===== src/Atomic/Reasons/Turns.antt =====
-- Which turns of `emplace` and `try_pop` return false, and in which states.
use yutil.Common.{
  ℕ, ◌+◌, ◌^◌, ◌<◌, ◌≡◌, ◌≢◌, ◌⊎◌, Bool, true, some, arith, Bool-cases, inl, inr, refl, inc,
}
use yutil.Atomic.Cells.{Cells, Place, Reply, is_behind}
use yutil.Atomic.V1
use yutil.Atomic.Class.{Class}
use yutil.Atomic.System.{is_pop, take_turn}
use yutil.Atomic.Protocol.{Board, Fits, Inv}
use yutil.Atomic.Refine.{Matches, look}
use yutil.Atomic.Reasons.{reply_of, IsFull, IsBare, full_lem, bare_lem}

module _ {A : Type 0} (k : ℕ) {b : Board A} {q : Cells A} {places : ℕ → Place A}
    (inv : Inv (2 ^ k) b places) (m : Matches k b q) (bound : b.enq + 2 ^ k < 2 ^ 63)
    (moved : A → A) (fails : Bool) where
  push_reason :
      (x : A) (p : Place A)
      → Fits (2 ^ k) b p
      → reply_of (V1.emplace fails q p) ≡ some (Reply.refused x)
      → (q.closed ≡ true) ⊎ IsFull k inv m bound
  unfolding V1.emplace V1.is_closed
  push_reason x (Place.push_called y) f e = elim (Bool-cases q.closed) [
    | inl c ↦ inl c
    | inr c ↦ absurd (ground arith)
  ]
  push_reason x (Place.push_look y pos spins) f e =
      let (d, g, h) = look k m pos pos refl in
      elim (Bool-cases (is_behind d.sequence pos)) [
        | inl t ↦ inr (full_lem k inv m bound pos d f h t)
        | inr t ↦ absurd (ground arith)
      ]
  push_reason x (Place.push_claim y pos spins) f e = absurd (ground arith)
  push_reason x (Place.construct y pos) f e = absurd (ground arith)
  push_reason x (Place.push_publish y pos) f e = absurd (ground arith)
  push_reason x p f e = absurd (ground arith)

  pop_reason :
      (p : Place A)
      → Fits (2 ^ k) b p
      → reply_of (V1.try_pop moved fails q p) ≡ some Reply.nothing
      → IsBare k inv m bound
  unfolding V1.try_pop
  pop_reason Place.pop_called f e = absurd (ground arith)
  pop_reason (Place.pop_look pos spins) f e =
      let (d, g, h) = look k m pos pos refl in
      elim (Bool-cases (is_behind d.sequence (inc pos))) [
        | inl t ↦ bare_lem k inv m bound pos d f h t
        | inr t ↦ absurd (ground arith)
      ]
  pop_reason (Place.pop_claim pos spins) f e = absurd (ground arith)
  pop_reason (Place.read pos) f e = absurd (ground arith)
  pop_reason (Place.destroy pos v) f e = absurd (ground arith)
  pop_reason (Place.pop_publish pos v) f e = absurd (ground arith)
  pop_reason p f e = absurd (ground arith)

  -- The other function gives no such reply.
  push_finds : (p : Place A) → reply_of (V1.emplace fails q p) ≢ some Reply.nothing
  unfolding V1.emplace V1.is_closed
  push_finds (Place.push_called y) e = ground arith
  push_finds (Place.push_look y pos spins) e = ground arith
  push_finds (Place.push_claim y pos spins) e = ground arith
  push_finds (Place.construct y pos) e = ground arith
  push_finds (Place.push_publish y pos) e = ground arith
  push_finds p e = ground arith

  pop_refuses :
      (x : A) (p : Place A) → reply_of (V1.try_pop moved fails q p) ≢ some (Reply.refused x)
  unfolding V1.try_pop
  pop_refuses x Place.pop_called e = ground arith
  pop_refuses x (Place.pop_look pos spins) e = ground arith
  pop_refuses x (Place.pop_claim pos spins) e = ground arith
  pop_refuses x (Place.read pos) e = ground arith
  pop_refuses x (Place.destroy pos v) e = ground arith
  pop_refuses x (Place.pop_publish pos v) e = ground arith
  pop_refuses x p e = ground arith

  pub refused_turn :
      (x : A) (p : Place A)
      → Fits (2 ^ k) b p
      → reply_of (take_turn Class.v1 moved fails q p) ≡ some (Reply.refused x)
      → (q.closed ≡ true) ⊎ IsFull k inv m bound
  unfolding take_turn
  refused_turn x p f e = elim (Bool-cases (is_pop p)) [
    | inl t ↦ absurd (pop_refuses x p (rw t at e))
    | inr t ↦ push_reason x p f (rw t at e)
  ]

  pub nothing_turn :
      (p : Place A)
      → Fits (2 ^ k) b p
      → reply_of (take_turn Class.v1 moved fails q p) ≡ some Reply.nothing
      → IsBare k inv m bound
  unfolding take_turn
  nothing_turn p f e = elim (Bool-cases (is_pop p)) [
    | inl t ↦ pop_reason p f (rw t at e)
    | inr t ↦ absurd (push_finds p (rw t at e))
  ]
