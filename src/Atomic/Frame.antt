-- ===== src/Atomic/Frame.antt =====
-- What no turn of `emplace` or `try_pop` changes: the flag, and what the other turns count on.
use yutil.Common.{
  ◌+◌, refl, inl, inr, ℕ, ◌+◌, ◌≡◌, Bool, true, false, Option, none, some, List, [], ◌∷◌, arith,
  Bool-cases,
}
use yutil.Atomic.Cells.{Cells, Place, Turn, Reply}
use yutil.Atomic.V1
use yutil.Atomic.V2
use yutil.Atomic.V3
use yutil.Atomic.Class.{Class, emplace, try_pop}
use yutil.Atomic.System.{take_turn, is_pop, record_reply}

module _ {ℓ} {A : Type ℓ} where
  -- Whether a reply is that of a `close` that was the first, and of an accepted push.
  abbrev pub closing : Reply A → ℕ
  closing (Reply.closed true) = 1
  closing _ = 0

  abbrev pub pushing : Reply A → ℕ
  pushing (Reply.pushed pos x) = 1
  pushing _ = 0

  abbrev pub count : (Reply A → ℕ) → List (Reply A) → ℕ
  count f [] = 0
  count f (r ∷ rs) = f r + count f rs

  -- Behind the test of `closed_` in `emplace`.
  abbrev pub is_admitted : Place A → Bool
  is_admitted (Place.push_start x) = true
  is_admitted (Place.push_look x pos spins) = true
  is_admitted (Place.push_reload x spins) = true
  is_admitted (Place.push_claim x pos spins) = true
  is_admitted (Place.construct x pos) = true
  is_admitted (Place.push_publish x pos) = true
  is_admitted _ = false

-- What no turn changes, and what every turn keeps.
module _ {A : Type 0} where
  abbrev pub count_reply : (Reply A → ℕ) → Option (Reply A) → ℕ
  count_reply f none = 0
  count_reply f (some r) = f r

  pub count-record_reply :
      (f : Reply A → ℕ) (r : Option (Reply A)) (log : List (Reply A))
      → count f (record_reply r log) ≡ count_reply f r + count f log
  count-record_reply f none log = omega arith
  count-record_reply f (some r) log = refl

  abbrev pub IsFramed : Cells A → Place A → Option (Turn A) → Type 0
  IsFramed q p none = Unit
  IsFramed q p (some t) =
      (t.queue.closed ≡ q.closed)
      × (count_reply closing t.reply ≡ 0)
      × (q.closed ≡ true → is_admitted p ≡ false → is_admitted t.place ≡ false)
      × (is_admitted p ≡ false → count_reply pushing t.reply ≡ 0)

  v1_emplace-IsFramed :
      (fails : Bool) (q : Cells A) (p : Place A) → IsFramed q p (V1.emplace fails q p)
  unfolding V1.emplace V1.is_closed
  v1_emplace-IsFramed fails q (Place.push_called x) = ground arith
  v1_emplace-IsFramed fails q (Place.push_start x) = ground arith
  v1_emplace-IsFramed fails q (Place.push_look x pos spins) = ground arith
  v1_emplace-IsFramed fails q (Place.push_reload x spins) = ground arith
  v1_emplace-IsFramed fails q (Place.push_claim x pos spins) = ground arith
  v1_emplace-IsFramed fails q (Place.construct x pos) = ground arith
  v1_emplace-IsFramed fails q (Place.push_publish x pos) = ground arith
  v1_emplace-IsFramed fails q p = ground arith

  v1_try_pop-IsFramed :
      (moved : A → A) (fails : Bool) (q : Cells A) (p : Place A)
      → IsFramed q p (V1.try_pop moved fails q p)
  unfolding V1.try_pop
  v1_try_pop-IsFramed moved fails q Place.pop_called = ground arith
  v1_try_pop-IsFramed moved fails q (Place.pop_look pos spins) = ground arith
  v1_try_pop-IsFramed moved fails q (Place.pop_reload spins) = ground arith
  v1_try_pop-IsFramed moved fails q (Place.pop_claim pos spins) = ground arith
  v1_try_pop-IsFramed moved fails q (Place.read pos) = ground arith
  v1_try_pop-IsFramed moved fails q (Place.destroy pos v) = ground arith
  v1_try_pop-IsFramed moved fails q (Place.pop_publish pos v) = ground arith
  v1_try_pop-IsFramed moved fails q p = ground arith

  v2_emplace-IsFramed :
      (fails : Bool) (q : Cells A) (p : Place A) → IsFramed q p (V2.emplace fails q p)
  unfolding V2.emplace V2.is_closed
  v2_emplace-IsFramed fails q (Place.push_called x) = ground arith
  v2_emplace-IsFramed fails q (Place.push_start x) = ground arith
  v2_emplace-IsFramed fails q (Place.push_look x pos spins) = ground arith
  v2_emplace-IsFramed fails q (Place.push_reload x spins) = ground arith
  v2_emplace-IsFramed fails q (Place.push_claim x pos spins) = ground arith
  v2_emplace-IsFramed fails q (Place.construct x pos) = ground arith
  v2_emplace-IsFramed fails q (Place.push_publish x pos) = ground arith
  v2_emplace-IsFramed fails q p = ground arith

  v2_try_pop-IsFramed :
      (moved : A → A) (fails : Bool) (q : Cells A) (p : Place A)
      → IsFramed q p (V2.try_pop moved fails q p)
  unfolding V2.try_pop
  v2_try_pop-IsFramed moved fails q Place.pop_called = ground arith
  v2_try_pop-IsFramed moved fails q (Place.pop_look pos spins) = ground arith
  v2_try_pop-IsFramed moved fails q (Place.pop_reload spins) = ground arith
  v2_try_pop-IsFramed moved fails q (Place.pop_claim pos spins) = ground arith
  v2_try_pop-IsFramed moved fails q (Place.read pos) = ground arith
  v2_try_pop-IsFramed moved fails q (Place.destroy pos v) = ground arith
  v2_try_pop-IsFramed moved fails q (Place.pop_publish pos v) = ground arith
  v2_try_pop-IsFramed moved fails q p = ground arith

  v3_emplace-IsFramed :
      (fails : Bool) (q : Cells A) (p : Place A) → IsFramed q p (V3.emplace fails q p)
  unfolding V3.emplace V3.backoff V3.is_closed
  v3_emplace-IsFramed fails q (Place.push_called x) = ground arith
  v3_emplace-IsFramed fails q (Place.push_start x) = ground arith
  v3_emplace-IsFramed fails q (Place.push_look x pos spins) = ground arith
  v3_emplace-IsFramed fails q (Place.push_reload x spins) = ground arith
  v3_emplace-IsFramed fails q (Place.push_claim x pos spins) = ground arith
  v3_emplace-IsFramed fails q (Place.construct x pos) = ground arith
  v3_emplace-IsFramed fails q (Place.push_publish x pos) = ground arith
  v3_emplace-IsFramed fails q p = ground arith

  v3_try_pop-IsFramed :
      (moved : A → A) (fails : Bool) (q : Cells A) (p : Place A)
      → IsFramed q p (V3.try_pop moved fails q p)
  unfolding V3.try_pop V3.backoff
  v3_try_pop-IsFramed moved fails q Place.pop_called = ground arith
  v3_try_pop-IsFramed moved fails q (Place.pop_look pos spins) = ground arith
  v3_try_pop-IsFramed moved fails q (Place.pop_reload spins) = ground arith
  v3_try_pop-IsFramed moved fails q (Place.pop_claim pos spins) = ground arith
  v3_try_pop-IsFramed moved fails q (Place.read pos) = ground arith
  v3_try_pop-IsFramed moved fails q (Place.destroy pos v) = ground arith
  v3_try_pop-IsFramed moved fails q (Place.pop_publish pos v) = ground arith
  v3_try_pop-IsFramed moved fails q p = ground arith

  pub take_turn-IsFramed :
      (v : Class) (moved : A → A) (fails : Bool) (q : Cells A) (p : Place A)
      → IsFramed q p (take_turn v moved fails q p)
  unfolding take_turn
  take_turn-IsFramed v moved fails q p = elim (Bool-cases (is_pop p)) [
    | inl e ↦ rw e (popping v)
    | inr e ↦ rw e (pushing_turn v)
  ]
    where
      popping : (v : Class) → IsFramed q p (try_pop v moved fails q p)
      popping Class.v1 = v1_try_pop-IsFramed moved fails q p
      popping Class.v2 = v2_try_pop-IsFramed moved fails q p
      popping Class.v3 = v3_try_pop-IsFramed moved fails q p

      pushing_turn : (v : Class) → IsFramed q p (emplace v fails q p)
      pushing_turn Class.v1 = v1_emplace-IsFramed fails q p
      pushing_turn Class.v2 = v2_emplace-IsFramed fails q p
      pushing_turn Class.v3 = v3_emplace-IsFramed fails q p
