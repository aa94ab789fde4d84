-- ===== src/Atomic/Versions/Turns.antt =====
-- A turn of V2 or V3 beside the same turn of V1.
use yutil.Common.{ℕ, ◌≡◌, refl, Bool, Option, none, some, arith, inl, inr, Bool-cases}
use yutil.Atomic.Cells.{Cells, Place, Turn}
use yutil.Atomic.V1
use yutil.Atomic.V2
use yutil.Atomic.V3
use yutil.Atomic.Class.{Class, create, emplace, try_pop, close}
use yutil.Atomic.System.{take_turn, is_pop}

module _ {A : Type 0} where
  -- The place without the backoff counter.
  abbrev pub erase : Place A → Place A
  erase (Place.push_look x pos spins) = Place.push_look x pos 0
  erase (Place.push_reload x spins) = Place.push_reload x 0
  erase (Place.push_claim x pos spins) = Place.push_claim x pos 0
  erase (Place.pop_look pos spins) = Place.pop_look pos 0
  erase (Place.pop_reload spins) = Place.pop_reload 0
  erase (Place.pop_claim pos spins) = Place.pop_claim pos 0
  erase p = p

  abbrev pub erase_turn : Option (Turn A) → Option (Turn A)
  erase_turn none = none
  erase_turn (some t) = some (record { queue = t.queue; place = erase t.place; reply = t.reply })

  v1_emplace-erase :
      (fails : Bool) (q : Cells A) (p : Place A)
      → erase_turn (V1.emplace fails q p) ≡ V1.emplace fails q (erase p)
  unfolding V1.emplace V1.is_closed
  v1_emplace-erase fails q (Place.push_called x) = ground arith
  v1_emplace-erase fails q (Place.push_start x) = ground arith
  v1_emplace-erase fails q (Place.push_look x pos spins) = ground arith
  v1_emplace-erase fails q (Place.push_reload x spins) = ground arith
  v1_emplace-erase fails q (Place.push_claim x pos spins) = ground arith
  v1_emplace-erase fails q (Place.construct x pos) = ground arith
  v1_emplace-erase fails q (Place.push_publish x pos) = ground arith
  v1_emplace-erase fails q p = ground arith

  v1_try_pop-erase :
      (moved : A → A) (fails : Bool) (q : Cells A) (p : Place A)
      → erase_turn (V1.try_pop moved fails q p) ≡ V1.try_pop moved fails q (erase p)
  unfolding V1.try_pop
  v1_try_pop-erase moved fails q Place.pop_called = ground arith
  v1_try_pop-erase moved fails q (Place.pop_look pos spins) = ground arith
  v1_try_pop-erase moved fails q (Place.pop_reload spins) = ground arith
  v1_try_pop-erase moved fails q (Place.pop_claim pos spins) = ground arith
  v1_try_pop-erase moved fails q (Place.read pos) = ground arith
  v1_try_pop-erase moved fails q (Place.destroy pos v) = ground arith
  v1_try_pop-erase moved fails q (Place.pop_publish pos v) = ground arith
  v1_try_pop-erase moved fails q p = ground arith

  v2_emplace-erase :
      (fails : Bool) (q : Cells A) (p : Place A)
      → erase_turn (V2.emplace fails q p) ≡ V1.emplace fails q (erase p)
  unfolding V2.emplace V2.is_closed V1.emplace V1.is_closed
  v2_emplace-erase fails q (Place.push_called x) = ground arith
  v2_emplace-erase fails q (Place.push_start x) = ground arith
  v2_emplace-erase fails q (Place.push_look x pos spins) = ground arith
  v2_emplace-erase fails q (Place.push_reload x spins) = ground arith
  v2_emplace-erase fails q (Place.push_claim x pos spins) = ground arith
  v2_emplace-erase fails q (Place.construct x pos) = ground arith
  v2_emplace-erase fails q (Place.push_publish x pos) = ground arith
  v2_emplace-erase fails q p = ground arith

  v2_try_pop-erase :
      (moved : A → A) (fails : Bool) (q : Cells A) (p : Place A)
      → erase_turn (V2.try_pop moved fails q p) ≡ V1.try_pop moved fails q (erase p)
  unfolding V2.try_pop V1.try_pop
  v2_try_pop-erase moved fails q Place.pop_called = ground arith
  v2_try_pop-erase moved fails q (Place.pop_look pos spins) = ground arith
  v2_try_pop-erase moved fails q (Place.pop_reload spins) = ground arith
  v2_try_pop-erase moved fails q (Place.pop_claim pos spins) = ground arith
  v2_try_pop-erase moved fails q (Place.read pos) = ground arith
  v2_try_pop-erase moved fails q (Place.destroy pos v) = ground arith
  v2_try_pop-erase moved fails q (Place.pop_publish pos v) = ground arith
  v2_try_pop-erase moved fails q p = ground arith

  v3_emplace-erase :
      (fails : Bool) (q : Cells A) (p : Place A)
      → erase_turn (V3.emplace fails q p) ≡ V1.emplace fails q (erase p)
  unfolding V3.emplace V3.is_closed V3.backoff V1.emplace V1.is_closed
  v3_emplace-erase fails q (Place.push_called x) = ground arith
  v3_emplace-erase fails q (Place.push_start x) = ground arith
  v3_emplace-erase fails q (Place.push_look x pos spins) = ground arith
  v3_emplace-erase fails q (Place.push_reload x spins) = ground arith
  v3_emplace-erase fails q (Place.push_claim x pos spins) = ground arith
  v3_emplace-erase fails q (Place.construct x pos) = ground arith
  v3_emplace-erase fails q (Place.push_publish x pos) = ground arith
  v3_emplace-erase fails q p = ground arith

  v3_try_pop-erase :
      (moved : A → A) (fails : Bool) (q : Cells A) (p : Place A)
      → erase_turn (V3.try_pop moved fails q p) ≡ V1.try_pop moved fails q (erase p)
  unfolding V3.try_pop V3.backoff V1.try_pop
  v3_try_pop-erase moved fails q Place.pop_called = ground arith
  v3_try_pop-erase moved fails q (Place.pop_look pos spins) = ground arith
  v3_try_pop-erase moved fails q (Place.pop_reload spins) = ground arith
  v3_try_pop-erase moved fails q (Place.pop_claim pos spins) = ground arith
  v3_try_pop-erase moved fails q (Place.read pos) = ground arith
  v3_try_pop-erase moved fails q (Place.destroy pos v) = ground arith
  v3_try_pop-erase moved fails q (Place.pop_publish pos v) = ground arith
  v3_try_pop-erase moved fails q p = ground arith

  module _ (v : Class) (moved : A → A) where
    pub emplace-erase :
        (fails : Bool) (q : Cells A) (p : Place A)
        → erase_turn (emplace v fails q p) ≡ V1.emplace fails q (erase p)
    emplace-erase fails q p =
        elim v as (λ k. erase_turn (emplace k fails q p) ≡ V1.emplace fails q (erase p)) [
          | Class.v1 ↦ v1_emplace-erase fails q p
          | Class.v2 ↦ v2_emplace-erase fails q p
          | Class.v3 ↦ v3_emplace-erase fails q p
        ]

    pub try_pop-erase :
        (fails : Bool) (q : Cells A) (p : Place A)
        → erase_turn (try_pop v moved fails q p) ≡ V1.try_pop moved fails q (erase p)
    try_pop-erase fails q p =
        elim v
          as (λ k. erase_turn (try_pop k moved fails q p) ≡ V1.try_pop moved fails q (erase p)) [
            | Class.v1 ↦ v1_try_pop-erase moved fails q p
            | Class.v2 ↦ v2_try_pop-erase moved fails q p
            | Class.v3 ↦ v3_try_pop-erase moved fails q p
          ]

    pub close_same : (q : Cells A) → close v q ≡ V1.close q
    unfolding V1.close V2.close V3.close
    close_same q = elim v as (λ k. close k q ≡ V1.close q) [
      | Class.v1 ↦ refl
      | Class.v2 ↦ refl
      | Class.v3 ↦ refl
    ]

    pub create_same : (n : ℕ) → create {A = A} v n ≡ V1.create n
    unfolding V1.create V2.create V3.create
    create_same n = elim v as (λ k. create {A = A} k n ≡ V1.create n) [
      | Class.v1 ↦ refl
      | Class.v2 ↦ refl
      | Class.v3 ↦ refl
    ]

    is_pop-erase : (p : Place A) → is_pop (erase p) ≡ is_pop p
    is_pop-erase (Place.push_look x pos spins) = refl
    is_pop-erase (Place.pop_look pos spins) = refl
    is_pop-erase p = refl

    pub take_turn-erase :
        (fails : Bool) (q : Cells A) (p : Place A)
        → erase_turn (take_turn v moved fails q p) ≡ take_turn Class.v1 moved fails q (erase p)
    unfolding take_turn
    take_turn-erase fails q p = elim (Bool-cases (is_pop p)) [
      | inl e ↦ rw (is_pop-erase p, e) (try_pop-erase fails q p)
      | inr e ↦ rw (is_pop-erase p, e) (emplace-erase fails q p)
    ]
