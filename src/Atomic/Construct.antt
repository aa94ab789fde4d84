-- ===== src/Atomic/Construct.antt =====
-- What the constructors of the three `BoundedAtomicMpmcQueue` classes make.
use yutil.Common.{
  ℕ, ◌+◌, ◌*◌, ◌%◌, ◌^◌, ◌<◌, ◌≤◌, ◌≡◌, ◌⊎◌, false, none, some, length, get_elem?, inl, inr, arith,
  sym, ap, ◌∙◌, refl,
}
use mathlib.Core.Option
use mathlib.Core.Path.{subst}
use native.Mathlib.Decide.{dec_le}
use yutil.Common.Mask.{bit_and_mask}
use yutil.Capacity.{normalize_capacity, normalize_total, normalize_diverges, Normalized, two-le-pow}
use yutil.Atomic.Cells.{Cells, slot}
use yutil.Atomic.V1
use yutil.Atomic.V2
use yutil.Atomic.V3
use yutil.Atomic.Class.{Class, create, construct}
use yutil.Atomic.Versions.Turns.{create_same}
use yutil.Atomic.Safety.{length-numbered, get_elem?-numbered}

-- An open queue without an item whose capacity is the least power of two that serves: position `p`
-- has cell `p % capacity_`, and cell `i` is free for position `i`.
pub record IsNew {A : Type 0} (capacity : ℕ) (q : Cells A) : Type 0 where
  pub log : ℕ
  pub power : q.capacity ≡ 2 ^ log
  pub two : 2 ≤ q.capacity
  pub enough : capacity ≤ q.capacity
  pub least : (q.capacity ≡ 2) ⊎ (q.capacity < 2 * capacity)
  pub open_ : q.closed ≡ false
  pub enqueue_pos : q.enqueue_pos ≡ 0
  pub dequeue_pos : q.dequeue_pos ≡ 0
  pub allocated : length q.cells ≡ q.capacity
  pub index : (p : ℕ) → slot q p ≡ p % q.capacity
  pub free :
      (i : ℕ)
      → i < q.capacity
      → get_elem? q.cells i ≡ some (record { sequence = i; storage = none })

module _ {A : Type 0} (v : Class) (fuel capacity : ℕ) where
  v1_create-IsNew : (n : ℕ) → Normalized capacity n → IsNew capacity (V1.create {A = A} n)
  unfolding V1.create slot
  v1_create-IsNew n h = record {
    log = h.log;
    power = h.power;
    two = omega (arith, h.power, two-le-pow h.log h.log_pos);
    enough = h.enough;
    least = h.least;
    open_ = refl;
    enqueue_pos = refl;
    dequeue_pos = refl;
    allocated = length-numbered A 0 n;
    index = λ p. rw h.power (bit_and_mask h.log p);
    free = λ i l.
        get_elem?-numbered 0 n i l
        ∙ ap (λ j. some (record { sequence = j; storage = none })) {x = 0 + i} (omega arith);
  }

  create-IsNew : (n : ℕ) → Normalized capacity n → IsNew capacity (create {A = A} v n)
  create-IsNew n h =
      subst (IsNew capacity) (sym (create_same v (λ (x : A). x) n)) (v1_create-IsNew n h)

  construct-map :
      construct {A = A} v fuel capacity ≡ Option.map (create v) (normalize_capacity fuel capacity)
  unfolding V1.construct V2.construct V3.construct V1.normalize_capacity V2.normalize_capacity
      V3.normalize_capacity
  construct-map =
      elim v
        as (λ k.
          construct {A = A} k fuel capacity
          ≡ Option.map (create k) (normalize_capacity fuel capacity)) [
            | Class.v1 ↦ refl
            | Class.v2 ↦ refl
            | Class.v3 ↦ refl
          ]

  -- In each class the constructor, with fuel for 64 rounds or more, makes such a queue of every
  -- request of at most 2^63, and does not end on a larger one.
  pub construct_lem :
      64 ≤ fuel
      → ((capacity ≤ 2 ^ 63)
          × (q : Cells A) × (construct v fuel capacity ≡ some q)
          × IsNew capacity q)
        ⊎ ((2 ^ 63 < capacity) × (construct {A = A} v fuel capacity ≡ none))
  construct_lem enough = elim (dec_le capacity (2 ^ 63)) [
    | yes l ↦
        let (n, e, h) = normalize_total fuel capacity enough l in
        inl (l, create v n, construct-map ∙ ap (Option.map (create v)) e, create-IsNew n h)
    | no l ↦ inr (
      omega arith,
      construct-map ∙ ap (Option.map (create v)) (normalize_diverges fuel capacity (omega arith)),
    )
  ]
