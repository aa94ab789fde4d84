-- ===== src/Atomic/Alone/Failures.antt =====
-- A call alone whose compare-exchanges may fail for no reason, beside one where none does.
use yutil.Common.{
  ℕ, zero, suc, ◌+◌, ◌*◌, ◌==◌, ◌≤◌, ◌≡◌, ◌⊎◌, inl, inr, Bool, true, false, Option, none, some,
  List, [], ◌∷◌, length, get_elem?, Bool-cases, arith, ap, sym, ◌∙◌, refl, inc,
}
use yutil.Atomic.Cells.{Cell, Cells, Place, Turn, Reply, slot, move, is_behind}
use yutil.Atomic.V1
use yutil.Atomic.Drain.{failures}
use yutil.Atomic.Alone.{solo, solo_turn, solo_reply, attempt}

module _ {A : Type 0} where
  -- The place keeps the predicate until the call returns.
  abbrev Keeps : (Cells A → Place A → Type 0) → Option (Turn A) → Type 0
  Keeps P none = Unit
  Keeps P (some t) = P t.queue t.place

  -- A failure changes nothing, or takes the call back to a place one turn before.
  abbrev Repeats :
      (Bool → Cells A → Place A → Option (Turn A))
      → (Cells A → Place A → Type 0)
      → Cells A
      → Place A
      → Type 0
  Repeats f P q p =
      (f true q p ≡ f false q p)
      ⊎ ((p' : Place A) × (f true q p ≡ some (move q p'))
          × (f false q p' ≡ some (move q p))
          × P q p')

  module _ (f : Bool → Cells A → Place A → Option (Turn A)) (P : Cells A → Place A → Type 0)
      (keeps : (q : Cells A) (p : Place A) → P q p → Keeps P (f false q p))
      (repeats : (q : Cells A) (p : Place A) → P q p → Repeats f P q p)
      {r : Reply A × Cells A} where
    -- Turns in which nothing fails may be as many as `m`, if all but `more` of them are made.
    turn-attempt :
        (m : ℕ) (more : List Bool) (o : Option (Turn A))
        → Keeps P o
        → ((q : Cells A) (p : Place A)
            → P q p
            → solo (f false) m q p ≡ some r
            → attempt f more q p ≡ some r)
        → solo_turn (solo (f false) m) o ≡ some r
        → solo_turn (attempt f more) o ≡ some r
    turn-attempt m more none k h e = e
    turn-attempt m more (some t) k h e = reply t.reply e
      where
        reply :
            (o : Option (Reply A))
            → solo_reply (solo (f false) m) t o ≡ some r
            → solo_reply (attempt f more) t o ≡ some r
        reply none e = h t.queue t.place k e
        reply (some a) e = e

    pub attempt-enough :
        (fails : List Bool) (m : ℕ) (q : Cells A) (p : Place A)
        → P q p
        → solo (f false) m q p ≡ some r
        → m + 2 * failures fails ≤ length fails
        → attempt f fails q p ≡ some r
    unfolding solo attempt
    attempt-enough fails zero q p i e l = cc
    attempt-enough [] (suc m) q p i e l = absurd (omega arith)
    attempt-enough (false ∷ more) (suc m) q p i e l =
        turn-attempt m more (f false q p) (keeps q p i)
          (λ q' p' i' e'. attempt-enough more m q' p' i' e' (omega arith)) e
    attempt-enough (true ∷ more) (suc m) q p i e l = elim (repeats q p i) [
      | inl s ↦
          ap (solo_turn (attempt f more)) s
          ∙ turn-attempt m more (f false q p) (keeps q p i)
              (λ q' p' i' e'. attempt-enough more m q' p' i' e' (omega arith)) e
      | inr (p', s, t, i') ↦
          ap (solo_turn (attempt f more)) s
          ∙ attempt-enough more (suc (suc m)) q p' i'
              (ap (solo_turn (solo (f false) (suc m))) t ∙ e) (omega arith)
    ]

  -- The places of a push alone, with what it has read.
  abbrev Pushing : Cells A → Place A → Type 0
  Pushing q (Place.push_look x pos spins) = pos ≡ q.enqueue_pos
  Pushing q (Place.push_claim x pos spins) =
      (pos ≡ q.enqueue_pos)
      × (c : Cell A) × (get_elem? q.cells (slot q pos) ≡ some c)
      × (c.sequence ≡ pos)
  Pushing q p = Unit

  push_look-Keeps :
      (q : Cells A) (x : A) (pos spins : ℕ)
      → pos ≡ q.enqueue_pos
      → (o : Option (Cell A)) → get_elem? q.cells (slot q pos) ≡ o
      → Keeps Pushing (V1.emplace false q (Place.push_look x pos spins))
  unfolding V1.emplace
  push_look-Keeps q x pos spins i none g = rw (g, V1.emplace) tt
  push_look-Keeps q x pos spins i (some c) g = elim (Bool-cases (c.sequence == pos)) [
    | inl b ↦ rw (g, b, V1.emplace) (i, c, g, ground (arith, b))
    | inr b ↦ elim (Bool-cases (is_behind c.sequence pos)) [
      | inl h ↦ rw (g, b, h, V1.emplace) tt
      | inr h ↦ rw (g, b, h, V1.emplace) tt
    ]
  ]

  emplace-Keeps : (q : Cells A) (p : Place A) → Pushing q p → Keeps Pushing (V1.emplace false q p)
  unfolding V1.emplace V1.is_closed
  emplace-Keeps q (Place.push_called x) i = ground arith
  emplace-Keeps q (Place.push_start x) i = ground arith
  emplace-Keeps q (Place.push_look x pos spins) i =
      push_look-Keeps q x pos spins i (get_elem? q.cells (slot q pos)) refl
  emplace-Keeps q (Place.push_reload x spins) i = ground arith
  emplace-Keeps q (Place.push_claim x pos spins) i = ground arith
  emplace-Keeps q (Place.construct x pos) i = ground arith
  emplace-Keeps q (Place.push_publish x pos) i = ground arith
  emplace-Keeps q p i = ground arith

  emplace-Repeats : (q : Cells A) (p : Place A) → Pushing q p → Repeats V1.emplace Pushing q p
  unfolding V1.emplace V1.is_closed
  emplace-Repeats q (Place.push_claim x pos spins) (e, c, g, s) =
      let z : (q.enqueue_pos == pos) ≡ true = ground (arith, e) in
      let u : (c.sequence == pos) ≡ true = ground (arith, s) in
      inr (
        Place.push_look x pos spins,
        rw (z, V1.emplace) (ap (λ n. some (move q (Place.push_look x n spins))) (sym e)),
        rw (g, u, V1.emplace) refl,
        e,
      )
  emplace-Repeats q (Place.push_called x) i = inl refl
  emplace-Repeats q p i = inl refl

  -- A push alone that returns within `m` turns where nothing fails.
  pub emplace-attempt :
      (fails : List Bool) (m : ℕ) (q : Cells A) (x : A) (r : Reply A × Cells A)
      → solo (V1.emplace false) m q (Place.push_called x) ≡ some r
      → m + 2 * failures fails ≤ length fails
      → attempt V1.emplace fails q (Place.push_called x) ≡ some r
  emplace-attempt fails m q x r e l =
      attempt-enough V1.emplace Pushing emplace-Keeps emplace-Repeats fails m q
        (Place.push_called x) tt e l

  -- The places of a pop alone, with what it has read.
  abbrev Popping : Cells A → Place A → Type 0
  Popping q (Place.pop_look pos spins) = pos ≡ q.dequeue_pos
  Popping q (Place.pop_claim pos spins) =
      (pos ≡ q.dequeue_pos)
      × (c : Cell A) × (get_elem? q.cells (slot q pos) ≡ some c)
      × ((c.sequence == inc pos) ≡ true)
  Popping q p = Unit

  module _ (moved : A → A) where
    pop_look-Keeps :
        (q : Cells A) (pos spins : ℕ)
        → pos ≡ q.dequeue_pos
        → (o : Option (Cell A)) → get_elem? q.cells (slot q pos) ≡ o
        → Keeps Popping (V1.try_pop moved false q (Place.pop_look pos spins))
    unfolding V1.try_pop
    pop_look-Keeps q pos spins i none g = rw (g, V1.try_pop) tt
    pop_look-Keeps q pos spins i (some c) g = elim (Bool-cases (c.sequence == inc pos)) [
      | inl b ↦ rw (g, b, V1.try_pop) (i, c, g, b)
      | inr b ↦ elim (Bool-cases (is_behind c.sequence (inc pos))) [
        | inl h ↦ rw (g, b, h, V1.try_pop) tt
        | inr h ↦ rw (g, b, h, V1.try_pop) tt
      ]
    ]

    try_pop-Keeps :
        (q : Cells A) (p : Place A) → Popping q p → Keeps Popping (V1.try_pop moved false q p)
    unfolding V1.try_pop
    try_pop-Keeps q Place.pop_called i = ground arith
    try_pop-Keeps q (Place.pop_look pos spins) i =
        pop_look-Keeps q pos spins i (get_elem? q.cells (slot q pos)) refl
    try_pop-Keeps q (Place.pop_reload spins) i = ground arith
    try_pop-Keeps q (Place.pop_claim pos spins) i = ground arith
    try_pop-Keeps q (Place.read pos) i = ground arith
    try_pop-Keeps q (Place.destroy pos v) i = ground arith
    try_pop-Keeps q (Place.pop_publish pos v) i = ground arith
    try_pop-Keeps q p i = ground arith

    try_pop-Repeats :
        (q : Cells A) (p : Place A) → Popping q p → Repeats (V1.try_pop moved) Popping q p
    unfolding V1.try_pop
    try_pop-Repeats q (Place.pop_claim pos spins) (e, c, g, u) =
        let z : (q.dequeue_pos == pos) ≡ true = ground (arith, e) in
        inr (
          Place.pop_look pos spins,
          rw (z, V1.try_pop) (ap (λ n. some (move q (Place.pop_look n spins))) (sym e)),
          rw (g, u, V1.try_pop) refl,
          e,
        )
    try_pop-Repeats q p i = inl refl

    -- So a pop alone.
    pub try_pop-attempt :
        (fails : List Bool) (m : ℕ) (q : Cells A) (r : Reply A × Cells A)
        → solo (V1.try_pop moved false) m q Place.pop_called ≡ some r
        → m + 2 * failures fails ≤ length fails
        → attempt (V1.try_pop moved) fails q Place.pop_called ≡ some r
    try_pop-attempt fails m q r e l =
        attempt-enough (V1.try_pop moved) Popping try_pop-Keeps try_pop-Repeats fails m q
          Place.pop_called tt e l
