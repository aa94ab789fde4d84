-- ===== src/Atomic/Backoff.antt =====
-- The backoff counter `fail_spins` of `BoundedAtomicMpmcQueueV3`.
use yutil.Common.{
  ℕ, ◌+◌, ◌==◌, ◌%◌, ◌≡◌, ◌⊎◌, inl, inr, Bool, Option, none, some, List, [], ◌∷◌, arith, Bool-cases,
  refl,
}
use mathlib.Core.Path.{subst}
use yutil.Atomic.Cells.{Cells, Place, Turn}
use yutil.Atomic.V3
use yutil.Atomic.Class.{Class, close}
use yutil.Atomic.System.{
  System, Event, start, step, run, take_turn, after, begin, after_close, is_pop,
}

module _ {A : Type 0} where
  -- The counter, inside the loop of `emplace` or `try_pop`.
  abbrev pub fail_spins : Place A → Option ℕ
  fail_spins (Place.push_look x pos spins) = some spins
  fail_spins (Place.push_reload x spins) = some spins
  fail_spins (Place.push_claim x pos spins) = some spins
  fail_spins (Place.pop_look pos spins) = some spins
  fail_spins (Place.pop_reload spins) = some spins
  fail_spins (Place.pop_claim pos spins) = some spins
  fail_spins _ = none

  -- How often the call of a thread has gone round its loop, when the thread goes from one place to
  -- another: behind a compare-exchange that has failed, and behind another load of the counter.
  abbrev pub rounds_to : Place A → Place A → ℕ → ℕ
  rounds_to Place.idle p r = 0
  rounds_to (Place.push_reload x spins) (Place.push_look y pos n) r = r + 1
  rounds_to (Place.push_claim x pos spins) (Place.push_look y pos' n) r = r + 1
  rounds_to (Place.pop_reload spins) (Place.pop_look pos n) r = r + 1
  rounds_to (Place.pop_claim pos spins) (Place.pop_look pos' n) r = r + 1
  rounds_to p p' r = r

  -- The same over a schedule, for thread `i`.
  abbrev pub rounds : (A → A) → ℕ → List (Event A) → System A → ℕ → ℕ
  rounds moved i [] s r = r
  rounds moved i (e ∷ es) s r =
      let t = step Class.v3 moved e s in rounds moved i es t (rounds_to (s.places i) (t.places i) r)

  -- The counter after `r` times round.
  abbrev Backs : ℕ → Place A → Type 0
  Backs r (Place.push_called x) = r ≡ 0
  Backs r (Place.push_start x) = r ≡ 0
  Backs r (Place.push_look x pos spins) = spins ≡ r % 65
  Backs r (Place.push_reload x spins) = spins ≡ r % 65
  Backs r (Place.push_claim x pos spins) = spins ≡ r % 65
  Backs r Place.pop_called = r ≡ 0
  Backs r (Place.pop_look pos spins) = spins ≡ r % 65
  Backs r (Place.pop_reload spins) = spins ≡ r % 65
  Backs r (Place.pop_claim pos spins) = spins ≡ r % 65
  Backs r p = Unit

  stay-Backs : (r : ℕ) (p : Place A) → Backs r p → Backs (rounds_to p p r) p
  stay-Backs r Place.idle b = tt
  stay-Backs r p b = b

  abbrev TurnBacks : ℕ → Place A → Option (Turn A) → Type 0
  TurnBacks r p none = Unit
  TurnBacks r p (some t) = Backs (rounds_to p t.place r) t.place

  emplace-TurnBacks :
      (fails : Bool) (q : Cells A) (p : Place A) (r : ℕ)
      → Backs r p
      → TurnBacks r p (V3.emplace fails q p)
  unfolding V3.emplace V3.is_closed V3.backoff
  emplace-TurnBacks fails q (Place.push_called x) r b = ground arith
  emplace-TurnBacks fails q (Place.push_start x) r b = ground arith
  emplace-TurnBacks fails q (Place.push_look x pos spins) r b = ground arith
  emplace-TurnBacks fails q (Place.push_reload x spins) r b = ground arith
  emplace-TurnBacks fails q (Place.push_claim x pos spins) r b = ground arith
  emplace-TurnBacks fails q (Place.construct x pos) r b = ground arith
  emplace-TurnBacks fails q (Place.push_publish x pos) r b = ground arith
  emplace-TurnBacks fails q p r b = stay-Backs r p b

  try_pop-TurnBacks :
      (moved : A → A) (fails : Bool) (q : Cells A) (p : Place A) (r : ℕ)
      → Backs r p
      → TurnBacks r p (V3.try_pop moved fails q p)
  unfolding V3.try_pop V3.backoff
  try_pop-TurnBacks moved fails q Place.pop_called r b = ground arith
  try_pop-TurnBacks moved fails q (Place.pop_look pos spins) r b = ground arith
  try_pop-TurnBacks moved fails q (Place.pop_reload spins) r b = ground arith
  try_pop-TurnBacks moved fails q (Place.pop_claim pos spins) r b = ground arith
  try_pop-TurnBacks moved fails q (Place.read pos) r b = ground arith
  try_pop-TurnBacks moved fails q (Place.destroy pos v) r b = ground arith
  try_pop-TurnBacks moved fails q (Place.pop_publish pos v) r b = ground arith
  try_pop-TurnBacks moved fails q p r b = stay-Backs r p b

  module _ (moved : A → A) (i : ℕ) where
    take_turn-TurnBacks :
        (fails : Bool) (q : Cells A) (p : Place A) (r : ℕ)
        → Backs r p
        → TurnBacks r p (take_turn Class.v3 moved fails q p)
    unfolding take_turn
    take_turn-TurnBacks fails q p r b = elim (Bool-cases (is_pop p)) [
      | inl e ↦ rw e (try_pop-TurnBacks moved fails q p r b)
      | inr e ↦ rw e (emplace-TurnBacks fails q p r b)
    ]

    -- From one state to another.
    abbrev StepBacks : ℕ → System A → System A → Type 0
    StepBacks r s t =
        Backs r (s.places i) → Backs (rounds_to (s.places i) (t.places i) r) (t.places i)

    begin-StepBacks :
        (s : System A) (a : ℕ) (p q : Place A) (r : ℕ)
        → s.places a ≡ q
        → Backs 0 p
        → StepBacks r s (begin s a p q)
    begin-StepBacks s a p Place.idle r e f b = elim (Bool-cases (i == a)) [
      | inl h ↦ let z : s.places i ≡ Place.idle = ground (arith, h, e) in rw (h, z, rounds_to) f
      | inr h ↦ rw h (stay-Backs r (s.places i) b)
    ]
    begin-StepBacks s a p q r e f b = stay-Backs r (s.places i) b

    after-StepBacks :
        (s : System A) (a : ℕ) (o : Option (Turn A)) (r : ℕ)
        → (Backs r (s.places a) → TurnBacks r (s.places a) o)
        → StepBacks r s (after s a o)
    after-StepBacks s a none r h b = stay-Backs r (s.places i) b
    after-StepBacks s a (some t) r h b = elim (Bool-cases (i == a)) [
      | inl e ↦
          let z : i ≡ a = ground (arith, e) in rw (e, z) (h (subst (λ j. Backs r (s.places j)) z b))
      | inr e ↦ rw e (stay-Backs r (s.places i) b)
    ]

    close-StepBacks :
        (s : System A) (p : Place A) (c : Bool × Cells A) (r : ℕ)
        → StepBacks r s (after_close s p c)
    close-StepBacks s Place.idle c r b = stay-Backs r (s.places i) b
    close-StepBacks s p c r b = stay-Backs r (s.places i) b

    step-StepBacks : (e : Event A) (s : System A) (r : ℕ) → StepBacks r s (step Class.v3 moved e s)
    unfolding step
    step-StepBacks (Event.call_push a x) s r =
        begin-StepBacks s a (Place.push_called x) (s.places a) r refl refl
    step-StepBacks (Event.call_pop a) s r =
        begin-StepBacks s a Place.pop_called (s.places a) r refl refl
    step-StepBacks (Event.go a fails) s r =
        after-StepBacks s a (take_turn Class.v3 moved fails s.queue (s.places a)) r
          (take_turn-TurnBacks fails s.queue (s.places a) r)
    step-StepBacks (Event.call_close a) s r =
        close-StepBacks s (s.places a) (close Class.v3 s.queue) r

    run-Backs :
        (es : List (Event A)) (s : System A) (r : ℕ)
        → Backs r (s.places i)
        → Backs (rounds moved i es s r) ((run Class.v3 moved es s).places i)
    unfolding run
    run-Backs [] s r b = b
    run-Backs (e ∷ es) s r b =
        let t = step Class.v3 moved e s in
        run-Backs es t (rounds_to (s.places i) (t.places i) r) (step-StepBacks e s r b)

    Backs-fail_spins :
        (r : ℕ) (p : Place A) → Backs r p → (fail_spins p ≡ none) ⊎ (fail_spins p ≡ some (r % 65))
    Backs-fail_spins r p b = ground arith

    -- In V3, for every interleaving: the backoff counter of a thread inside the loop of `emplace` or
    -- `try_pop` is the number of times that its call has gone round the loop, modulo 65. It is back at
    -- 0, where the source yields, at every 65th time.
    pub backoff_counts :
        (n : ℕ) (es : List (Event A))
        → let p = (run Class.v3 moved es (start Class.v3 n)).places i in
          (fail_spins p ≡ none)
          ⊎ (fail_spins p ≡ some (rounds moved i es (start Class.v3 n) 0 % 65))
    backoff_counts n es =
        Backs-fail_spins (rounds moved i es (start Class.v3 n) 0)
          ((run Class.v3 moved es (start Class.v3 n)).places i)
          (run-Backs es (start Class.v3 n) 0 tt)
