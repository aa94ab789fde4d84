-- ===== src/Ring/System/Closing.antt =====
-- `close` leaves nobody asleep.
use yutil.Common.{
  ℕ, ◌+◌, ◌-◌, ◌<◌, ◌≡◌, ◌⊎◌, refl, Bool, true, false, Option, none, some, List, [], ◌∷◌, length,
  weigh, pick, pick-Picked, Picked, some-inj, arith,
}
use mathlib.Core.Path.{subst}
use yutil.Fifo.{Fifo}
use yutil.Fifo.Bounded.{Call}
use yutil.Ring.Ops.{
  Ops, Notice, quiet, one_consumer, one_producer, everyone, consumers_then_producers, all_producers,
  IsBounded, Section, fault, block, done, Reply, PushLegal, PopLegal, is_accepted,
}
use yutil.Ring.System.{
  System, Event, push, resume_push, try_push, wait_pop, resume_pop, try_pop, close, deliver,
  spurious_consumer, spurious_producer, step, run, start, signal, leave, after_push, after_pop,
  one_of-eq, run-cons,
}
use yutil.Ring.System.Linear.{IsExplained, step-IsExplained}

-- Whether a notice wakes all of a side.
abbrev pub all_consumers : Notice → ℕ
all_consumers everyone = 1
all_consumers consumers_then_producers = 1
all_consumers _ = 0

abbrev pub all_the_producers : Notice → ℕ
all_the_producers everyone = 1
all_the_producers consumers_then_producers = 1
all_the_producers all_producers = 1
all_the_producers _ = 0

module _ {A S : Type 0} (c : ℕ) (Valid : S → Type 0) (view : S → Fifo A) where
  -- At a closed queue, whoever sleeps has a wakeup for all on its way; `d` and `e` more may be
  -- outstanding.
  record IsShut (d e : ℕ) (s : System A S) : Type 0 where
    consumers :
        ((view s.queue).closed ≡ false)
        ⊎ (s.consumers ≡ 0)
        ⊎ (0 < weigh all_consumers s.pending + d)
    producers :
        ((view s.queue).closed ≡ false)
        ⊎ (length s.producers ≡ 0)
        ⊎ (0 < weigh all_the_producers s.pending + e)

  signal-IsShut :
      (n : Notice) (j : ℕ) (d e : ℕ) (s : System A S)
      → IsShut (all_consumers n + d) (all_the_producers n + e) s
      → IsShut d e (signal n j s)
  signal-IsShut quiet j d e s h = ground arith
  signal-IsShut one_consumer j d e s h = ground arith
  signal-IsShut one_producer j d e s h = ground (arith, pick-Picked (λ x. 0) j s.producers)
  signal-IsShut everyone j d e s h = ground arith
  signal-IsShut consumers_then_producers j d e s h = ground arith
  signal-IsShut all_producers j d e s h = ground arith

  leave-IsShut :
      (n : Notice) (s : System A S)
      → IsShut (all_consumers n) (all_the_producers n) s
      → IsShut 0 0 (leave n s)
  leave-IsShut n s h = ground arith

  -- A thread does not fall asleep at a closed queue, and nothing but `close` closes it.
  abbrev KeepsOpen : (R : Type 0) → Fifo A → Section R S → Type 0
  KeepsOpen R f fault = ⊥
  KeepsOpen R f (block q) = ((view q).closed ≡ false)
  KeepsOpen R f (done r held after q) = (view q).closed ≡ f.closed

  push-KeepsOpen :
      (x : A) (f : Fifo A) (w : Section Reply S)
      → PushLegal c Valid view f (Call.push x) w
      → KeepsOpen Reply f w
  push-KeepsOpen x f w l = ground arith

  try_push-KeepsOpen :
      (x : A) (f : Fifo A) (w : Section Reply S)
      → PushLegal c Valid view f (Call.try_push x) w
      → KeepsOpen Reply f w
  try_push-KeepsOpen x f w l = ground arith

  wait_pop-KeepsOpen :
      (f : Fifo A) (w : Section (Option A) S)
      → PopLegal c Valid view f Call.wait_pop w
      → KeepsOpen (Option A) f w
  wait_pop-KeepsOpen f w l = ground arith

  try_pop-KeepsOpen :
      (f : Fifo A) (w : Section (Option A) S)
      → PopLegal c Valid view f Call.try_pop w
      → KeepsOpen (Option A) f w
  try_pop-KeepsOpen f w l = ground arith

  after_push-IsShut :
      (x : A) (call : Bool → Call A) (s : System A S) (w : Section Reply S)
      → KeepsOpen Reply (view s.queue) w
      → IsShut 0 0 s
      → IsShut 0 0 (after_push x call s w)
  after_push-IsShut x call s fault l h = absurd l
  after_push-IsShut x call s (block q) l h = ground arith
  after_push-IsShut x call s (done r held after q) l h = leave-IsShut after _ (
      signal-IsShut held 0 (all_consumers after) (all_the_producers after)
        (record s { queue = q; log = call (is_accepted r) ∷ s.log }) (ground arith))

  after_pop-IsShut :
      (call : Option A → Call A) (s : System A S) (w : Section (Option A) S)
      → KeepsOpen (Option A) (view s.queue) w
      → IsShut 0 0 s
      → IsShut 0 0 (after_pop call s w)
  after_pop-IsShut call s fault l h = absurd l
  after_pop-IsShut call s (block q) l h = ground arith
  after_pop-IsShut call s (done r held after q) l h = leave-IsShut after _ (
      signal-IsShut held 0 (all_consumers after) (all_the_producers after)
        (record s { queue = q; log = call r ∷ s.log }) (ground arith))

-- `close` signals everybody.
abbrev pub ClosesAll {ℓ} : {A S : Type ℓ} → Ops A S → Type ℓ
ClosesAll {S = S} ops =
    (s : S) → (all_consumers (ops.close s).0 ≡ 1) × (all_the_producers (ops.close s).0 ≡ 1)

module _ {A S : Type 0} (c : ℕ) (Valid : S → Type 0) (view : S → Fifo A) (ops : Ops A S)
    (laws : IsBounded c Valid view ops) (closes : ClosesAll ops) where
  step-IsShut :
      (e : Event A) (s : System A S) {t : System A S}
      → step ops e s ≡ some t
      → IsExplained c Valid view s
      → IsShut c Valid view 0 0 s
      → IsShut c Valid view 0 0 t
  unfolding step
  step-IsShut (push x) s h i w = rw (← one_of-eq _ h) (
      after_push-IsShut c Valid view x (Call.push x) (record s { idle = s.idle - 1 })
        (ops.emplace x s.queue)
        (push-KeepsOpen c Valid view x (view s.queue) _ (laws.emplace_lem x s.queue i.0))
        (ground arith))
  step-IsShut (resume_push k) s {t} h i w = resumed (pick k s.producers_woken) h
    where
      resumed :
          (o : Option (A × List A))
          → elim o [
            | none ↦ none
            | some (x, xs) ↦ some (
                after_push x
                  (Call.push x)
                  (record s { producers_woken = xs })
                  (ops.resume_push x s.queue))
          ]
            ≡ some t
          → IsShut c Valid view 0 0 t
      resumed none h = cc
      resumed (some (x, xs)) h = subst (IsShut c Valid view 0 0) (some-inj h) (
          after_push-IsShut c Valid view x (Call.push x) (record s { producers_woken = xs })
            (ops.resume_push x s.queue)
            (push-KeepsOpen c Valid view x (view s.queue) (ops.resume_push x s.queue)
              (laws.resume_push_lem x s.queue i.0))
            (ground arith))
  step-IsShut (try_push x) s h i w = rw (← one_of-eq _ h) (
      after_push-IsShut c Valid view x (Call.try_push x) (record s { idle = s.idle - 1 })
        (ops.try_emplace x s.queue)
        (try_push-KeepsOpen c Valid view x (view s.queue) _ (laws.try_emplace_lem x s.queue i.0))
        (ground arith))
  step-IsShut wait_pop s h i w = rw (← one_of-eq _ h) (
      after_pop-IsShut c Valid view Call.wait_pop (record s { idle = s.idle - 1 })
        (ops.wait_pop s.queue)
        (wait_pop-KeepsOpen c Valid view (view s.queue) _ (laws.wait_pop_lem s.queue i.0))
        (ground arith))
  step-IsShut resume_pop s h i w = rw (← one_of-eq _ h) (
      after_pop-IsShut c Valid view Call.wait_pop
        (record s { consumers_woken = s.consumers_woken - 1 }) (ops.resume_pop s.queue)
        (wait_pop-KeepsOpen c Valid view (view s.queue) _ (laws.resume_pop_lem s.queue i.0))
        (ground arith))
  step-IsShut try_pop s h i w = rw (← one_of-eq _ h) (
      after_pop-IsShut c Valid view Call.try_pop (record s { idle = s.idle - 1 })
        (ops.try_pop s.queue)
        (try_pop-KeepsOpen c Valid view (view s.queue) _ (laws.try_pop_lem s.queue i.0))
        (ground arith))
  step-IsShut close s h i w =
      rw (← one_of-eq _ h)
        (leave-IsShut c Valid view (ops.close s.queue).0 _ (ground (arith, closes s.queue)))
  step-IsShut (deliver k j) s {t} h i w =
      delivered (pick k s.pending) (pick-Picked all_consumers k s.pending)
        (pick-Picked all_the_producers k s.pending) h
    where
      delivered :
          (o : Option (Notice × List Notice))
          → Picked all_consumers s.pending o
          → Picked all_the_producers s.pending o
          → elim o [
            | none ↦ none
            | some (n, ns) ↦ some (signal n j (record s { pending = ns; idle = s.idle + 1 }))
          ]
            ≡ some t
          → IsShut c Valid view 0 0 t
      delivered none p q h = cc
      delivered (some (n, ns)) p q h = subst (IsShut c Valid view 0 0) (some-inj h) (
          signal-IsShut c Valid view n j 0 0 (record s { pending = ns; idle = s.idle + 1 })
            (ground arith))
  step-IsShut spurious_consumer s h i w = ground arith
  step-IsShut (spurious_producer k) s h i w = ground (arith, pick-Picked (λ x. 0) k s.producers)

  run-IsShut :
      (es : List (Event A)) (s : System A S) {t : System A S}
      → run ops es s ≡ some t
      → IsExplained c Valid view s
      → IsShut c Valid view 0 0 s
      → IsShut c Valid view 0 0 t
  unfolding run
  run-IsShut [] s h i w = ground arith
  run-IsShut (e ∷ es) s h i w =
      let (u, p, q) = run-cons ops e es s h in
      run-IsShut es u q (step-IsExplained c Valid view ops laws e s p i) (step-IsShut e s p i w)

  -- Once the queue is closed and nothing is on its way, no thread sleeps.
  pub closed-sleeping :
      (n : ℕ) (es : List (Event A)) {t : System A S}
      → run ops es (start ops n) ≡ some t
      → (view t.queue).closed ≡ true
      → t.pending ≡ []
      → (t.consumers ≡ 0) × (length t.producers ≡ 0)
  closed-sleeping n es {t} h p q =
      let w =
        run-IsShut es (start ops n) h (laws.initial_lem.0, refl, laws.initial_lem.1)
          (ground arith) in
      ground (arith, w.consumers, w.producers)
