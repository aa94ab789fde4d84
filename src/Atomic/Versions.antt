-- ===== src/Atomic/Versions.antt =====
-- V2 and V3 beside V1: they differ in the layout of the counters and in the backoff.
pub mod Turns
use yutil.Common.{
  ℕ, ◌==◌, ◌≡◌, refl, sym, ap, ap₂, ◌∙◌, Bool, Option, none, some, List, [], ◌∷◌, arith, inl, inr,
  Bool-cases,
}
use mathlib.Core.Path.{subst}
use yutil.Atomic.Cells.{Cells, Place, Turn, Reply}
use yutil.Atomic.V1
use yutil.Atomic.V2
use yutil.Atomic.V3
use yutil.Atomic.Class.{Class, create, emplace, try_pop, close}
use yutil.Atomic.System.{
  System, Event, start, step, run, take_turn, after, begin, after_close, update, record_reply,
  is_pop,
}
use yutil.Atomic.Versions.Turns.{erase, erase_turn, close_same, create_same, take_turn-erase}

module _ {A : Type 0} where
  -- The same queue, the same returned calls, and each thread at the same place but for the backoff.
  pub record Same (s t : System A) : Type 0 where
    pub queue : s.queue ≡ t.queue
    pub places : (i : ℕ) → t.places i ≡ erase (s.places i)
    pub crashed : s.crashed ≡ t.crashed
    pub log : s.log ≡ t.log

  module _ (v : Class) (moved : A → A) where
    update-erase :
        (f g : ℕ → Place A) (i : ℕ) (p : Place A)
        → ((j : ℕ) → g j ≡ erase (f j))
        → (j : ℕ) → update g i (erase p) j ≡ erase (update f i p j)
    update-erase f g i p h j = elim (Bool-cases (j == i)) [ inl b ↦ rw b refl | inr b ↦ rw b (h j) ]

    begin-Same :
        (s t : System A) (i : ℕ) (p q : Place A)
        → erase p ≡ p
        → Same s t
        → Same (begin s i p q) (begin t i p (erase q))
    begin-Same s t i p Place.idle e h = record {
      queue = h.queue;
      places = λ j.
          ap (λ k. update t.places i k j) (sym e) ∙ update-erase s.places t.places i p h.places j;
      crashed = h.crashed;
      log = h.log;
    }
    begin-Same s t i p q e h = h

    after-Same :
        (s t : System A) (i : ℕ) (o : Option (Turn A))
        → Same s t
        → Same (after s i o) (after t i (erase_turn o))
    after-Same s t i none h = record {
      queue = h.queue;
      places = h.places;
      crashed = refl;
      log = h.log;
    }
    after-Same s t i (some o) h = record {
      queue = refl;
      places = update-erase s.places t.places i o.place h.places;
      crashed = h.crashed;
      log = ap (record_reply o.reply) h.log;
    }

    close-Same :
        (s t : System A) (p : Place A) (c : Bool × Cells A)
        → Same s t
        → Same (after_close s p c) (after_close t (erase p) c)
    close-Same s t Place.idle (r, q) h = record {
      queue = refl;
      places = h.places;
      crashed = h.crashed;
      log = ap (λ l. Reply.closed r ∷ l) h.log;
    }
    close-Same s t p c h = h

    pub step-Same :
        (e : Event A) (s t : System A)
        → Same s t
        → Same (step v moved e s) (step Class.v1 moved e t)
    unfolding step
    step-Same (Event.call_push i x) s t h =
        subst
          (λ p.
            Same (begin s i (Place.push_called x) (s.places i)) (begin t i (Place.push_called x) p))
          (sym (h.places i)) (begin-Same s t i (Place.push_called x) (s.places i) refl h)
    step-Same (Event.call_pop i) s t h =
        subst (λ p. Same (begin s i Place.pop_called (s.places i)) (begin t i Place.pop_called p))
          (sym (h.places i)) (begin-Same s t i Place.pop_called (s.places i) refl h)
    step-Same (Event.go i fails) s t h =
        subst (λ o. Same (after s i (take_turn v moved fails s.queue (s.places i))) (after t i o))
          (take_turn-erase v moved fails s.queue (s.places i)
            ∙ ap₂ (λ q p. take_turn Class.v1 moved fails q p) h.queue (sym (h.places i)))
          (after-Same s t i (take_turn v moved fails s.queue (s.places i)) h)
    step-Same (Event.call_close i) s t h =
        subst
          (λ c. Same (after_close s (s.places i) (close v s.queue)) (after_close t (t.places i) c))
          (close_same v moved s.queue ∙ ap V1.close h.queue)
          (subst
            (λ p.
              Same (after_close s (s.places i) (close v s.queue))
                (after_close t p (close v s.queue)))
            (sym (h.places i)) (close-Same s t (s.places i) (close v s.queue) h))

    pub run-Same :
        (es : List (Event A)) (s t : System A)
        → Same s t
        → Same (run v moved es s) (run Class.v1 moved es t)
    unfolding run
    run-Same [] s t h = h
    run-Same (e ∷ es) s t h =
        run-Same es (step v moved e s) (step Class.v1 moved e t) (step-Same e s t h)

    -- Under one schedule each class does what V1 does: the queue, the calls that have returned and the
    -- accesses that must not happen are the same, and each thread is at the same place but for its
    -- backoff counter.
    pub versions_agree :
        (n : ℕ) (es : List (Event A))
        → Same (run v moved es (start v n)) (run Class.v1 moved es (start Class.v1 n))
    versions_agree n es =
        run-Same es (start v n) (start Class.v1 n)
          (record { queue = create_same v moved n; places = λ i. refl; crashed = refl; log = refl })
