-- ===== src/Atomic/Bystander.antt =====
-- A thread that no event names stays where it is.
use yutil.Common.{◌==◌, false, ◌++◌, ℕ, ◌≡◌, refl, ◌∙◌, Option, none, some, List, [], ◌∷◌, Bool}
use yutil.Atomic.Cells.{Cells, Place, Turn}
use yutil.Atomic.Class.{Class, close}
use yutil.Atomic.System.{System, Event, step, run, take_turn, after, begin, after_close}

module _ {A : Type 0} where
  abbrev actor : Event A → ℕ
  actor (Event.call_push i x) = i
  actor (Event.call_pop i) = i
  actor (Event.go i fails) = i
  actor (Event.call_close i) = i

  abbrev pub IsAbsent : ℕ → List (Event A) → Type 0
  IsAbsent i [] = Unit
  IsAbsent i (e ∷ es) = ((i == actor e) ≡ false) × IsAbsent i es

  begin-places :
      (s : System A) (a : ℕ) (p q : Place A) (i : ℕ)
      → (i == a) ≡ false
      → (begin s a p q).places i ≡ s.places i
  begin-places s a p Place.idle i h = rw h refl
  begin-places s a p q i h = refl

  after-places :
      (s : System A) (a : ℕ) (o : Option (Turn A)) (i : ℕ)
      → (i == a) ≡ false
      → (after s a o).places i ≡ s.places i
  after-places s a none i h = refl
  after-places s a (some t) i h = rw h refl

  close-places :
      (s : System A) (p : Place A) (c : Bool × Cells A) (i : ℕ)
      → (after_close s p c).places i ≡ s.places i
  close-places s Place.idle c i = refl
  close-places s p c i = refl

  module _ (v : Class) (moved : A → A) (i : ℕ) where
    step-places :
        (e : Event A) (s : System A)
        → (i == actor e) ≡ false
        → (step v moved e s).places i ≡ s.places i
    unfolding step
    step-places (Event.call_push a x) s h = begin-places s a (Place.push_called x) (s.places a) i h
    step-places (Event.call_pop a) s h = begin-places s a Place.pop_called (s.places a) i h
    step-places (Event.go a fails) s h =
        after-places s a (take_turn v moved fails s.queue (s.places a)) i h
    step-places (Event.call_close a) s h = close-places s (s.places a) (close v s.queue) i

    pub run-places :
        (es : List (Event A)) (s : System A)
        → IsAbsent i es
        → (run v moved es s).places i ≡ s.places i
    unfolding run
    run-places [] s h = refl
    run-places (e ∷ es) s h = run-places es (step v moved e s) h.1 ∙ step-places e s h.0

  pub run-append :
      (v : Class) (moved : A → A) (es more : List (Event A)) (s : System A)
      → run v moved (es ++ more) s ≡ run v moved more (run v moved es s)
  unfolding run
  run-append v moved [] more s = refl
  run-append v moved (e ∷ es) more s = run-append v moved es more (step v moved e s)
