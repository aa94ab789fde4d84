-- ===== src/Atomic/Closing.antt =====
-- `close` of the atomic queues, over every interleaving.
use yutil.Common.{
  ◌∙◌, ℕ, ◌==◌, ◌≡◌, refl, true, false, not, Option, none, some, List, [], ◌∷◌, if◌then◌else◌,
  arith, inl, inr, Bool-cases,
}
use yutil.Atomic.Cells.{Cells, Place, Turn}
use yutil.Atomic.V1
use yutil.Atomic.V2
use yutil.Atomic.V3
use yutil.Atomic.Class.{Class, create, close}
use yutil.Atomic.System.{
  System, Event, start, step, run, take_turn, after, begin, after_close, update,
}
use yutil.Atomic.Frame.{
  count-record_reply, closing, pushing, count, is_admitted, IsFramed, take_turn-IsFramed,
}

module _ {A : Type 0} (v : Class) (moved : A → A) where
  close-once : (q : Cells A) → close v q ≡ (not q.closed, record q { closed = true })
  unfolding V1.close V2.close V3.close
  close-once q = elim v as (λ k. close k q ≡ (not q.closed, record q { closed = true })) [
    | Class.v1 ↦ refl
    | Class.v2 ↦ refl
    | Class.v3 ↦ refl
  ]

  -- `close` has returned true once if the queue is closed, and not yet if it is open.
  abbrev IsClosedOnce : System A → Type 0
  IsClosedOnce s = count closing s.log ≡ (if s.queue.closed then 1 else 0)

  begin-IsClosedOnce :
      (s : System A) (i : ℕ) (p q : Place A) → IsClosedOnce s → IsClosedOnce (begin s i p q)
  begin-IsClosedOnce s i p Place.idle h = h
  begin-IsClosedOnce s i p q h = h

  after-IsClosedOnce :
      (s : System A) (i : ℕ) (p : Place A) (t : Option (Turn A))
      → IsFramed s.queue p t
      → IsClosedOnce s
      → IsClosedOnce (after s i t)
  after-IsClosedOnce s i p none f h = h
  after-IsClosedOnce s i p (some t) f h =
      rw (f.0) (omega (arith, count-record_reply closing t.reply s.log, f.1, h))

  close-IsClosedOnce :
      (s : System A) (p : Place A)
      → IsClosedOnce s
      → IsClosedOnce (after_close s p (close v s.queue))
  close-IsClosedOnce s Place.idle h = rw (close-once s.queue) (ground (arith, h))
  close-IsClosedOnce s p h = h

  step-IsClosedOnce :
      (e : Event A) (s : System A) → IsClosedOnce s → IsClosedOnce (step v moved e s)
  unfolding step
  step-IsClosedOnce (Event.call_push i x) s h =
      begin-IsClosedOnce s i (Place.push_called x) (s.places i) h
  step-IsClosedOnce (Event.call_pop i) s h = begin-IsClosedOnce s i Place.pop_called (s.places i) h
  step-IsClosedOnce (Event.go i fails) s h =
      after-IsClosedOnce s i (s.places i) (take_turn v moved fails s.queue (s.places i))
        (take_turn-IsFramed v moved fails s.queue (s.places i)) h
  step-IsClosedOnce (Event.call_close i) s h = close-IsClosedOnce s (s.places i) h

  run-IsClosedOnce :
      (es : List (Event A)) (s : System A) → IsClosedOnce s → IsClosedOnce (run v moved es s)
  unfolding run
  run-IsClosedOnce [] s h = h
  run-IsClosedOnce (e ∷ es) s h = run-IsClosedOnce es (step v moved e s) (step-IsClosedOnce e s h)

  start-open : (n : ℕ) → (create {A = A} v n).closed ≡ false
  unfolding V1.create V2.create V3.create
  start-open n = elim v as (λ k. (create {A = A} k n).closed ≡ false) [
    | Class.v1 ↦ refl
    | Class.v2 ↦ refl
    | Class.v3 ↦ refl
  ]

  -- In each class and interleaving, of all the calls of `close` exactly one has returned true if the
  -- queue is closed, and none if it is open.
  pub close_once :
      (n : ℕ) (es : List (Event A))
      → count closing (run v moved es (start v n)).log
        ≡ (if (run v moved es (start v n)).queue.closed then 1 else 0)
  close_once n es = run-IsClosedOnce es (start v n) (rw (start-open n) refl)

  -- The queue is closed, no thread is behind the test of `closed_`, and `m` pushes have succeeded.
  abbrev IsShut : ℕ → System A → Type 0
  IsShut m s =
      (s.queue.closed ≡ true)
      × ((i : ℕ) → is_admitted (s.places i) ≡ false)
      × (count pushing s.log ≡ m)

  update-admitted :
      (places : ℕ → Place A) (i : ℕ) (p : Place A)
      → ((j : ℕ) → is_admitted (places j) ≡ false)
      → is_admitted p ≡ false
      → (j : ℕ) → is_admitted (update places i p j) ≡ false
  update-admitted places i p h e j = elim (Bool-cases (j == i)) [
    | inl b ↦ rw b e
    | inr b ↦ rw b (h j)
  ]

  begin-IsShut :
      (m : ℕ) (s : System A) (i : ℕ) (p q : Place A)
      → is_admitted p ≡ false
      → IsShut m s
      → IsShut m (begin s i p q)
  begin-IsShut m s i p Place.idle e h = (h.0, update-admitted s.places i p (h.1) e, h.2)
  begin-IsShut m s i p q e h = h

  after-IsShut :
      (m : ℕ) (s : System A) (i : ℕ) (t : Option (Turn A))
      → IsFramed s.queue (s.places i) t
      → IsShut m s
      → IsShut m (after s i t)
  after-IsShut m s i none f h = h
  after-IsShut m s i (some t) f h = (
    (f.0) ∙ (h.0),
    update-admitted s.places i t.place (h.1) ((f.2) (h.0) ((h.1) i)),
    omega (arith, count-record_reply pushing t.reply s.log, (f.3) ((h.1) i), h.2),
  )

  close-IsShut :
      (m : ℕ) (s : System A) (p : Place A)
      → IsShut m s
      → IsShut m (after_close s p (close v s.queue))
  close-IsShut m s Place.idle h = rw (close-once s.queue) (refl, h.1, omega (arith, h.2))
  close-IsShut m s p h = h

  step-IsShut : (m : ℕ) (e : Event A) (s : System A) → IsShut m s → IsShut m (step v moved e s)
  unfolding step
  step-IsShut m (Event.call_push i x) s h =
      begin-IsShut m s i (Place.push_called x) (s.places i) refl h
  step-IsShut m (Event.call_pop i) s h = begin-IsShut m s i Place.pop_called (s.places i) refl h
  step-IsShut m (Event.go i fails) s h =
      after-IsShut m s i (take_turn v moved fails s.queue (s.places i))
        (take_turn-IsFramed v moved fails s.queue (s.places i)) h
  step-IsShut m (Event.call_close i) s h = close-IsShut m s (s.places i) h

  run-IsShut :
      (m : ℕ) (es : List (Event A)) (s : System A) → IsShut m s → IsShut m (run v moved es s)
  unfolding run
  run-IsShut m [] s h = h
  run-IsShut m (e ∷ es) s h = run-IsShut m es (step v moved e s) (step-IsShut m e s h)

  -- In each class: once the queue is closed and no thread is behind the test of `closed_` in
  -- `emplace`, it stays closed and no push succeeds any more, whatever the threads do.
  pub close_refuses :
      (es : List (Event A)) (s : System A)
      → s.queue.closed ≡ true
      → ((i : ℕ) → is_admitted (s.places i) ≡ false)
      → ((run v moved es s).queue.closed ≡ true)
        × (count pushing (run v moved es s).log ≡ count pushing s.log)
  close_refuses es s c a = let h = run-IsShut (count pushing s.log) es s (c, a, refl) in (h.0, h.2)
