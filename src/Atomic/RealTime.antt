-- ===== src/Atomic/RealTime.antt =====
-- The order of the claims is that of the calls: a claim comes behind every one that was made before.
use yutil.Common.{
  ℕ, ◌+◌, ◌^◌, ◌<◌, ◌≤◌, ◌≡◌, ◌⊎◌, Bool, inl, inr, Bool-cases, Option, none, some, List, [], ◌∷◌,
  length, arith, sym, ap, ◌∙◌, refl, inc,
}
use mathlib.Core.Path.{subst}
use yutil.Capacity.{normalize_capacity}
use yutil.Atomic.Cells.{Cells, Place, Turn}
use yutil.Atomic.V1
use yutil.Atomic.Class.{Class}
use yutil.Atomic.System.{
  System, Event, start, step, run, take_turn, is_pop, after, begin, after_close,
}
use yutil.Atomic.Versions.{versions_agree, run-Same}
use yutil.Atomic.Protocol.{filling, emptying}
use yutil.Atomic.Safety.{Safe, step-Safe}
use yutil.Atomic.Reached.{normalized, reached, filling-erase, emptying-erase}

-- What a thread holds behind a turn: what it held, nothing, or the next position.
abbrev pub Follows : ℕ → Option ℕ → Option ℕ → Type 0
Follows next old new = (new ≡ old) ⊎ (new ≡ none) ⊎ (new ≡ some next)

abbrev pub Counts : ℕ → ℕ → Type 0
Counts old new = (new ≡ old) ⊎ (new ≡ inc old)

module _ {A : Type 0} where
  abbrev pub IsLater : Cells A → Place A → Option (Turn A) → Type 0
  IsLater q p none = Unit
  IsLater q p (some t) =
      Follows q.enqueue_pos (filling p) (filling t.place)
      × Follows q.dequeue_pos (emptying p) (emptying t.place)
      × Counts q.enqueue_pos t.queue.enqueue_pos
      × Counts q.dequeue_pos t.queue.dequeue_pos

  emplace-IsLater : (fails : Bool) (q : Cells A) (p : Place A) → IsLater q p (V1.emplace fails q p)
  unfolding V1.emplace V1.is_closed
  emplace-IsLater fails q (Place.push_called x) = ground arith
  emplace-IsLater fails q (Place.push_look x pos spins) = ground arith
  emplace-IsLater fails q (Place.push_claim x pos spins) = ground arith
  emplace-IsLater fails q (Place.construct x pos) = ground arith
  emplace-IsLater fails q (Place.push_publish x pos) = ground arith
  emplace-IsLater fails q p = ground arith

  try_pop-IsLater :
      (moved : A → A) (fails : Bool) (q : Cells A) (p : Place A)
      → IsLater q p (V1.try_pop moved fails q p)
  unfolding V1.try_pop
  try_pop-IsLater moved fails q (Place.pop_look pos spins) = ground arith
  try_pop-IsLater moved fails q (Place.pop_claim pos spins) = ground arith
  try_pop-IsLater moved fails q (Place.read pos) = ground arith
  try_pop-IsLater moved fails q (Place.destroy pos v) = ground arith
  try_pop-IsLater moved fails q (Place.pop_publish pos v) = ground arith
  try_pop-IsLater moved fails q p = ground arith

  pub take_turn-IsLater :
      (moved : A → A) (fails : Bool) (q : Cells A) (p : Place A)
      → IsLater q p (take_turn Class.v1 moved fails q p)
  unfolding take_turn
  take_turn-IsLater moved fails q p = elim (Bool-cases (is_pop p)) [
    | inl e ↦ rw e (try_pop-IsLater moved fails q p)
    | inr e ↦ rw e (emplace-IsLater fails q p)
  ]

  -- Behind the claims below `enq` and `deq`, and so are those of thread `i` from now on.
  record Behind (enq deq i : ℕ) (s : System A) : Type 0 where
    pub pushes : enq ≤ s.queue.enqueue_pos
    pub pops : deq ≤ s.queue.dequeue_pos
    pub fills : (p : ℕ) → filling (s.places i) ≡ some p → enq ≤ p
    pub empties : (p : ℕ) → emptying (s.places i) ≡ some p → deq ≤ p

  module _ (enq deq i : ℕ) where
    begin-Behind :
        (s : System A) (j : ℕ) (p p0 : Place A)
        → filling p ≡ none
        → emptying p ≡ none
        → Behind enq deq i s
        → Behind enq deq i (begin s j p p0)
    begin-Behind s j p Place.idle f e h = record {
      pushes = h.pushes;
      pops = h.pops;
      fills = λ a g. ground (arith, h.fills a);
      empties = λ a g. ground (arith, h.empties a);
    }
    begin-Behind s j p p0 f e h = h

    after-Behind :
        (s : System A) (j : ℕ) (o : Option (Turn A))
        → s.queue.enqueue_pos < 2 ^ 63
        → s.queue.dequeue_pos < 2 ^ 63
        → IsLater s.queue (s.places j) o
        → Behind enq deq i s
        → Behind enq deq i (after s j o)
    after-Behind s j none k m l h = record {
      pushes = h.pushes;
      pops = h.pops;
      fills = h.fills;
      empties = h.empties;
    }
    after-Behind s j (some t) k m l h = record {
      pushes = ground (arith, l.2, h.pushes, k);
      pops = ground (arith, l.3, h.pops, m);
      fills = λ a g. ground (arith, l.0, h.fills a, h.pushes);
      empties = λ a g. ground (arith, l.1, h.empties a, h.pops);
    }

    close-Behind :
        (s : System A) (p : Place A)
        → Behind enq deq i s
        → Behind enq deq i (after_close s p (V1.close s.queue))
    unfolding V1.close
    close-Behind s Place.idle h = record {
      pushes = h.pushes;
      pops = h.pops;
      fills = h.fills;
      empties = h.empties;
    }
    close-Behind s p h = h

    step-Behind :
        (moved : A → A) (e : Event A) (s : System A)
        → s.queue.enqueue_pos < 2 ^ 63
        → s.queue.dequeue_pos < 2 ^ 63
        → Behind enq deq i s
        → Behind enq deq i (step Class.v1 moved e s)
    unfolding step
    step-Behind moved (Event.call_push j x) s k m h =
        begin-Behind s j (Place.push_called x) (s.places j) refl refl h
    step-Behind moved (Event.call_pop j) s k m h =
        begin-Behind s j Place.pop_called (s.places j) refl refl h
    step-Behind moved (Event.go j fails) s k m h =
        after-Behind s j (take_turn Class.v1 moved fails s.queue (s.places j)) k m
          (take_turn-IsLater moved fails s.queue (s.places j)) h
    step-Behind moved (Event.call_close j) s k m h = close-Behind s (s.places j) h

    run-Behind :
        (moved : A → A) (k claims : ℕ) (es : List (Event A)) (s : System A)
        → claims + length es + 2 ^ k < 2 ^ 63
        → Safe moved k claims s
        → Behind enq deq i s
        → Behind enq deq i (run Class.v1 moved es s)
    unfolding run
    run-Behind moved k claims [] s l safe h = h
    run-Behind moved k claims (e ∷ es) s l safe h =
        run-Behind moved k (claims + 1) es (step Class.v1 moved e s) (omega arith)
          (step-Safe moved k claims e s (omega arith) safe)
          (step-Behind moved e s (omega (arith, safe.matches.enq, safe.claimed))
            (omega (arith, safe.matches.deq, safe.inv.order, safe.claimed)) h)

module _ {A : Type 0} (v : Class) (moved : A → A) (requested n : ℕ) (bounded : requested ≤ 2 ^ 63)
    (rounded : normalize_capacity 64 requested ≡ some n) (es more : List (Event A))
    (few : length es + length more + n < 2 ^ 63) (i : ℕ) where
  -- In each class and every interleaving from a new queue, within the bounds that the counters need:
  -- if thread `i` holds no position in a state, then a position that it holds at any later time is at
  -- least the counter of that state. So a push that is called behind the return of another has a
  -- later position, and a pop too.
  pub claims_follow :
      let s = run v moved es (start v n) in
      let t = run v moved more s in
      filling (s.places i) ≡ none
      → emptying (s.places i) ≡ none
      → ((p : ℕ) → filling (t.places i) ≡ some p → s.queue.enqueue_pos ≤ p)
        × ((p : ℕ) → emptying (t.places i) ≡ some p → s.queue.dequeue_pos ≤ p)
  claims_follow f e =
      let w = normalized Class.v1 moved requested n bounded rounded es (omega (arith, few)) in
      let safe = reached Class.v1 moved requested n bounded rounded es (omega (arith, few)) in
      let s = run v moved es (start v n) in
      let s1 = run Class.v1 moved es (start Class.v1 n) in
      let h = versions_agree v moved n es in
      let g = run-Same v moved more s s1 h in
      let b =
        run-Behind s1.queue.enqueue_pos s1.queue.dequeue_pos i moved w.log (0 + length es) more s1
          (omega (arith, few, w.power)) safe
          (record {
            pushes = omega arith;
            pops = omega arith;
            fills = λ p k. let z = ap filling (h.places i) ∙ filling-erase (s.places i) ∙ f in cc;
            empties =
                λ p k. let z = ap emptying (h.places i) ∙ emptying-erase (s.places i) ∙ e in cc;
          }) in
      let t = run v moved more s in
      (
        λ p k.
            subst (λ q. q.enqueue_pos ≤ p) (sym h.queue)
              (b.fills p (ap filling (g.places i) ∙ filling-erase (t.places i) ∙ k)),
        λ p k.
            subst (λ q. q.dequeue_pos ≤ p) (sym h.queue)
              (b.empties p (ap emptying (g.places i) ∙ emptying-erase (t.places i) ∙ k)),
      )
