-- ===== src/Atomic/Sequential/Run.antt =====
-- Any number of calls after each other, from every state in which no thread works on a cell.
use yutil.Common.{
  Bool, ◌*◌, suc, ℕ, ◌+◌, ◌^◌, ◌<◌, ◌≤◌, ◌≡◌, some, none, Option, List, [], ◌∷◌, length, arith, ap,
  ◌∙◌, refl, sym, false,
}
use mathlib.Core.Path.{subst}
use yutil.Fifo.{Fifo}
use yutil.Capacity.{normalize_capacity}
use yutil.Common.Slots.{get_elem?-of_lt}
use yutil.Atomic.Cells.{Cells, Place, Reply}
use yutil.Atomic.V1
use yutil.Atomic.Class.{Class, emplace, try_pop}
use yutil.Atomic.System.{Event, start, run}
use yutil.Atomic.Alone.{solo, attempt, attempt-erase}
use yutil.Atomic.Alone.Failures.{emplace-attempt, try_pop-attempt}
use yutil.Atomic.Drain.{failures}
use yutil.Atomic.Versions.Turns.{emplace-erase, try_pop-erase, close_same}
use yutil.Atomic.Protocol.{Board, Inv, filling, emptying}
use yutil.Atomic.Protocol.Calm.{calm-cell}
use yutil.Atomic.Refine.{Matches}
use yutil.Atomic.Reached.{normalized, reached}
use yutil.Atomic.Sequential.{
  Calm, contents, Serves, Request, Answer, serve, serve_all, call, calls, then_calls, answer,
}
use yutil.Atomic.Sequential.Push.{push-Serves}
use yutil.Atomic.Sequential.Pop.{try_pop-Serves}

module _ {A : Type 0} (v : Class) (moved : A → A) (k : ℕ) where
  close-Serves :
      {q : Cells A}
      → Calm k q
      → Serves k q Request.call_close (some (let (b, q') = V1.close q in (Reply.closed b, q')))
  unfolding V1.close
  close-Serves calm = (
    record {
      capacity = calm.capacity;
      mask = calm.mask;
      cells = calm.cells;
      order = calm.order;
      room = calm.room;
      two = calm.two;
      full = calm.full;
      free = calm.free;
    },
    omega arith,
    refl,
  )

  -- A call that has the turns for the failures serves as one where nothing fails.
  enough-Serves :
      (q : Cells A) (r : Request A) (o o' : Option (Reply A × Cells A))
      → ((a : Reply A × Cells A) → o ≡ some a → o' ≡ some a)
      → Serves k q r o
      → Serves k q r o'
  enough-Serves q r none o' h s = absurd s
  enough-Serves q r (some a) o' h s = subst (Serves k q r) (sym (h a refl)) s

  call-Serves :
      {q : Cells A}
      → Calm k q
      → q.enqueue_pos + 2 ^ k < 2 ^ 63
      → (r : Request A) (fails : List Bool) → 6 + 2 * failures fails ≤ length fails
      → Serves k q r (call v moved r fails q)
  call-Serves {q} calm bound (Request.call_push x) fails enough =
      let p = Place.push_called x in
      subst (Serves k q (Request.call_push x))
        (sym (attempt-erase (emplace v) V1.emplace (emplace-erase v moved) fails q p))
        (enough-Serves q (Request.call_push x) (solo (V1.emplace false) 6 q p)
          (attempt V1.emplace fails q p) (λ a e. emplace-attempt fails 6 q x a e enough)
          (push-Serves k calm bound x))
  call-Serves {q} calm bound Request.call_pop fails enough =
      let p = Place.pop_called in
      subst (Serves k q Request.call_pop)
        (sym (attempt-erase (try_pop v moved) (V1.try_pop moved) (try_pop-erase v moved) fails q p))
        (enough-Serves q Request.call_pop (solo (V1.try_pop moved false) 6 q p)
          (attempt (V1.try_pop moved) fails q p) (λ a e. try_pop-attempt moved fails 6 q a e enough)
          (try_pop-Serves moved k calm bound))
  call-Serves {q} calm bound Request.call_close fails enough =
      subst (λ c. Serves k q Request.call_close (some (Reply.closed c.0, c.1)))
        (sym (close_same v moved q)) (close-Serves calm)

  -- The calls return, with the answers and the contents that the FIFO queue has.
  abbrev ServesAll : Fifo A → List (Request A) → Option (List (Answer A) × Cells A) → Type 0
  ServesAll f rs none = ⊥
  ServesAll f rs (some (later, q)) = (later, contents q) ≡ serve_all (2 ^ k) rs f

  -- One more call in front of calls that return.
  cons-ServesAll :
      (f : Fifo A) {g : Fifo A} (r : Request A) (rs : List (Request A)) (a : Reply A)
      (o : Option (List (Answer A) × Cells A))
      → (answer a, g) ≡ serve (2 ^ k) r f
      → ServesAll g rs o
      → ServesAll f (r ∷ rs) (elim o [ none ↦ none | some (later, e) ↦ some (answer a ∷ later, e) ])
  cons-ServesAll f r rs a none h i = i
  cons-ServesAll f r rs a (some (later, e)) h i =
      ap (λ s. (answer a ∷ s.0, s.1)) i
      ∙ ap (λ s. (s.0 ∷ (serve_all (2 ^ k) rs s.1).0, (serve_all (2 ^ k) rs s.1).1)) h

  then_calls-ServesAll :
      (fails : ℕ → List Bool) (q : Cells A) (r : Request A) (rs : List (Request A))
      (o : Option (Reply A × Cells A))
      → ((q' : Cells A)
          → Calm k q'
          → q'.enqueue_pos ≤ q.enqueue_pos + 1
          → ServesAll (contents q') rs (calls v moved fails rs q'))
      → Serves k q r o
      → ServesAll (contents q) (r ∷ rs) (then_calls v moved (calls v moved fails rs) o)
  then_calls-ServesAll fails q r rs none h s = s
  then_calls-ServesAll fails q r rs (some (a, q')) h (calm, le, e) =
      cons-ServesAll (contents q) r rs a (calls v moved fails rs q') e (h q' calm le)

  calls-ServesAll :
      (fails : ℕ → List Bool) (rs : List (Request A)) {q : Cells A}
      → ((i : ℕ) → i < length rs → 6 + 2 * failures (fails i) ≤ length (fails i))
      → Calm k q
      → q.enqueue_pos + length rs + 2 ^ k < 2 ^ 63
      → ServesAll (contents q) rs (calls v moved fails rs q)
  calls-ServesAll fails [] enough calm bound = refl
  calls-ServesAll fails (r ∷ rs) {q} enough calm bound =
      then_calls-ServesAll (λ i. fails (suc i)) q r rs (call v moved r (fails 0) q)
        (λ q' calm' le.
          calls-ServesAll (λ i. fails (suc i)) rs (λ i l. enough (suc i) (omega arith)) calm'
            (omega arith))
        (call-Serves calm (omega arith) r (fails 0) (enough 0 (omega arith)))

  served :
      (f : Fifo A) (rs : List (Request A)) (o : Option (List (Answer A) × Cells A))
      → ServesAll f rs o
      → (q' : Cells A) × (o ≡ some ((serve_all (2 ^ k) rs f).0, q'))
        × (contents q' ≡ (serve_all (2 ^ k) rs f).1)
  served f rs none h = absurd h
  served f rs (some (later, e)) h = (e, ap (λ s. some (s.0, e)) h, ap (λ s. s.1) h)

module _ {A : Type 0} (k : ℕ) {b : Board A} {q : Cells A} {places : ℕ → Place A}
    (inv : Inv (2 ^ k) b places) (m : Matches k b q)
    (calm : (i : ℕ) → (filling (places i) ≡ none) × (emptying (places i) ≡ none)) where
  reached-Calm : Calm k q
  reached-Calm = record {
    capacity = m.capacity;
    mask = m.mask;
    cells = m.cells;
    order = omega (arith, m.enq, m.deq, inv.order);
    room = omega (arith, m.enq, m.deq, inv.room);
    two = inv.two;
    full = λ p lo hi.
        let (x, e) = get_elem?-of_lt b.pushes p (omega (arith, inv.count, m.enq)) in
        (
          x,
          sym (m.at p)
              ∙ (calm-cell (2 ^ k) inv calm p (omega (arith, m.deq))
                    (omega (arith, m.enq, inv.room))).0
                  (omega (arith, m.enq))
              ∙ ap (λ o. some (record { sequence = p + 1; storage = o })) e,
        );
    free = λ p lo hi.
        sym (m.at p)
        ∙ (calm-cell (2 ^ k) inv calm p (omega (arith, m.enq, inv.order)) (omega (arith, m.deq))).1
            (omega (arith, m.enq));
  }

module _ {A : Type 0} (v : Class) (moved : A → A) (requested n : ℕ) (bounded : requested ≤ 2 ^ 63)
    (rounded : normalize_capacity 64 requested ≡ some n) (es : List (Event A))
    (rs : List (Request A)) (few : length es + length rs + n < 2 ^ 63) (fails : ℕ → List Bool)
    (enough : (i : ℕ) → i < length rs → 6 + 2 * failures (fails i) ≤ length (fails i)) where
  -- In each class and behind every interleaving from a new queue, when no thread is between its claim
  -- of a position and the store that gives the cell back: any list of pushes, pops and calls of
  -- `close` that then follow each other return, each within six turns and two more for each of its
  -- turns at which a compare-exchange may fail for no reason, with the answers of a FIFO queue of the
  -- rounded capacity that starts with the items in the cells, and leave the items that this queue has
  -- in the end; while the events, the calls and the capacity together stay below 2^63.
  pub sequential :
      let q = (run v moved es (start v n)).queue in
      ((i : ℕ)
        → (filling ((run v moved es (start v n)).places i) ≡ none)
          × (emptying ((run v moved es (start v n)).places i) ≡ none))
      → (q' : Cells A) × (calls v moved fails rs q ≡ some ((serve_all n rs (contents q)).0, q'))
        × (contents q' ≡ (serve_all n rs (contents q)).1)
  sequential calm =
      let w = normalized v moved requested n bounded rounded es (omega (arith, few)) in
      let h = reached v moved requested n bounded rounded es (omega (arith, few)) in
      let q = (run v moved es (start v n)).queue in
      subst
        (λ c.
          (q' : Cells A) × (calls v moved fails rs q ≡ some ((serve_all c rs (contents q)).0, q'))
          × (contents q' ≡ (serve_all c rs (contents q)).1))
        (sym w.power)
        (served v moved w.log (contents q) rs (calls v moved fails rs q) (
          calls-ServesAll v moved w.log fails rs enough (reached-Calm w.log h.inv h.matches calm)
            (omega (arith, h.claimed, h.matches.enq, w.power, few))))
