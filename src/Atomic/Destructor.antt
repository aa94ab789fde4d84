-- ===== src/Atomic/Destructor.antt =====
-- The destructors of the three `BoundedAtomicMpmcQueue` classes.
use yutil.Common.{
  ℕ, ◌+◌, ◌-◌, ◌*◌, ◌^◌, ◌<◌, ◌≤◌, ◌≡◌, Bool, Option, none, some, List, [], ◌∷◌, length, get_elem?,
  arith, sym, ap, ◌∙◌, refl,
}
use mathlib.Core.Path.{subst, fun_ext}
use yutil.Capacity.{normalize_capacity}
use yutil.Atomic.Cells.{Cells, Place, Turn, Reply, Drained, loop, loop_reply}
use yutil.Atomic.V1
use yutil.Atomic.V2
use yutil.Atomic.V3
use yutil.Atomic.Class.{Class, try_pop, drain_remaining}
use yutil.Atomic.System.{Event, start, run}
use yutil.Atomic.Versions.Turns.{erase, erase_turn, try_pop-erase}
use yutil.Atomic.Protocol.{Inv, Move}
use yutil.Atomic.Drain.{Alone, alone, alone-Inv, failures}
use yutil.Atomic.Drain.Loop.{drain-Emptied}
use yutil.Atomic.Reached.{normalized, reached}

alone_idle : {A : Type 0} (i : ℕ) → alone {A = A} Place.idle i ≡ Place.idle
alone_idle i = ground arith

module _ {A : Type 0} (v : Class) (moved : A → A) where
  reply-erase :
      (again again' : Cells A → Place A → Drained A)
      → ((q : Cells A) (p : Place A) → again q p ≡ again' q (erase p))
      → (t : Turn A) (o : Option (Reply A))
      → loop_reply again t o ≡ loop_reply again' (record t { place = erase t.place }) o
  reply-erase again again' h t none = h t.queue t.place
  reply-erase again again' h t (some Reply.nothing) = refl
  reply-erase again again' h t (some r) = h t.queue Place.pop_called

  loop-erase :
      (again again' : Cells A → Place A → Drained A)
      → ((q : Cells A) (p : Place A) → again q p ≡ again' q (erase p))
      → (o : Option (Turn A)) → loop again o ≡ loop again' (erase_turn o)
  loop-erase again again' h none = refl
  loop-erase again again' h (some t) = reply-erase again again' h t t.reply

  drain_remaining-cons :
      (f : Bool) (fails : List Bool) (q : Cells A) (p : Place A)
      → drain_remaining v moved (f ∷ fails) q p
        ≡ loop (drain_remaining v moved fails) (try_pop v moved f q p)
  unfolding V1.drain_remaining V2.drain_remaining V3.drain_remaining
  drain_remaining-cons f fails q p =
      elim v
        as (λ k.
          drain_remaining k moved (f ∷ fails) q p
          ≡ loop (drain_remaining k moved fails) (try_pop k moved f q p)) [
            | Class.v1 ↦ refl
            | Class.v2 ↦ refl
            | Class.v3 ↦ refl
          ]

  drain_remaining-nil :
      (q : Cells A) (p : Place A) → drain_remaining v moved [] q p ≡ Drained.running
  unfolding V1.drain_remaining V2.drain_remaining V3.drain_remaining
  drain_remaining-nil q p = elim v as (λ k. drain_remaining k moved [] q p ≡ Drained.running) [
    | Class.v1 ↦ refl
    | Class.v2 ↦ refl
    | Class.v3 ↦ refl
  ]

  drain_remaining-erase :
      (fails : List Bool) (q : Cells A) (p : Place A)
      → drain_remaining v moved fails q p ≡ V1.drain_remaining moved fails q (erase p)
  unfolding V1.drain_remaining
  drain_remaining-erase [] q p = drain_remaining-nil q p
  drain_remaining-erase (f ∷ fails) q p =
      drain_remaining-cons f fails q p
      ∙ loop-erase (drain_remaining v moved fails) (V1.drain_remaining moved fails)
          (λ q p. drain_remaining-erase fails q p) (try_pop v moved f q p)
      ∙ ap (loop (V1.drain_remaining moved fails)) (try_pop-erase v moved f q p)

module _ {A : Type 0} (v : Class) (moved : A → A) (requested n : ℕ) (bounded : requested ≤ 2 ^ 63)
    (rounded : normalize_capacity 64 requested ≡ some n) (es : List (Event A))
    (few : length es + n < 2 ^ 63) where
  -- In each class and behind every interleaving from a new queue, within the bounds that the counters
  -- need, that leaves every thread outside a call: `drain_remaining` ends within two turns, six more
  -- for each value in the queue, and two more for each turn at which a compare-exchange may fail for
  -- no reason. It makes no access that it must not, and leaves no object in a cell.
  pub drain_remaining_total :
      let s = run v moved es (start v n) in
      ((i : ℕ) → s.places i ≡ Place.idle)
      → (fails : List Bool)
      → 6 * (s.queue.enqueue_pos - s.queue.dequeue_pos) + 2 + 2 * failures fails ≤ length fails
      → (q : Cells A) × (drain_remaining v moved fails s.queue Place.pop_called ≡ Drained.done q)
        × (q.dequeue_pos ≡ q.enqueue_pos)
        × ((j : ℕ)
            → j < n
            → (seq : ℕ) × (get_elem? q.cells j ≡ some (record { sequence = seq; storage = none })))
  drain_remaining_total idle fails enough =
      let w = normalized v moved requested n bounded rounded es few in
      let h = reached v moved requested n bounded rounded es few in
      let s = run v moved es (start v n) in
      let k = w.log in
      let inv =
        subst (Inv (2 ^ k) h.board)
          (fun_ext {g = alone Place.idle} (λ i. idle i ∙ sym (alone_idle i))) h.inv in
      let al : Alone k h.board s.queue Place.pop_called = record {
        inv = alone-Inv k inv (Move.quiet {r = none} refl refl tt tt);
        matches = h.matches;
        small = omega (arith, h.claimed, w.power);
        draining = tt;
      } in
      let (q, e, f, z) =
        drain-Emptied moved k fails h.board s.queue Place.pop_called al
          (omega (arith, enough, h.matches.enq, h.matches.deq)) in
      (
        q,
        drain_remaining-erase v moved fails s.queue Place.pop_called ∙ e,
        f,
        λ j l. z j (omega (arith, w.power)),
      )
