-- ===== src/Atomic/Stalled.antt =====
-- A thread that stops between its claim of a position and the store that publishes the cell.
use yutil.Common.{
  ℕ, ◌+◌, ◌^◌, ◌<◌, ◌≤◌, ◌≡◌, some, List, ◌++◌, length, length-append, arith, ap, ◌∙◌,
}
use mathlib.Core.Path.{subst}
use yutil.Capacity.{normalize_capacity}
use yutil.Atomic.Cells.{Place}
use yutil.Atomic.Class.{Class}
use yutil.Atomic.System.{Event, start, run}
use yutil.Atomic.Frame.{count}
use yutil.Atomic.Bystander.{IsAbsent, run-places, run-append}
use yutil.Atomic.Protocol.{Board, Fits, filling, emptying}
use yutil.Atomic.Protocol.Ledger.{pushed_at, popped_at}
use yutil.Atomic.Safety.{Safe}
use yutil.Atomic.Reached.{normalized, reached}

module _ {A : Type 0} (c : ℕ) (b : Board A) where
  filling-Fits :
      (pl : Place A) (p : ℕ) → filling pl ≡ some p → Fits c b pl → (p < b.enq) × (b.deq ≤ p)
  filling-Fits pl p e f = ground arith

  emptying-Fits :
      (pl : Place A) (p : ℕ) → emptying pl ≡ some p → Fits c b pl → (p < b.deq) × (b.enq ≤ p + c)
  emptying-Fits pl p e f = ground arith

module _ {A : Type 0} (v : Class) (moved : A → A) (requested n : ℕ) (bounded : requested ≤ 2 ^ 63)
    (rounded : normalize_capacity 64 requested ≡ some n) (es more : List (Event A))
    (few : length es + length more + n < 2 ^ 63) (i : ℕ) where
  -- In each class and behind every interleaving, within the bounds that the counters need: while
  -- thread `i` takes no turn, whatever the other threads do, the position that it has claimed for a
  -- push and not published is not passed by `dequeue_pos_`, so that nothing pushed behind it is popped;
  -- and the one that it has claimed for a pop and not given back is not lapped by `enqueue_pos_`, so
  -- that no push succeeds at the position one capacity later or beyond.
  pub stalled :
      IsAbsent i more
      → let s = run v moved es (start v n) in
        let t = run v moved more s in
        ((p : ℕ)
          → filling (s.places i) ≡ some p
          → (p < t.queue.enqueue_pos)
            × (t.queue.dequeue_pos ≤ p)
            × ((q : ℕ) → p ≤ q → count (popped_at q) t.log ≡ 0))
        × ((p : ℕ)
            → emptying (s.places i) ≡ some p
            → (p < t.queue.dequeue_pos)
              × (t.queue.enqueue_pos ≤ p + n)
              × ((q : ℕ) → p + n ≤ q → count (pushed_at q) t.log ≡ 0))
  stalled absent =
      let all = es ++ more in
      let few' : length all + n < 2 ^ 63 = omega (arith, few, length-append es more) in
      let w = normalized v moved requested n bounded rounded all few' in
      let s = run v moved es (start v n) in
      let t = run v moved more s in
      let h =
        subst (Safe moved w.log (0 + length all)) (run-append v moved es more (start v n))
          (reached v moved requested n bounded rounded all few') in
      let stays : t.places i ≡ s.places i = run-places v moved i more s absent in
      let fits = h.inv.fits i in
      (
        λ p e.
            let r = filling-Fits (2 ^ w.log) h.board (t.places i) p (ap filling stays ∙ e) fits in
            (
              omega (arith, r, h.matches.enq),
              omega (arith, r, h.matches.deq),
              λ q l. h.ledger.pops.above q (omega (arith, r, l)),
            ),
        λ p e.
            let r = emptying-Fits (2 ^ w.log) h.board (t.places i) p (ap emptying stays ∙ e) fits in
            (
              omega (arith, r, h.matches.deq),
              omega (arith, r, h.matches.enq, w.power),
              λ q l. h.ledger.pushes.above q (omega (arith, r, l, w.power)),
            ),
      )
