-- ===== src/Atomic/Contract.antt =====
-- What the three `BoundedAtomicMpmcQueue` classes promise to the threads that share a queue.
use yutil.Common.{
  ℕ, ◌+◌, ◌%◌, ◌^◌, ◌<◌, ◌≤◌, ◌≡◌, inl, inr, false, Option, none, some, List, length, get_elem?,
  arith, sym, ap, ◌∙◌,
}
use mathlib.Core.Path.{subst}
use native.Mathlib.Decide.{dec_lt}
use yutil.Capacity.{normalize_capacity}
use yutil.Atomic.Class.{Class}
use yutil.Atomic.System.{Event, start, run}
use yutil.Atomic.Frame.{count}
use yutil.Atomic.Protocol.{filling, emptying}
use yutil.Atomic.Protocol.Tickets.{Tickets}
use yutil.Atomic.Protocol.Ledger.{AllRecorded, pushed_at, popped_at}
use yutil.Atomic.Protocol.Calm.{calm-cell}
use yutil.Atomic.Reached.{normalized, reached}

-- A position is settled at most once.
settled-le : {next : ℕ} {g : ℕ → Option ℕ} {n : ℕ → ℕ} (t : Tickets next g n) (p : ℕ) → n p ≤ 1
settled-le {next} {n = n} t p = elim (dec_lt p next) [
  | yes l ↦ elim (t.below p l) [ inl h ↦ omega (arith, h.0) | inr h ↦ omega (arith, h.0) ]
  | no l ↦ omega (arith, t.above p)
]

settled-eq :
    {next : ℕ} {g : ℕ → Option ℕ} {n : ℕ → ℕ} (t : Tickets next g n)
    → ((i : ℕ) → g i ≡ none)
    → (p : ℕ) → p < next
    → n p ≡ 1
settled-eq t h p l = elim (t.below p l) [ inl o ↦ o.0 | inr z ↦ ground (arith, z.2, h z.1) ]

module _ {A : Type 0} (v : Class) (moved : A → A) (requested n : ℕ) (bounded : requested ≤ 2 ^ 63)
    (rounded : normalize_capacity 64 requested ≡ some n) (es : List (Event A))
    (few : length es + n < 2 ^ 63) where
  -- In each class, for every request of at most 2^63, every value that a move may leave behind and
  -- every interleaving of any number of threads whose length and the rounded capacity stay below
  -- 2^63: no object is constructed over another, read or destroyed where there is none; and
  -- `enqueue_pos_` is at least `dequeue_pos_` and at most the rounded capacity ahead of it.
  pub atomic_safe :
      let s = run v moved es (start v n) in
      (s.crashed ≡ false)
      × (s.queue.dequeue_pos ≤ s.queue.enqueue_pos)
      × (s.queue.enqueue_pos ≤ s.queue.dequeue_pos + n)
  atomic_safe =
      let w = normalized v moved requested n bounded rounded es few in
      let h = reached v moved requested n bounded rounded es few in
      (
        h.sound,
        omega (arith, h.inv.order, h.matches.enq, h.matches.deq),
        omega (arith, h.inv.room, h.matches.enq, h.matches.deq, w.power),
      )

  recorded :
      let s = run v moved es (start v n) in
      AllRecorded s.queue.enqueue_pos s.queue.dequeue_pos
        (reached v moved requested n bounded rounded es few).board.pushes
        s.log
  recorded =
      let h = reached v moved requested n bounded rounded es few in
      let s = run v moved es (start v n) in
      subst (λ e. AllRecorded e s.queue.dequeue_pos h.board.pushes s.log) (sym h.matches.enq)
        (subst (λ d. AllRecorded h.board.enq d h.board.pushes s.log) (sym h.matches.deq)
          h.ledger.recorded)

  at_slot :
      (p : ℕ)
      → get_elem? (run v moved es (start v n)).queue.cells (p % n)
        ≡ (reached v moved requested n bounded rounded es few).board.at p
  at_slot p =
      let w = normalized v moved requested n bounded rounded es few in
      let h = reached v moved requested n bounded rounded es few in
      ap (λ c. get_elem? (run v moved es (start v n)).queue.cells (p % c)) w.power
      ∙ sym (h.matches.at p)

  -- Under the same conditions there is one list of values, in the order in which pushes have claimed
  -- positions, such that a push that has returned true has its value at its position, a pop that has
  -- returned a value has taken the one at its position, and no position is pushed to or popped from
  -- twice. The next pop claims position `dequeue_pos_` of it.
  pub atomic_fifo :
      let s = run v moved es (start v n) in
      (pushes : List A) × (length pushes ≡ s.queue.enqueue_pos)
      × AllRecorded s.queue.enqueue_pos s.queue.dequeue_pos pushes s.log
      × ((p : ℕ) → (count (pushed_at p) s.log ≤ 1) × (count (popped_at p) s.log ≤ 1))
  atomic_fifo =
      let h = reached v moved requested n bounded rounded es few in
      let s = run v moved es (start v n) in
      (
        h.board.pushes,
        omega (arith, h.inv.count, h.matches.enq),
        recorded,
        λ p. (settled-le h.ledger.pushes p, settled-le h.ledger.pops p),
      )

  -- Under the same conditions, when no thread is between its claim of a position and the store that
  -- gives the cell back: every claimed position has been pushed to, every one below `dequeue_pos_`
  -- has been popped from, each once; the cells of the positions between the two counters hold the
  -- values that were pushed there, and the other cells hold none.
  pub atomic_complete :
      let s = run v moved es (start v n) in
      ((i : ℕ) → (filling (s.places i) ≡ none) × (emptying (s.places i) ≡ none))
      → (pushes : List A) × (length pushes ≡ s.queue.enqueue_pos)
        × AllRecorded s.queue.enqueue_pos s.queue.dequeue_pos pushes s.log
        × ((p : ℕ) → p < s.queue.enqueue_pos → count (pushed_at p) s.log ≡ 1)
        × ((p : ℕ) → p < s.queue.dequeue_pos → count (popped_at p) s.log ≡ 1)
        × ((p : ℕ)
            → s.queue.dequeue_pos ≤ p
            → p < s.queue.enqueue_pos
            → get_elem? s.queue.cells (p % n)
              ≡ some (record { sequence = p + 1; storage = get_elem? pushes p }))
        × ((p : ℕ)
            → s.queue.enqueue_pos ≤ p
            → p < s.queue.dequeue_pos + n
            → get_elem? s.queue.cells (p % n) ≡ some (record { sequence = p; storage = none }))
  atomic_complete calm =
      let w = normalized v moved requested n bounded rounded es few in
      let h = reached v moved requested n bounded rounded es few in
      let m = h.matches in
      let same : n ≡ 2 ^ w.log = w.power in
      (
        h.board.pushes,
        omega (arith, h.inv.count, m.enq),
        recorded,
        λ p l. settled-eq h.ledger.pushes (λ i. (calm i).0) p (omega (arith, m.enq)),
        λ p l. settled-eq h.ledger.pops (λ i. (calm i).1) p (omega (arith, m.deq)),
        λ p lo hi.
            at_slot p
            ∙ (calm-cell (2 ^ w.log) h.inv calm p (omega (arith, m.deq))
                  (omega (arith, m.enq, h.inv.room))).0
                (omega (arith, m.enq)),
        λ p lo hi.
            at_slot p
            ∙ (calm-cell (2 ^ w.log) h.inv calm p (omega (arith, m.deq, m.enq, h.inv.order))
                  (omega (arith, m.deq, same))).1
                (omega (arith, m.enq)),
      )
