-- ===== src/Atomic/Sequential.antt =====
-- Calls that follow each other on a queue of any of the three classes, and what they mean: the
-- bounded FIFO queue.
pub mod Slots
pub mod Push
pub mod Pop
pub mod Run
use yutil.Common.{
  suc, ℕ, ◌+◌, ◌-◌, ◌%◌, ◌^◌, ◌<◌, ◌≤◌, ◌≡◌, Bool, true, false, not, ◌||◌, Option, none, some, List,
  [], ◌∷◌, ◌++◌, length, get_elem?, if◌then◌else◌, ltb,
}
use yutil.Common.Slots.{slots}
use yutil.Fifo.{Fifo}
use yutil.Atomic.Cells.{Cell, Cells, Place, Reply}
use yutil.Atomic.Class.{Class, emplace, try_pop, close}
use yutil.Atomic.Alone.{attempt}

pub data Request {ℓ} (A : Type ℓ) : Type ℓ where
  call_push : A → Request A
  call_pop : Request A
  call_close : Request A

-- What the caller sees of a reply.
pub data Answer {ℓ} (A : Type ℓ) : Type ℓ where
  pushed : Bool → Answer A
  popped : Option A → Answer A
  closed : Bool → Answer A

module _ {ℓ} {A : Type ℓ} where
  abbrev pub answer : Reply A → Answer A
  answer (Reply.pushed pos x) = Answer.pushed true
  answer (Reply.refused x) = Answer.pushed false
  answer (Reply.popped pos v) = Answer.popped (some v)
  answer Reply.nothing = Answer.popped none
  answer (Reply.closed b) = Answer.closed b

  -- A call on a FIFO queue of `n` places.
  abbrev pub take_first : Fifo A → List A → Answer A × Fifo A
  take_first f [] = (Answer.popped none, f)
  take_first f (x ∷ xs) = (Answer.popped (some x), record f { items = xs })

  abbrev pub serve : ℕ → Request A → Fifo A → Answer A × Fifo A
  serve n (Request.call_push x) f =
      if f.closed || not (ltb (length f.items) n)
      then (Answer.pushed false, f)
      else (Answer.pushed true, record f { items = f.items ++ (x ∷ []) })
  serve n Request.call_pop f = take_first f f.items
  serve n Request.call_close f = (Answer.closed (not f.closed), record f { closed = true })

  abbrev pub serve_all : ℕ → List (Request A) → Fifo A → List (Answer A) × Fifo A
  serve_all n [] f = ([], f)
  serve_all n (r ∷ rs) f =
      let (a, g) = serve n r f in let (later, h) = serve_all n rs g in (a ∷ later, h)

module _ {A : Type 0} where
  -- The objects in a list of cells.
  abbrev pub values : List (Cell A) → List A
  values [] = []
  values (c ∷ cs) = elim c.storage [ none ↦ values cs | some v ↦ v ∷ values cs ]

  -- What a queue means.
  abbrev pub contents : Cells A → Fifo A
  contents q = record {
    items = values (slots q.cells q.capacity q.dequeue_pos (q.enqueue_pos - q.dequeue_pos));
    closed = q.closed;
  }

  module _ (v : Class) (moved : A → A) where
    -- With a turn for each element of the list; `true` makes a compare-exchange fail for no reason.
    abbrev pub call : Request A → List Bool → Cells A → Option (Reply A × Cells A)
    call (Request.call_push x) fails q = attempt (emplace v) fails q (Place.push_called x)
    call Request.call_pop fails q = attempt (try_pop v moved) fails q Place.pop_called
    call Request.call_close fails q = let (b, q') = close v q in some (Reply.closed b, q')

    abbrev pub then_calls :
        (Cells A → Option (List (Answer A) × Cells A))
        → Option (Reply A × Cells A)
        → Option (List (Answer A) × Cells A)
    then_calls rest none = none
    then_calls rest (some (r, q)) = elim (rest q) [
      | none ↦ none
      | some (later, q') ↦ some (answer r ∷ later, q')
    ]

    -- Calls one after another, number `i` of them with the turns of `fails i`; `none` if one of them
    -- does not return within its turns or makes an access that it must not.
    abbrev pub calls :
        (fails : ℕ → List Bool) → List (Request A) → Cells A → Option (List (Answer A) × Cells A)
    calls fails [] q = some ([], q)
    calls fails (r ∷ rs) q = then_calls (calls (λ i. fails (suc i)) rs) (call r (fails 0) q)

  -- A queue of `2 ^ k` cells while no thread works on one.
  pub record Calm (k : ℕ) (q : Cells A) : Type 0 where
    pub capacity : q.capacity ≡ 2 ^ k
    pub mask : q.mask ≡ 2 ^ k - 1
    pub cells : length q.cells ≡ 2 ^ k
    pub order : q.dequeue_pos ≤ q.enqueue_pos
    pub room : q.enqueue_pos ≤ q.dequeue_pos + 2 ^ k
    pub two : 2 ≤ 2 ^ k
    pub full :
        (p : ℕ)
        → q.dequeue_pos ≤ p
        → p < q.enqueue_pos
        → (v : A) × (get_elem? q.cells (p % 2 ^ k)
            ≡ some (record { sequence = p + 1; storage = some v }))
    pub free :
        (p : ℕ)
        → q.enqueue_pos ≤ p
        → p < q.dequeue_pos + 2 ^ k
        → get_elem? q.cells (p % 2 ^ k) ≡ some (record { sequence = p; storage = none })

  -- The call returns, with the answer and the contents that the FIFO queue has.
  abbrev pub Serves : (k : ℕ) (q : Cells A) → Request A → Option (Reply A × Cells A) → Type 0
  Serves k q r none = ⊥
  Serves k q r (some (a, q')) =
      Calm k q'
      × (q'.enqueue_pos ≤ q.enqueue_pos + 1)
      × ((answer a, contents q') ≡ serve (2 ^ k) r (contents q))
