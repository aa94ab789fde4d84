-- ===== src/Atomic/System.antt =====
-- Any number of threads interleaved over one queue, one access after another.
use yutil.Common.{ℕ, ◌==◌, Bool, true, false, Option, none, some, List, [], ◌∷◌, if◌then◌else◌}
use yutil.Atomic.Cells.{Cells, Place, Turn, Reply}
use yutil.Atomic.Class.{Class, create, emplace, try_pop, close}

pub record System {ℓ} (A : Type ℓ) : Type ℓ where
  pub queue : Cells A
  pub places : ℕ → Place A  -- of each thread
  pub crashed : Bool  -- a turn has made an access that it must not
  pub log : List (Reply A)  -- what the calls have returned, newest first

-- Thread `i` begins a call, takes the next turn of the one that it is in, or calls `close`.
pub data Event {ℓ} (A : Type ℓ) : Type ℓ where
  call_push : (i : ℕ) → A → Event A
  call_pop : (i : ℕ) → Event A
  go : (i : ℕ) → (fails : Bool) → Event A
  call_close : (i : ℕ) → Event A

module _ {ℓ} {A : Type ℓ} where
  abbrev pub start : Class → ℕ → System A
  start v normalized = record {
    queue = create v normalized;
    places = λ i. Place.idle;
    crashed = false;
    log = [];
  }

  abbrev pub update : (ℕ → Place A) → ℕ → Place A → ℕ → Place A
  update places i p j = if j == i then p else places j

  abbrev pub record_reply : Option (Reply A) → List (Reply A) → List (Reply A)
  record_reply none log = log
  record_reply (some r) log = r ∷ log

  -- A thread that is in a call begins no other: such an event changes nothing.
  abbrev pub begin : System A → ℕ → Place A → Place A → System A
  begin s i p Place.idle = record s { places = update s.places i p }
  begin s i p _ = s

  abbrev pub after : System A → ℕ → Option (Turn A) → System A
  after s i none = record s { crashed = true }
  after s i (some t) = record s {
    queue = t.queue;
    places = update s.places i t.place;
    log = record_reply t.reply s.log;
  }

  abbrev pub after_close : System A → Place A → Bool × Cells A → System A
  after_close s Place.idle (r, q) = record s { queue = q; log = Reply.closed r ∷ s.log }
  after_close s _ (r, q) = s

  -- Whether the call that a thread is in is a pop.
  abbrev pub is_pop : Place A → Bool
  is_pop Place.pop_called = true
  is_pop (Place.pop_look pos spins) = true
  is_pop (Place.pop_reload spins) = true
  is_pop (Place.pop_claim pos spins) = true
  is_pop (Place.read pos) = true
  is_pop (Place.destroy pos v) = true
  is_pop (Place.pop_publish pos v) = true
  is_pop _ = false

  module _ (v : Class) (moved : A → A) where
    unfoldable pub take_turn : Bool → Cells A → Place A → Option (Turn A)
    take_turn fails q p = if is_pop p then try_pop v moved fails q p else emplace v fails q p

    unfoldable pub step : Event A → System A → System A
    unfolding take_turn
    step (Event.call_push i x) s = begin s i (Place.push_called x) (s.places i)
    step (Event.call_pop i) s = begin s i Place.pop_called (s.places i)
    step (Event.go i fails) s = after s i (take_turn fails s.queue (s.places i))
    step (Event.call_close i) s = after_close s (s.places i) (close v s.queue)

    unfoldable pub run : List (Event A) → System A → System A
    run [] s = s
    run (e ∷ es) s = run es (step e s)
