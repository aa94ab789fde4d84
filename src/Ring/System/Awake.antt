-- ===== src/Ring/System/Awake.antt =====
-- The wakeups that are on their way, and what a push, a pop and a notice do to them.
use yutil.Common.{
  ℕ, ◌+◌, ◌<◌, ◌≤◌, ◌≡◌, ◌⊎◌, Bool, true, Option, none, some, ◌∷◌, length, length-append,
  length-snoc, weigh, pick-Picked, arith,
}
use yutil.Fifo.{Fifo}
use yutil.Fifo.Bounded.{Call}
use yutil.Ring.Ops.{
  Section, fault, block, done, Reply, accepted, refused, Notice, quiet, one_consumer, one_producer,
  everyone, consumers_then_producers, all_producers, PushLegal, PopLegal, is_accepted,
}
use yutil.Ring.System.{System, signal, leave, after_push, after_pop}

-- How many sleepers of each side a notice can serve; one for all serves a whole queue.
abbrev pub to_consumers : ℕ → Notice → ℕ
to_consumers c one_consumer = 1
to_consumers c everyone = c
to_consumers c consumers_then_producers = c
to_consumers c _ = 0

abbrev pub to_producers : ℕ → Notice → ℕ
to_producers c one_producer = 1
to_producers c everyone = c
to_producers c consumers_then_producers = c
to_producers c all_producers = c
to_producers c _ = 0

-- An accepted push signals a consumer, and a pop that takes an item signals a producer.
abbrev pub PushSignals {ℓ} : {S : Type ℓ} → ℕ → Section Reply S → Type 0
PushSignals c (done accepted held after s) = 1 ≤ to_consumers c held + to_consumers c after
PushSignals c _ = Unit

abbrev pub PopSignals {ℓ} : {A S : Type ℓ} → ℕ → Section (Option A) S → Type 0
PopSignals c (done (some x) held after s) = 1 ≤ to_producers c held + to_producers c after
PopSignals c _ = Unit

module _ {A S : Type 0} (c : ℕ) where
  -- While a consumer sleeps each item has a wakeup on its way, and while a producer sleeps at an
  -- open queue each free place has one; `d` and `e` more may be outstanding.
  pub record IsAwake (view : S → Fifo A) (d e : ℕ) (s : System A S) : Type 0 where
    pub consumers :
        (s.consumers ≡ 0)
        ⊎ (length (view s.queue).items ≤ s.consumers_woken + weigh (to_consumers c) s.pending + d)
    pub producers :
        ((view s.queue).closed ≡ true)
        ⊎ (length s.producers ≡ 0)
        ⊎ (c
            ≤ length (view s.queue).items
              + length s.producers_woken
              + weigh (to_producers c) s.pending
              + e)

module _ {A S : Type 0} (c : ℕ) (Valid : S → Type 0) (view : S → Fifo A) where
  pub signal-IsAwake :
      (n : Notice) (j : ℕ) (d e : ℕ) (s : System A S)
      → length (view s.queue).items ≤ c
      → IsAwake c view (to_consumers c n + d) (to_producers c n + e) s
      → IsAwake c view d e (signal n j s)
  signal-IsAwake quiet j d e s f h = ground arith
  signal-IsAwake one_consumer j d e s f h = ground arith
  signal-IsAwake one_producer j d e s f h = ground (arith, pick-Picked (λ x. 0) j s.producers)
  signal-IsAwake everyone j d e s f h = ground (arith, length-append s.producers s.producers_woken)
  signal-IsAwake consumers_then_producers j d e s f h = ground arith
  signal-IsAwake all_producers j d e s f h =
      ground (arith, length-append s.producers s.producers_woken)

  leave-IsAwake :
      (n : Notice) (s : System A S)
      → IsAwake c view (to_consumers c n) (to_producers c n) s
      → IsAwake c view 0 0 (leave n s)
  leave-IsAwake n s h = ground arith

  -- What a push and a pop do to the number of items.
  abbrev pub PushEffect : Fifo A → Section Reply S → Type 0
  PushEffect f fault = ⊥
  PushEffect f (block q) = (c ≤ length f.items) × (view q ≡ f)
  PushEffect f (done accepted held after q) =
      (length (view q).items ≡ length f.items + 1)
      × (length f.items < c)
      × ((view q).closed ≡ f.closed)
  PushEffect f (done refused held after q) =
      ((f.closed ≡ true) ⊎ (c ≤ length f.items)) × (view q ≡ f)

  abbrev pub PopEffect : Fifo A → Section (Option A) S → Type 0
  PopEffect f fault = ⊥
  PopEffect f (block q) = (length f.items ≡ 0) × (view q ≡ f)
  PopEffect f (done none held after q) = (length f.items ≡ 0) × (view q ≡ f)
  PopEffect f (done (some x) held after q) =
      (length (view q).items + 1 ≡ length f.items) × ((view q).closed ≡ f.closed)

  pub push-PushEffect :
      (x : A) (f : Fifo A) (w : Section Reply S)
      → PushLegal c Valid view f (Call.push x) w
      → PushEffect f w
  push-PushEffect x f w l = ground (arith, length-snoc f.items x)

  pub try_push-PushEffect :
      (x : A) (f : Fifo A) (w : Section Reply S)
      → PushLegal c Valid view f (Call.try_push x) w
      → PushEffect f w
  try_push-PushEffect x f w l = ground (arith, length-snoc f.items x)

  pub wait_pop-PopEffect :
      (f : Fifo A) (w : Section (Option A) S)
      → PopLegal c Valid view f Call.wait_pop w
      → PopEffect f w
  wait_pop-PopEffect f w l = ground arith

  pub try_pop-PopEffect :
      (f : Fifo A) (w : Section (Option A) S)
      → PopLegal c Valid view f Call.try_pop w
      → PopEffect f w
  try_pop-PopEffect f w l = ground arith

  pub after_push-IsAwake :
      (x : A) (call : Bool → Call A) (s : System A S) (w : Section Reply S)
      → length (view s.queue).items ≤ c
      → PushEffect (view s.queue) w
      → PushSignals c w
      → IsAwake c view 0 1 s
      → IsAwake c view 0 0 (after_push x call s w)
  after_push-IsAwake x call s fault b l p h = absurd l
  after_push-IsAwake x call s (block q) b l p h = ground arith
  after_push-IsAwake x call s (done r held after q) b l p h = leave-IsAwake after _ (
      signal-IsAwake held 0 (to_consumers c after) (to_producers c after)
        (record s { queue = q; log = call (is_accepted r) ∷ s.log }) (ground arith) (ground arith))

  pub after_pop-IsAwake :
      (call : Option A → Call A) (s : System A S) (w : Section (Option A) S)
      → length (view s.queue).items ≤ c
      → PopEffect (view s.queue) w
      → PopSignals c w
      → IsAwake c view 1 0 s
      → IsAwake c view 0 0 (after_pop call s w)
  after_pop-IsAwake call s fault b l p h = absurd l
  after_pop-IsAwake call s (block q) b l p h = ground arith
  after_pop-IsAwake call s (done r held after q) b l p h = leave-IsAwake after _ (
      signal-IsAwake held 0 (to_consumers c after) (to_producers c after)
        (record s { queue = q; log = call r ∷ s.log }) (ground arith) (ground arith))
