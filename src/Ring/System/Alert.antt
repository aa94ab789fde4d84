-- ===== src/Ring/System/Alert.antt =====
-- A class that signals at least on the way from empty to non-empty and from full to not full, and
-- what its critical sections do to one waiting thread of each side.
use yutil.Common.{
  ℕ, ◌+◌, ◌<◌, ◌≤◌, ◌≡◌, ◌⊎◌, Bool, true, false, Option, none, some, ◌∷◌, length, length-append,
  weigh, pick-Picked, arith,
}
use yutil.Fifo.{Fifo}
use yutil.Fifo.Bounded.{Call}
use yutil.Ring.Ops.{
  Ops, Section, fault, block, done, Reply, accepted, refused, Notice, quiet, one_consumer,
  one_producer, everyone, consumers_then_producers, all_producers,
}
use yutil.Ring.System.{System, signal, leave, after_push, after_pop}
use yutil.Ring.System.Awake.{to_consumers, to_producers, PushEffect, PopEffect}

module _ {A S : Type 0} where
  pub signal-queue : (n : Notice) (j : ℕ) (s : System A S) → (signal n j s).queue ≡ s.queue
  signal-queue n j s = ground arith

  pub leave-queue : (n : Notice) (s : System A S) → (leave n s).queue ≡ s.queue
  leave-queue n s = ground arith

module _ {A S : Type 0} (c : ℕ) (view : S → Fifo A) (Tracks : S → ℕ → ℕ → Type 0) where
  -- `Tracks s k m`: the bookkeeping of `s` agrees with `k` consumers and `m` producers that wait,
  -- asleep or woken. `Blocked` is what holds if the section sleeps.
  abbrev pub PushKept : (S → Type 0) → Fifo A → (k m : ℕ) → Section Reply S → Type 0
  PushKept Blocked f k m fault = Unit
  PushKept Blocked f k m (block q) = Blocked q
  PushKept Blocked f k m (done accepted held after q) =
      Tracks q k m × (length f.items ≡ 0 → 0 < k → 1 ≤ to_consumers c held + to_consumers c after)
  PushKept Blocked f k m (done refused held after q) = Tracks q k m

  -- `p` producers can be asleep.
  abbrev pub PopKept : (S → Type 0) → Fifo A → (k m p : ℕ) → Section (Option A) S → Type 0
  PopKept Blocked f k m p fault = Unit
  PopKept Blocked f k m p (block q) = Blocked q
  PopKept Blocked f k m p (done none held after q) = Tracks q k m
  PopKept Blocked f k m p (done (some x) held after q) =
      Tracks q k m × (c ≤ length f.items → 0 < p → 1 ≤ to_producers c held + to_producers c after)

  pub record IsAlert (Valid : S → Type 0) (ops : Ops A S) : Type 0 where
    pub initial_lem : Tracks ops.initial 0 0
    pub emplace_lem :
        (x : A) (s : S) (k : ℕ)
        → Valid s
        → Tracks s k 0
        → k ≤ 1
        → PushKept (λ q. Tracks q k 1) (view s) k 0 (ops.emplace x s)
    pub resume_push_lem :
        (x : A) (s : S) (k : ℕ)
        → Valid s
        → Tracks s k 1
        → k ≤ 1
        → PushKept (λ q. Tracks q k 1) (view s) k 0 (ops.resume_push x s)
    pub try_emplace_lem :
        (x : A) (s : S) (k m : ℕ)
        → Valid s
        → Tracks s k m
        → PushKept (λ q. ⊥) (view s) k m (ops.try_emplace x s)
    pub wait_pop_lem :
        (s : S) (m : ℕ)
        → Valid s
        → Tracks s 0 m
        → m ≤ 1
        → PopKept (λ q. Tracks q 1 m) (view s) 0 m m (ops.wait_pop s)
    pub resume_pop_lem :
        (s : S) (m : ℕ)
        → Valid s
        → Tracks s 1 m
        → m ≤ 1
        → PopKept (λ q. Tracks q 1 m) (view s) 0 m m (ops.resume_pop s)
    pub try_pop_lem :
        (s : S) (k m : ℕ) → Valid s → Tracks s k m → PopKept (λ q. ⊥) (view s) k m 0 (ops.try_pop s)
    pub close_lem : (s : S) (k m : ℕ) → Tracks s k m → Tracks (ops.close s).1 k m

  -- At most one thread of each side waits. While the consumer sleeps, the queue is empty or a wakeup
  -- is on its way; while the producer sleeps at an open queue, it is full or one is. `d` and `e` more
  -- wakeups may be outstanding.
  pub record ServedAt (k m d e : ℕ) (s : System A S) : Type 0 where
    pub one_consumer_waits : k ≤ 1
    pub one_producer_waits : m ≤ 1
    pub consumers_counted : s.consumers + s.consumers_woken ≡ k
    pub producers_counted : length s.producers + length s.producers_woken ≡ m
    pub consumers :
        (s.consumers ≡ 0)
        ⊎ (length (view s.queue).items ≡ 0)
        ⊎ (0 < weigh (to_consumers c) s.pending + d)
    pub producers :
        ((view s.queue).closed ≡ true)
        ⊎ (length s.producers ≡ 0)
        ⊎ (c ≤ length (view s.queue).items)
        ⊎ (0 < weigh (to_producers c) s.pending + e)

  abbrev pub IsServed : System A S → Type 0
  IsServed s = (k m : ℕ) × ServedAt k m 0 0 s × Tracks s.queue k m

  module _ (positive : 0 < c) where
    pub signal-ServedAt :
        (n : Notice) (j k m d e : ℕ) (s : System A S)
        → ServedAt k m (to_consumers c n + d) (to_producers c n + e) s
        → ServedAt k m d e (signal n j s)
    signal-ServedAt quiet j k m d e s h = ground arith
    signal-ServedAt one_consumer j k m d e s h = ground arith
    signal-ServedAt one_producer j k m d e s h = ground (arith, pick-Picked (λ x. 0) j s.producers)
    signal-ServedAt everyone j k m d e s h =
        ground (arith, length-append s.producers s.producers_woken)
    signal-ServedAt consumers_then_producers j k m d e s h = ground arith
    signal-ServedAt all_producers j k m d e s h =
        ground (arith, length-append s.producers s.producers_woken)

    leave-ServedAt :
        (n : Notice) (k m : ℕ) (s : System A S)
        → ServedAt k m (to_consumers c n) (to_producers c n) s
        → ServedAt k m 0 0 (leave n s)
    leave-ServedAt n k m s h = ground arith

    -- What is sent under the mutex and then behind it.
    sent-IsServed :
        (held after : Notice) (k m : ℕ) (s : System A S)
        → Tracks s.queue k m
        → ServedAt k m
            (to_consumers c held + to_consumers c after)
            (to_producers c held + to_producers c after)
            s
        → IsServed (leave after (signal held 0 s))
    sent-IsServed held after k m s t h = (
      k,
      m,
      leave-ServedAt after k m (signal held 0 s)
          (signal-ServedAt held 0 k m (to_consumers c after) (to_producers c after) s h),
      rw (leave-queue after (signal held 0 s)) (rw (signal-queue held 0 s) t),
    )

    pub after_push-IsServed :
        (Valid Blocked : S → Type 0) (x : A) (call : Bool → Call A) (k m : ℕ) (s : System A S)
        (w : Section Reply S)
        → PushEffect c Valid view (view s.queue) w
        → PushKept Blocked (view s.queue) k m w
        → ((q : S) → Blocked q → (m ≡ 0) × Tracks q k 1)
        → ServedAt k m 0 0 s
        → IsServed (after_push x call s w)
    after_push-IsServed Valid Blocked x call k m s fault l p b h = absurd l
    after_push-IsServed Valid Blocked x call k m s (block q) l p b h =
        let (z, t) = b q p in (k, 1, ground arith, t)
    after_push-IsServed Valid Blocked x call k m s (done accepted held after q) l p b h =
        sent-IsServed held after k m (record s { queue = q; log = call true ∷ s.log }) p.0
          (ground arith)
    after_push-IsServed Valid Blocked x call k m s (done refused held after q) l p b h =
        sent-IsServed held after k m (record s { queue = q; log = call false ∷ s.log }) p
          (ground arith)

    pub after_pop-IsServed :
        (Valid Blocked : S → Type 0) (call : Option A → Call A) (k m p : ℕ) (s : System A S)
        (w : Section (Option A) S)
        → PopEffect c Valid view (view s.queue) w
        → PopKept Blocked (view s.queue) k m p w
        → ((q : S) → Blocked q → (k ≡ 0) × Tracks q 1 m)
        → length s.producers ≤ p
        → ServedAt k m 0 0 s
        → IsServed (after_pop call s w)
    after_pop-IsServed Valid Blocked call k m p s fault l r b u h = absurd l
    after_pop-IsServed Valid Blocked call k m p s (block q) l r b u h =
        let (z, t) = b q r in (1, m, ground arith, t)
    after_pop-IsServed Valid Blocked call k m p s (done none held after q) l r b u h =
        sent-IsServed held after k m (record s { queue = q; log = call none ∷ s.log }) r
          (ground arith)
    after_pop-IsServed Valid Blocked call k m p s (done (some x) held after q) l r b u h =
        sent-IsServed held after k m (record s { queue = q; log = call (some x) ∷ s.log }) r.0
          (ground arith)
