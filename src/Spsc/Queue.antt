-- ===== src/Spsc/Queue.antt =====
-- The class, a shared access at a time. Each function is what a thread does from one place in
-- `emplace` or `try_pop` up to the next access that the other thread can observe.
use yutil.Common.{
  zero, suc, ℕ, ◌+◌, ◌-◌, ◌%◌, ◌==◌, Bool, true, false, Option, none, some, List, get_elem?, set,
  replicate, if◌then◌else◌, ltb, inc, word,
}
use Prim.Native.Nat.{bit_and}
use yutil.Fifo.Bounded.{Call}

-- The data members. A slot of the raw storage is `none` while it holds no object.
pub record SpscBoundedQueue {ℓ} (A : Type ℓ) : Type ℓ where
  pub capacity : ℕ
  pub mask : ℕ
  pub storage : List (Option A)
  pub head : ℕ
  pub tail : ℕ
  pub head_cache : ℕ
  pub tail_cache : ℕ

-- Where the producer stands in `emplace(x)`, with its locals.
pub data Producer {ℓ} (A : Type ℓ) : Type ℓ where
  idle : Producer A
  called : A → Producer A
  reload : A → (tail : ℕ) → Producer A  -- before the load of `head_`
  construct : A → (tail : ℕ) → Producer A  -- before the placement `new`
  publish : A → (tail : ℕ) → Producer A  -- before the store to `tail_`

-- Where the consumer stands in `try_pop`, with its locals and what it has moved to `out`.
pub data Consumer {ℓ} (A : Type ℓ) : Type ℓ where
  idle : Consumer A
  called : Consumer A
  reload : (head : ℕ) → Consumer A  -- before the load of `tail_`
  read : (head : ℕ) → Consumer A  -- before the move out of the slot
  destroy : (head : ℕ) → A → Consumer A  -- before the destructor of the slot
  publish : (head : ℕ) → A → Consumer A  -- before the store to `head_`

-- The queue, the place that the thread reaches, and the call that has returned there.
pub record Turn {ℓ} (A P : Type ℓ) : Type ℓ where
  pub queue : SpscBoundedQueue A
  pub place : P
  pub reply : Option (Call A)

-- `static_cast<std::size_t>(tail - head)`
unfoldable pub size_of : (tail head : ℕ) → ℕ
size_of tail head = (tail + word - head) % word

module _ {ℓ} {A : Type ℓ} where
  -- The constructor, at a capacity that `normalize_capacity` has rounded.
  unfoldable pub create : ℕ → SpscBoundedQueue A
  create normalized = record {
    capacity = normalized;
    mask = normalized - 1;
    storage = replicate normalized none;
    head = 0;
    tail = 0;
    head_cache = 0;
    tail_cache = 0;
  }

  -- The slot of `ptr(index)`.
  unfoldable pub slot : SpscBoundedQueue A → ℕ → ℕ
  slot q index = bit_and index q.mask

  -- `next - head_cache_ > capacity_`
  unfoldable pub is_full : SpscBoundedQueue A → ℕ → Bool
  is_full q tail = ltb q.capacity ((inc tail + word - q.head_cache) % word)

  -- One turn of `emplace`. `none`: an object is constructed over another or outside the storage.
  unfoldable pub emplace : SpscBoundedQueue A → Producer A → Option (Turn A (Producer A))
  unfolding is_full slot
  emplace q idle = some (record { queue = q; place = idle; reply = none })
  emplace q (called x) = some (record {
    queue = q;
    place = if is_full q q.tail then reload x q.tail else construct x q.tail;
    reply = none;
  })
  emplace q (reload x tail) =
      let q' : SpscBoundedQueue A = record q { head_cache = q.head } in
      some (
        if is_full q' tail
        then record { queue = q'; place = idle; reply = some (Call.try_push x false) }
        else record { queue = q'; place = construct x tail; reply = none })
  emplace q (construct x tail) = elim (get_elem? q.storage (slot q tail)) [
    | some none ↦ some (record {
      queue = record q { storage = set q.storage (slot q tail) (some x) };
      place = publish x tail;
      reply = none;
    })
    | _ ↦ none
  ]
  emplace q (publish x tail) = some (record {
    queue = record q { tail = inc tail };
    place = idle;
    reply = some (Call.try_push x true);
  })

  -- Both overloads.
  unfoldable pub try_push : SpscBoundedQueue A → Producer A → Option (Turn A (Producer A))
  unfolding emplace
  try_push q p = emplace q p

  -- One turn of `try_pop`. `none`: an access to a slot that holds no object or to none at all.
  -- `moved v` is what the move assignment of `T` leaves behind.
  unfoldable pub try_pop : (A → A) → SpscBoundedQueue A → Consumer A → Option (Turn A (Consumer A))
  unfolding slot
  try_pop moved q idle = some (record { queue = q; place = idle; reply = none })
  try_pop moved q called = some (record {
    queue = q;
    place = if q.tail_cache == q.head then reload q.head else read q.head;
    reply = none;
  })
  try_pop moved q (reload head) =
      let q' : SpscBoundedQueue A = record q { tail_cache = q.tail } in
      some (
        if q.tail == head
        then record { queue = q'; place = idle; reply = some (Call.try_pop none) }
        else record { queue = q'; place = read head; reply = none })
  try_pop moved q (read head) = elim (get_elem? q.storage (slot q head)) [
    | some (some v) ↦ some (record {
      queue = record q { storage = set q.storage (slot q head) (some (moved v)) };
      place = destroy head v;
      reply = none;
    })
    | _ ↦ none
  ]
  try_pop moved q (destroy head v) = elim (get_elem? q.storage (slot q head)) [
    | some (some w) ↦ some (record {
      queue = record q { storage = set q.storage (slot q head) none };
      place = publish head v;
      reply = none;
    })
    | _ ↦ none
  ]
  try_pop moved q (publish head v) = some (record {
    queue = record q { head = inc head };
    place = idle;
    reply = some (Call.try_pop (some v));
  })

  -- With both loads at one time.
  unfoldable pub size : SpscBoundedQueue A → ℕ
  unfolding size_of
  size q = size_of q.tail q.head

  unfoldable pub empty : SpscBoundedQueue A → Bool
  unfolding size
  empty q = size q == 0

-- How `drain` ends. `fault`: a destructor is called where there is no object.
pub data Drained {ℓ} (A : Type ℓ) : Type ℓ where
  running : Drained A
  fault : Drained A
  done : SpscBoundedQueue A → Drained A

module _ {ℓ} {A : Type ℓ} where
  -- `while (head != tail)` on fuel.
  unfoldable pub drain_from : ℕ → (head : ℕ) → SpscBoundedQueue A → Drained A
  unfolding slot
  drain_from zero head q = Drained.running
  drain_from (suc fuel) head q = elim (head == q.tail) [
    | true ↦ Drained.done q
    | false ↦ elim (get_elem? q.storage (slot q head)) [
      | some (some w) ↦
          drain_from fuel (inc head) (record q { storage = set q.storage (slot q head) none })
      | _ ↦ Drained.fault
    ]
  ]

  -- What the destructor calls.
  unfoldable pub drain : ℕ → SpscBoundedQueue A → Drained A
  unfolding drain_from
  drain fuel q = drain_from fuel q.head q
