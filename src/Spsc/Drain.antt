-- ===== src/Spsc/Drain.antt =====
-- The destructor of `SpscBoundedQueue`.
use yutil.Common.{
  append-nil, ℕ, zero, suc, ◌+◌, ◌-◌, ◌%◌, ◌^◌, ◌<◌, ◌≤◌, ◌≡◌, ◌==◌, refl, sym, ap, ◌∙◌, true,
  false, none, some, List, [], ◌∷◌, length, get_elem?, set, length-set, get_elem?-set_self,
  get_elem?-set_ne, get_elem?-of_ge, word, arith,
}
use native.Mathlib.Nat.{mod-lt, add-mod_right, mod-add-mod}
use native.Mathlib.Decide.{ℕ_discrete}
use mathlib.Core.Path.{subst}
use yutil.Common.Slots.{mod-ne, window-position}
use yutil.Common.Mask.{size-le, size-pos, bit_and_position}
use yutil.Capacity.{normalize_capacity, Normalized}
use yutil.Spsc.Queue.{SpscBoundedQueue, Producer, Consumer, Drained, slot, drain_from, drain}
use yutil.Spsc.Inv.{Ghost, Inv}
use yutil.Fifo.Bounded.{Call}
use yutil.Spsc.System.{Event, start, run}
use yutil.Spsc.Contract.{normalized, run-IsSafe_of_rounded}

tail-ne : (h l : ℕ) → 0 < l → l ≤ 2 ^ 63 → (h % word == (h + l) % word) ≡ false
tail-ne h l p b =
    let e = mod-ne h (h + l) word (omega arith) (omega (arith, b)) in ground (arith, e)

module _ {A : Type 0} (k : ℕ) (small : k ≤ 63) where
  -- The storage holds exactly the given items, from position `h` on.
  record Holds (h : ℕ) (items : List A) (q : SpscBoundedQueue A) : Type 0 where
    pub mask : q.mask ≡ 2 ^ k - 1
    pub storage : length q.storage ≡ 2 ^ k
    pub tail : q.tail ≡ (h + length items) % word
    pub room : length items ≤ 2 ^ k
    pub cells :
        (n : ℕ)
        → h ≤ n
        → n < h + 2 ^ k
        → get_elem? q.storage (n % 2 ^ k) ≡ some (get_elem? items (n - h))

  IsBlank : Drained A → Type 0
  IsBlank d =
      (q : SpscBoundedQueue A) × (d ≡ Drained.done q)
      × ((j : ℕ) → j < 2 ^ k → get_elem? q.storage j ≡ some none)

  slot-Holds :
      (h : ℕ) (items : List A) (q : SpscBoundedQueue A)
      → Holds h items q
      → slot q (h % word) ≡ h % 2 ^ k
  unfolding slot
  slot-Holds h items q i = rw (i.mask) (bit_and_position k h small)

  -- The queue behind a round of the loop.
  abbrev after : ℕ → SpscBoundedQueue A → SpscBoundedQueue A
  after h q = record q { storage = set q.storage (h % 2 ^ k) none }

  next-Holds :
      (h : ℕ) (x : A) (items : List A) (q : SpscBoundedQueue A)
      → Holds h (x ∷ items) q
      → Holds (h + 1) items (after h q)
  next-Holds h x items q i = record {
    mask = i.mask;
    storage = length-set q.storage (h % 2 ^ k) none ∙ i.storage;
    tail = i.tail ∙ ap (λ n. n % word) {x = h + suc (length items)} (omega arith);
    room = omega (arith, i.room);
    cells = λ n lo hi. elim (ℕ_discrete n (h + 2 ^ k)) [
      | yes e ↦
          ap (get_elem? (set q.storage (h % 2 ^ k) none))
            (ap (λ m. m % 2 ^ k) e ∙ add-mod_right h (2 ^ k))
          ∙ get_elem?-set_self q.storage (h % 2 ^ k) none
              (omega (arith, i.storage, mod-lt h (size-pos k)))
          ∙ ap some (sym (get_elem?-of_ge items (n - (h + 1)) (omega (arith, i.room))))
      | no ne ↦
          get_elem?-set_ne q.storage (h % 2 ^ k) (n % 2 ^ k) none
            (mod-ne h n (2 ^ k) (omega arith) (omega arith))
          ∙ i.cells n (omega arith) (omega arith)
          ∙ ap (λ m. some (get_elem? (x ∷ items) m)) {y = suc (n - (h + 1))} (omega arith)
    ];
  }

  first :
      (h : ℕ) (x : A) (items : List A) (q : SpscBoundedQueue A)
      → Holds h (x ∷ items) q
      → get_elem? q.storage (h % 2 ^ k) ≡ some (some x)
  first h x items q i =
      i.cells h (omega arith) (omega (arith, size-pos k))
      ∙ ap (λ m. some (get_elem? (x ∷ items) m)) {y = 0} (omega arith)

  same : (h : ℕ) (q : SpscBoundedQueue A) → Holds h [] q → (h % word == q.tail) ≡ true
  same h q i = let e = i.tail in ground (arith, e)

  more :
      (h : ℕ) (x : A) (items : List A) (q : SpscBoundedQueue A)
      → Holds h (x ∷ items) q
      → (h % word == q.tail) ≡ false
  more h x items q i =
      ap (λ t. h % word == t) i.tail
      ∙ tail-ne h (suc (length items)) (omega arith) (omega (arith, i.room, size-le k small))

  turn :
      (fuel h : ℕ) (x : A) (items : List A) (q : SpscBoundedQueue A)
      → Holds h (x ∷ items) q
      → drain_from (suc fuel) (h % word) q ≡ drain_from fuel ((h + 1) % word) (after h q)
  unfolding drain_from
  turn fuel h x items q i =
      rw
        (
          more h x items q i,
          slot-Holds h (x ∷ items) q i,
          first h x items q i,
          mod-add-mod h word 1,
          drain_from,
        )
        (ap (λ j. drain_from fuel ((h + 1) % word) (record q { storage = set q.storage j none }))
          (slot-Holds h (x ∷ items) q i))

  drain_from-IsBlank :
      (fuel h : ℕ) (items : List A) (q : SpscBoundedQueue A)
      → length items < fuel
      → Holds h items q
      → IsBlank (drain_from fuel (h % word) q)
  unfolding drain_from IsBlank
  drain_from-IsBlank zero h items q f i = absurd (omega arith)
  drain_from-IsBlank (suc fuel) h [] q f i = (
    q,
    rw (same h q i, drain_from) refl,
    λ j l.
        let (n, lo, hi, e) = window-position h (2 ^ k) j (size-pos k) l in
        ap (get_elem? q.storage) (sym e) ∙ i.cells n lo hi,
  )
  drain_from-IsBlank (suc fuel) h (x ∷ items) q f i =
      subst (IsBlank) (sym (turn fuel h x items q i))
        (drain_from-IsBlank fuel (h + 1) items (after h q) (omega arith) (next-Holds h x items q i))

  idle-Holds :
      (g : Ghost A) (q : SpscBoundedQueue A) (log : List (Call A))
      → Inv k g q Producer.idle Consumer.idle log
      → Holds g.head g.items q
  idle-Holds g q log i = record {
    mask = i.shape.mask;
    storage = i.shape.storage;
    tail = i.shape.tail ∙ ap (λ m. m % word) i.order.count;
    room = omega (arith, i.order.count, i.order.room, i.order.head_seen);
    cells = λ m lo hi.
        i.cells m (omega arith) hi
        ∙ ap (λ xs. some (get_elem? xs (m - g.head))) (append-nil g.items);
  }

  drain-IsBlank :
      (fuel : ℕ) (g : Ghost A) (q : SpscBoundedQueue A) (log : List (Call A))
      → 2 ^ k < fuel
      → Inv k g q Producer.idle Consumer.idle log
      → IsBlank (drain fuel q)
  unfolding drain
  drain-IsBlank fuel g q log f i =
      let h = idle-Holds g q log i in
      let e = i.shape.head in
      subst (λ m. IsBlank (drain_from fuel m q)) (sym e)
        (drain_from-IsBlank fuel g.head g.items q (omega (arith, h.room)) h)

module _ {A : Type 0} (moved : A → A) (requested n : ℕ) (bounded : requested ≤ 2 ^ 63)
    (rounded : normalize_capacity 64 requested ≡ some n) (es : List (Event A)) where
  -- Behind every interleaving that leaves both threads outside a call, `n + 1` rounds are enough for
  -- the destructor: it ends, it calls the destructor of an object only where there is one, and it
  -- leaves no object in the storage.
  pub drain_total :
      let s = run moved es (start n) in
      (fuel : ℕ)
      → n < fuel
      → s.producer ≡ Producer.idle
      → s.consumer ≡ Consumer.idle
      → (q : SpscBoundedQueue A) × (drain fuel s.queue ≡ Drained.done q)
        × ((j : ℕ) → j < n → get_elem? q.storage j ≡ some none)
  unfolding IsBlank
  drain_total fuel f p c =
      let w : Normalized requested n = normalized moved requested n bounded rounded es in
      let s = run moved es (start n) in
      let (d, g, i) = run-IsSafe_of_rounded moved requested n bounded rounded es in
      let i' =
        subst (λ c. Inv w.log g s.queue Producer.idle c s.log) c
          (subst (λ p. Inv w.log g s.queue p s.consumer s.log) p i) in
      let (q, e, b) =
        drain-IsBlank w.log w.log_small fuel g s.queue s.log (omega (arith, w.power)) i' in
      (q, e, λ j l. b j (omega (arith, w.power)))
