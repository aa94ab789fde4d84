-- ===== src/Ring/Storage/Contents.antt =====
-- What a ring holds, and that moving an item in or out does what it should.
use yutil.Common.{
  ℕ, suc, ◌+◌, ◌%◌, ◌<◌, ◌≤◌, ◌≡◌, refl, ap, ap₂, ◌≡⟨◌⟩◌, ◌∎, lt→ltb, sym, ◌∙◌, some, List, [], ◌∷◌,
  ◌++◌, length, get_elem?, set, length-set, length-replicate, word, arith, inc, dec,
}
use yutil.Common.Slots.{
  slots, length-slots, slots-set_ne, slots-set_snoc, slots-mod, get_elem?-of_lt, prepend,
}
use yutil.Ring.Storage.{Storage, next, create, put, take}
use native.Mathlib.Nat.{mod-add-mod, mod-lt, mod-eq_of_lt, add-mod_right}

pub record IsValid {ℓ} {A : Type ℓ} (s : Storage A) : Type 0 where
  pub positive : 0 < s.capacity
  pub small : s.capacity < word
  pub filled : length s.buffer ≡ s.capacity
  pub head_in : s.head < s.capacity
  pub size_in : s.size ≤ s.capacity
  pub tail_at : s.tail ≡ (s.head + s.size) % s.capacity

module _ {ℓ} {A : Type ℓ} where
  -- Oldest first.
  abbrev pub items : Storage A → List A
  items s = slots s.buffer s.capacity s.head s.size

  pub length-items : (s : Storage A) → IsValid s → length (items s) ≡ s.size
  length-items s v = length-slots s.buffer s.capacity s.head s.size v.positive (omega arith)

  pub create-IsValid : (default : A) (n : ℕ) → n < word → IsValid (create default n)
  unfolding create
  create-IsValid default n h =
      ground (arith, length-replicate n default, length-replicate 1 default)

  pub items-create : (default : A) (n : ℕ) → items (create default n) ≡ []
  unfolding create
  items-create default n = refl

  -- `put` appends, `take` hands out the first item; both stay inside the vector.
  pub record Stored (x : A) (s t : Storage A) : Type ℓ where
    pub valid : IsValid t
    pub same : t.capacity ≡ s.capacity
    pub grown : t.size ≡ s.size + 1
    pub appended : items t ≡ items s ++ (x ∷ [])

  pub put_lem :
      (x : A) (s : Storage A)
      → IsValid s
      → s.size < s.capacity
      → (t : Storage A) × (put x s ≡ some t) × Stored x s t
  unfolding put next
  put_lem x s v h = (
    t,
    rw (lt→ltb s.tail (length s.buffer) (omega arith)),
    record {
      valid = record {
        positive = v.positive;
        small = v.small;
        filled = length-set s.buffer s.tail x ∙ v.filled;
        head_in = v.head_in;
        size_in = omega arith;
        tail_at = tail_next;
      };
      same = refl;
      grown = size_next;
      appended = contents;
    },
  )
    where
      t : Storage A
      t = record s {
        buffer = set s.buffer s.tail x;
        tail = inc s.tail % s.capacity;
        size = inc s.size;
      }

      tail_in : s.tail < s.capacity
      tail_in = rw v.tail_at (mod-lt (s.head + s.size) v.positive)

      size_next : inc s.size ≡ s.size + 1
      size_next = omega arith

      tail_next : inc s.tail % s.capacity ≡ (s.head + inc s.size) % s.capacity
      tail_next =
          inc s.tail % s.capacity
          ≡⟨ ap (λ k. k % s.capacity) (omega arith) ⟩ (s.tail + 1) % s.capacity
          ≡⟨ ap (λ k. (k + 1) % s.capacity) v.tail_at ⟩
            ((s.head + s.size) % s.capacity + 1) % s.capacity
          ≡⟨ mod-add-mod (s.head + s.size) s.capacity 1 ⟩ (s.head + s.size + 1) % s.capacity
          ≡⟨ ap (λ k. k % s.capacity) (omega arith) ⟩ (s.head + inc s.size) % s.capacity ∎

      contents : slots (set s.buffer s.tail x) s.capacity s.head (inc s.size) ≡ items s ++ (x ∷ [])
      contents =
          ap₂ (λ i k. slots (set s.buffer i x) s.capacity s.head k) {v = suc s.size} v.tail_at
            (omega arith)
          ∙ slots-set_snoc s.buffer s.capacity s.head s.size (s.head + s.size) x refl h
              (omega arith)

  pub record Removed (x : A) (s t : Storage A) : Type ℓ where
    pub valid : IsValid t
    pub same : t.capacity ≡ s.capacity
    pub shrunk : t.size + 1 ≡ s.size
    pub first : items s ≡ x ∷ items t

  pub take_lem :
      (moved : A → A) (s : Storage A)
      → IsValid s
      → 0 < s.size
      → (x : A) × (t : Storage A) × (take moved s ≡ some (x, t)) × Removed x s t
  unfolding take next
  take_lem moved s v h = (
    x,
    t,
    rw (found, take),
    record {
      valid = record {
        positive = v.positive;
        small = v.small;
        filled = length-set s.buffer s.head (moved x) ∙ v.filled;
        head_in = mod-lt (inc s.head) v.positive;
        size_in = omega arith;
        tail_at = v.tail_at ∙ tail_same;
      };
      same = refl;
      shrunk = omega arith;
      first = contents;
    },
  )
    where
      x : A
      x = (get_elem?-of_lt s.buffer s.head (omega arith)).0

      found : get_elem? s.buffer s.head ≡ some x
      found = (get_elem?-of_lt s.buffer s.head (omega arith)).1

      t : Storage A
      t = record s {
        buffer = set s.buffer s.head (moved x);
        head = inc s.head % s.capacity;
        size = dec s.size;
      }

      c : ℕ
      c = s.capacity

      head_next : inc s.head ≡ s.head + 1
      head_next = omega arith

      tail_same : (s.head + s.size) % c ≡ (inc s.head % c + dec s.size) % c
      tail_same =
          (s.head + s.size) % c
          ≡⟨ ap (λ k. k % c) (omega arith) ⟩ (inc s.head + dec s.size) % c
          ≡⟨ sym (mod-add-mod (inc s.head) c (dec s.size)) ⟩ (inc s.head % c + dec s.size) % c ∎

      home : s.head % c ≡ s.head
      home = mod-eq_of_lt v.head_in

      rest :
          slots (set s.buffer s.head (moved x)) c (inc s.head % c) (dec s.size)
          ≡ slots s.buffer c (s.head + 1) (dec s.size)
      rest =
          slots-mod (set s.buffer s.head (moved x)) c (inc s.head) (dec s.size)
          ∙ ap₂ (λ i p. slots (set s.buffer i (moved x)) c p (dec s.size))
              (sym home ∙ sym (add-mod_right s.head c)) head_next
          ∙ slots-set_ne s.buffer c (s.head + 1) (dec s.size) (s.head + c) (moved x) (omega arith)
              (omega arith)

      contents : items s ≡ x ∷ items t
      contents =
          ap (slots s.buffer c s.head) {y = suc (dec s.size)} (omega arith)
          ∙ ap₂ prepend (ap (get_elem? s.buffer) home ∙ found) (sym rest)
