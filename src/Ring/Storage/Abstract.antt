-- ===== src/Ring/Storage/Abstract.antt =====
-- What a client can know of a ring: where `head_` stands and what the free slots hold is forgotten.
use yutil.Common.{
  ℕ, ◌+◌, ◌<◌, ◌≤◌, ◌≡◌, ◌==◌, refl, ap, sym, ◌∙◌, Option, some, none, List, [], ◌∷◌, ◌++◌,
  append_assoc, append-nil, length, word, arith, ltb, if◌then◌else◌, length-snoc, true, false,
  Bool-cases, inl, inr, eq-nil,
}
use mathlib.Core.Equiv.{◌≃◌, Iso, iso_to_equiv}
use mathlib.Core.HLevel.{prop→set, Σ_prop_path, Σ_set}
use mathlib.Core.List
use mathlib.Core.Option
use mathlib.Core.Quot
use mathlib.Core.Quot.{Quot, Quot-set}
use native.Mathlib.Bridge.{le_prop}
use yutil.Ring.Storage.{Storage, create, put, take}
use yutil.Ring.Storage.Contents.{
  IsValid, items, length-items, put_lem, take_lem, create-IsValid, items-create,
}

module _ (A : Type 0) (c : ℕ) where
  -- The states of a ring of capacity `c`.
  abbrev pub Ring : Type 0
  Ring = (s : Storage A) × IsValid s × (s.capacity ≡ c)

  abbrev pub SameItems : Ring → Ring → Type 0
  SameItems s t = items s.0 ≡ items t.0

  abbrev pub View : Type 0
  View = Quot SameItems

  abbrev pub Bounded : Type 0
  Bounded = (xs : List A) × (length xs ≤ c)

module _ {A : Type 0} where
  -- A list of items, and a call of the FIFO queue on it.
  abbrev pub append_item : ℕ → A → List A → Option (List A)
  append_item n x xs = if ltb (length xs) n then some (xs ++ (x ∷ [])) else none

  abbrev pub first_item : List A → Option (A × List A)
  first_item [] = none
  first_item (x ∷ xs) = some (x, xs)

  -- A push and a pop behind the guards that the classes have, with what the ring holds then.
  abbrev pub put_items : A → Storage A → Option (List A)
  put_items x s = if ltb s.size s.capacity then Option.map items (put x s) else none

  abbrev pub take_items : (A → A) → Storage A → Option (A × List A)
  take_items moved s =
      if s.size == 0 then none else Option.map (λ p. (p.0, items p.1)) (take moved s)

module _ {A : Type 0} {c : ℕ} where
  abbrev bounded : Ring A c → Bounded A c
  bounded s = (items s.0, omega (arith, length-items s.0 s.1, s.1.size_in, s.2))

  -- The state behind a `put` of each item of a list.
  refill :
      (xs : List A) (s : Ring A c)
      → length (items s.0) + length xs ≤ c
      → (t : Ring A c) × (items t.0 ≡ items s.0 ++ xs)
  refill [] s h = (s, sym (append-nil (items s.0)))
  refill (x ∷ xs) s h =
      let (t, p, i) = put_lem x s.0 s.1 (omega (arith, length-items s.0 s.1, s.2, h)) in
      let (r, q) =
        refill xs (t, i.valid, i.same ∙ s.2)
          (omega (arith, h, ap length i.appended, length-snoc (items s.0) x)) in
      (r, q ∙ ap (λ l. l ++ xs) i.appended ∙ append_assoc (items s.0) (x ∷ []) xs)

  put_items_lem : (x : A) (s : Ring A c) → put_items x s.0 ≡ append_item c x (items s.0)
  put_items_lem x s = elim (Bool-cases (ltb s.0.size s.0.capacity)) [
    | inl b ↦
        let (t, p, i) = put_lem x s.0 s.1 (ground arith) in
        let r : ltb (length (items s.0)) c ≡ true = ground (arith, b, length-items s.0 s.1, s.2) in
        rw (b, p, r) (ap some i.appended)
    | inr b ↦
        let r : ltb (length (items s.0)) c ≡ false = ground (arith, b, length-items s.0 s.1, s.2) in
        rw (b, r) refl
  ]

  take_items_lem : (moved : A → A) (s : Ring A c) → take_items moved s.0 ≡ first_item (items s.0)
  take_items_lem moved s = elim (Bool-cases (s.0.size == 0)) [
    | inl b ↦
        let e = eq-nil (items s.0) (ground (arith, b, length-items s.0 s.1)) in
        rw b (sym (ap first_item e))
    | inr b ↦
        let (x, t, p, i) = take_lem moved s.0 s.1 (ground (arith, b)) in
        rw (b, p) (sym (ap first_item i.first))
  ]

module _ {A : Type 0} (set : IsSet A) (default : A) (requested : ℕ) (small : requested < word) where
  new : Ring A (create default requested).capacity
  new = (create default requested, create-IsValid default requested small, refl)

  filled :
      (xs : Bounded A (create default requested).capacity)
      → (t : Ring A (create default requested).capacity) × (items t.0 ≡ xs.0)
  unfolding new
  filled xs =
      let (t, e) =
        refill xs.0 new (omega (arith, xs.1, ap length (items-create default requested))) in
      (t, e ∙ ap (λ l. l ++ xs.0) (items-create default requested))

  view_iso :
      Iso
        (View A (create default requested).capacity)
        (Bounded A (create default requested).capacity)
  view_iso = record {
    fun =
        Quot.lift (Σ_set (List.is_set set) (λ xs. prop→set le_prop)) bounded
          (λ s t h. Σ_prop_path (λ xs. le_prop) h);
    inv = λ xs. Quot.mk (filled xs).0;
    rinv = λ xs. Σ_prop_path (λ ys. le_prop) (filled xs).1;
    linv = Quot.ind (λ q. Quot-set _ _) (λ s. Quot.sound (filled (bounded s)).1);
  }

  -- For every requested capacity below 2^64 and items of a type that is a set: the states of a ring,
  -- where two states that hold the same items are one, are the lists of at most `capacity_` items. A
  -- state goes to its items, and behind the guards of the classes a push appends to them where there
  -- is room and a pop takes the first, whatever `head_`, the free slots and `moved` are.
  pub storage_view :
      let c = (create default requested).capacity in
      (e : View A c ≃ Bounded A c) × ((s : Ring A c) → (e.0 (Quot.mk s)).0 ≡ items s.0)
      × ((x : A) (s : Ring A c) → put_items x s.0 ≡ append_item c x (e.0 (Quot.mk s)).0)
      × ((moved : A → A) (s : Ring A c) → take_items moved s.0 ≡ first_item (e.0 (Quot.mk s)).0)
  unfolding view_iso
  storage_view = (
    iso_to_equiv view_iso,
    λ s. refl,
    λ x s. put_items_lem x s,
    λ moved s. take_items_lem moved s,
  )
