-- ===== src/Common/Slots.antt =====
-- An array read round and round: position `p` is in slot `p % c`.
use Prim.Native.Nat.{◌*◌, ◌-◌, ◌/◌, ℕ, zero, suc, ◌+◌, ◌%◌, ◌<◌, ◌≤◌}
use mathlib.Core.Path.{◌≡◌, refl, ap, ap₂, sym, ◌∙◌}
use mathlib.Core.Logic.{◌≢◌}
use mathlib.Core.List.{List, [], ◌∷◌, ◌++◌}
use mathlib.Core.Option.{Option, none, some}
use native.Mathlib.Decide.{dec_lt}
use native.Mathlib.Omega.{arith}
use native.Mathlib.Nat.{
  mod-lt, mod-eq_of_lt, mul-add-mod_self_left, div-add-mod, mul-add, add-zero, mod-add-mod, mod-mod,
}
use yutil.Common.Lists.{length, get_elem?, set, get_elem?-set_self, get_elem?-set_ne}

-- Positions less than `cap` apart have different slots.
pub mod-ne : (p q c : ℕ) → p < q → q < p + c → p % c ≢ q % c
mod-ne p q c lo hi e = grind arith

pub get_elem?-of_lt {ℓ} :
    {A : Type ℓ} (xs : List A) (i : ℕ) → i < length xs → (x : A) × (get_elem? xs i ≡ some x)
get_elem?-of_lt [] i h = absurd (omega arith)
get_elem?-of_lt (x ∷ xs) zero h = (x, refl)
get_elem?-of_lt (x ∷ xs) (suc i) h = get_elem?-of_lt xs i (omega arith)

module _ {ℓ} {A : Type ℓ} where
  -- A slot out of range ends the walk.
  abbrev pub prepend : Option A → List A → List A
  prepend none xs = []
  prepend (some x) xs = x ∷ xs

  -- The items at the `n` positions from `p` on.
  abbrev pub slots : List A → ℕ → ℕ → ℕ → List A
  slots buf c p zero = []
  slots buf c p (suc n) = prepend (get_elem? buf (p % c)) (slots buf c (p + 1) n)

  pub length-slots :
      (buf : List A) (c p n : ℕ) → 0 < c → c ≤ length buf → length (slots buf c p n) ≡ n
  length-slots buf c p zero h k = refl
  length-slots buf c p (suc n) h k =
      let (x, e) = get_elem?-of_lt buf (p % c) (omega arith) in
      rw (e, length) (ap suc (length-slots buf c (p + 1) n h k))

  -- A write behind the items leaves them alone.
  pub slots-set_ne :
      (buf : List A) (c p n q : ℕ) (v : A)
      → p + n ≤ q
      → q < p + c
      → slots (set buf (q % c) v) c p n ≡ slots buf c p n
  slots-set_ne buf c p zero q v h k = refl
  slots-set_ne buf c p (suc n) q v h k =
      ap₂ prepend
        (get_elem?-set_ne buf (q % c) (p % c) v (λ e. mod-ne p q c (omega arith) k (sym e)))
        (slots-set_ne buf c (p + 1) n q v (omega arith) (omega arith))

  -- A write at the next position appends.
  pub slots-set_snoc :
      (buf : List A) (c p n q : ℕ) (v : A)
      → q ≡ p + n
      → n < c
      → c ≤ length buf
      → slots (set buf (q % c) v) c p (suc n) ≡ slots buf c p n ++ (v ∷ [])
  slots-set_snoc buf c p zero q v e h k =
      rw (e, add-zero) (ap (λ o. prepend o []) (get_elem?-set_self buf (p % c) v (omega arith)))
  slots-set_snoc buf c p (suc n) q v e h k =
      let (x, f) = get_elem?-of_lt buf (p % c) (omega arith) in
      let g =
        get_elem?-set_ne buf (q % c) (p % c) v
          (λ i. mod-ne p q c (omega arith) (omega arith) (sym i)) in
      rw (f, prepend)
        (ap₂ prepend (g ∙ f) (slots-set_snoc buf c (p + 1) n q v (omega arith) (omega arith) k))

  pub slots-mod : (buf : List A) (c p n : ℕ) → slots buf c (p % c) n ≡ slots buf c p n
  slots-mod buf c p zero = refl
  slots-mod buf c p (suc n) = ap₂ prepend (ap (get_elem? buf) (mod-mod p c)) (
      sym (slots-mod buf c (p % c + 1) n)
      ∙ ap (λ k. slots buf c k n) (mod-add-mod p c 1)
      ∙ slots-mod buf c (p + 1) n)

-- Two positions of one window of `c` have one slot only if they are the same.
pub mod-window : (h p q c : ℕ) → h ≤ p → p < h + c → h ≤ q → q < h + c → p ≢ q → p % c ≢ q % c
mod-window h p q c lp hp lq hq ne e = elim (dec_lt p q) [
  | yes l ↦ mod-ne p q c l (omega arith) e
  | no l ↦ mod-ne q p c (omega arith) (omega arith) (sym e)
]

-- Each slot is that of one position of the window.
pub window-position : (h c j : ℕ) → 0 < c → j < c → (n : ℕ) × (h ≤ n) × (n < h + c) × (n % c ≡ j)
window-position h c j p l = elim (dec_lt j (h % c)) [
  | yes b ↦ (
    h + (c + j - h % c),
    omega arith,
    omega (arith, mod-lt h p),
    ap (λ n. n % c) (above b) ∙ mul-add-mod_self_left c (h / c + 1) j ∙ mod-eq_of_lt l,
  )
  | no b ↦ (
    h + (j - h % c),
    omega arith,
    omega (arith, mod-lt h p),
    ap (λ n. n % c) (below b) ∙ mul-add-mod_self_left c (h / c) j ∙ mod-eq_of_lt l,
  )
]
  where
    below : ¬ (j < h % c) → h + (j - h % c) ≡ c * (h / c) + j
    below b = omega (arith, div-add-mod h c)

    above : j < h % c → h + (c + j - h % c) ≡ c * (h / c + 1) + j
    above b = omega (arith, div-add-mod h c, mod-lt h p, mul-add c (h / c) 1)
