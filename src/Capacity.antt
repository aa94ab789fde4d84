-- ===== src/Capacity.antt =====
-- `normalize_capacity`, the private static member that `SpscBoundedQueue` and the three
-- `BoundedAtomicMpmcQueue` classes share word for word.
pub mod Tests
use yutil.Common.{
  ℕ, zero, suc, ◌+◌, ◌*◌, ◌%◌, ◌^◌, ◌<◌, ◌≤◌, ◌≡◌, ◌⊎◌, inl, inr, refl, ap, ◌∙◌, Option, none, some,
  ltb, if◌then◌else◌, word, arith, Bool-cases, ltb→lt, lt→ltb,
}
use native.Mathlib.Decide.{dec_lt}
use native.Mathlib.Nat.{pow-suc, pow-le-pow_right}

-- `while (normalized < capacity) normalized <<= 1U;` on fuel; `none`: still running.
unfoldable pub grow : ℕ → ℕ → ℕ → Option ℕ
grow zero capacity normalized = none
grow (suc fuel) capacity normalized =
    let rest = grow fuel capacity (normalized * 2 % word) in
    if ltb normalized capacity then rest else some normalized

unfoldable pub normalize_capacity : ℕ → ℕ → Option ℕ
unfolding grow
normalize_capacity fuel capacity = elim (grow fuel capacity 1) [
  | none ↦ none
  | some n ↦ some (if ltb n 2 then 2 else n)
]

-- A power of two that is at least the request, and otherwise the least from 2 on.
pub record Normalized (capacity n : ℕ) : Type 0 where
  pub log : ℕ
  pub power : n ≡ 2 ^ log
  pub log_pos : 1 ≤ log
  pub log_small : log ≤ 63
  pub enough : capacity ≤ n
  pub least : (n ≡ 2) ⊎ (n < 2 * capacity)

pow-le : (i : ℕ) → i ≤ 63 → 2 ^ i ≤ 2 ^ 63
pow-le i h = pow-le-pow_right (omega arith) h

-- The loop from `2 ^ i`.
Grown : ℕ → ℕ → ℕ → Type 0
Grown capacity i n =
    (j : ℕ) × (n ≡ 2 ^ j) × (j ≤ 63) × (capacity ≤ n) × (i ≤ j) × ((i ≡ j) ⊎ (n < 2 * capacity))

double : (i : ℕ) → i < 63 → 2 ^ i * 2 % word ≡ 2 ^ suc i
double i h = omega (arith, pow-suc 2 i, pow-le (suc i) h)

not-last : (capacity i : ℕ) → capacity ≤ 2 ^ 63 → i ≤ 63 → 2 ^ i < capacity → i < 63
not-last capacity i c h l = elim (dec_lt i 63) [
  | yes p ↦ p
  | no p ↦ absurd (omega (arith, ap (λ k. 2 ^ k) (last p)))
]
  where
    last : ¬ (i < 63) → i ≡ 63
    last p = omega arith

grow-Grown :
    (fuel capacity i : ℕ)
    → capacity ≤ 2 ^ 63
    → i ≤ 63
    → 63 < i + fuel
    → (n : ℕ) × (grow fuel capacity (2 ^ i) ≡ some n) × Grown capacity i n
unfolding grow Grown
grow-Grown zero capacity i c h f = absurd (omega arith)
grow-Grown (suc fuel) capacity i c h f = elim (Bool-cases (ltb (2 ^ i) capacity)) [
  | inl less ↦
      let l = ltb→lt (2 ^ i) capacity less in
      let h' = not-last capacity i c h l in
      let (n, e, g) = grow-Grown fuel capacity (suc i) c h' (omega arith) in
      (
        n,
        rw (less, double i h') e,
        (g.0, g.1, g.2, g.3, omega (arith, g.4), inr (doubled n g.0 g.5 l g.1)),
      )
  | inr stop ↦ (2 ^ i, rw stop, (i, refl, h, ground arith, omega arith, inl refl))
]
  where
    doubled :
        (n j : ℕ)
        → ((suc i ≡ j) ⊎ (n < 2 * capacity))
        → 2 ^ i < capacity
        → n ≡ 2 ^ j
        → n < 2 * capacity
    doubled n j (inl e) l p = omega (arith, pow-suc 2 i, ap (λ k. 2 ^ k) e)
    doubled n j (inr e) l p = e

-- The values of `normalized` behind a capacity that is out of reach.
abbrev Shifted : ℕ → Type 0
Shifted n = (n ≡ 0) ⊎ ((i : ℕ) × (i ≤ 63) × (n ≡ 2 ^ i))

Shifted-le : (n : ℕ) → Shifted n → n ≤ 2 ^ 63
Shifted-le n (inl e) = omega arith
Shifted-le n (inr (i, h, e)) = omega (arith, pow-le i h)

Shifted-next : (n : ℕ) → Shifted n → Shifted (n * 2 % word)
Shifted-next n (inl e) = inl (omega arith)
Shifted-next n (inr (i, h, e)) = elim (dec_lt i 63) [
  | yes p ↦ inr (suc i, p, ap (λ k. k * 2 % word) e ∙ double i p)
  | no p ↦ inl (omega (arith, ap (λ k. 2 ^ k) (last p)))
]
  where
    last : ¬ (i < 63) → i ≡ 63
    last p = omega arith

grow-none : (fuel capacity n : ℕ) → 2 ^ 63 < capacity → Shifted n → grow fuel capacity n ≡ none
unfolding grow
grow-none zero capacity n c s = refl
grow-none (suc fuel) capacity n c s =
    rw (lt→ltb n capacity (omega (arith, Shifted-le n s)))
      (grow-none fuel capacity (n * 2 % word) c (Shifted-next n s))

pub two-le-pow : (j : ℕ) → 1 ≤ j → 2 ≤ 2 ^ j
two-le-pow j h = pow-le-pow_right {n = 2} (omega arith) {i = 1} {j = j} h

-- What `normalize_capacity` makes of the end of the loop.
rounded : (capacity n : ℕ) → Grown capacity 0 n → Normalized capacity (if ltb n 2 then 2 else n)
unfolding Grown
rounded capacity n (zero, e, h, r, s, u) = rw e (record {
  log = 1;
  power = refl;
  log_pos = omega arith;
  log_small = omega arith;
  enough = omega arith;
  least = inl refl;
})
rounded capacity n (suc j, e, h, r, s, u) =
    let big : 2 ≤ n = omega (arith, two-le-pow (suc j) (omega arith)) in
    let same : (if ltb n 2 then 2 else n) ≡ n = ground arith in
    rw same (record {
      log = suc j;
      power = e;
      log_pos = omega arith;
      log_small = h;
      enough = r;
      least = ground arith;
    })

-- A request of at most 2^63 is rounded within 64 rounds of the loop: to a power of two that is at
-- least the request and at least 2, and less than twice the request unless it is 2.
pub normalize_total :
    (fuel capacity : ℕ)
    → 64 ≤ fuel
    → capacity ≤ 2 ^ 63
    → (n : ℕ) × (normalize_capacity fuel capacity ≡ some n) × Normalized capacity n
unfolding normalize_capacity
normalize_total fuel capacity f c =
    let (n, e, g) = grow-Grown fuel capacity 0 c (omega arith) (omega arith) in
    ((if ltb n 2 then 2 else n), rw (e, normalize_capacity), rounded capacity n g)

-- A request above 2^63 is never reached: the loop shifts the bit out and goes on at 0.
pub normalize_diverges :
    (fuel capacity : ℕ) → 2 ^ 63 < capacity → normalize_capacity fuel capacity ≡ none
unfolding normalize_capacity
normalize_diverges fuel capacity c =
    rw (grow-none fuel capacity 1 c (inr (0, omega arith, refl)), normalize_capacity)
