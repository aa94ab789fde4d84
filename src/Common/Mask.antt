-- ===== src/Common/Mask.antt =====
-- `x & (c - 1)` at a power of two is the remainder by `c`.
use Prim.Native.Nat.{
  ℕ, zero, suc, ◌+◌, ◌-◌, ◌*◌, ◌/◌, ◌%◌, ◌^◌, ◌<◌, ◌≤◌, min, bit_and, digits, bit_and-bitwise,
}
use mathlib.Core.Path.{◌≡◌, refl, ap, ◌∙◌}
use native.Mathlib.Omega.{arith}
use mathlib.Core.Path.{subst}
use Prim.Native.Nat.{◌∣◌}
use native.Mathlib.Nat.{
  pow-le-pow_right, add-zero, add-suc, dvd_refl, dvd-mul_right_of_dvd, mod-mod_of_dvd, pow-suc,
  one-le-pow, div-add-mod, mul-add-mod_self_left, mod-eq_of_lt, mod-lt,
}

-- The walk over the binary digits that the native `&` stands for; any fuel from `a` on gives the
-- same.
abbrev walk : ℕ → ℕ → ℕ → ℕ
walk fuel a b = digits (λ d. 0) min fuel a b

walk-more : (a b fuel more : ℕ) → a ≤ fuel → walk (fuel + more) a b ≡ walk fuel a b
walk-more a b fuel more h = walk_any (fuel + more) fuel a b (omega arith) h
  where
    walk_any : (m n a b : ℕ) → a ≤ m → a ≤ n → walk m a b ≡ walk n a b
    walk_any zero zero a b p q = refl
    walk_any (suc m) zero zero b p q = refl
    walk_any (suc m) zero (suc a) b p q = absurd (omega arith)
    walk_any zero (suc n) zero b p q = refl
    walk_any zero (suc n) (suc a) b p q = absurd (omega arith)
    walk_any (suc m) (suc n) zero b p q = refl
    walk_any (suc m) (suc n) (suc a) b p q =
        omega (arith, walk_any m n (suc a / 2) (b / 2) (omega arith) (omega arith))

-- The lowest digit, and the others.
lowest_digit : (a b : ℕ) → bit_and a b ≡ 2 * bit_and (a / 2) (b / 2) + min (a % 2) (b % 2)
lowest_digit zero b = omega (arith, bit_and-bitwise 0 b, bit_and-bitwise 0 (b / 2))
lowest_digit (suc a) b = omega (
  arith,
  bit_and-bitwise (suc a) b,
  bit_and-bitwise (suc a / 2) (b / 2),
  walk-more (suc a / 2) (b / 2) (suc a / 2) (a - suc a / 2) (omega arith),
  ap (λ n. walk n (suc a / 2) (b / 2)) below,
)
  where
    below : suc a / 2 + (a - suc a / 2) ≡ a
    below = omega arith

bit_and-zero : (fuel a : ℕ) → a ≤ fuel → bit_and a 0 ≡ 0
bit_and-zero fuel zero h = refl
bit_and-zero zero (suc a) h = absurd (omega arith)
bit_and-zero (suc fuel) (suc a) h =
    omega (arith, lowest_digit (suc a) 0, bit_and-zero fuel (suc a / 2) (omega arith))

mod-double : (a p : ℕ) → 0 < p → a % (p * 2) ≡ 2 * (a / 2 % p) + a % 2
mod-double a p h =
    ap (λ n. n % (p * 2)) split
    ∙ mul-add-mod_self_left (p * 2) (a / 2 / p) (2 * (a / 2 % p) + a % 2)
    ∙ mod-eq_of_lt (omega (arith, mod-lt (a / 2) h))
  where
    split : a ≡ p * 2 * (a / 2 / p) + (2 * (a / 2 % p) + a % 2)
    split = omega (arith, div-add-mod (a / 2) p)

pub bit_and_mask : (k a : ℕ) → bit_and a (2 ^ k - 1) ≡ a % 2 ^ k
bit_and_mask zero a = bit_and-zero a a (omega arith) ∙ omega arith
bit_and_mask (suc k) a = omega (
  arith,
  lowest_digit a (2 ^ suc k - 1),
  pow-suc 2 k,
  one-le-pow k 2,
  bit_and_mask k (a / 2),
  mod-double a (2 ^ k) (one-le-pow k 2 (omega arith)),
  ap (λ b. bit_and (a / 2) b) half,
  ap (λ b. a % b) (pow-suc 2 k),
)
  where
    half : (2 ^ suc k - 1) / 2 ≡ 2 ^ k - 1
    half = omega (arith, pow-suc 2 k, one-le-pow k 2)

pow-dvd-pow : (k d : ℕ) → 2 ^ k ∣ 2 ^ (k + d)
pow-dvd-pow k zero = rw add-zero (dvd_refl (2 ^ k))
pow-dvd-pow k (suc d) = rw (add-suc, pow-suc) (dvd-mul_right_of_dvd (2 ^ k) (pow-dvd-pow k d) 2)

-- The slot of a position that a 64-bit counter has counted round: the wrap does not move it.
pub bit_and_position : (k p : ℕ) → k ≤ 63 → bit_and (p % 2 ^ 64) (2 ^ k - 1) ≡ p % 2 ^ k
bit_and_position k p h =
    bit_and_mask k (p % 2 ^ 64)
    ∙ mod-mod_of_dvd (2 ^ k) p (
        subst (λ n. 2 ^ k ∣ 2 ^ n) {x = k + (64 - k)} {y = 64} (omega arith)
          (pow-dvd-pow k (64 - k)))

-- A capacity `2 ^ k` with `k ≤ 63`.
pub size-le : (k : ℕ) → k ≤ 63 → 2 ^ k ≤ 2 ^ 63
size-le k h = pow-le-pow_right (omega arith) h

pub size-pos : (k : ℕ) → 0 < 2 ^ k
size-pos k = one-le-pow k 2 (omega arith)
