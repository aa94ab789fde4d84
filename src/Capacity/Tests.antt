-- ===== src/Capacity/Tests.antt =====
-- `normalize_capacity` at concrete requests, and the theorems of `Capacity` at them.
use yutil.Common.{ℕ, ◌+◌, ◌^◌, ◌≡◌, refl, some, none, arith}
use yutil.Capacity.{grow, normalize_capacity, Normalized, normalize_total, normalize_diverges}

none_requested : normalize_capacity 64 0 ≡ some 2
unfolding normalize_capacity grow
none_requested = refl

five_requested : normalize_capacity 64 5 ≡ some 8
unfolding normalize_capacity grow
five_requested = refl

largest_requested : normalize_capacity 64 (2 ^ 63) ≡ some (2 ^ 63)
unfolding normalize_capacity grow
largest_requested = refl

normalize_total_example : (n : ℕ) × (normalize_capacity 64 5 ≡ some n) × Normalized 5 n
normalize_total_example = normalize_total 64 5 (omega arith) (omega arith)

normalize_diverges_example : normalize_capacity 1000 (2 ^ 63 + 1) ≡ none
normalize_diverges_example = normalize_diverges 1000 (2 ^ 63 + 1) (omega arith)
