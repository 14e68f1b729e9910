-- ===== src/Http/Retry/Delays.antt =====
-- The wait before a retry.
use Prim.Native.Nat.{min}
use native.Mathlib.Nat.{
  div-add-mod, mod-lt, mul-le-mul_right, le_of_mul-le-mul_right, lt_of_mul-lt-mul_right,
}
use enterprise_platform.Common.{ℕ, zero, suc, ◌%◌, ◌+◌, ◌-◌, ◌*◌, ◌/◌, ◌^◌, ◌≤◌, ◌<◌, ◌≡◌, arith}
use enterprise_platform.Http.Retry.{base_delay, compute_delay_ms}

jitter_bounds :
    (base r d : ℕ)
    → 0 < d
    → r < d
    → (3 * base < 4 * ((base * (3 * d + 2 * r) + 2 * d) / (4 * d)) + 2)
      × (4 * ((base * (3 * d + 2 * r) + 2 * d) / (4 * d)) ≤ 5 * base + 2)
jitter_bounds base r d pos lt =
    let n = base * (3 * d + 2 * r) + 2 * d in
    let q = n / (4 * d) in
    let below : base * r ≤ base * d = grind arith in
    let split : (4 * d) * q + n % (4 * d) ≡ n = div-add-mod n (4 * d) in
    let small : n % (4 * d) < 4 * d = mod-lt n (omega arith) in
    (
      lt_of_mul-lt-mul_right d {m = 3 * base} {n = 4 * q + 2} (omega arith),
      le_of_mul-le-mul_right {m = 4 * q} {n = 5 * base + 2} {k = d} (omega arith) pos,
    )

exponent_cap : (e : ℕ) → e < 6 → 2 ^ e ≤ 32
exponent_cap zero h = omega arith
exponent_cap (suc zero) h = omega arith
exponent_cap (suc (suc zero)) h = omega arith
exponent_cap (suc (suc (suc zero))) h = omega arith
exponent_cap (suc (suc (suc (suc zero)))) h = omega arith
exponent_cap (suc (suc (suc (suc (suc zero))))) h = omega arith
exponent_cap (suc (suc (suc (suc (suc (suc e)))))) h = absurd (omega arith)

base_delay-le : (attempt base_ms : ℕ) → base_delay attempt base_ms ≤ 32 * base_ms
unfolding base_delay
base_delay-le attempt base_ms =
    let cap = exponent_cap (min attempt 6 - 1) (omega arith) in mul-le-mul_right base_ms cap

-- For a random number from 0 up to and without 1 the wait is the base delay, up to a quarter more
-- or less and the rounding; the base delay doubles with each attempt up to the sixth and then
-- stays, so it is at most 32 times the configured one.
pub compute_delay_ms_bounds :
    (attempt base_ms r d : ℕ)
    → 0 < d
    → r < d
    → (3 * base_delay attempt base_ms < 4 * compute_delay_ms attempt base_ms r d + 2)
      × (4 * compute_delay_ms attempt base_ms r d ≤ 5 * base_delay attempt base_ms + 2)
      × (base_delay attempt base_ms ≤ 32 * base_ms)
unfolding compute_delay_ms
compute_delay_ms_bounds attempt base_ms r d pos lt =
    let (above, below) = jitter_bounds (base_delay attempt base_ms) r d pos lt in
    (above, below, base_delay-le attempt base_ms)
