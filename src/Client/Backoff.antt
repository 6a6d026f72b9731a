-- ===== src/Client/Backoff.antt =====
-- The delay between two attempts of the running tunnel in packages/client/src/effect/tunnel.ts.
use shuvtunnel.Common.{
  ℕ, zero, suc, ◌+◌, ◌*◌, ◌/◌, ◌^◌, ◌≤◌, ◌<◌, ◌≡◌, refl, min, arith, leb, if◌then◌else◌,
}
use native.Mathlib.Numerals.{towards_suc}
use shuvtunnel.Client.{backoff_base, backoff}

-- A random factor between one half and one keeps the rounded delay between half the base and the base.
scaled_bounds :
    (base random : ℕ)
    → random < 2 ^ 53
    → (base / 2 ≤ (base * (2 ^ 53 + random) + 2 ^ 53) / 2 ^ 54)
      × ((base * (2 ^ 53 + random) + 2 ^ 53) / 2 ^ 54 ≤ base)
scaled_bounds base random h = grind arith

power-pos : (n : ℕ) → 1 ≤ 2 ^ n
power-pos zero = omega arith
power-pos (suc n) = omega (arith, power-pos n)

power_large : (n : ℕ) → 128 ≤ 2 ^ (n + 7)
power_large n =
    let e : 2 ^ (n + 7) ≡ 128 * 2 ^ n = simp towards_suc (omega arith) in
    omega (arith, e, power-pos n)

base_large : (n : ℕ) → backoff_base (n + 7) ≡ 30000
unfolding backoff_base
base_large n =
    let e : min (n + 7) 16 ≡ min n 9 + 7 = omega arith in
    rw e (omega (arith, power_large (min n 9)))

base_doubles :
    (attempt : ℕ) → backoff_base attempt ≡ (if leb attempt 6 then 250 * 2 ^ attempt else 30000)
unfolding backoff_base
base_doubles zero = refl
base_doubles (suc zero) = refl
base_doubles (suc (suc zero)) = refl
base_doubles (suc (suc (suc zero))) = refl
base_doubles (suc (suc (suc (suc zero)))) = refl
base_doubles (suc (suc (suc (suc (suc zero))))) = refl
base_doubles (suc (suc (suc (suc (suc (suc zero)))))) = refl
base_doubles (suc (suc (suc (suc (suc (suc (suc n))))))) =
    let e : suc (suc (suc (suc (suc (suc (suc n)))))) ≡ n + 7 = omega arith in
    let large : backoff_base (suc (suc (suc (suc (suc (suc (suc n))))))) ≡ 30000 =
      rw e (base_large n) in
    ground (arith, large)

base_bounds : (attempt : ℕ) → (250 ≤ backoff_base attempt) × (backoff_base attempt ≤ 30000)
unfolding backoff_base
base_bounds attempt = omega (arith, power-pos (min attempt 16))

-- Let the random draw be below 1. Then the base is 250 milliseconds times 2 to the attempt up to
-- attempt 6, and 30000 from there on, and the delay is from half the base to the base, and from
-- 125 to 30000.
pub backoff_bounds :
    (random attempt : ℕ)
    → random < 2 ^ 53
    → (backoff_base attempt ≡ (if leb attempt 6 then 250 * 2 ^ attempt else 30000))
      × (backoff_base attempt / 2 ≤ backoff random attempt)
      × (backoff random attempt ≤ backoff_base attempt)
      × (125 ≤ backoff random attempt)
      × (backoff random attempt ≤ 30000)
unfolding backoff
backoff_bounds random attempt h =
    let (low, high) = scaled_bounds (backoff_base attempt) random h in
    let (least, most) = base_bounds attempt in
    (base_doubles attempt, low, high, omega arith, omega arith)
