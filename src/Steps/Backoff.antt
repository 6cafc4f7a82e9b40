-- ===== src/Steps/Backoff.antt =====
-- When a failed room is tried again: `retry_delay` of puna-orchestrator/src/steps.rs, in seconds. The
-- counts are at least 0, so the divisions of `i64` are those of the natural numbers.
use puna.Common.{
  ℕ, zero, suc, ◌+◌, ◌-◌, ◌*◌, ◌/◌, ◌%◌, ◌^◌, ◌≤◌, ◌<◌, ◌≡◌, refl, ◌⊎◌, inl, inr, arith, min, max,
  ap,
}

-- `failure_count.clamp(1, 8) - 1`.
abbrev pub exponent : ℕ → ℕ
exponent failure_count = min (max failure_count 1) 8 - 1

-- `BASE_SECS << exponent`, capped.
unfoldable pub base_delay : ℕ → ℕ
base_delay failure_count = min (15 * 2 ^ exponent failure_count) 600

-- The last byte of the id.
abbrev pub last_byte : ℕ → ℕ
last_byte room = room % 256

-- `base + jitter`, with the jitter's subtraction made last: the sum never falls below 0.
unfoldable pub retry_delay : ℕ → ℕ → ℕ
unfolding base_delay
retry_delay failure_count room =
    let base = base_delay failure_count in
    let spread = base * 2 / 5 in base + spread * last_byte room / 255 - spread / 2

exponent-capped : (n : ℕ) → exponent (suc (suc (suc (suc (suc (suc (suc (suc n)))))))) ≡ 7
exponent-capped n = omega arith

-- The delay before the jitter takes eight values.
base_delay_cases :
    (n : ℕ)
    → (base_delay n ≡ 15)
      ⊎ (base_delay n ≡ 30)
      ⊎ (base_delay n ≡ 60)
      ⊎ (base_delay n ≡ 120)
      ⊎ (base_delay n ≡ 240)
      ⊎ (base_delay n ≡ 480)
      ⊎ (base_delay n ≡ 600)
unfolding base_delay
base_delay_cases zero = inl refl
base_delay_cases (suc zero) = inl refl
base_delay_cases (suc (suc zero)) = ground arith
base_delay_cases (suc (suc (suc zero))) = ground arith
base_delay_cases (suc (suc (suc (suc zero)))) = ground arith
base_delay_cases (suc (suc (suc (suc (suc zero))))) = ground arith
base_delay_cases (suc (suc (suc (suc (suc (suc zero)))))) = ground arith
base_delay_cases (suc (suc (suc (suc (suc (suc (suc zero))))))) = ground arith
base_delay_cases (suc (suc (suc (suc (suc (suc (suc (suc n)))))))) =
    inr (inr (inr (inr (inr (inr (ap (λ e. min (15 * 2 ^ e) 600) (exponent-capped n)))))))

-- The value of the delay before the jitter bounds the delay after it.
jitter_bounds :
    (base b : ℕ)
    → (base ≡ 15)
      ⊎ (base ≡ 30)
      ⊎ (base ≡ 60)
      ⊎ (base ≡ 120)
      ⊎ (base ≡ 240)
      ⊎ (base ≡ 480)
      ⊎ (base ≡ 600)
    → b < 256
    → (base * 4 ≤ (base + base * 2 / 5 * b / 255 - base * 2 / 5 / 2) * 5)
      × ((base + base * 2 / 5 * b / 255 - base * 2 / 5 / 2) * 5 ≤ base * 6)
jitter_bounds base b (inl e) h = rw (e) (omega arith, omega arith)
jitter_bounds base b (inr (inl e)) h = rw (e) (omega arith, omega arith)
jitter_bounds base b (inr (inr (inl e))) h = rw (e) (omega arith, omega arith)
jitter_bounds base b (inr (inr (inr (inl e)))) h = rw (e) (omega arith, omega arith)
jitter_bounds base b (inr (inr (inr (inr (inl e))))) h = rw (e) (omega arith, omega arith)
jitter_bounds base b (inr (inr (inr (inr (inr (inl e)))))) h = rw (e) (omega arith, omega arith)
jitter_bounds base b (inr (inr (inr (inr (inr (inr e)))))) h = rw (e) (omega arith, omega arith)

base_delay-range : (n : ℕ) → (15 ≤ base_delay n) × (base_delay n ≤ 600)
base_delay-range n = let cases = base_delay_cases n in (omega arith, omega arith)

-- The wait after any number of failures, of a room with any id, is within a fifth of the delay
-- before the jitter, and that delay lies between 15 seconds and ten minutes. So the wait lasts at
-- least 12 seconds and at most 12 minutes.
pub retry_delay_bounds :
    (failure_count room : ℕ)
    → (base_delay failure_count * 4 ≤ retry_delay failure_count room * 5)
      × (retry_delay failure_count room * 5 ≤ base_delay failure_count * 6)
      × (15 ≤ base_delay failure_count)
      × (base_delay failure_count ≤ 600)
      × (12 ≤ retry_delay failure_count room)
      × (retry_delay failure_count room ≤ 720)
unfolding retry_delay
retry_delay_bounds n room =
    let jitter = jitter_bounds (base_delay n) (last_byte room) (base_delay_cases n) (omega arith) in
    let range = base_delay-range n in
    (jitter.0, jitter.1, range.0, range.1, omega arith, omega arith)
