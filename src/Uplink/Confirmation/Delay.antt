-- ===== src/Uplink/Confirmation/Delay.antt =====
-- The back-off delay.
use ground_core.Common.Tests.{ℕ, zero, suc, ◌*◌, ◌≤◌, ◌<◌, ◌≡◌, refl, arith, min}
use ground_core.Uplink.Confirmation.{retry_delay}

saturated : (n : ℕ) → 6 ≤ n → retry_delay n ≡ 64000
unfolding retry_delay
saturated n h = let e : min n 6 ≡ 6 = omega arith in rw e

-- The delay starts at one second, doubles with each of the first six retries, and stays at 64
-- seconds from then on; so it never exceeds 64 seconds.
retry_delay_lem :
    (n : ℕ)
    → (retry_delay 0 ≡ 1000)
      × (n < 6 → retry_delay (suc n) ≡ 2 * retry_delay n)
      × (6 ≤ n → retry_delay n ≡ 64000)
      × (retry_delay n ≤ 64000)
unfolding retry_delay
retry_delay_lem zero = ground arith
retry_delay_lem (suc zero) = ground arith
retry_delay_lem (suc (suc zero)) = ground arith
retry_delay_lem (suc (suc (suc zero))) = ground arith
retry_delay_lem (suc (suc (suc (suc zero)))) = ground arith
retry_delay_lem (suc (suc (suc (suc (suc zero))))) = ground arith
retry_delay_lem (suc (suc (suc (suc (suc (suc n)))))) =
    let e = saturated (suc (suc (suc (suc (suc (suc n)))))) (omega arith) in
    (refl, λ h. absurd (omega arith), λ h. e, rw e (omega arith))
