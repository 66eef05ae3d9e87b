-- ===== src/Backoff.antt =====
-- The retry delay of every queue: `connectorRetryDelayMs` of
-- apps/worker-maintenance/src/connector-inbox.ts, and the same expression where deletion.ts,
-- artifact-cleanup.ts and alert-delivery.ts of that folder and apps/worker-proof/src/index.ts
-- write it out. `attempts - 1` stops at 0, as `Math.max(0, attempts - 1)` does.
use native.Mathlib.Nat.{pow-suc, one-le-pow}
use personalisation_kings.Base.{ℕ, zero, suc, ◌-◌, ◌*◌, ◌^◌, ◌≤◌, ◌≡◌, min, arith}

unfoldable pub retry_delay_ms : ℕ → ℕ
retry_delay_ms attempts = min (15 * 60000) (15000 * 2 ^ (attempts - 1))

-- A delay lies between 15 seconds and 15 minutes, and does not fall from one attempt to the next.
pub retry_delay_bounds :
    (attempts : ℕ)
    → (15000 ≤ retry_delay_ms attempts)
      × (retry_delay_ms attempts ≤ 900000)
      × (retry_delay_ms attempts ≤ retry_delay_ms (suc attempts))
unfolding retry_delay_ms
retry_delay_bounds zero = omega arith
retry_delay_bounds (suc n) =
    let e : suc n - 1 ≡ n = omega arith in
    let f : suc (suc n) - 1 ≡ suc n = omega arith in
    rw (e, f) (omega (arith, pow-suc 2 n, one-le-pow n 2 (omega arith)))
