-- ===== src/Engine/Backoff.antt =====
-- src/engine/syncEngine.ts: the delay before a retry.
use hubspot_salesforce_conne.Prelude.{ℕ, suc, ◌-◌, ◌*◌, ◌^◌, ap, ◌≤◌, min, ◌≡◌, refl, arith}
use native.Mathlib.Nat.{pow-suc, one-le-pow}
use hubspot_salesforce_conne.Engine.{backoff}

-- A retry is scheduled at least half a second and at most a minute ahead.
pub backoff_bounds : (attempts : ℕ) → (500 ≤ backoff attempts) × (backoff attempts ≤ 60000)
unfolding backoff
backoff_bounds attempts = omega (arith, one-le-pow (attempts - 1) 2)

-- The first retry waits half a second, and each further one twice as long as the one before it, up
-- to a minute.
pub backoff_doubles :
    (n : ℕ) → (backoff 1 ≡ 500) × (backoff (suc (suc n)) ≡ min 60000 (2 * backoff (suc n)))
unfolding backoff
backoff_doubles n =
    let e : suc (suc n) - 1 ≡ suc n = omega arith in
    let f : suc n - 1 ≡ n = omega arith in
    (refl, omega (arith, pow-suc 2 n, ap (λ (k : ℕ). 2 ^ k) e, ap (λ (k : ℕ). 2 ^ k) f))
