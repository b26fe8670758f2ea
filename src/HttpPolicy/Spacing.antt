-- ===== src/HttpPolicy/Spacing.antt =====
-- src/core/rateLimiter.ts: the time between requests.
use hubspot_salesforce_conne.Prelude.{ℕ, ◌+◌, ◌≤◌, max, List, [], ◌∷◌, All, arith}
use hubspot_salesforce_conne.HttpPolicy.{acquire, acquire_all}

-- each instant is an interval or more after every one before
abbrev pub AreSpaced : List ℕ → Type 0
AreSpaced [] = Unit
AreSpaced (at ∷ later) = All (λ t. at + 1000 ≤ t) later × AreSpaced later

All-weaker : (a b : ℕ) (ts : List ℕ) → a ≤ b → All (λ t. b ≤ t) ts → All (λ t. a ≤ t) ts
All-weaker a b [] h k = tt
All-weaker a b (t ∷ ts) h (p, k) = (omega (arith, h, p), All-weaker a b ts h k)

acquire_all-after : (nows : List ℕ) (next : ℕ) → All (λ t. next ≤ t) (acquire_all nows next)
unfolding acquire_all acquire
acquire_all-after [] next = tt
acquire_all-after (now ∷ later) next = (
  omega arith,
  All-weaker next (max now next + 1000) (acquire_all later (max now next + 1000)) (omega arith)
      (acquire_all-after later (max now next + 1000)),
)

-- Whatever the instants of the calls are, in order or not, any two requests that the limiter lets
-- through are an interval apart at least.
pub acquire_all-AreSpaced : (nows : List ℕ) (next : ℕ) → AreSpaced (acquire_all nows next)
unfolding acquire_all acquire
acquire_all-AreSpaced [] next = tt
acquire_all-AreSpaced (now ∷ later) next = (
  acquire_all-after later (max now next + 1000),
  acquire_all-AreSpaced later (max now next + 1000),
)
