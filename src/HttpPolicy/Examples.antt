-- ===== src/HttpPolicy/Examples.antt =====
-- src/core/httpPolicy.ts, src/core/rateLimiter.ts: requests to a busy server.
use hubspot_salesforce_conne.Prelude.{
  ℕ, zero, suc, Bool, true, false, ◌≡◌, refl, Option, none, some, [], ◌∷◌, arith,
}
use hubspot_salesforce_conne.HttpPolicy.{
  PolicyOptions, HttpError, failed, request, on_error, retry_delay, acquire_all, acquire,
}
use hubspot_salesforce_conne.HttpPolicy.Bounds.{
  IsBounded, refused_among, request-IsBounded, request-unending,
}
use hubspot_salesforce_conne.HttpPolicy.Spacing.{AreSpaced, acquire_all-AreSpaced}

abbrev options : PolicyOptions
options = record { requests_per_second = 10; max_retries = some 2 }

-- a token that is not valid any more, and then too many requests
abbrev busy : ℕ → Option HttpError
busy zero = some (failed (some 401) none)
busy (suc n) = some (failed (some 429) none)

abbrev renews : ℕ → Bool
renews n = true

abbrev jitter : ℕ → ℕ
jitter n = 7

gives_up :
    request options busy renews jitter 4 0 0
    ≡ some (record { delays = 507 ∷ 1007 ∷ []; succeeds = false })
unfolding request on_error retry_delay
gives_up = refl

request-IsBounded_example :
    IsBounded options busy renews jitter 0 (request options busy renews jitter 4 0 0)
unfolding refused_among
request-IsBounded_example = request-IsBounded options busy renews jitter 4 (omega arith)

-- a token that is refused each time
abbrev refusing : ℕ → Option HttpError
refusing n = some (failed (some 401) none)

request-unending_example : request options refusing renews jitter 6 0 0 ≡ none
request-unending_example = request-unending options refusing renews jitter (λ n. refl) (λ n. refl) 6

waits : acquire_all (0 ∷ 200 ∷ 5000 ∷ []) 0 ≡ 0 ∷ 1000 ∷ 5000 ∷ []
unfolding acquire_all acquire
waits = refl

acquire_all-AreSpaced_example : AreSpaced (acquire_all (0 ∷ 200 ∷ 5000 ∷ []) 0)
acquire_all-AreSpaced_example = acquire_all-AreSpaced (0 ∷ 200 ∷ 5000 ∷ []) 0
