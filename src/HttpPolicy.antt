-- ===== src/HttpPolicy.antt =====
-- src/core/httpPolicy.ts and src/core/rateLimiter.ts, with the interceptors of status 401 of the two
-- connectors: when a request is sent, and when it is sent again. The limiter is modelled by the
-- instants that it gives out; the timer that waits for them is left out. Its instants are in parts
-- of a millisecond, as many as there are requests per second, so that the interval between two
-- requests, `1000 / requestsPerSecond`, is 1000 parts.
pub mod Bounds
pub mod Spacing
pub mod Examples
use hubspot_salesforce_conne.Prelude.{
  ℕ, zero, suc, ◌+◌, ◌-◌, ◌*◌, ◌^◌, min, max, Bool, true, false, not, ◌&&◌, Option, none, some,
  List, [], ◌∷◌, if◌then◌else◌, leb, ltb, nat_eq, get_or, map_option,
}

-- how a request fails: the status of the answer, if there was one, and `Number(retry-after) * 1000`
-- where that is a whole number of milliseconds; `foreign` for an error that is not of axios or has
-- no request
pub data HttpError : Type 0 where
  foreign : HttpError
  failed : Option ℕ → Option ℕ → HttpError

pub record PolicyOptions : Type 0 where
  pub requests_per_second : ℕ
  pub max_retries : Option ℕ

-- `jitter` is `Math.floor(Math.random() * 250)`
unfoldable pub retry_delay : Option ℕ → (attempt jitter : ℕ) → ℕ
retry_delay (some (suc milliseconds)) attempt jitter = min 60000 (suc milliseconds)
retry_delay _ attempt jitter = min 30000 (500 * 2 ^ attempt + jitter)

-- the interceptor of errors: the delay before the next attempt, or that the error is thrown
unfoldable pub on_error : PolicyOptions → HttpError → (attempt jitter : ℕ) → Option ℕ
unfolding retry_delay
on_error opts foreign attempt jitter = none
on_error opts (failed status retry_after) attempt jitter =
    if not (nat_eq (get_or status 0) 429) && ltb (get_or status 0) 500
    then none
    else if leb (get_or opts.max_retries 5) attempt
    then none
    else some (retry_delay retry_after attempt jitter)

-- the delays before the attempts that follow one, and whether the last of them succeeded
pub record Sent : Type 0 where
  pub delays : List ℕ
  pub succeeds : Bool

abbrev delayed : ℕ → Sent → Sent
delayed delay sent = record sent { delays = delay ∷ sent.delays }

-- `error.response?.status === 401`
abbrev pub is_unauthorized : HttpError → Bool
is_unauthorized foreign = false
is_unauthorized (failed status retry_after) = nat_eq (get_or status 0) 401

-- A request of a connector, whose client has the interceptors of `installHttpPolicy` and then its
-- own, which renews the token on status 401 and sends the request again without a limit: `answer n`
-- is the failure of the nth sending, if it fails, and `renews n` whether a token is got after it
-- (the error of a renewal that fails is taken not to have status 401 itself). The config of a
-- request keeps the count of attempts, `crmRetryCount`. `none` means that the fuel ran out.
module _ (opts : PolicyOptions) (answer : ℕ → Option HttpError) (renews : ℕ → Bool)
    (jitter : ℕ → ℕ) where
  after_error : Option ℕ → Option Sent → Option Sent
  after_error none rest = some (record { delays = []; succeeds = false })
  after_error (some delay) rest = map_option (delayed delay) rest

  -- the interceptor of the connector
  unfoldable pub after_unauthorized : Bool → Option Sent → Option Sent
  after_unauthorized renewed again =
      if renewed then again else some (record { delays = []; succeeds = false })

  unfoldable pub request : (fuel : ℕ) → (n attempt : ℕ) → Option Sent
  unfolding after_error after_unauthorized on_error
  request zero n attempt = none
  request (suc fuel) n attempt =
      let again = request fuel (n + 1) attempt in
      let rest = request fuel (n + 1) (attempt + 1) in
      elim (answer n) [
        | none ↦ some (record { delays = []; succeeds = true })
        | some error ↦
            if is_unauthorized error
            then after_unauthorized (renews n) again
            else after_error (on_error opts error attempt (jitter n)) rest
      ]

-- `acquire`: when the request may be sent, and the next instant that is free
unfoldable pub acquire : (now next_available_at : ℕ) → ℕ × ℕ
acquire now next_available_at = let at = max now next_available_at in (at, at + 1000)

-- a sequence of calls of `acquire` at some instants
unfoldable pub acquire_all : List ℕ → ℕ → List ℕ
unfolding acquire
acquire_all [] next_available_at = []
acquire_all (now ∷ later) next_available_at =
    let (at, next) = acquire now next_available_at in at ∷ acquire_all later next
