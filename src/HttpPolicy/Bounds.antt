-- ===== src/HttpPolicy/Bounds.antt =====
-- src/core/httpPolicy.ts: the attempts of a request and their delays.
use hubspot_salesforce_conne.Prelude.{
  ℕ, zero, suc, ◌+◌, ◌-◌, ◌≤◌, ◌<◌, Bool, true, false, ◌≡◌, refl, Option, none, some, [], ◌∷◌,
  length, All, get_or, arith, Bool-cases, inl, inr, if◌then◌else◌,
}
use hubspot_salesforce_conne.HttpPolicy.{
  PolicyOptions, HttpError, foreign, failed, Sent, retry_delay, on_error, after_error,
  after_unauthorized, is_unauthorized, request,
}

abbrev pub limit : PolicyOptions → ℕ
limit opts = get_or opts.max_retries 5

retry_delay-bounded :
    (retry_after : Option ℕ) (attempt jitter : ℕ) → retry_delay retry_after attempt jitter ≤ 60000
unfolding retry_delay
retry_delay-bounded none attempt jitter = omega arith
retry_delay-bounded (some zero) attempt jitter = omega arith
retry_delay-bounded (some (suc n)) attempt jitter = omega arith

module _ (opts : PolicyOptions) where
  on_error-bounded :
      (error : HttpError) (attempt jitter delay : ℕ)
      → on_error opts error attempt jitter ≡ some delay
      → (delay ≤ 60000) × (attempt < limit opts)
  unfolding on_error
  on_error-bounded foreign attempt jitter delay h = absurd (ground (arith, h))
  on_error-bounded (failed status retry_after) attempt jitter delay h =
      (ground (arith, h, retry_delay-bounded retry_after attempt jitter), ground (arith, h))

module _ (opts : PolicyOptions) (answer : ℕ → Option HttpError) (renews : ℕ → Bool)
    (jitter : ℕ → ℕ) where
  -- a request that ends within bounds
  abbrev pub IsBounded : ℕ → Option Sent → Type 0
  IsBounded attempt outcome =
      (sent : Sent) × (outcome ≡ some sent)
      × (length sent.delays ≤ limit opts - attempt)
      × All (λ delay. delay ≤ 60000) sent.delays

  abbrev pub is_refused : Option HttpError → Bool
  is_refused none = false
  is_refused (some error) = is_unauthorized error

  -- how many of so many answers, from the nth on, have status 401
  unfoldable pub refused_among : (count n : ℕ) → ℕ
  refused_among zero n = 0
  refused_among (suc count) n =
      (if is_refused (answer n) then 1 else 0) + refused_among count (n + 1)

  request-from :
      (fuel n attempt : ℕ)
      → attempt ≤ limit opts
      → limit opts + refused_among fuel n < attempt + fuel
      → IsBounded attempt (request opts answer renews jitter fuel n attempt)
  unfolding request after_error after_unauthorized refused_among
  request-from zero n attempt h k = absurd (omega (arith, h, k))
  request-from (suc fuel) n attempt h k =
      by_answer (answer n) refl (λ e. request-from fuel (n + 1) attempt h (ground (arith, k, e)))
        λ more. request-from fuel (n + 1) (attempt + 1) (omega (arith, more)) (ground (arith, k))
    where
      Goal : Type 0
      Goal = IsBounded attempt (request opts answer renews jitter (suc fuel) n attempt)

      Again : Type 0
      Again =
          is_refused (answer n) ≡ true
          → IsBounded attempt (request opts answer renews jitter fuel (n + 1) attempt)

      Later : Type 0
      Later =
          attempt < limit opts
          → IsBounded (attempt + 1) (request opts answer renews jitter fuel (n + 1) (attempt + 1))

      by_delay :
          (error : HttpError) (d : Option ℕ)
          → answer n ≡ some error
          → is_unauthorized error ≡ false
          → on_error opts error attempt (jitter n) ≡ d
          → Later
          → Goal
      by_delay error none e u f later =
          (record { delays = []; succeeds = false }, ground (arith, e, u, f), omega arith, tt)
      by_delay error (some delay) e u f later =
          let (small, more) = on_error-bounded opts error attempt (jitter n) delay f in
          let (sent, g, short, bounded) = later more in
          (
            record sent { delays = delay ∷ sent.delays },
            ground (arith, e, u, f, g),
            omega (arith, short, more),
            (small, bounded),
          )

      by_token :
          (error : HttpError) (renewed : Bool)
          → answer n ≡ some error
          → is_unauthorized error ≡ true
          → renews n ≡ renewed
          → Again
          → Goal
      by_token error false e u f again =
          (record { delays = []; succeeds = false }, ground (arith, e, u, f), omega arith, tt)
      by_token error true e u f again =
          let (sent, g, short, bounded) = again (ground (arith, e, u)) in
          (sent, ground (arith, e, u, f, g), short, bounded)

      by_answer : (r : Option HttpError) → answer n ≡ r → Again → Later → Goal
      by_answer none e again later =
          (record { delays = []; succeeds = true }, ground (arith, e), omega arith, tt)
      by_answer (some error) e again later = elim (Bool-cases (is_unauthorized error)) [
        | inl refused ↦ by_token error _ e refused refl again
        | inr failing ↦ by_delay error _ e failing refl later
      ]

  -- If the answers of status 401 among the first `fuel` ones and the retries that are allowed are
  -- together fewer than `fuel`, a request ends within so many sendings, after as many delays as
  -- retries at most, each of a minute at most. Only retries of other failures are limited by the
  -- code; the answers of status 401 are so by this hypothesis.
  pub request-IsBounded :
      (fuel : ℕ)
      → limit opts + refused_among fuel 0 < fuel
      → IsBounded 0 (request opts answer renews jitter fuel 0 0)
  request-IsBounded fuel h = request-from fuel 0 0 (omega arith) (omega (arith, h))

  request_unending-from :
      ((n : ℕ) → is_refused (answer n) ≡ true)
      → ((n : ℕ) → renews n ≡ true)
      → (fuel n attempt : ℕ) → request opts answer renews jitter fuel n attempt ≡ none
  unfolding request after_unauthorized
  request_unending-from h k zero n attempt = refl
  request_unending-from h k (suc fuel) n attempt =
      by_answer (answer n) refl (h n) (request_unending-from h k fuel (n + 1) attempt)
    where
      by_answer :
          (r : Option HttpError)
          → answer n ≡ r
          → is_refused r ≡ true
          → request opts answer renews jitter fuel (n + 1) attempt ≡ none
          → request opts answer renews jitter (suc fuel) n attempt ≡ none
      by_answer none e refused rest = absurd (ground (arith, refused))
      by_answer (some error) e refused rest = ground (arith, e, refused, k n, rest)

  -- If every sending is answered with status 401 and a token is got each time, no number of
  -- sendings ends the request, whatever the limit of retries.
  pub request-unending :
      ((n : ℕ) → is_refused (answer n) ≡ true)
      → ((n : ℕ) → renews n ≡ true)
      → (fuel : ℕ) → request opts answer renews jitter fuel 0 0 ≡ none
  request-unending h k fuel = request_unending-from h k fuel 0 0
