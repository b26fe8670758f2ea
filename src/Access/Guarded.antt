-- ===== src/Access/Guarded.antt =====
-- src/security/access.ts: what a request that gets through has shown.
use hubspot_salesforce_conne.Prelude.{
  ◌≤◌, String, true, ◌≡◌, refl, Option, none, some, ◌==◌, arith, Bool-cases, inl, inr,
}
use hubspot_salesforce_conne.Exec.{Exec, Result, ok, err, bind_ok, pure, and_then, ◌>>=◌}
use hubspot_salesforce_conne.Access.{
  Role, level, AuthContext, VerifiedKey, Request, Step, next, verify_token, step_for, authenticate,
  require_role,
}

module _ {W : Type 0} (verify : Option (String → Exec W (Option VerifiedKey)))
    (token_of : Request → Result (Option String)) (minimum : Role) where
  -- the key that a request has shown
  abbrev pub IsShown : Request → AuthContext → W → W → Type 0
  IsShown req auth w w' =
      (f : String → Exec W (Option VerifiedKey)) × (token : String) × (key : VerifiedKey) × (verify
        ≡ some f)
      × (token_of req ≡ ok (some token))
      × (f token w ≡ (ok (some key), w'))
      × (auth.role ≡ key.role)
      × (level minimum ≤ level key.role)

  -- a key that was found, for a token
  IsKnown : Option String → Option VerifiedKey → W → W → Type 0
  IsKnown token none w w' = Unit
  IsKnown token (some key) w w' =
      (f : String → Exec W (Option VerifiedKey)) × (t : String) × (verify ≡ some f)
      × (token ≡ some t)
      × (f t w ≡ (ok (some key), w'))

  verify_token-IsKnown :
      (token : Option String) (found : Option VerifiedKey) (w w' : W)
      → verify_token verify token w ≡ (ok found, w')
      → IsKnown token found w w'
  unfolding verify_token IsKnown
  verify_token-IsKnown token none w w' h = tt
  verify_token-IsKnown none (some key) w w' h = absurd (ground (arith, h))
  verify_token-IsKnown (some token) (some key) w w' h = by_repository verify refl
    where
      by_repository :
          (r : Option (String → Exec W (Option VerifiedKey)))
          → verify ≡ r
          → IsKnown (some token) (some key) w w'
      by_repository none e =
          let g : (ok none, w) ≡ (ok (some key), w') = rw e at h in absurd (ground (arith, g))
      by_repository (some f) e = elim (Bool-cases (token == "")) [
        | inl empty ↦
            let g : (ok none, w) ≡ (ok (some key), w') = rw (e, empty) at h in
            absurd (ground (arith, g))
        | inr there ↦
            let g : f token w ≡ (ok (some key), w') = rw (e, there) at h in (f, token, e, refl, g)
      ]

  after_token :
      (req : Request) (auth : AuthContext) (token : Option String) (w w' : W) (step : Step)
      → token_of req ≡ ok token
      → (verify_token verify token >>= λ verified. pure (step_for verify verified)) w
        ≡ (ok step, w')
      → require_role minimum step ≡ next auth
      → IsShown req auth w w'
  unfolding require_role step_for IsKnown
  after_token req auth token w w' step e h g =
      let (found, t, checked, done) =
        bind_ok (verify_token verify token) (λ verified. pure (step_for verify verified)) w w' step
          h in
      by_key found t (verify_token-IsKnown token found w t checked) done
    where
      by_key :
          (found : Option VerifiedKey) (t : W)
          → IsKnown token found w t
          → pure (step_for verify found) t ≡ (ok step, w')
          → IsShown req auth w w'
      by_key none t known done = absurd (ground (arith, done, g))
      by_key (some key) t (f, text, is, shown, found) done = (
        f,
        text,
        key,
        is,
        ground (arith, e, shown),
        ground (arith, found, done),
        ground (arith, done, g),
        ground (arith, done, g),
      )

  -- Where keys are required, a request that gets through `authenticate` and `requireRole` has shown
  -- a token that the repository knows, and acts in the role of that key, which is the minimum or a
  -- higher one.
  pub require_role-authenticate :
      (req : Request) (auth : AuthContext) (w w' : W) (step : Step)
      → authenticate verify true token_of req w ≡ (ok step, w')
      → require_role minimum step ≡ next auth
      → IsShown req auth w w'
  unfolding authenticate
  require_role-authenticate req auth w w' step h g = by_token (token_of req) refl h
    where
      by_token :
          (r : Result (Option String))
          → token_of req ≡ r
          → and_then r
              (λ token. verify_token verify token >>= λ verified. pure (step_for verify verified))
              w
            ≡ (ok step, w')
          → IsShown req auth w w'
      by_token (err f) e k = absurd (ground (arith, k))
      by_token (ok token) e k = after_token req auth token w w' step e k g
