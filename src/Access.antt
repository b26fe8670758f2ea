-- ===== src/Access.antt =====
-- src/security/access.ts and src/security/originPolicy.ts: who may call the API, and from where.
pub mod Guarded
pub mod Examples
use hubspot_salesforce_conne.Prelude.{
  ℕ, String, Bool, true, false, not, ◌||◌, Option, none, some, List, [], ◌∷◌, ◌++◌, ◌==◌,
  if◌then◌else◌, ltb, concat, join, contains, get_or, or_else, bind_option,
}
use hubspot_salesforce_conne.Prelude.Text.{split_at}
use hubspot_salesforce_conne.Exec.{Exec, Result, ok, err, pure, ◌>>=◌, and_then}

pub data Role : Type 0 where
  viewer operator admin owner : Role

abbrev pub level : Role → ℕ
level viewer = 1
level operator = 2
level admin = 3
level owner = 4

pub record AuthContext : Type 0 where
  pub actor_id : String
  pub role : Role

-- an API key that `repository.verify` knows
pub record VerifiedKey : Type 0 where
  pub id : String
  pub role : Role

-- the headers of a request that are read
pub record Request : Type 0 where
  pub authorization : Option String
  pub cookie : Option String

-- what a middleware does: it answers with a status, or calls `next`
pub data Step : Type 0 where
  answered : ℕ → Step
  next : AuthContext → Step

-- `bearer` is the group of /^Bearer\s+(.+)$/i, `trim` and `decode` are the runtime's, where
-- `decodeURIComponent` may throw.
module _ (trim : String → String) (decode : String → Result String) where
  named_value : String → List String → Option String
  named_value name [] = none
  named_value name (key ∷ value) = if key == name then some (join "=" value) else none

  -- the loop of `cookie`
  unfoldable pub cookie_among : String → List String → Result (Option String)
  unfolding named_value
  cookie_among name [] = ok none
  cookie_among name (part ∷ parts) =
      let rest = cookie_among name parts in
      elim (named_value name (split_at 61 (trim part))) [
        | none ↦ rest
        | some value ↦ (elim (decode value) [ err e ↦ err e | ok text ↦ ok (some text) ])
      ]

  unfoldable pub cookie : Option String → String → Result (Option String)
  unfolding cookie_among
  cookie none name = ok none
  cookie (some header) name = cookie_among name (split_at 59 header)

  -- the token of a request
  unfoldable pub token_of : (bearer : String → Option String) → Request → Result (Option String)
  unfolding cookie
  token_of bearer req = elim (bind_option req.authorization bearer) [
    | some token ↦ ok (some token)
    | none ↦ cookie req.cookie "crm_api_key"
  ]

module _ {W : Type 0} (verify : Option (String → Exec W (Option VerifiedKey))) where
  unfoldable pub verify_token : Option String → Exec W (Option VerifiedKey)
  verify_token none = pure none
  verify_token (some token) = elim verify [
    | none ↦ pure none
    | some f ↦ if token == "" then pure none else f token
  ]

  unfoldable pub step_for : Option VerifiedKey → Step
  step_for none = answered 401
  step_for (some key) =
      next (record { actor_id = concat ("api-key:" ∷ key.id ∷ []); role = key.role })

  unfoldable pub authenticate :
      (required : Bool) → (token_of : Request → Result (Option String)) → Request → Exec W Step
  unfolding verify_token step_for
  authenticate required token_of req =
      if not required then pure (next (record { actor_id = "local-owner"; role = owner })) else λ w.
      and_then (token_of req) (λ token. verify_token token >>= λ verified. pure (step_for verified))
        w

-- the middleware that follows: an answer of the first one ends the request
unfoldable pub require_role : Role → Step → Step
require_role minimum (answered status) = answered status
require_role minimum (next auth) =
    if ltb (level auth.role) (level minimum) then answered 403 else next auth

-- what is read of a `URL`
pub record Url : Type 0 where
  pub origin : String
  pub hostname : String
  pub protocol : String
  pub port : String

abbrev pub is_loopback : String → Bool
is_loopback hostname = contains hostname ("localhost" ∷ "127.0.0.1" ∷ "[::1]" ∷ [])

unfoldable pub allowed_api_origins : Url → List String
allowed_api_origins configured =
    if not (is_loopback configured.hostname)
    then configured.origin ∷ []
    else let port = if configured.port == "" then "" else concat (":" ∷ configured.port ∷ []) in
      configured.origin
      ∷ concat (configured.protocol ∷ "//localhost" ∷ port ∷ [])
      ∷ concat (configured.protocol ∷ "//127.0.0.1" ∷ port ∷ [])
      ∷ concat (configured.protocol ∷ "//[::1]" ∷ port ∷ [])
      ∷ []
