-- ===== src/Access/Examples.antt =====
-- src/security/access.ts: an operator's key in a cookie, and the theorem at it.
use hubspot_salesforce_conne.Prelude.{String, ◌≡◌, refl, Option, none, some}
use hubspot_salesforce_conne.Prelude.Text.{split_at}
use hubspot_salesforce_conne.Exec.{Exec, Result, ok, pure}
use hubspot_salesforce_conne.Access.{
  operator, viewer, AuthContext, VerifiedKey, Request, next, token_of, cookie, cookie_among,
  verify_token, step_for, authenticate, require_role,
}
use hubspot_salesforce_conne.Access.Guarded.{IsShown, require_role-authenticate}

abbrev trim : String → String
trim text = text

abbrev decode : String → Result String
decode text = ok text

abbrev bearer : String → Option String
bearer header = none

abbrev verify : Option (String → Exec (Unit {0}) (Option VerifiedKey))
verify = some (λ token. pure (some (record { id = "k"; role = operator })))

abbrev request : Request
request = record { authorization = none; cookie = some "lang=en;crm_api_key=s3=" }

token_in_cookie : token_of trim decode bearer request ≡ ok (some "s3=")
unfolding token_of cookie cookie_among split_at
token_in_cookie = refl

abbrev auth : AuthContext
auth = record { actor_id = "api-key:k"; role = operator }

require_role-authenticate_example :
    IsShown verify (token_of trim decode bearer) viewer request auth tt tt
unfolding authenticate token_of cookie cookie_among split_at verify_token step_for require_role
require_role-authenticate_example =
    require_role-authenticate verify (token_of trim decode bearer) viewer request auth tt tt
      (next auth) refl refl
