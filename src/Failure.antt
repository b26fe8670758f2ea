-- ===== src/Failure.antt =====
-- src/core/vendorError.ts: the errors that the engines meet, and their messages for an operator.
use hubspot_salesforce_conne.Prelude.{
  ℕ, String, Bool, false, ◌||◌, Option, none, some, List, [], ◌∷◌, ◌==◌, if◌then◌else◌, concat,
  join, length, leb, ltb, nat_eq, get_or,
}
use hubspot_salesforce_conne.Prelude.Time.{nat_text}
use hubspot_salesforce_conne.Plan.{ReconcilePlan}

-- `HubSpotFieldError`: what is read of an entry of `errors[]`
pub record FieldError : Type 0 where
  pub message : Option String
  pub property_name : Option String

-- An error of axios: its own message, the HTTP status of the response, the message that
-- `extractVendorErrorMessage` finds in the response's body, and the body's `errors` if that is an
-- array.
pub record AxiosError : Type 0 where
  pub message : String
  pub status : Option ℕ
  pub body_message : Option String
  pub errors : Option (List FieldError)

pub data Failure : Type 0 where
  -- `new Error(message)`
  plain : String → Failure
  -- MissingRequiredFieldError
  missing_required : List String → Failure
  -- AmbiguousNaturalKeyError
  ambiguous_key : ReconcilePlan → Failure
  axios : AxiosError → Failure

pub record DuplicateValueConflict : Type 0 where
  pub property : String
  pub value : String
  pub conflicting_id : String

-- JavaScript's text functions, and the three regular expressions of the file applied to a text.
pub record Patterns : Type 0 where
  pub trim : String → String
  -- /propertyName=([^,}]+),\s*value=([^}]+)\}\s*on\s*\S+\.\s*(\S+)\s*already has that value/i
  pub duplicate_value : String → Option DuplicateValueConflict
  -- /^resource not found$/i
  pub is_not_found : String → Bool
  -- /was not one of the allowed options|was not a valid (long|integer|number)/i
  pub is_invalid_value : String → Bool

abbrev pub bind_duplicate : Patterns → Option String → Option DuplicateValueConflict
bind_duplicate p none = none
bind_duplicate p (some message) = if message == "" then none else p.duplicate_value message

unfoldable pub extract_duplicate_value_conflict : Patterns → Failure → Option DuplicateValueConflict
extract_duplicate_value_conflict p (axios e) = bind_duplicate p e.body_message
extract_duplicate_value_conflict p _ = none

abbrev status_is : Option ℕ → ℕ → Bool
status_is none n = false
status_is (some m) n = nat_eq m n

not_found_text : String → String
not_found_text target = concat (
    "The record could not be found in " ∷ target
    ∷ " -- it may have been deleted there, or the link between the two systems is stale." ∷ [])

field_text : Option String → String → String → String → String
field_text (some field) target trimmed other =
    if field == ""
    then other
    else concat ("Field \"" ∷ field ∷ "\" in " ∷ target ∷ ": " ∷ trimmed ∷ [])
field_text none target trimmed other = other

unfoldable pub humanize_vendor_message :
    Patterns → String → Option String → Option ℕ → String → String
unfolding not_found_text field_text
humanize_vendor_message p message field status target =
    let trimmed = p.trim message in
    if p.is_not_found trimmed || status_is status 404
    then not_found_text target
    else if p.is_invalid_value trimmed
    then field_text field target trimmed (concat (target ∷ ": " ∷ trimmed ∷ []))
    else field_text field target trimmed trimmed

status_text : ℕ → String → String
unfolding not_found_text
status_text n target =
    if nat_eq n 400
    then concat (
        target
        ∷ " rejected this record as invalid, but didn't say which field -- check the record's values, or contact support if this keeps happening."
        ∷ [])
    else if nat_eq n 401
    then concat (
        "Authentication to " ∷ target
        ∷ " failed or expired -- reconnect the account from the Connections tab." ∷ [])
    else if nat_eq n 403
    then concat (
        "Permission denied -- the connected " ∷ target
        ∷ " account doesn't have access to this record or field." ∷ [])
    else if nat_eq n 404
    then not_found_text target
    else if nat_eq n 415
    then concat (
        target
        ∷ " rejected the request format -- this is usually a brief, transient issue and will retry automatically; try Replay if it doesn't clear on its own."
        ∷ [])
    else if nat_eq n 429
    then concat (
        "Rate-limited by " ∷ target ∷ " -- this will retry automatically after a short delay." ∷ [])
    else if leb 500 n
    then concat (
        target
        ∷ " had a temporary server error (HTTP "
        ∷ nat_text n
        ∷ ") -- this will retry automatically."
        ∷ [])
    else if nat_eq n 0
    then concat ("Request to " ∷ target ∷ " failed." ∷ [])
    else concat ("Request to " ∷ target ∷ " failed (HTTP " ∷ nat_text n ∷ ")." ∷ [])

unfoldable pub http_status_fallback : Option ℕ → String → String
unfolding status_text
http_status_fallback none target = concat ("Request to " ∷ target ∷ " failed." ∷ [])
http_status_fallback (some n) target = status_text n target

more_text : ℕ → String
more_text rest =
    if nat_eq rest 0
    then ""
    else concat (
        " (+"
        ∷ nat_text rest
        ∷ " more field"
        ∷ (if nat_eq rest 1 then "" else "s")
        ∷ " with issues)"
        ∷ [])

no_field_errors : Patterns → AxiosError → String → String
no_field_errors p e target = elim e.body_message [
  | none ↦ http_status_fallback e.status target
  | some m ↦
      if m == ""
      then http_status_fallback e.status target
      else humanize_vendor_message p m none e.status target
]

axios_text : Patterns → AxiosError → String → Option DuplicateValueConflict → String
unfolding more_text no_field_errors
axios_text p e target (some d) = concat (
    "Can't set \"" ∷ d.property ∷ "\" to \"" ∷ d.value ∷ "\" -- another record (" ∷ d.conflicting_id
    ∷ ") in " ∷ target
    ∷ " already has that value. Merge or update the duplicate there, then replay this sync." ∷ [])
axios_text p e target none = elim e.errors [
  | none ↦ no_field_errors p e target
  | some errors ↦ elim errors [
    | [] ↦ no_field_errors p e target
    | first ∷ rest ↦ concat (
        humanize_vendor_message p (get_or first.message "") first.property_name e.status target
        ∷ more_text (length rest)
        ∷ [])
  ]
]

ambiguous_text : Patterns → ReconcilePlan → String
ambiguous_text p plan =
    p.trim
      (concat ("ambiguous target match for " ∷ plan.type ∷ " " ∷ get_or plan.natural_key "" ∷ []))

-- `friendlyErrorMessage`
unfoldable pub friendly_error_message : Patterns → Failure → String → String
unfolding axios_text ambiguous_text
friendly_error_message p (missing_required labels) target = concat (
    "Skipped: missing required value for "
    ∷ join ", " labels
    ∷ " in "
    ∷ target
    ∷ ". Fill in "
    ∷ (if ltb 1 (length labels) then "these fields" else "this field")
    ∷ " at the source and replay, or exclude the field from this object's mapping."
    ∷ [])
friendly_error_message p (plain message) target = message
friendly_error_message p (ambiguous_key plan) target = ambiguous_text p plan
friendly_error_message p (axios e) target =
    axios_text p e target (extract_duplicate_value_conflict p (axios e))

-- `err.message`
unfoldable pub message_of : Patterns → Failure → String
unfolding ambiguous_text
message_of p (plain message) = message
message_of p (missing_required labels) =
    concat ("missing required value for: " ∷ join ", " labels ∷ [])
message_of p (ambiguous_key plan) = ambiguous_text p plan
message_of p (axios e) = e.message
