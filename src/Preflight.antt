-- ===== src/Preflight.antt =====
-- src/engine/preflight.ts: the checks before a migration. The two descriptions, and the two
-- samples, are read one after the other.
pub mod Sound
pub mod Run
pub mod Unique
pub mod Examples
use hubspot_salesforce_conne.Prelude.{
  ℕ, zero, suc, ◌+◌, String, Bool, true, false, not, ◌&&◌, ◌||◌, Option, none, some, List, [], ◌∷◌,
  ◌++◌, ◌==◌, if◌then◌else◌, map, find, any, contains, length, concat, join, get_or, or_else,
  is_some, bind_option, nat_eq, ltb,
}
use hubspot_salesforce_conne.Prelude.Dict.{Dict, lookup, insert}
use hubspot_salesforce_conne.Prelude.Text.{includes, split_at}
use hubspot_salesforce_conne.Prelude.Time.{Timestamp}
use hubspot_salesforce_conne.Types.{SystemId, PerSystem, system_text}
use hubspot_salesforce_conne.Schema.{SchemaField, is_set}
use hubspot_salesforce_conne.Mapping.{FieldRule}
use hubspot_salesforce_conne.Mapping.Transform.{TransformId, identity}

pub data PreflightSeverity : Type 0 where
  error warning info : PreflightSeverity

pub record PreflightIssue : Type 0 where
  pub severity : PreflightSeverity
  pub code : String
  pub system : Option SystemId
  pub field : Option String
  pub message : String

pub record SchemaSummary : Type 0 where
  pub hash : String
  pub fields : ℕ

pub record PreflightReport : Type 0 where
  pub ok : Bool
  pub from : SystemId
  pub to : SystemId
  pub type : String
  pub checked_at : Timestamp
  pub issues : List PreflightIssue
  pub schemas : PerSystem (Option SchemaSummary)

abbrev pub is_error : PreflightIssue → Bool
is_error issue = elim issue.severity [ error ↦ true | warning ↦ false | info ↦ false ]

-- `new Map(fields.map(field => [field.name, field]))`
unfoldable pub by_name : List SchemaField → Dict SchemaField → Dict SchemaField
by_name [] out = out
by_name (field ∷ fields) out = by_name fields (insert field.name field out)

-- `native.split('.')[0]`
abbrev pub root_of : String → String
root_of native = elim (split_at 46 native) [ [] ↦ "" | part ∷ parts ↦ part ]

unfoldable pub group : String → String
group value =
    if contains value ("int" ∷ "integer" ∷ "long" ∷ "double" ∷ "number" ∷ "currency" ∷ [])
    then "number"
    else if contains value ("date" ∷ "datetime" ∷ "dateTime" ∷ [])
    then "date"
    else if contains value ("bool" ∷ "boolean" ∷ [])
    then "boolean"
    else if contains value ("enumeration" ∷ "picklist" ∷ "multipicklist" ∷ [])
    then "enum"
    else "string"

unfoldable pub compatible : String → String → Bool
unfolding group
compatible a b = group a == group b

abbrev is_identity : TransformId → Bool
is_identity identity = true
is_identity _ = false

-- `t && t !== 'identity'`
abbrev pub transforms : Option TransformId → Bool
transforms none = false
transforms (some t) = not (is_identity t)

abbrev pub is_bidirectional : Option FieldRule → Bool
is_bidirectional none = false
is_bidirectional (some rule) = transforms rule.to_canonical && transforms rule.from_canonical

abbrev pub issue :
    PreflightSeverity → String → Option SystemId → String → List String → PreflightIssue
issue severity code system field message = record {
  severity = severity;
  code = code;
  system = system;
  field = some field;
  message = concat message;
}

-- the loop over the rules of the source
module _ (from : SystemId) (source : Dict SchemaField) where
  abbrev pub in_source : FieldRule → Bool
  in_source rule =
      is_some (lookup rule.native source) || is_some (lookup (root_of rule.native) source)

  unfoldable pub source_issue : FieldRule → List PreflightIssue
  source_issue rule =
      if in_source rule
      then []
      else if includes rule.native "."
      then issue warning "RELATIONSHIP_FIELD_UNVERIFIED" (some from) rule.native (
          system_text from
          ∷ " relationship projection "
          ∷ rule.native
          ∷ " requires query-time validation"
          ∷ [])
        ∷ []
      else issue error "SOURCE_FIELD_MISSING" (some from) rule.native
          (system_text from ∷ " field " ∷ rule.native ∷ " no longer exists" ∷ [])
        ∷ []

  unfoldable pub source_issues : List FieldRule → List PreflightIssue
  unfolding source_issue
  source_issues [] = []
  source_issues (rule ∷ rules) = source_issue rule ++ source_issues rules

-- the loop over the rules of the target
module _ (to : SystemId) (source target : Dict SchemaField) (source_map : List FieldRule) where
  abbrev pub target_of : FieldRule → Option SchemaField
  target_of rule = lookup rule.native target

  abbrev pub source_rule_of : FieldRule → Option FieldRule
  source_rule_of rule = find (λ (item : FieldRule). item.canonical == rule.canonical) source_map

  abbrev pub source_of : FieldRule → Option SchemaField
  source_of rule =
      bind_option (source_rule_of rule)
        λ r. or_else (lookup r.native source) (lookup (root_of r.native) source)

  abbrev pub is_read_only : Option SchemaField → Bool
  is_read_only none = false
  is_read_only (some field) = is_set field.read_only

  unfoldable pub missing_issue : FieldRule → List PreflightIssue
  missing_issue rule =
      if not (is_some (target_of rule)) && not rule.read_only && not (includes rule.native ".")
      then issue error "TARGET_FIELD_MISSING" (some to) rule.native
          (system_text to ∷ " writable field " ∷ rule.native ∷ " does not exist" ∷ [])
        ∷ []
      else []

  unfoldable pub read_only_issue : FieldRule → List PreflightIssue
  read_only_issue rule =
      if is_read_only (target_of rule) && not rule.read_only
      then issue error "TARGET_FIELD_READ_ONLY" (some to) rule.native
          (system_text to ∷ " field " ∷ rule.native ∷ " is read-only" ∷ [])
        ∷ []
      else []

  abbrev pub is_converted : FieldRule → Bool
  is_converted rule = is_bidirectional (some rule) || is_bidirectional (source_rule_of rule)

  mismatch : FieldRule → Option SchemaField → Option SchemaField → List PreflightIssue
  mismatch rule (some s) (some t) =
      if not (compatible s.type t.type) && not (is_converted rule)
      then issue
          (if is_some rule.to_canonical || is_some rule.from_canonical then warning else error)
          "FIELD_TYPE_MISMATCH" none rule.canonical
          (rule.canonical ∷ ": " ∷ s.type ∷ " → " ∷ t.type ∷ " requires a transform" ∷ [])
        ∷ []
      else []
  mismatch rule _ _ = []

  unfoldable pub mismatch_issue : FieldRule → List PreflightIssue
  unfolding mismatch
  mismatch_issue rule = mismatch rule (source_of rule) (target_of rule)

  abbrev has_options : Option SchemaField → Bool
  has_options none = false
  has_options (some field) = ltb 0 (length (get_or field.options []))

  unfoldable pub options_issue : FieldRule → List PreflightIssue
  options_issue rule =
      if has_options (source_of rule) && has_options (target_of rule)
      then issue warning "ENUM_VALUES_REQUIRE_REVIEW" none rule.canonical
          ("Review " ∷ rule.canonical ∷ " picklist/pipeline values before execution" ∷ [])
        ∷ []
      else []

  unfoldable pub target_issues : List FieldRule → List PreflightIssue
  unfolding missing_issue read_only_issue mismatch_issue options_issue
  target_issues [] = []
  target_issues (rule ∷ rules) =
      missing_issue rule
      ++ (read_only_issue rule
          ++ (mismatch_issue rule ++ (options_issue rule ++ target_issues rules)))

-- the loop over the fields of the target
module _ (to : SystemId) (target_map : List FieldRule) where
  abbrev pub is_mapped : SchemaField → Bool
  is_mapped field = contains field.name (map (λ (rule : FieldRule). rule.native) target_map)

  unfoldable pub required_issues : List SchemaField → List PreflightIssue
  required_issues [] = []
  required_issues (field ∷ fields) =
      if is_set field.required && not (is_set field.read_only) && not (is_mapped field)
      then issue error "REQUIRED_TARGET_UNMAPPED" (some to) field.name
          ("Required " ∷ system_text to ∷ " field " ∷ field.name ∷ " has no mapping" ∷ [])
        ∷ required_issues fields
      else required_issues fields
