-- ===== src/Reconciler/Base.antt =====
-- src/engine/reconciler.ts: the reconciler's state, what it calls, and its functions on values.
use hubspot_salesforce_conne.Prelude.{
  ℕ, String, Bool, true, false, not, ◌&&◌, Option, none, some, List, [], ◌∷◌, ◌++◌, ◌==◌,
  if◌then◌else◌, contains, dedupe, keep, map, find, get_or, bind_option,
}
use hubspot_salesforce_conne.Prelude.Dict.{Dict, lookup, insert, keys}
use hubspot_salesforce_conne.Prelude.Sort.{sort_by}
use hubspot_salesforce_conne.Prelude.Text.{includes, text_le}
use hubspot_salesforce_conne.Types.{
  SystemId, FieldValue, str, null, value_eq, Fields, CanonicalRecord, UpsertResult, NaturalKeyQuery,
}
use hubspot_salesforce_conne.Plan.{FieldDiff}
use hubspot_salesforce_conne.Schema.{SchemaField}
use hubspot_salesforce_conne.Failure.{Patterns}
use hubspot_salesforce_conne.Exec.{Exec, modify}
use hubspot_salesforce_conne.Activity
use hubspot_salesforce_conne.Activity.{ActivityLog, ActivityKind}
use hubspot_salesforce_conne.Conflict.{ConflictStrategy, Env}
use hubspot_salesforce_conne.Host.{Host}
use hubspot_salesforce_conne.Mapping.{FieldRule, Tables, field_rules}
use hubspot_salesforce_conne.IdMap
use hubspot_salesforce_conne.IdMap.{
  Link, KeyFields, content_hash, natural_key_query, natural_key_fields, by_source, by_natural_key,
  upsert_link,
}

pub record ConflictInput : Type 0 where
  pub link_id : String
  pub type : String
  pub source : CanonicalRecord
  pub target : CanonicalRecord
  pub strategy : String
  pub resolution : CanonicalRecord

-- The calls of the connectors and of the governance store, over the state `W` of both systems.
pub record Connectors (W : Type 0) : Type 0 where
  pub read : SystemId → String → String → Exec W (Option CanonicalRecord)
  pub find_by_natural_key : SystemId → String → NaturalKeyQuery → Exec W (List CanonicalRecord)
  pub describe : SystemId → String → Exec W (List SchemaField)
  pub upsert : SystemId → CanonicalRecord → Option String → Exec W UpsertResult
  pub remove : SystemId → String → String → Exec W UpsertResult
  pub record_conflict : ConflictInput → Exec W (Unit {0})

-- the configuration and the runtime
pub record Context : Type 0 where
  pub host : Host
  pub patterns : Patterns
  pub hash : String → String
  pub random_uuid : ℕ → String
  pub env : Env
  pub tables : Tables
  pub key_fields : KeyFields
  pub read_counterpart : Option Bool
  pub strategy : Option ConflictStrategy
  pub source_of_truth : Option SystemId

pub record State (W : Type 0) : Type 0 where
  pub world : W
  pub id_map : IdMap.Store
  pub activity : ActivityLog
  -- the fields of a schema, and when they were fetched
  pub schema_cache : Dict (List SchemaField × ℕ)
  pub drawn : ℕ

-- `a === b` of optional texts and values
abbrev pub same_text : Option String → Option String → Bool
same_text none none = true
same_text (some a) (some b) = a == b
same_text _ _ = false

abbrev pub same_value : Option FieldValue → Option FieldValue → Bool
same_value none none = true
same_value (some a) (some b) = value_eq a b
same_value _ _ = false

-- an id or a hash that is there and not the empty text
abbrev pub truthy : Option String → Option String
truthy none = none
truthy (some s) = if s == "" then none else some s

abbrev pub diff_entry : Fields → Fields → String → FieldDiff
diff_entry source target field = record {
  field = field;
  source = lookup field source;
  target = lookup field target;
}

unfoldable pub differing : Fields → Fields → List String
differing source target =
    keep (λ field. not (same_value (lookup field source) (lookup field target)))
      (dedupe (keys source ++ keys target))

unfoldable pub diff_fields : Fields → Fields → List FieldDiff
diff_fields source target =
    map (diff_entry source target) (sort_by text_le (differing source target))

abbrev pub is_blank : Option FieldValue → Bool
is_blank none = true
is_blank (some null) = true
is_blank (some (str s)) = s == ""
is_blank _ = false

-- the natural-key field that a native name stands for
unfoldable pub native_to_natural_key_field : Context → SystemId → String → String → Option String
native_to_natural_key_field c system type native_name =
    bind_option
      (find (λ (rule : FieldRule). c.host.lower_case rule.native == c.host.lower_case native_name)
        (field_rules system type c.tables))
      λ rule.
        if contains rule.canonical (natural_key_fields type c.key_fields)
        then some rule.canonical
        else none

module _ {W : Type 0} where
  -- a call of the connectors, on the reconciler's state
  abbrev pub call : {A : Type 0} → Exec W A → Exec (State W) A
  call m s = let (r, w) = m s.world in (r, record s { world = w })

  abbrev pub note : ℕ → ActivityKind → String → Exec (State W) (Unit {0})
  note now kind message =
      modify (λ s. record s { activity = Activity.log now kind message s.activity })

-- the schema by lower-case name: of two equal names the later counts
unfoldable pub schema_by_name : Host → List SchemaField → Dict SchemaField → Dict SchemaField
schema_by_name host [] out = out
schema_by_name host (field ∷ rest) out =
    schema_by_name host rest (insert (host.lower_case field.name) field out)

-- the label of a rule's field if that is required and blank in the payload
missing_label : Host → Dict SchemaField → Fields → FieldRule → Option String
missing_label host schema payload rule =
    bind_option (lookup (host.lower_case rule.native) schema) λ (field : SchemaField).
      if get_or field.required false && is_blank (lookup rule.native payload)
      then some (if field.label == "" then rule.native else field.label)
      else none

unfoldable pub missing_labels : Host → Dict SchemaField → Fields → List FieldRule → List String
unfolding missing_label
missing_labels host schema payload [] = []
missing_labels host schema payload (rule ∷ rules) = elim (missing_label host schema payload rule) [
  | none ↦ missing_labels host schema payload rules
  | some label ↦ label ∷ missing_labels host schema payload rules
]

abbrev pub writable_rules : Context → SystemId → String → List FieldRule
writable_rules c to type =
    keep (λ (rule : FieldRule). not rule.read_only && not (includes rule.native "."))
      (field_rules to type c.tables)

-- the owners that the rules of both systems name; of two the later counts
unfoldable pub owners_of : List FieldRule → Dict SystemId → Dict SystemId
owners_of [] out = out
owners_of (rule ∷ rules) out = elim rule.source_of_truth [
  | none ↦ owners_of rules out
  | some owner ↦ owners_of rules (insert rule.canonical owner out)
]
