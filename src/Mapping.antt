-- ===== src/Mapping.antt =====
-- src/core/mapping.ts: the translation between a system's native fields and the canonical ones, by
-- the rules that are configured at run time.
pub mod Examples
pub mod Transform
pub mod Rules
pub mod Payload
pub mod RoundTrip
use hubspot_salesforce_conne.Prelude.{
  String, Bool, true, false, not, ◌&&◌, ◌||◌, Option, none, some, List, [], ◌∷◌, ◌==◌,
  if◌then◌else◌, get_or, is_some, concat, contains, find, bind_option, map_option,
}
use hubspot_salesforce_conne.Prelude.Dict.{Dict, lookup, insert}
use hubspot_salesforce_conne.Prelude.Text.{includes, split_at}
use hubspot_salesforce_conne.Types.{
  SystemId, salesforce, hubspot, PerSystem, of_system, set_system, FieldValue, str, null, Fields,
}
use hubspot_salesforce_conne.Failure.{Failure, plain}
use hubspot_salesforce_conne.Exec.{Result, ok, err}
use hubspot_salesforce_conne.Host.{Host}
use hubspot_salesforce_conne.Mapping.Transform.{TransformId, transform}

pub record FieldRule : Type 0 where
  pub canonical : String
  pub native : String
  pub to_canonical : Option TransformId
  pub from_canonical : Option TransformId
  pub read_only : Bool
  pub source_of_truth : Option SystemId

pub record ValueMapping : Type 0 where
  pub type : String
  pub canonical_field : String
  pub canonical_value : String
  pub salesforce_value : Option String
  pub hubspot_value : Option String

-- `TABLES` and `VALUE_MAPPINGS`
pub record Tables : Type 0 where
  pub rules : PerSystem (Dict (List FieldRule))
  pub value_mappings : List ValueMapping

abbrev pub no_tables : Tables
no_tables = record { rules = record { sf = []; hs = [] }; value_mappings = [] }

unfoldable pub configure_value_mappings : List ValueMapping → Tables → Tables
configure_value_mappings mappings t = record t { value_mappings = mappings }

unfoldable pub field_rules : SystemId → String → Tables → List FieldRule
field_rules system type t = get_or (lookup type (of_system system t.rules)) []

-- the loop of `configureFieldRules`: what it throws, if anything; `seen` is the set it keeps
unfoldable pub check_rules : Host → List String → List FieldRule → Option Failure
check_rules host seen [] = none
check_rules host seen (rule ∷ rules) =
    if host.trim rule.canonical == "" || host.trim rule.native == ""
    then some (plain "mapping canonical and native names are required")
    else if contains rule.canonical seen
    then some (plain (concat ("duplicate canonical field: " ∷ rule.canonical ∷ [])))
    else check_rules host (rule.canonical ∷ seen) rules

unfoldable pub configure_field_rules :
    Host → SystemId → String → List FieldRule → Tables → Result (Unit {0}) × Tables
configure_field_rules host system type rules t = elim (check_rules host [] rules) [
  | some failure ↦ (err failure, t)
  | none ↦ (
    ok tt,
    record t { rules = set_system system (insert type rules (of_system system t.rules)) t.rules },
  )
]

unfoldable pub reset_field_rules : Tables → Tables
reset_field_rules t = record t { rules = record { sf = []; hs = [] } }

-- A native record as the API gives it. An object (or array) has its own properties and what
-- `String(v)` makes of it.
mutual
  pub data Native : Type 0 where
    scalar : FieldValue → Native
    object : String → Properties → Native

  pub data Properties : Type 0 where
    done : Properties
    property : String → Native → Properties → Properties

abbrev pub get_property : String → Properties → Option Native
get_property key done = none
get_property key (property k v rest) = if k == key then some v else get_property key rest

-- one step of the walk along a dotted path
abbrev pub step_into : Option Native → String → Option Native
step_into none key = none
step_into (some (scalar v)) key = none
step_into (some (object t properties)) key = get_property key properties

walk : Option Native → List String → Option Native
walk acc [] = acc
walk acc (key ∷ path) = walk (step_into acc key) path

unfoldable pub get_path : Properties → String → Option Native
unfolding walk
get_path native path =
    if not (includes path ".")
    then get_property path native
    else walk (some (object "" native)) (split_at 46 path)

unfoldable pub coerce : Option Native → FieldValue
coerce none = null
coerce (some (scalar v)) = v
coerce (some (object text properties)) = str text

abbrev pub native_value : SystemId → ValueMapping → Option String
native_value salesforce m = m.salesforce_value
native_value hubspot m = m.hubspot_value

-- `value === text` of an optional text
abbrev pub is_text : Option String → String → Bool
is_text none s = false
is_text (some t) s = t == s

unfoldable pub to_canonical_value : SystemId → String → String → FieldValue → Tables → FieldValue
to_canonical_value system type field (str value) t = str (
    get_or
      (map_option (λ (m : ValueMapping). m.canonical_value)
        (find
          (λ (m : ValueMapping).
            m.type == type && m.canonical_field == field && is_text (native_value system m) value)
          t.value_mappings))
      value)
to_canonical_value system type field value t = value

unfoldable pub from_canonical_value : SystemId → String → String → FieldValue → Tables → FieldValue
from_canonical_value system type field (str value) t = str (
    get_or
      (bind_option
        (find
          (λ (m : ValueMapping).
            m.type == type && m.canonical_field == field && m.canonical_value == value)
          t.value_mappings)
        (native_value system))
      value)
from_canonical_value system type field value t = value

module _ (host : Host) (t : Tables) (system : SystemId) (type : String) where
  -- the canonical value of a rule's field
  unfoldable pub read_rule : Properties → FieldRule → FieldValue
  read_rule native rule =
      to_canonical_value system type rule.canonical
        (transform host rule.to_canonical (coerce (get_path native rule.native))) t

  -- the loop of `toCanonicalFields`
  unfoldable pub to_canonical_loop : Properties → List FieldRule → Fields → Fields
  to_canonical_loop native [] out = out
  to_canonical_loop native (rule ∷ rules) out =
      to_canonical_loop native rules (insert rule.canonical (read_rule native rule) out)

  unfoldable pub to_canonical_fields : Properties → Fields
  to_canonical_fields native = to_canonical_loop native (field_rules system type t) []

  -- the rules that `fromCanonicalFields` does not skip
  abbrev pub is_written : Fields → FieldRule → Bool
  is_written fields rule =
      not rule.read_only && is_some (lookup rule.canonical fields) && not (includes rule.native ".")

  -- the native value of a rule's field
  unfoldable pub write_rule : Fields → FieldRule → FieldValue
  write_rule fields rule = transform host rule.from_canonical (
      from_canonical_value system type rule.canonical (get_or (lookup rule.canonical fields) null)
        t)

  -- the loop of `fromCanonicalFields`
  unfoldable pub from_canonical_loop : Fields → List FieldRule → Fields → Fields
  from_canonical_loop fields [] out = out
  from_canonical_loop fields (rule ∷ rules) out =
      from_canonical_loop fields rules
        (if is_written fields rule then insert rule.native (write_rule fields rule) out else out)

  unfoldable pub from_canonical_fields : Fields → Fields
  from_canonical_fields fields = from_canonical_loop fields (field_rules system type t) []

-- the loop of `nativeFields`; `seen` is the set it keeps
unfoldable pub native_fields_loop : Host → List String → List FieldRule → List String
native_fields_loop host seen [] = []
native_fields_loop host seen (rule ∷ rules) =
    if contains (host.lower_case rule.native) seen
    then native_fields_loop host seen rules
    else rule.native ∷ native_fields_loop host (host.lower_case rule.native ∷ seen) rules

unfoldable pub native_fields : Host → SystemId → String → Tables → List String
native_fields host system type t = native_fields_loop host [] (field_rules system type t)

unfoldable pub native_field : SystemId → String → String → Tables → Option String
native_field system type canonical t =
    map_option (λ (rule : FieldRule). rule.native)
      (find (λ (rule : FieldRule). rule.canonical == canonical) (field_rules system type t))
