-- ===== src/SyncConfig.antt =====
-- src/core/syncConfig.ts: which objects are synced, in which direction, under which conditions,
-- and on which schedule.
pub mod Examples
pub mod Allows
use hubspot_salesforce_conne.Prelude.{
  ℕ, zero, suc, String, Bool, true, false, not, ◌&&◌, Option, none, some, List, [], ◌∷◌, ◌==◌,
  if◌then◌else◌, concat, is_some, bind_option, all, map_option,
}
use hubspot_salesforce_conne.Prelude.Dict.{Dict, lookup, fill}
use hubspot_salesforce_conne.Prelude.Text.{includes}
use hubspot_salesforce_conne.Types.{
  SystemId, salesforce, hubspot, FieldValue, str, num, bool, null, PerSystem, other, system_text,
}
use hubspot_salesforce_conne.Conflict.{ConflictStrategy}
use hubspot_salesforce_conne.Host.{Host}
use hubspot_salesforce_conne.IdMap.{value_text}
use hubspot_salesforce_conne.Mapping.{Native, scalar, object, Properties, get_property}

pub data SyncDirection : Type 0 where
  bidirectional salesforce_to_hubspot hubspot_to_salesforce : SyncDirection

-- the text of the union's member
abbrev pub direction_text : SyncDirection → String
direction_text bidirectional = "bidirectional"
direction_text salesforce_to_hubspot = "salesforce_to_hubspot"
direction_text hubspot_to_salesforce = "hubspot_to_salesforce"

pub data SyncConditionOperator : Type 0 where
  eq ne gt lt contains is_null is_not_null : SyncConditionOperator

pub record SyncCondition : Type 0 where
  pub field : String
  pub operator : SyncConditionOperator
  pub value : Option FieldValue

pub record SyncObjectConfig : Type 0 where
  pub enabled : Bool
  pub direction : SyncDirection
  pub enrolled_for_sync : Bool
  pub conditions : PerSystem (Option (List SyncCondition))
  pub raw_condition : PerSystem (Option String)

-- `interval_minutes` is what `Math.round` makes of a finite number (0 of a negative one), and
-- `none` for a number that is not finite.
pub record PollingConfig : Type 0 where
  pub enabled : Bool
  pub interval_minutes : Option ℕ
  pub lookback_days : Option ℕ
  pub cron : Option String

pub record SyncConfig : Type 0 where
  pub conflict_strategy : ConflictStrategy
  pub source_of_truth : SystemId
  pub objects : Dict SyncObjectConfig
  pub polling : Dict PollingConfig

abbrev pub min_polling_interval_minutes : ℕ
min_polling_interval_minutes = 1

abbrev pub max_polling_interval_minutes : ℕ
max_polling_interval_minutes = 43200

-- what a registered object starts with
abbrev pub default_object : SyncObjectConfig
default_object = record {
  enabled = true;
  direction = bidirectional;
  enrolled_for_sync = true;
  conditions = record { sf = none; hs = none };
  raw_condition = record { sf = none; hs = none };
}

abbrev pub default_polling : PollingConfig
default_polling = record {
  enabled = false;
  interval_minutes = some 30;
  lookback_days = none;
  cron = none;
}

-- `Object.fromEntries(objects.map(...))` sets the keys one after another
unfoldable pub default_sync_config : ConflictStrategy → SystemId → List String → SyncConfig
default_sync_config strategy truth types = record {
  conflict_strategy = strategy;
  source_of_truth = truth;
  objects = fill types default_object [];
  polling = fill types default_polling [];
}

-- the tests of `object.direction`
unfoldable pub originates : SyncDirection → SystemId → Bool
originates direction source =
    if direction_text direction == "bidirectional"
    then true
    else direction_text direction
      == concat (system_text source ∷ "_to_" ∷ system_text (other source) ∷ [])

unfoldable pub sync_allows : SyncConfig → String → SystemId → Bool
unfolding originates
sync_allows settings type source = elim (lookup type settings.objects) [
  | none ↦ false
  | some config ↦ if not config.enabled then false else originates config.direction source
]

-- `v === null || v === undefined`
abbrev pub is_absent : Option Native → Bool
is_absent none = true
is_absent (some (scalar null)) = true
is_absent _ = false

-- `String(v ?? '')`
abbrev pub native_text : Option Native → String
native_text none = ""
native_text (some (scalar v)) = value_text (some v)
native_text (some (object text properties)) = text

-- `Number(a) < Number(b)` is a parameter, for values that may be missing.
module _ (host : Host) (less : Option Native → Option Native → Bool) where
  unfoldable pub holds : Option Native → SyncConditionOperator → Option Native → Bool
  holds actual is_null value = is_absent actual
  holds actual is_not_null value = not (is_absent actual)
  holds actual eq value =
      host.lower_case (native_text actual) == host.lower_case (native_text value)
  holds actual ne value =
      not (host.lower_case (native_text actual) == host.lower_case (native_text value))
  holds actual gt value = less value actual
  holds actual lt value = less actual value
  holds actual contains value =
      includes (host.lower_case (native_text actual)) (host.lower_case (native_text value))

  unfoldable pub satisfies : Properties → SyncCondition → Bool
  unfolding holds
  satisfies fields condition =
      holds (get_property condition.field fields) condition.operator
        (map_option scalar condition.value)

  unfoldable pub evaluate_conditions : Option (List SyncCondition) → Properties → Bool
  unfolding satisfies
  evaluate_conditions none fields = true
  evaluate_conditions (some conditions) fields = all (satisfies fields) conditions

-- The cron parser: `parse expression from` gives an iterator or throws, and so does `next`.
module _ {I : Type 0} (parse : String → ℕ → Option I) (next : I → Option (ℕ × I)) where
  unfoldable pub is_valid_cron_expression : Host → ℕ → String → Bool
  is_valid_cron_expression host now expression =
      if host.trim expression == "" then false else is_some (parse expression now)

  -- the loop of `nextCronOccurrences`
  unfoldable pub take_occurrences : (count : ℕ) → I → Option (List ℕ)
  take_occurrences zero iterator = some []
  take_occurrences (suc count) iterator =
      bind_option (next iterator)
        (λ (at, rest). map_option (λ times. at ∷ times) (take_occurrences count rest))

  unfoldable pub next_cron_occurrences : String → ℕ → ℕ → Option (List ℕ)
  unfolding take_occurrences
  next_cron_occurrences expression from count =
      bind_option (parse expression from) (take_occurrences count)
