-- ===== src/SyncConfig/Examples.antt =====
-- src/core/syncConfig.ts: a configuration with two objects, and the theorems at it.
use hubspot_salesforce_conne.Prelude.{Bool, false, Option, some, [], ◌∷◌}
use hubspot_salesforce_conne.Types.{salesforce, str}
use hubspot_salesforce_conne.Conflict.{last_write_wins}
use hubspot_salesforce_conne.Mapping.{Native, Properties, scalar, done, property}
use hubspot_salesforce_conne.SyncConfig.{
  SyncConfig, SyncCondition, SyncConditionOperator, hubspot_to_salesforce, default_object,
}

abbrev config : SyncConfig
config = record {
  conflict_strategy = last_write_wins;
  source_of_truth = salesforce;
  objects =
      ("contact", default_object)
      ∷ ("deal", record default_object { direction = hubspot_to_salesforce })
      ∷ [];
  polling = [];
}

abbrev less : Option Native → Option Native → Bool
less a b = false

abbrev is_open : SyncCondition
is_open = record {
  field = "status";
  operator = SyncConditionOperator.eq;
  value = some (str "open");
}

abbrev contact : Properties
contact = property "status" (scalar (str "open")) (property "country" (scalar (str "DE")) done)
