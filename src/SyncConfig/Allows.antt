-- ===== src/SyncConfig/Allows.antt =====
-- src/core/syncConfig.ts: which objects may be synced from which system, and how conditions divide
-- the records.
use hubspot_salesforce_conne.Prelude.{
  String, Bool, true, false, ◌&&◌, ◌||◌, ◌≡◌, refl, Option, some, List, [], ◌∷◌, arith, contains,
}
use hubspot_salesforce_conne.Prelude.Dict.{lookup, lookup-fill}
use hubspot_salesforce_conne.Types.{SystemId, salesforce, hubspot, FieldValue}
use hubspot_salesforce_conne.Host.{Host}
use hubspot_salesforce_conne.Conflict.{ConflictStrategy}
use hubspot_salesforce_conne.Mapping.{Native, Properties}
use hubspot_salesforce_conne.SyncConfig.{
  SyncConfig, SyncObjectConfig, SyncCondition, SyncConditionOperator, SyncDirection, bidirectional,
  salesforce_to_hubspot, hubspot_to_salesforce, default_sync_config, default_object, sync_allows,
  originates, evaluate_conditions, satisfies, holds,
}

abbrev pub is_bidirectional : SyncDirection → Bool
is_bidirectional bidirectional = true
is_bidirectional _ = false

either_originates :
    (d : SyncDirection)
    → ((originates d salesforce || originates d hubspot) ≡ true)
      × ((originates d salesforce && originates d hubspot) ≡ is_bidirectional d)
unfolding originates
either_originates bidirectional = (refl, refl)
either_originates salesforce_to_hubspot = (refl, refl)
either_originates hubspot_to_salesforce = (refl, refl)

-- An object that is configured may be synced from some system exactly if it is enabled, and from
-- both exactly if it is enabled and bidirectional.
pub sync_allows_lem :
    (config : SyncConfig) (type : String) (o : SyncObjectConfig)
    → lookup type config.objects ≡ some o
    → ((sync_allows config type salesforce || sync_allows config type hubspot) ≡ o.enabled)
      × ((sync_allows config type salesforce && sync_allows config type hubspot)
          ≡ (o.enabled && is_bidirectional o.direction))
unfolding sync_allows
sync_allows_lem config type o h = ground (arith, h, either_originates o.direction)

default_originates : (source : SystemId) → originates default_object.direction source ≡ true
unfolding originates
default_originates source = refl

-- By default the given objects, and no others, may be synced from either system.
pub sync_allows-default_sync_config :
    (strategy : ConflictStrategy) (truth : SystemId) (types : List String) (type : String)
    (source : SystemId)
    → sync_allows (default_sync_config strategy truth types) type source ≡ contains type types
unfolding default_sync_config sync_allows lookup
sync_allows-default_sync_config strategy truth types type source =
    ground (arith, lookup-fill default_object types type [], default_originates source)

module _ (host : Host) (less : Option Native → Option Native → Bool) where
  -- Of the records that satisfy some conditions, each satisfies exactly one of two further
  -- conditions that ask for equality with a value and for the opposite.
  pub evaluate_conditions-split :
      (conditions : List SyncCondition) (field : String) (value : Option FieldValue)
      (record' : Properties)
      → let ask = λ (o : SyncConditionOperator).
        evaluate_conditions host less
          (some (record { field = field; operator = o; value = value } ∷ conditions))
          record' in
        ((ask SyncConditionOperator.eq || ask SyncConditionOperator.ne)
          ≡ evaluate_conditions host less (some conditions) record')
        × ((ask SyncConditionOperator.eq && ask SyncConditionOperator.ne) ≡ false)
  unfolding evaluate_conditions satisfies holds
  evaluate_conditions-split conditions field value record' = ground arith
