-- ===== src/TypeResolver/Examples.antt =====
-- src/engine/typeResolver.ts: an account that is a company or a person, and the theorem at it.
use hubspot_salesforce_conne.Prelude.{
  String, Bool, true, false, refl, Option, none, some, List, [], ◌∷◌,
}
use hubspot_salesforce_conne.Prelude.Dict.{lookup, insert}
use hubspot_salesforce_conne.Types.{salesforce, bool}
use hubspot_salesforce_conne.Exec.{Exec, pure}
use hubspot_salesforce_conne.Conflict.{last_write_wins}
use hubspot_salesforce_conne.Mapping.{Native, Properties, scalar, done, property}
use hubspot_salesforce_conne.Mapping.Examples.{sample_host}
use hubspot_salesforce_conne.SyncConfig.{
  SyncConfig, SyncConditionOperator, default_object, SyncObjectConfig, evaluate_conditions,
  satisfies, holds,
}
use hubspot_salesforce_conne.Registry.{
  ObjectRegistration, Registry, configure_object_mappings, register_all, register_object_mapping,
  canonical_objects_for,
}
use hubspot_salesforce_conne.TypeResolver.{
  resolve_canonical_type, resolve_among, conditions_of, fields_of, choose, matches, disambiguate,
}
use hubspot_salesforce_conne.TypeResolver.Resolved.{IsJustified, resolve_canonical_type-IsJustified}

abbrev entry : String → ObjectRegistration
entry key = record {
  canonical_object = key;
  label = key;
  salesforce_object = some "Account";
  hubspot_object = none;
}

abbrev registry : Registry
unfolding configure_object_mappings register_all register_object_mapping insert
registry = configure_object_mappings (entry "company" ∷ entry "person" ∷ []) []

abbrev object_with : Bool → SyncObjectConfig
object_with person = record default_object {
  conditions = record {
    sf = some (
        record {
          field = "IsPersonAccount";
          operator = SyncConditionOperator.eq;
          value = some (bool person);
        }
        ∷ []);
    hs = none;
  };
}

abbrev config : SyncConfig
config = record {
  conflict_strategy = last_write_wins;
  source_of_truth = salesforce;
  objects = ("company", object_with false) ∷ ("person", object_with true) ∷ [];
  polling = [];
}

abbrev less : Option Native → Option Native → Bool
less a b = false

-- a connector whose accounts are all persons
abbrev read_native_fields : String → String → List String → Exec (Unit {0}) (Option Properties)
read_native_fields native id fields =
    pure (some (property "IsPersonAccount" (scalar (bool true)) done))

resolve_canonical_type-IsJustified_example :
    IsJustified sample_host less read_native_fields salesforce "Account" "001" config
      (canonical_objects_for salesforce "Account" registry)
      "person"
      tt
      tt
unfolding resolve_canonical_type resolve_among canonical_objects_for disambiguate fields_of choose
    matches conditions_of lookup evaluate_conditions satisfies holds registry
resolve_canonical_type-IsJustified_example =
    resolve_canonical_type-IsJustified sample_host less read_native_fields salesforce "Account"
      "001" config registry "person" tt tt refl
