-- ===== src/DefaultObjects/Examples.antt =====
-- src/core/defaultObjects.ts: the default objects are accepted.
use hubspot_salesforce_conne.Prelude.{◌≡◌, refl, some, []}
use hubspot_salesforce_conne.Prelude.Dict.{insert}
use hubspot_salesforce_conne.Types.{salesforce}
use hubspot_salesforce_conne.Exec.{ok}
use hubspot_salesforce_conne.IdMap.{configure_natural_key_fields, is_allowed_natural_key_field}
use hubspot_salesforce_conne.Mapping.{no_tables, configure_field_rules, check_rules}
use hubspot_salesforce_conne.Mapping.Examples.{sample_host}
use hubspot_salesforce_conne.Registry.{
  canonical_object_for, canonical_objects_for, configure_object_mappings, register_all,
  register_object_mapping,
}
use hubspot_salesforce_conne.DefaultObjects.{Caches, apply_default_objects, apply_all}

abbrev empty : Caches
empty = record { registry = []; tables = no_tables; key_fields = [] }

accepted : (apply_default_objects sample_host empty).0 ≡ ok tt
unfolding apply_default_objects apply_all configure_field_rules check_rules
    configure_natural_key_fields is_allowed_natural_key_field
accepted = refl

account_is_company :
    canonical_object_for salesforce "Account" (apply_default_objects sample_host empty).1.registry
    ≡ some "company"
unfolding apply_default_objects apply_all configure_field_rules check_rules
    configure_natural_key_fields is_allowed_natural_key_field canonical_object_for
    canonical_objects_for configure_object_mappings register_all register_object_mapping insert
account_is_company = refl
