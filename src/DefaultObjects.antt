-- ===== src/DefaultObjects.antt =====
-- src/core/defaultObjects.ts: the objects that a tenant starts with.
pub mod Examples
use hubspot_salesforce_conne.Prelude.{
  String, Bool, true, false, Option, none, some, List, [], ◌∷◌, map,
}
use hubspot_salesforce_conne.Types.{SystemId, salesforce, hubspot, PerSystem}
use hubspot_salesforce_conne.Exec.{Exec, pure, ◌>>=◌, ◌>>◌}
use hubspot_salesforce_conne.Host.{Host}
use hubspot_salesforce_conne.IdMap.{KeyFields, configure_natural_key_fields}
use hubspot_salesforce_conne.Mapping.{FieldRule, Tables, configure_field_rules}
use hubspot_salesforce_conne.Mapping.Transform.{TransformId, domain, lowercase}
use hubspot_salesforce_conne.Registry.{Registry, ObjectRegistration, configure_object_mappings}

pub record DefaultObject : Type 0 where
  pub canonical_object : String
  pub label : String
  pub salesforce_object : String
  pub hubspot_object : String
  pub natural_key_fields : List String
  pub field_rules : PerSystem (List FieldRule)

abbrev rule : String → String → FieldRule
rule canonical native = record {
  canonical = canonical;
  native = native;
  to_canonical = none;
  from_canonical = none;
  read_only = false;
  source_of_truth = none;
}

abbrev read_only_rule : String → String → FieldRule
read_only_rule canonical native = record (rule canonical native) { read_only = true }

abbrev converted_rule : String → String → TransformId → FieldRule
converted_rule canonical native transform = record (rule canonical native) {
  to_canonical = some transform;
}

abbrev pub contact_object : DefaultObject
contact_object = record {
  canonical_object = "contact";
  label = "Contact";
  salesforce_object = "Contact";
  hubspot_object = "contacts";
  natural_key_fields = "email" ∷ [];
  field_rules = record {
    sf =
        rule "firstName" "FirstName"
        ∷ rule "lastName" "LastName"
        ∷ rule "email" "Email"
        ∷ rule "phone" "Phone"
        ∷ rule "title" "Title"
        ∷ rule "ownerId" "OwnerId"
        ∷ read_only_rule "companyName" "Account.Name"
        ∷ [];
    hs =
        rule "firstName" "firstname"
        ∷ rule "lastName" "lastname"
        ∷ rule "email" "email"
        ∷ rule "phone" "phone"
        ∷ rule "title" "jobtitle"
        ∷ rule "companyName" "company"
        ∷ rule "ownerId" "hubspot_owner_id"
        ∷ [];
  };
}

abbrev pub company_object : DefaultObject
company_object = record {
  canonical_object = "company";
  label = "Company";
  salesforce_object = "Account";
  hubspot_object = "companies";
  natural_key_fields = "domain" ∷ [];
  field_rules = record {
    sf =
        rule "name" "Name"
        ∷ converted_rule "domain" "Website" domain
        ∷ rule "phone" "Phone"
        ∷ rule "industry" "Industry"
        ∷ rule "employeeCount" "NumberOfEmployees"
        ∷ rule "ownerId" "OwnerId"
        ∷ [];
    hs =
        rule "name" "name"
        ∷ converted_rule "domain" "domain" domain
        ∷ rule "phone" "phone"
        ∷ rule "industry" "industry"
        ∷ rule "employeeCount" "numberofemployees"
        ∷ rule "ownerId" "hubspot_owner_id"
        ∷ [];
  };
}

abbrev pub deal_object : DefaultObject
deal_object = record {
  canonical_object = "deal";
  label = "Deal";
  salesforce_object = "Opportunity";
  hubspot_object = "deals";
  natural_key_fields = "name" ∷ "closeDate" ∷ [];
  field_rules = record {
    sf =
        rule "name" "Name"
        ∷ rule "amount" "Amount"
        ∷ converted_rule "stage" "StageName" lowercase
        ∷ rule "closeDate" "CloseDate"
        ∷ read_only_rule "pipeline" "RecordTypeId"
        ∷ rule "ownerId" "OwnerId"
        ∷ [];
    hs =
        rule "name" "dealname"
        ∷ rule "amount" "amount"
        ∷ converted_rule "stage" "dealstage" lowercase
        ∷ rule "closeDate" "closedate"
        ∷ rule "pipeline" "pipeline"
        ∷ rule "ownerId" "hubspot_owner_id"
        ∷ [];
  };
}

abbrev pub default_objects : List DefaultObject
default_objects = contact_object ∷ company_object ∷ deal_object ∷ []

abbrev pub registration : DefaultObject → ObjectRegistration
registration o = record {
  canonical_object = o.canonical_object;
  label = o.label;
  salesforce_object = some o.salesforce_object;
  hubspot_object = some o.hubspot_object;
}

-- the in-process registry, mapping tables and natural keys
pub record Caches : Type 0 where
  pub registry : Registry
  pub tables : Tables
  pub key_fields : KeyFields

module _ (host : Host) where
  configure_rules : SystemId → String → List FieldRule → Exec Caches (Unit {0})
  configure_rules system type rules c =
      let (result, tables) = configure_field_rules host system type rules c.tables in
      (result, record c { tables = tables })

  configure_keys : String → List String → Exec Caches (Unit {0})
  configure_keys type fields c =
      let (result, key_fields) = configure_natural_key_fields host type fields c.key_fields in
      (result, record c { key_fields = key_fields })

  -- the loop of `applyDefaultObjects`
  unfoldable pub apply_all : List DefaultObject → Exec Caches (Unit {0})
  unfolding configure_rules configure_keys
  apply_all [] = pure tt
  apply_all (o ∷ rest) = do
    configure_rules salesforce o.canonical_object o.field_rules.sf
    configure_rules hubspot o.canonical_object o.field_rules.hs
    configure_keys o.canonical_object o.natural_key_fields
    apply_all rest

  unfoldable pub apply_default_objects : Exec Caches (Unit {0})
  unfolding apply_all
  apply_default_objects c = apply_all default_objects (record c {
    registry = configure_object_mappings (map registration default_objects) c.registry;
  })
