-- ===== src/Mapping/Examples.antt =====
-- src/core/mapping.ts: the contact's mapping on two systems, and the theorems at it.
use hubspot_salesforce_conne.Prelude.{String, false, none, List, [], ◌∷◌}
use hubspot_salesforce_conne.Types.{hubspot, str, Fields}
use hubspot_salesforce_conne.Host.{Host}
use hubspot_salesforce_conne.Mapping.{
  FieldRule, Tables, no_tables, Properties, scalar, done, property, check_rules,
  configure_field_rules,
}

-- a runtime for texts in lower case without blanks, none of which is a URL, a date or a number
abbrev pub sample_host : Host
sample_host = record {
  trim = λ s. s;
  lower_case = λ s. s;
  hostname = λ s. none;
  strip_www = λ s. s;
  dial_characters = λ s. s;
  alphanumeric = λ s. s;
  number = λ v. none;
  iso_date = λ v. none;
  epoch_millis = λ v. none;
}

abbrev rule : String → String → FieldRule
rule canonical native = record {
  canonical = canonical;
  native = native;
  to_canonical = none;
  from_canonical = none;
  read_only = false;
  source_of_truth = none;
}

abbrev rules : List FieldRule
rules = rule "email" "email" ∷ rule "phone" "mobilephone" ∷ []

-- the tables once the contact of HubSpot is configured
abbrev pub tables : Tables
unfolding configure_field_rules check_rules
tables = (configure_field_rules sample_host hubspot "contact" rules no_tables).1

abbrev native : Properties
native = property "email" (scalar (str "a@b.c")) (property "mobilephone" (scalar (str "12")) done)

abbrev fields : Fields
fields = ("email", str "a@b.c") ∷ ("name", str "Ann") ∷ []
