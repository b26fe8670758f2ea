-- ===== src/Mock/Examples.antt =====
-- src/connectors/mock/mockConnector.ts: a contact that is seeded, written and removed, and the
-- theorems at it.
use hubspot_salesforce_conne.Prelude.{
  String, Bool, false, ◌≡◌, refl, Option, none, some, [], ◌∷◌, arith, List,
}
use hubspot_salesforce_conne.Prelude.Dict.{lookup, insert}
use hubspot_salesforce_conne.Prelude.Time.{stamp}
use hubspot_salesforce_conne.Types.{hubspot, str, CanonicalRecord}
use hubspot_salesforce_conne.Mapping.{
  FieldRule, Tables, Native, from_canonical_fields, from_canonical_loop, write_rule, field_rules,
  from_canonical_value,
}
use hubspot_salesforce_conne.Mapping.Transform.{transform}
use hubspot_salesforce_conne.Mapping.Examples.{sample_host}
use hubspot_salesforce_conne.SyncConfig.{evaluate_conditions}
use hubspot_salesforce_conne.Mock.{
  State, seed, upsert, merged, assign, emit, peek, bucket, listed, is_listed,
}
use hubspot_salesforce_conne.Mock.Table.{
  Write, put, erase, table_of, perform_all, write_all, table_of-perform_all,
}
use hubspot_salesforce_conne.Mock.Pages.{follow, matching, follow_lem}

abbrev rule : String → String → FieldRule
rule canonical native = record {
  canonical = canonical;
  native = native;
  to_canonical = none;
  from_canonical = none;
  read_only = false;
  source_of_truth = none;
}

abbrev tables : Tables
tables = record {
  rules = record {
    sf = [];
    hs = ("contact", rule "email" "email" ∷ rule "phone" "mobilephone" ∷ []) ∷ [];
  };
  value_mappings = [];
}

abbrev start : State
start = record { store = []; associations = []; deletions = []; emitted = [] }

abbrev seeded : State
unfolding seed bucket lookup insert from_canonical_fields from_canonical_loop write_rule field_rules
    from_canonical_value transform
seeded =
    (seed sample_host tables hubspot 500 "abc" "contact"
      (("email", str "a@b") ∷ ("phone", str "12") ∷ []) start).1

abbrev contact : CanonicalRecord
contact = record {
  canonical_id = "";
  type = "contact";
  fields = ("email", str "c@d") ∷ [];
  associations = none;
  meta = record { source = hubspot; source_id = "003"; modified_at = stamp 500; deleted = none };
}

-- a write of the address keeps the number
keeps_number :
    peek "contact" "hubspot-abc" "mobilephone"
      (upsert sample_host tables hubspot 600 "" contact (some "hubspot-abc") seeded).1
    ≡ some (str "12")
unfolding seeded peek upsert merged assign emit bucket lookup insert from_canonical_fields
    from_canonical_loop write_rule field_rules from_canonical_value transform
keeps_number = refl

abbrev writes : List Write
writes = put 600 contact "hubspot-abc" ∷ erase 700 "contact" "hubspot-abc" ∷ []

table_of-perform_all_example :
    table_of sample_host tables hubspot "" (perform_all sample_host tables hubspot "" writes seeded)
    ≡ write_all sample_host tables hubspot "" writes (table_of sample_host tables hubspot "" seeded)
table_of-perform_all_example = table_of-perform_all sample_host tables hubspot "" writes seeded

abbrev less : Option Native → Option Native → Bool
less a b = false

follow_lem_example :
    follow sample_host tables hubspot less "contact" none none seeded 1 none
    ≡ some (matching sample_host tables hubspot less "contact" none none seeded)
unfolding seeded listed is_listed evaluate_conditions bucket lookup
follow_lem_example =
    follow_lem sample_host tables hubspot less "contact" none none seeded 1 (omega arith)
