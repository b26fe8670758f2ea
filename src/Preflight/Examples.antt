-- ===== src/Preflight/Examples.antt =====
-- src/engine/preflight.ts: two schemas for the contact, and the theorems at them.
use hubspot_salesforce_conne.Prelude.{
  String, Bool, true, false, ◌≡◌, ◌↔◌, refl, ◌≤◌, none, some, [], ◌∷◌, map,
}
use hubspot_salesforce_conne.Prelude.Dict.{lookup, insert}
use hubspot_salesforce_conne.Prelude.Time.{stamp}
use hubspot_salesforce_conne.Types.{salesforce, CanonicalRecord, str}
use hubspot_salesforce_conne.Exec.{Result, ok, err, pure}
use hubspot_salesforce_conne.IdMap.{KeyFields}
use hubspot_salesforce_conne.Mapping.{field_rules, FieldRule, Tables}
use hubspot_salesforce_conne.Mapping.Examples.{sample_host}
use hubspot_salesforce_conne.Schema.{SchemaField, plain_field}
use hubspot_salesforce_conne.Preflight.{
  PreflightReport, by_name, source_issues, target_issues, required_issues, source_issue,
  missing_issue, read_only_issue, mismatch_issue, options_issue, PreflightIssue,
}
use hubspot_salesforce_conne.Preflight.Run.{
  Services, run, check_schemas, report_of, mapping_issues, profile_natural_keys, key_profile,
  keys_of, count_keys, profile_issues,
}
use hubspot_salesforce_conne.Preflight.Sound.{IsGrounded, run_lem}
use hubspot_salesforce_conne.Preflight.Unique.{occurrences, key_profile_lem}

abbrev field : String → Bool → SchemaField
field name required = record (plain_field name name "string") { required = some required }

-- HubSpot lacks the mobile phone, and requires a name that no rule writes
abbrev services : Services (Unit {0})
services = record {
  describe = λ system type. pure (field "email" false ∷ field "name" true ∷ []);
  list = λ system type. pure [];
  save = λ system type hash fields. pure tt;
}

abbrev rule : String → String → FieldRule
rule canonical native = record {
  canonical = canonical;
  native = native;
  to_canonical = none;
  from_canonical = none;
  read_only = false;
  source_of_truth = none;
}

abbrev tables : Tables
tables = record {
  rules = record {
    sf = [];
    hs = ("contact", rule "email" "email" ∷ rule "phone" "mobilephone" ∷ []) ∷ [];
  };
  value_mappings = [];
}

abbrev key_fields : KeyFields
key_fields = ("contact", "email" ∷ []) ∷ []

abbrev contact : String → CanonicalRecord
contact email = record {
  canonical_id = "";
  type = "contact";
  fields = ("email", str email) ∷ [];
  associations = none;
  meta = record { source = salesforce; source_id = "003"; modified_at = stamp 500; deleted = none };
}

abbrev report : PreflightReport
unfolding run check_schemas report_of mapping_issues profile_natural_keys profile_issues key_profile
    keys_of count_keys by_name source_issues target_issues required_issues source_issue
    missing_issue read_only_issue mismatch_issue options_issue field_rules lookup insert
report =
    given
      (run services sample_host key_fields tables (λ fields. "hash") 1000 salesforce "contact" tt)
  where
    given : Result PreflightReport × (Unit {0}) → PreflightReport
    given (ok r, w) = r
    given (err e, w) =
        report_of services sample_host key_fields tables (λ fields. "hash") 1000 salesforce
          "contact" [] [] []

finds_two :
    map (λ (issue : PreflightIssue). issue.code) report.issues
    ≡ "TARGET_FIELD_MISSING" ∷ "REQUIRED_TARGET_UNMAPPED" ∷ []
unfolding report
finds_two = refl

run_lem_example :
    IsGrounded services sample_host key_fields tables
      (λ fields. "hash")
      1000
      salesforce
      "contact"
      tt
      report
unfolding report
run_lem_example =
    run_lem services sample_host key_fields tables (λ fields. "hash") 1000 salesforce "contact" tt
      tt report refl

key_profile_lem_example :
    ((key_profile sample_host key_fields (contact "a@b" ∷ contact "a@b" ∷ [])).duplicates ≡ 0) ↔ (
      (key : String)
      → occurrences key (keys_of sample_host key_fields (contact "a@b" ∷ contact "a@b" ∷ [])) ≤ 1)
key_profile_lem_example =
    key_profile_lem sample_host key_fields (contact "a@b" ∷ contact "a@b" ∷ [])
