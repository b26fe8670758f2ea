-- ===== src/Conflict/Examples.antt =====
-- src/core/conflict.ts: the theorems at a contact that was edited in both systems.
use hubspot_salesforce_conne.Prelude.{◌≡◌, some, none, [], ◌∷◌, arith, ◌⊎◌}
use hubspot_salesforce_conne.Prelude.Dict.{Dict, lookup}
use hubspot_salesforce_conne.Types.{
  SystemId, salesforce, hubspot, FieldValue, str, null, CanonicalRecord,
}
use hubspot_salesforce_conne.Conflict.{Env, field_merge, ResolveOptions, Resolution, field_merge_of}
use hubspot_salesforce_conne.Conflict.Merge.{Holds, field_merge_of-keeps}

abbrev in_salesforce : CanonicalRecord
in_salesforce = record {
  canonical_id = "";
  type = "contact";
  fields = ("email", str "a@x.org") ∷ ("phone", null) ∷ [];
  associations = none;
  meta = record {
    source = salesforce;
    source_id = "003";
    modified_at = record { text = "t1"; millis = some 1000 };
    deleted = none;
  };
}

abbrev in_hubspot : CanonicalRecord
in_hubspot = record {
  canonical_id = "";
  type = "contact";
  fields = ("phone", str "555") ∷ ("email", str "b@x.org") ∷ [];
  associations = none;
  meta = record {
    source = hubspot;
    source_id = "77";
    modified_at = record { text = "t2"; millis = some 2000 };
    deleted = none;
  };
}

abbrev owners : Dict SystemId
owners = ("email", salesforce) ∷ []

abbrev env : Env
env = record { conflict_strategy = field_merge; source_of_truth = salesforce }

abbrev options : ResolveOptions
options = record { strategy = none; source_of_truth = none; field_owners = owners }

field_merge_of-keeps_example :
    (w : FieldValue) × (lookup "phone" (field_merge_of in_salesforce in_hubspot owners).fields
      ≡ some w)
    × (Holds in_salesforce "phone" w ⊎ Holds in_hubspot "phone" w)
unfolding lookup
field_merge_of-keeps_example =
    field_merge_of-keeps in_salesforce in_hubspot owners "phone" (str "555") (ground arith)

abbrev outcome : CanonicalRecord → CanonicalRecord → Resolution
outcome a b = record { winner = field_merge_of a b owners; reason = "field-merge" }
