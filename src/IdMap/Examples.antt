-- ===== src/IdMap/Examples.antt =====
-- src/core/idMap.ts: a contact's link and keys, and the theorems at them.
use mathlib.Core.Path.{subst}
use hubspot_salesforce_conne.Prelude.{
  String, ◌≡◌, refl, some, none, [], ◌∷◌, ◌==◌, eq_iff, arith, Bool-cases, inl, inr,
}
use hubspot_salesforce_conne.Prelude.Dict.{lookup, insert}
use hubspot_salesforce_conne.Prelude.Time.{stamp}
use hubspot_salesforce_conne.Types.{
  hubspot, str, num, null, Fields, CanonicalRecord, NaturalKeyQuery,
}
use hubspot_salesforce_conne.IdMap.{Link, KeyFields, content_hash}
use hubspot_salesforce_conne.IdMap.ContentHash.{content_hash-order, content_hash-null}

abbrev one : Fields
one = ("email", str "a@b.c") ∷ ("age", num "7") ∷ []

abbrev two : Fields
two = ("age", num "7") ∷ ("email", str "a@b.c") ∷ []

same_fields : (k : String) → lookup k one ≡ lookup k two
unfolding lookup
same_fields k = elim (Bool-cases ("email" == k)) [
  | inl same ↦ subst (λ j. lookup j one ≡ lookup j two) ((eq_iff "email" k).0 same) refl
  | inr other ↦ ground (arith, other)
]

content_hash-order_example : content_hash (λ s. s) one ≡ content_hash (λ s. s) two
content_hash-order_example =
    content_hash-order (λ s. s) one two (refl, (refl, tt)) (refl, (refl, tt)) same_fields

content_hash-null_example :
    content_hash (λ s. s) (insert "city" null one)
    ≡ content_hash (λ s. s) (insert "city" (str "") one)
content_hash-null_example = content_hash-null (λ s. s) "city" one

abbrev configured : KeyFields
configured = ("contact", "email" ∷ []) ∷ []

abbrev contact : CanonicalRecord
contact = record {
  canonical_id = "";
  type = "contact";
  fields = one;
  associations = none;
  meta = record { source = hubspot; source_id = "5"; modified_at = stamp 1000; deleted = none };
}

abbrev query : NaturalKeyQuery
query = record {
  field = "email";
  value = "a@b.c";
  key = "email:a@b.c";
  criteria = record { field = "email"; value = "a@b.c" } ∷ [];
}

abbrev link : Link
link = record {
  canonical_id = "c1";
  type = "contact";
  ids = record { sf = some "003"; hs = some "5" };
  hashes = record { sf = none; hs = none };
  modified_at = record { sf = none; hs = none };
  natural_keys = some ("email:a@b.c" ∷ []);
  updated_at = stamp 0;
}
