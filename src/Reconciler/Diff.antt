-- ===== src/Reconciler/Diff.antt =====
-- src/engine/reconciler.ts: the differences that a preview shows.
use hubspot_salesforce_conne.Prelude.{
  eq_iff, arith, ◌≡◌, refl, ◌∙◌, ap, contains-dedupe, contains-append, Bool-cases, Option-cases,
}
use hubspot_salesforce_conne.Prelude.{
  String, Bool, not, ◌&&◌, List, [], ◌∷◌, ◌++◌, contains, dedupe, keep, map,
}
use hubspot_salesforce_conne.Prelude.Dict.{lookup, keys}
use hubspot_salesforce_conne.Prelude.Sort.{sort_by}
use hubspot_salesforce_conne.Prelude.Text.{text_le}
use hubspot_salesforce_conne.Types.{Fields}
use hubspot_salesforce_conne.Plan.{FieldDiff}
use hubspot_salesforce_conne.Reconciler.Base.{same_value, diff_fields, differing, diff_entry}
use hubspot_salesforce_conne.Prelude.Dict.{is_some-lookup}
use hubspot_salesforce_conne.IdMap.ContentHash.{contains-sort_by}

contains-keep :
    (p : String → Bool) (k : String) (xs : List String)
    → contains k (keep p xs) ≡ (contains k xs && p k)
contains-keep p k [] = refl
contains-keep p k (x ∷ xs) = ground (arith, contains-keep p k xs, eq_iff x k, Bool-cases (p x))

diff_fields-names :
    (a b : Fields) (xs : List String)
    → map (λ (d : FieldDiff). d.field) (map (diff_entry a b) xs) ≡ xs
diff_fields-names a b [] = refl
diff_fields-names a b (x ∷ xs) = ap (◌∷◌ x) (diff_fields-names a b xs)

-- A preview's differences are for exactly the fields whose values on the two sides differ, where a
-- field that one side lacks counts as a value of its own.
pub diff_fields_lem :
    (source target : Fields) (k : String)
    → contains k (map (λ (d : FieldDiff). d.field) (diff_fields source target))
      ≡ not (same_value (lookup k source) (lookup k target))
unfolding diff_fields differing
diff_fields_lem source target k =
    ap (contains k) (diff_fields-names source target (sort_by text_le (differing source target)))
    ∙ contains-sort_by k (differing source target)
    ∙ contains-keep _ k (dedupe (keys source ++ keys target))
    ∙ ground (
      arith,
      contains-dedupe k (keys source ++ keys target),
      contains-append k (keys source) (keys target),
      is_some-lookup k source,
      is_some-lookup k target,
      Option-cases (lookup k source),
      Option-cases (lookup k target),
    )
