-- ===== src/Reconciler/Steps.antt =====
-- src/engine/reconciler.ts: the steps on links and on required fields.
use hubspot_salesforce_conne.Prelude.{
  ℕ, suc, ◌-◌, String, Option, none, some, List, [], ◌∷◌, ◌++◌, if◌then◌else◌, concat, dedupe,
  length, ltb, nat_eq, get_or, bind_option,
}
use hubspot_salesforce_conne.Prelude.Dict.{lookup, insert}
use hubspot_salesforce_conne.Prelude.Time.{nat_text, stamp}
use hubspot_salesforce_conne.Types.{
  SystemId, other, system_text, set_system, CanonicalRecord, NaturalKeyQuery,
}
use hubspot_salesforce_conne.Plan.{ReconcilePlan, PlannedAction}
use hubspot_salesforce_conne.Failure.{missing_required, ambiguous_key}
use hubspot_salesforce_conne.Exec.{Exec, ok, pure, throw, gets, modify, ◌>>=◌, ◌>>◌}
use hubspot_salesforce_conne.Mapping.{from_canonical_fields}
use hubspot_salesforce_conne.IdMap.{Link, natural_key_query, by_source, by_natural_key}
use hubspot_salesforce_conne.Schema.{SchemaField}
use hubspot_salesforce_conne.Reconciler.Base.{
  Connectors, Context, State, call, schema_by_name, missing_labels, writable_rules,
}

module _ {W : Type 0} (v : Connectors W) (c : Context) (now : ℕ) where
  unfoldable pub describe_cached : SystemId → String → Exec (State W) (List SchemaField)
  describe_cached system type s =
      let key = concat (system_text system ∷ ":" ∷ type ∷ []) in
      let fetch : Exec (State W) (List SchemaField) = (do
        fields ← call (v.describe system type)
        modify (λ s. record s { schema_cache = insert key (fields, now) s.schema_cache })
        pure fields) in
      elim (lookup key s.schema_cache) [
        | none ↦ fetch s
        | some (fields, fetched_at) ↦
            if ltb (now - fetched_at) 300000 then (ok fields, s) else fetch s
      ]

  -- `if (missing.length) throw ...`
  none_missing : List String → Exec (State W) (Unit {0})
  none_missing [] = pure tt
  none_missing (label ∷ labels) = throw (missing_required (label ∷ labels))

  unfoldable pub check_required_fields : SystemId → CanonicalRecord → Exec (State W) (Unit {0})
  unfolding describe_cached none_missing schema_by_name
  check_required_fields to r =
      let rules = writable_rules c to r.type in
      let payload = from_canonical_fields c.host c.tables to r.type r.fields in
      if nat_eq (length rules) 0 then pure tt else (do
        schema ← describe_cached to r.type
        none_missing (missing_labels c.host (schema_by_name c.host schema []) payload rules))

  -- the plan of an `AmbiguousNaturalKeyError`
  unfoldable pub ambiguous_plan :
      Option String → CanonicalRecord → NaturalKeyQuery → List CanonicalRecord → ReconcilePlan
  ambiguous_plan canonical_id source query candidates = record {
    canonical_id = canonical_id;
    type = source.type;
    from = source.meta.source;
    to = other source.meta.source;
    source_id = source.meta.source_id;
    target_id = none;
    natural_key = some query.key;
    action = PlannedAction.ambiguous;
    field_diff = [];
    warnings =
        concat (nat_text (length candidates) ∷ " target records share this natural key" ∷ []) ∷ [];
  }

  -- the id of the only candidate, or of none
  candidate_id : List CanonicalRecord → Option String
  candidate_id [] = none
  candidate_id (r ∷ rest) = some r.meta.source_id

  new_link : CanonicalRecord → Option NaturalKeyQuery → Exec (State W) Link
  unfolding ambiguous_plan candidate_id
  new_link source query = do
    drawn ← gets (λ (s : State W). s.drawn)
    modify (λ s. record s { drawn = suc s.drawn })
    let from = source.meta.source
    let link : Link = record {
      canonical_id = c.random_uuid drawn;
      type = source.type;
      ids = set_system from (some source.meta.source_id) (record { sf = none; hs = none });
      hashes = record { sf = none; hs = none };
      modified_at = record { sf = none; hs = none };
      natural_keys = some (elim query [ none ↦ [] | some q ↦ q.key ∷ [] ]);
      updated_at = stamp now;
    }
    elim query [
      | none ↦ pure link
      | some q ↦ (do
        candidates ← call (v.find_by_natural_key (other from) source.type q)
        if ltb 1 (length candidates)
            then throw (ambiguous_key (ambiguous_plan none source q candidates))
            else elim (candidate_id candidates) [
              | none ↦ pure link
              | some id ↦ pure (record link { ids = set_system (other from) (some id) link.ids })
            ])
    ]

  -- a link that the natural key found, with the source's id and key
  joined : CanonicalRecord → NaturalKeyQuery → Link → Link
  joined source q link = record link {
    ids = set_system source.meta.source (some source.meta.source_id) link.ids;
    natural_keys = some (dedupe (get_or link.natural_keys [] ++ (q.key ∷ [])));
  }

  unfoldable pub find_or_create_link : CanonicalRecord → Exec (State W) Link
  unfolding new_link joined
  find_or_create_link source s =
      let query = natural_key_query c.host c.key_fields source in
      elim (by_source source.meta.source source.meta.source_id s.id_map) [
        | some existing ↦ (ok existing, s)
        | none ↦ elim (bind_option query (λ q. by_natural_key source.type q.key s.id_map)) [
          | none ↦ new_link source query s
          | some by_key ↦ elim query [
            | none ↦ new_link source none s
            | some q ↦ (ok (joined source q by_key), s)
          ]
        ]
      ]
