-- ===== src/Mock/Upsert.antt =====
-- src/connectors/mock/mockConnector.ts: the records as a table of values, and what a write does to
-- it.
use hubspot_salesforce_conne.Prelude.{
  ℕ, String, ◌&&◌, ◌≡◌, refl, Option, none, some, List, [], ◌∷◌, ◌==◌, eq_iff, arith, if◌then◌else◌,
  or_else, is_some, inl, inr, Bool-cases,
}
use hubspot_salesforce_conne.Prelude.Dict.{
  lookup, insert, keys, lookup-insert, Distinct, Distinct-insert, is_some-lookup,
}
use hubspot_salesforce_conne.Types.{SystemId, FieldValue, Fields, CanonicalRecord, Operation}
use hubspot_salesforce_conne.Host.{Host}
use hubspot_salesforce_conne.Mapping.{
  FieldRule, Tables, from_canonical_fields, from_canonical_loop, is_written, write_rule,
  field_rules,
}
use hubspot_salesforce_conne.Mock.{
  State, NativeRecord, assign, bucket, emit, merged, upsert, peek, old_fields,
}

lookup-assign_nothing :
    (more : Fields) (out : Fields) (k : String)
    → lookup k (assign out more) ≡ or_else (lookup k (assign [] more)) (lookup k out)
unfolding assign lookup
lookup-assign_nothing [] out k = refl
lookup-assign_nothing ((j, v) ∷ more) out k = ground (
  arith,
  lookup-assign_nothing more (insert j v out) k,
  lookup-assign_nothing more (insert j v []) k,
  lookup-insert j k v out,
  lookup-insert j k v [],
)

lookup-assign-Distinct :
    (more : Fields) (k : String) → Distinct (keys more) → lookup k (assign [] more) ≡ lookup k more
unfolding assign lookup
lookup-assign-Distinct [] k h = refl
lookup-assign-Distinct ((j, v) ∷ more) k (n, h) = ground (
  arith,
  n,
  eq_iff j k,
  is_some-lookup j more,
  lookup-assign-Distinct more k h,
  lookup-assign_nothing more (insert j v []) k,
  lookup-insert j k v [],
)

module _ (host : Host) (tables : Tables) (system : SystemId) where
  from_canonical_loop-Distinct :
      (type : String) (fields : Fields) (rules : List FieldRule) (out : Fields)
      → Distinct (keys out)
      → Distinct (keys (from_canonical_loop host tables system type fields rules out))
  unfolding from_canonical_loop
  from_canonical_loop-Distinct type fields [] out h = h
  from_canonical_loop-Distinct type fields (rule ∷ rules) out h =
      elim (Bool-cases (is_written host tables system type fields rule)) [
        | inl written ↦ rw written (
            from_canonical_loop-Distinct type fields rules _
              (Distinct-insert rule.native (write_rule host tables system type fields rule) out h))
        | inr skipped ↦ rw skipped (from_canonical_loop-Distinct type fields rules out h)
      ]

  payload : CanonicalRecord → Fields
  payload r = from_canonical_fields host tables system r.type r.fields

  payload-Distinct : (r : CanonicalRecord) → Distinct (keys (payload r))
  unfolding payload from_canonical_fields
  payload-Distinct r =
      from_canonical_loop-Distinct r.type r.fields (field_rules system r.type tables) [] tt

  lookup-merged :
      (now : ℕ) (r : CanonicalRecord) (id k : String) (existing : Option NativeRecord)
      → lookup k (merged host tables system now r id existing).fields
        ≡ or_else
            (lookup k (from_canonical_fields host tables system r.type r.fields))
            (lookup k (old_fields host tables system existing))
  unfolding merged payload
  lookup-merged now r id k existing = ground (
    arith,
    lookup-assign_nothing (payload r) (old_fields host tables system existing) k,
    lookup-assign-Distinct (payload r) k (payload-Distinct r),
  )

  field_of : String → Option NativeRecord → Option FieldValue
  field_of field none = none
  field_of field (some n) = lookup field n.fields

  lookup-old_fields :
      (field : String) (existing : Option NativeRecord)
      → lookup field (old_fields host tables system existing) ≡ field_of field existing
  unfolding field_of lookup
  lookup-old_fields field none = refl
  lookup-old_fields field (some n) = refl

  -- After a record is written under an id, the values of that record are those of the payload, and
  -- where the payload says nothing those from before; every other value is the one from before. The
  -- result says whether there was a record.
  pub peek-upsert :
      (now : ℕ) (first_8 : String) (r : CanonicalRecord) (id : String) (s : State)
      (type other_id field : String)
      → (peek type other_id field (upsert host tables system now first_8 r (some id) s).1 ≡ (
          if r.type == type && id == other_id
          then or_else
              (lookup field (from_canonical_fields host tables system r.type r.fields))
              (peek type other_id field s)
          else peek type other_id field s))
        × ((upsert host tables system now first_8 r (some id) s).0.operation ≡ (
            if is_some (lookup id (bucket r.type s)) then Operation.updated else Operation.created))
  unfolding peek upsert emit bucket field_of
  peek-upsert now first_8 r id s type other_id field =
      let existing = lookup id (bucket r.type s) in
      let record' = merged host tables system now r id existing in
      let after = insert id record' (bucket r.type s) in
      (
        elim (Bool-cases (r.type == type)) [
          | inr different ↦ ground (arith, different, lookup-insert r.type type after s.store)
          | inl same ↦ ground (
            arith,
            same,
            eq_iff r.type type,
            eq_iff id other_id,
            lookup-insert r.type type after s.store,
            lookup-insert id other_id record' (bucket r.type s),
            lookup-merged now r id field existing,
            lookup-old_fields field existing,
          )
        ],
        refl,
      )
