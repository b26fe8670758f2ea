-- ===== src/Conflict/Merge.antt =====
-- src/core/conflict.ts: what the merged record holds at each field.
use hubspot_salesforce_conne.Prelude.{
  String, ◌≡◌, ◌≢◌, refl, true, ◌||◌, Option, none, some, List, [], ◌∷◌, ◌++◌, if◌then◌else◌,
  contains, dedupe_from, arith, eq_iff, ◌⊎◌, contains-append, contains-dedupe,
}
use hubspot_salesforce_conne.Prelude.Dict.{
  Dict, lookup, insert, keys, lookup-insert, is_some-lookup,
}
use hubspot_salesforce_conne.Types.{SystemId, FieldValue, null, Fields, CanonicalRecord}
use hubspot_salesforce_conne.Conflict.{
  pick_by_system, merged_value, merge_loop, field_merge_of, or_value, newer,
}

-- the field is there, and its value is not `null`
abbrev pub Holds : CanonicalRecord → String → FieldValue → Type 0
Holds r k v = (lookup k r.fields ≡ some v) × (v ≢ null)

-- `x ?? y ?? null` is the first that is not nullish
first_value :
    (x y : Option FieldValue) (v : FieldValue)
    → (x ≡ some v) ⊎ (y ≡ some v)
    → v ≢ null
    → ((x ≡ some (or_value x (or_value y null))) ⊎ (y ≡ some (or_value x (or_value y null))))
      × (or_value x (or_value y null) ≢ null)
first_value none none v h n = ground arith
first_value none (some w) v h n = ground arith
first_value (some u) none v h n = ground arith
first_value (some u) (some w) v h n = ground arith

module _ (a b : CanonicalRecord) (owners : Dict SystemId) where
  lookup-merge_loop :
      (ks : List String) (fields : Fields) (k : String)
      → lookup k (merge_loop a b owners ks fields)
        ≡ (if contains k ks then some (merged_value a b owners k) else lookup k fields)
  unfolding merge_loop
  lookup-merge_loop [] fields k = refl
  lookup-merge_loop (j ∷ ks) fields k = ground (
    arith,
    eq_iff j k,
    lookup-insert j k (merged_value a b owners j) fields,
    lookup-merge_loop ks (insert j (merged_value a b owners j) fields) k,
  )

  -- The merged record has exactly the fields of the two snapshots, each with the value that one
  -- round of the loop computes for it, whatever the order of the fields.
  pub lookup-field_merge_of :
      (k : String)
      → lookup k (field_merge_of a b owners).fields ≡ (
          if contains k (keys a.fields) || contains k (keys b.fields)
          then some (merged_value a b owners k)
          else none)
  unfolding field_merge_of lookup
  lookup-field_merge_of k = ground (
    arith,
    lookup-merge_loop (dedupe_from [] (keys a.fields ++ keys b.fields)) [] k,
    contains-dedupe k (keys a.fields ++ keys b.fields),
    contains-append k (keys a.fields) (keys b.fields),
  )

  merged_value-kept :
      (k : String) (v : FieldValue)
      → Holds a k v ⊎ Holds b k v
      → Holds a k (merged_value a b owners k) ⊎ Holds b k (merged_value a b owners k)
  unfolding merged_value
  merged_value-kept k v h = ground (
    arith,
    first_value (lookup k a.fields) (lookup k b.fields) v,
    first_value (lookup k b.fields) (lookup k a.fields) v,
  )

  Holds-known :
      (k : String) (v : FieldValue)
      → Holds a k v ⊎ Holds b k v
      → (contains k (keys a.fields) || contains k (keys b.fields)) ≡ true
  Holds-known k v h = ground (arith, is_some-lookup k a.fields, is_some-lookup k b.fields)

  -- No data is lost by a merge: where either snapshot holds a value other than `null` for a
  -- field, the merged record holds one for it, and it comes from one of the two snapshots.
  pub field_merge_of-keeps :
      (k : String) (v : FieldValue)
      → Holds a k v ⊎ Holds b k v
      → (w : FieldValue) × (lookup k (field_merge_of a b owners).fields ≡ some w)
        × (Holds a k w ⊎ Holds b k w)
  field_merge_of-keeps k v h = (
    merged_value a b owners k,
    rw (lookup-field_merge_of k, Holds-known k v h),
    merged_value-kept k v h,
  )

  -- For a field with an owner, a value of the owner's snapshot other than `null` wins.
  pub field_merge_of-owned :
      (k : String) (s : SystemId) (v : FieldValue)
      → lookup k owners ≡ some s
      → Holds (pick_by_system a b s) k v
      → lookup k (field_merge_of a b owners).fields ≡ some v
  unfolding merged_value pick_by_system
  field_merge_of-owned k s v owned h =
      rw lookup-field_merge_of
        (ground (arith, is_some-lookup k a.fields, is_some-lookup k b.fields))

  -- For a field without an owner, a value of the newer snapshot other than `null` wins.
  pub field_merge_of-newer :
      (k : String) (v : FieldValue)
      → lookup k owners ≡ none
      → Holds (newer a b) k v
      → lookup k (field_merge_of a b owners).fields ≡ some v
  unfolding merged_value
  field_merge_of-newer k v free h =
      rw lookup-field_merge_of
        (ground (arith, is_some-lookup k a.fields, is_some-lookup k b.fields))
