-- ===== src/Conflict.antt =====
-- src/core/conflict.ts: which of two snapshots of a record wins.
mod Examples
pub mod Merge
pub mod Order
use hubspot_salesforce_conne.Prelude.{
  String, Bool, true, false, Option, none, some, List, [], ◌∷◌, ◌++◌, ◌==◌, if◌then◌else◌, get_or,
  concat, dedupe,
}
use hubspot_salesforce_conne.Prelude.Dict.{Dict, lookup, insert, keys}
use hubspot_salesforce_conne.Prelude.Time.{not_before}
use hubspot_salesforce_conne.Types.{
  SystemId, system_eq, system_text, FieldValue, null, Fields, CanonicalRecord,
}

pub data ConflictStrategy : Type 0 where
  source_of_truth last_write_wins field_merge : ConflictStrategy

-- the two settings of `env` (src/config/env.ts) that stand in for absent options
pub record Env : Type 0 where
  pub conflict_strategy : ConflictStrategy
  pub source_of_truth : SystemId

pub record ResolveOptions : Type 0 where
  pub strategy : Option ConflictStrategy
  pub source_of_truth : Option SystemId
  pub field_owners : Dict SystemId

pub record Resolution : Type 0 where
  pub winner : CanonicalRecord
  pub reason : String

-- `a ?? b` on field values: `null` and an absent field give way
abbrev pub or_value : Option FieldValue → FieldValue → FieldValue
or_value none d = d
or_value (some null) d = d
or_value (some v) d = v

unfoldable pub pick_by_system : CanonicalRecord → CanonicalRecord → SystemId → CanonicalRecord
pick_by_system a b system = if system_eq a.meta.source system then a else b

-- the test of `newer`: is the first the primary?
abbrev pub is_newer : CanonicalRecord → CanonicalRecord → Bool
is_newer a b = not_before a.meta.modified_at b.meta.modified_at

unfoldable pub newer : CanonicalRecord → CanonicalRecord → CanonicalRecord
newer a b = if is_newer a b then a else b

-- `primary === a ? b : a`
unfoldable pub older : CanonicalRecord → CanonicalRecord → CanonicalRecord
older a b = if is_newer a b then b else a

-- one round of the loop of `fieldMerge`, as the value that it sets
unfoldable pub merged_value :
    CanonicalRecord → CanonicalRecord → Dict SystemId → String → FieldValue
unfolding newer older
merged_value a b owners key = elim (lookup key owners) [
  | some owner ↦
      let owned = if system_eq a.meta.source owner then a else b in
      let fallback = if system_eq a.meta.source owner then b else a in
      or_value (lookup key owned.fields) (or_value (lookup key fallback.fields) null)
  | none ↦ or_value (lookup key (newer a b).fields) (or_value (lookup key (older a b).fields) null)
]

-- the loop, over the keys that are left
unfoldable pub merge_loop :
    CanonicalRecord → CanonicalRecord → Dict SystemId → List String → Fields → Fields
merge_loop a b owners [] fields = fields
merge_loop a b owners (key ∷ rest) fields =
    merge_loop a b owners rest (insert key (merged_value a b owners key) fields)

unfoldable pub field_merge_of : CanonicalRecord → CanonicalRecord → Dict SystemId → CanonicalRecord
unfolding newer merge_loop
field_merge_of a b owners = record (newer a b) {
  fields = merge_loop a b owners (dedupe (keys a.fields ++ keys b.fields)) [];
}

resolve_by :
    ConflictStrategy → SystemId → CanonicalRecord → CanonicalRecord → Dict SystemId → Resolution
resolve_by source_of_truth system a b owners = record {
  winner = pick_by_system a b system;
  reason = concat ("source-of-truth:" ∷ system_text system ∷ []);
}
resolve_by last_write_wins system a b owners = record {
  winner = newer a b;
  reason = "last-write-wins";
}
resolve_by field_merge system a b owners = record {
  winner = field_merge_of a b owners;
  reason = "field-merge";
}

-- `none` is the throw for two absent records
unfoldable pub resolve :
    Env → Option CanonicalRecord → Option CanonicalRecord → ResolveOptions → Option Resolution
unfolding resolve_by
resolve env (some a) none opts = some (record { winner = a; reason = "only-a" })
resolve env none (some b) opts = some (record { winner = b; reason = "only-b" })
resolve env none none opts = none
resolve env (some a) (some b) opts = some (
    resolve_by (get_or opts.strategy env.conflict_strategy)
      (get_or opts.source_of_truth env.source_of_truth) a b opts.field_owners)
