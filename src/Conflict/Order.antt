-- ===== src/Conflict/Order.antt =====
-- src/core/conflict.ts: the two orders of the snapshots.
use hubspot_salesforce_conne.Prelude.{ℕ, String, ◌≡◌, ◌≢◌, some}
use hubspot_salesforce_conne.Prelude.Dict.{Dict, lookup}
use hubspot_salesforce_conne.Types.{CanonicalRecord}
use hubspot_salesforce_conne.Conflict.{Resolution}

-- Two snapshots of one record in the two systems, changed at different instants.
pub record IsConflict (a b : CanonicalRecord) : Type 0 where
  pub systems : a.meta.source ≢ b.meta.source
  pub time_a : ℕ
  pub time_b : ℕ
  pub changed_a : a.meta.modified_at.millis ≡ some time_a
  pub changed_b : b.meta.modified_at.millis ≡ some time_b
  pub apart : time_a ≢ time_b

-- the same record but for the order of its fields
pub record SameRecord (a b : CanonicalRecord) : Type 0 where
  pub canonical_id : a.canonical_id ≡ b.canonical_id
  pub type : a.type ≡ b.type
  pub meta : a.meta ≡ b.meta
  pub fields : (k : String) → lookup k a.fields ≡ lookup k b.fields

-- the same winner, but for the order of its fields, for the same reason
abbrev pub SameResolution : Resolution → Resolution → Type 0
SameResolution r s = SameRecord r.winner s.winner × (r.reason ≡ s.reason)
