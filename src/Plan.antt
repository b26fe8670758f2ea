-- ===== src/Plan.antt =====
-- src/engine/reconciler.ts: the outcome of a preview, as reviewed by an operator.
use hubspot_salesforce_conne.Prelude.{String, Option, List}
use hubspot_salesforce_conne.Types.{SystemId, FieldValue}

pub data PlannedAction : Type 0 where
  create update match skip conflict ambiguous error : PlannedAction

pub record FieldDiff : Type 0 where
  pub field : String
  pub source : Option FieldValue
  pub target : Option FieldValue

pub record ReconcilePlan : Type 0 where
  pub canonical_id : Option String
  pub type : String
  pub from : SystemId
  pub to : SystemId
  pub source_id : String
  pub target_id : Option String
  pub natural_key : Option String
  pub action : PlannedAction
  pub field_diff : List FieldDiff
  pub warnings : List String
