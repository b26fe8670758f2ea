-- ===== src/Wired.antt =====
-- src/app.ts: the sync engine over the reconciler and the association engine, as the composition
-- root puts them together. Each of the three writes to an activity log of its own here, where the
-- program gives all of them the same one.
pub mod Echo
mod Examples
use hubspot_salesforce_conne.Prelude.{ℕ, String, Option, some}
use hubspot_salesforce_conne.Prelude.Dict.{Dict}
use hubspot_salesforce_conne.Types.{CanonicalRecord, ChangeEvent}
use hubspot_salesforce_conne.Exec.{Exec, Result, ok, err}
use hubspot_salesforce_conne.SyncConfig.{SyncConfig, sync_allows}
use hubspot_salesforce_conne.Reconciler
use hubspot_salesforce_conne.Reconciler.Base.{Context}
use hubspot_salesforce_conne.Associations
use hubspot_salesforce_conne.Associations.{AssociationLink, SyncCounts}
use hubspot_salesforce_conne.Engine.{Services, DeletionInput, Options, DeletePolicy}

-- the store of deletions that wait for an operator
pub record Governance (W : Type 0) : Type 0 where
  pub record_deletion : DeletionInput → Exec W (Unit {0})
  pub complete_deletion : String → Option String → Exec W (Unit {0})

-- what the three parts keep: the reconciler's state, and the stored relationships
pub record Wired (W : Type 0) : Type 0 where
  pub sync : Reconciler.Base.State W
  pub links : Dict AssociationLink

-- `await` of a call whose result is dropped
abbrev pub dropped : {A : Type 0} → Result A → Result (Unit {0})
dropped (ok a) = ok tt
dropped (err e) = err e

module _ {W : Type 0} where
  abbrev pub on_sync : {A : Type 0} → Exec (Reconciler.Base.State W) A → Exec (Wired W) A
  on_sync m s = let (r, sync) = m s.sync in (r, record s { sync = sync })

  abbrev pub on_world : {A : Type 0} → Exec W A → Exec (Wired W) A
  on_world m = on_sync (Reconciler.Base.call m)

  -- the association engine looks ends up in the reconciler's identity map
  abbrev pub association_state : Wired W → Associations.State W
  association_state s = record { world = s.sync.world; links = s.links; activity = s.sync.activity }

  abbrev pub after_associations :
      Wired W → Result SyncCounts × Associations.State W → Result (Unit {0}) × Wired W
  after_associations s (r, after) = (
    dropped r,
    record s {
      sync = record s.sync { world = after.world; activity = after.activity };
      links = after.links;
    },
  )

  module _ (v : Reconciler.Base.Connectors W) (a : Associations.Connectors W) (g : Governance W)
      (c : Context) (uuid first_8 : String → String) (now : ℕ) where
    unfoldable pub sync_record : CanonicalRecord → Exec (Wired W) (Unit {0})
    sync_record r s =
        after_associations s
          (Associations.sync_record a uuid s.sync.id_map now r (association_state s))

    -- what `new SyncEngine(connectors, reconciler, …, { associations, governance })` calls
    abbrev pub services : Services (Wired W)
    services = record {
      read = λ system type id. on_world (v.read system type id);
      reconcile = λ r. on_sync (Reconciler.reconcile v c now first_8 r);
      propagate_delete = λ event. on_sync (Reconciler.propagate_delete v c now event);
      sync_record = sync_record;
      record_deletion = λ input. on_world (g.record_deletion input);
      complete_deletion = λ id actor. on_world (g.complete_deletion id actor);
    }

-- the options that the composition root gives, with the settings at the time of the call
abbrev pub options : Option ℕ → Option ℕ → Option DeletePolicy → SyncConfig → Options
options concurrency max_attempts policy config = record {
  concurrency = concurrency;
  max_attempts = max_attempts;
  delete_policy = policy;
  should_process = some (λ event. sync_allows config event.type event.system);
}
