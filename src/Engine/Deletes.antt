-- ===== src/Engine/Deletes.antt =====
-- src/engine/syncEngine.ts: when a deletion reaches the other system.
use hubspot_salesforce_conne.Prelude.{
  ℕ, String, ◌≡◌, ◌≢◌, true, false, Option, some, ◌⊎◌, arith, get_or,
}
use hubspot_salesforce_conne.Types.{other}
use hubspot_salesforce_conne.Failure.{plain}
use hubspot_salesforce_conne.Exec.{ok, err}
use hubspot_salesforce_conne.Queue
use hubspot_salesforce_conne.Queue.{SyncJob}
use hubspot_salesforce_conne.Engine.{
  DeletePolicy, cascade, manual_review, DeletionInput, Services, Texts, Options, State, process,
  attempt, recover, is_skipped, is_deleted,
}
use hubspot_salesforce_conne.Engine.Operations.{is_pending_delete, approve_delete}
use hubspot_salesforce_conne.Engine.Outcome.{approval}

abbrev pub policy_of : Options → DeletePolicy
policy_of opts = get_or opts.delete_policy manual_review

-- the entry that the governance store receives
abbrev pub deletion_of : Options → SyncJob → DeletionInput
deletion_of opts job = record {
  job_id = job.id;
  event = job.event;
  target_system = other job.event.system;
  policy = policy_of opts;
}

module _ {W : Type 0} (v : Services W) (t : Texts) (opts : Options) (now : ℕ) (job : SyncJob) where
  -- Under any policy but `cascade`, processing a deletion only records it: the connectors and the
  -- reconciler are not called, so that no record is deleted in the other system.
  pub process-records_only :
      (s : State W)
      → is_deleted job.event.change_type ≡ true
      → is_skipped opts job.event ≡ false
      → policy_of opts ≢ cascade
      → (process v t opts now job s).world ≡ (v.record_deletion (deletion_of opts job) s.world).1
  unfolding process attempt recover
  process-records_only s deleted processed careful = ground arith

  -- Once a deletion is recorded, the job waits for an operator under `manual-review`, and is
  -- completed under `ignore`.
  pub process-recorded_delete :
      (s : State W)
      → is_deleted job.event.change_type ≡ true
      → is_skipped opts job.event ≡ false
      → policy_of opts ≢ cascade
      → (v.record_deletion (deletion_of opts job) s.world).0 ≡ ok tt
      → ((policy_of opts ≡ manual_review)
          × ((process v t opts now job s).store ≡ Queue.manual_review_job job.id approval s.store))
        ⊎ ((policy_of opts ≡ DeletePolicy.ignore)
            × ((process v t opts now job s).store ≡ Queue.complete job.id s.store))
  unfolding process attempt recover
  process-recorded_delete s deleted processed careful recorded = ground arith

module _ {W : Type 0} (v : Services W) where
  -- `approve_delete` deletes for a stored deletion that waits for an operator; for any other job,
  -- and for an unknown id, it throws and changes nothing.
  pub approve_delete-guard :
      (id : String) (actor : Option String) (s : State W)
      → ((job : SyncJob) → Queue.get id s.store ≡ some job → is_pending_delete job ≡ false)
      → approve_delete v id actor s ≡ (err (plain "job is not a pending delete"), s)
  unfolding approve_delete Queue.get
  approve_delete-guard id actor s h = grind (arith, h)
