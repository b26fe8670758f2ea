-- ===== src/Engine/World.antt =====
-- src/engine/syncEngine.ts: what processing a job leaves of the state of the services.
use hubspot_salesforce_conne.Prelude.{
  ℕ, String, ◌⊎◌, false, ◌≡◌, refl, some, Bool-cases, inl, inr, arith,
}
use hubspot_salesforce_conne.Types.{CanonicalRecord}
use hubspot_salesforce_conne.Failure.{Failure, plain, ambiguous_key, missing_required, axios}
use hubspot_salesforce_conne.Exec.{Result, ok, err}
use hubspot_salesforce_conne.Queue.{SyncJob}
use hubspot_salesforce_conne.Engine.{
  Services, Texts, Options, State, is_deleted, is_skipped, attempt, found_record, recover, schedule,
  settle, process,
}

module _ {W : Type 0} (v : Services W) (t : Texts) (opts : Options) (now : ℕ) (job : SyncJob) where
  schedule-world :
      (message : String) (s : State W) → (schedule v t opts now job message s).world ≡ s.world
  unfolding schedule
  schedule-world message s = ground arith

  recover-world : (e : Failure) (s : State W) → (recover v t opts now job e s).world ≡ s.world
  unfolding recover
  recover-world (ambiguous_key plan) s = refl
  recover-world (plain m) s = schedule-world _ s
  recover-world (missing_required labels) s = schedule-world _ s
  recover-world (axios e) s = schedule-world _ s

  settle-world :
      (r : Result (Unit {0})) (s : State W) → (settle v t opts now job (r, s)).world ≡ s.world
  unfolding settle
  settle-world (ok tt) s = refl
  settle-world (err e) s = recover-world e s

  process-world :
      (s : State W) → (process v t opts now job s).world ≡ (attempt v t opts now job s).1.world
  unfolding process
  process-world s = settle-world _ _

  module _ (Q : W → Type 0) (r : CanonicalRecord) (s : State W) (w1 w2 : W)
      (live : is_deleted job.event.change_type ≡ false)
      (found : v.read job.event.system job.event.type job.event.source_id s.world
        ≡ (ok (some r), w1))
      (agreed : v.reconcile r w1 ≡ (ok tt, w2)) where
    attempt-world :
        ((attempt v t opts now job s).1.world ≡ s.world)
        ⊎ ((attempt v t opts now job s).1.world ≡ (v.sync_record r w2).1)
    unfolding attempt found_record
    attempt-world = elim (Bool-cases (is_skipped opts job.event)) [
      | inl skipped ↦ inl (rw (skipped, attempt) refl)
      | inr asked ↦ inr (ground (arith, asked, live, found, agreed))
    ]

    -- what a live event leaves that is skipped, or whose record is read and reconciled
    pub process-carries :
        Q s.world → Q (v.sync_record r w2).1 → Q (process v t opts now job s).world
    process-carries before after = elim attempt-world [
      | inl e ↦ rw (process-world s, e) before
      | inr e ↦ rw (process-world s, e) after
    ]
