-- ===== src/Engine/Outcome.antt =====
-- src/engine/syncEngine.ts: how a processed job is left.
use hubspot_salesforce_conne.Prelude.{
  ℕ, ◌+◌, ◌≤◌, ◌<◌, String, ◌≡◌, refl, ◌⊎◌, inl, inr, Bool-cases, arith, get_or, leb, leb→le,
}
use hubspot_salesforce_conne.Prelude.Time.{stamp}
use hubspot_salesforce_conne.Failure.{Failure, plain, missing_required, ambiguous_key, axios}
use hubspot_salesforce_conne.Exec.{Result, ok, err}
use hubspot_salesforce_conne.Queue
use hubspot_salesforce_conne.Queue.{
  SyncJob, Store, update_job, to_completed, to_retry, to_dead_letter, to_manual_review,
}
use hubspot_salesforce_conne.Engine.{
  Services, Texts, Options, State, process, attempt, recover, backoff, schedule, settle,
}

abbrev pub approval : String
approval = "delete requires operator approval"

abbrev pub max_attempts : Options → ℕ
max_attempts opts = get_or opts.max_attempts 8

module _ {W : Type 0} (v : Services W) (t : Texts) (opts : Options) where
  attempt-store :
      (now : ℕ) (job : SyncJob) (s : State W)
      → ((attempt v t opts now job s).0 ≡ ok tt
          → ((attempt v t opts now job s).1.store ≡ Queue.complete job.id s.store)
            ⊎ ((attempt v t opts now job s).1.store
                ≡ Queue.manual_review_job job.id approval s.store))
        × ((e : Failure)
            → (attempt v t opts now job s).0 ≡ err e
            → (attempt v t opts now job s).1.store ≡ s.store)
  unfolding attempt
  attempt-store now job s = (λ h. ground arith, λ e h. ground arith)

-- How one run of `process` at `now` can leave the queue: always by a change of that job alone.
pub data IsSettled (opts : Options) (now : ℕ) (job : SyncJob) (before after : Store) : Type 0 where
  completes : after ≡ Queue.complete job.id before → IsSettled opts now job before after
  reviews :
      (message : String)
      → after ≡ Queue.manual_review_job job.id message before
      → IsSettled opts now job before after
  retries :
      (message : String)
      → job.attempts < max_attempts opts
      → after ≡ Queue.retry_job job.id message (stamp (now + backoff job.attempts)) before
      → IsSettled opts now job before after
  gives_up :
      (message : String)
      → max_attempts opts ≤ job.attempts
      → after ≡ Queue.dead_letter_job job.id message before
      → IsSettled opts now job before after

Result-cases : (r : Result (Unit {0})) → (r ≡ ok tt) ⊎ ((e : Failure) × (r ≡ err e))
Result-cases (ok tt) = inl refl
Result-cases (err e) = inr (e, refl)

module _ {W : Type 0} (v : Services W) (t : Texts) (opts : Options) (now : ℕ) (job : SyncJob) where
  schedule-IsSettled :
      (message : String) (s : State W)
      → IsSettled opts now job s.store (schedule v t opts now job message s).store
  unfolding schedule
  schedule-IsSettled message s = elim (Bool-cases (leb (max_attempts opts) job.attempts)) [
    | inl spent ↦ gives_up message (leb→le _ _ spent) (rw spent)
    | inr left ↦ retries message (ground arith) (rw left)
  ]

  recover-IsSettled :
      (e : Failure) (s : State W)
      → IsSettled opts now job s.store (recover v t opts now job e s).store
  unfolding recover
  recover-IsSettled (ambiguous_key plan) s = reviews _ refl
  recover-IsSettled (plain m) s = schedule-IsSettled _ s
  recover-IsSettled (missing_required labels) s = schedule-IsSettled _ s
  recover-IsSettled (axios e) s = schedule-IsSettled _ s

  settle-IsSettled :
      (r : Result (Unit {0})) (before : Store) (s : State W)
      → (r ≡ ok tt → IsSettled opts now job before s.store)
      → ((e : Failure) → r ≡ err e → s.store ≡ before)
      → IsSettled opts now job before (settle v t opts now job (r, s)).store
  unfolding settle
  settle-IsSettled (ok tt) before s done failed = done refl
  settle-IsSettled (err e) before s done failed = rw (← failed e refl) (recover-IsSettled e s)

  -- Whatever the services do or throw, processing a job changes nothing in the queue but that job:
  -- it completes it, hands it to an operator, schedules it once more while it has attempts left
  -- (at `now` plus the backoff of its attempts), or gives it up when it has none left.
  pub process-IsSettled :
      (s : State W) → IsSettled opts now job s.store (process v t opts now job s).store
  unfolding process
  process-IsSettled s =
      let (succeeds, fails) = attempt-store v t opts now job s in
      settle-IsSettled (attempt v t opts now job s).0 s.store (attempt v t opts now job s).1
        (λ e. elim (succeeds e) [ inl h ↦ completes h | inr h ↦ reviews approval h ]) fails
