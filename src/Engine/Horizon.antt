-- ===== src/Engine/Horizon.antt =====
-- src/engine/syncEngine.ts: by when the waiting jobs are due.
use hubspot_salesforce_conne.Prelude.{
  ℕ, ◌+◌, ◌≤◌, ◌≡◌, refl, true, Option, none, some, List, [], ◌∷◌, arith, All, All-zip, count_if,
}
use hubspot_salesforce_conne.Prelude.Dict.{Dict, values, adjust, All-adjust}
use hubspot_salesforce_conne.Prelude.Time.{Timestamp, stamp, due_by, millis-stamp}
use hubspot_salesforce_conne.Queue
use hubspot_salesforce_conne.Queue.{
  SyncJob, Store, is_waiting, is_due, start, start_all, picked, claim, update_job,
}
use hubspot_salesforce_conne.Engine.{Options, backoff}
use hubspot_salesforce_conne.Engine.Backoff.{backoff_bounds}
use hubspot_salesforce_conne.Engine.Outcome.{IsSettled, completes, reviews, retries, gives_up}

-- a job that waits is due by some instant
abbrev pub IsReady : ℕ → SyncJob → Type 0
IsReady horizon job = is_waiting job.status ≡ true → due_by horizon job.next_attempt_at ≡ true

-- all jobs that wait are
abbrev pub IsReadyBy : ℕ → Store → Type 0
IsReadyBy horizon s = All (IsReady horizon) (values s.jobs)

due_by-later :
    (t : Timestamp) (m : Option ℕ) (early late : ℕ)
    → t.millis ≡ m
    → early ≤ late
    → due_by early t ≡ true
    → due_by late t ≡ true
due_by-later t none early late e h d = ground (arith, e)
due_by-later t (some m) early late e h d = ground (arith, e)

pub IsReadyBy-later :
    (early late : ℕ) (s : Store) → early ≤ late → IsReadyBy early s → IsReadyBy late s
IsReadyBy-later early late s h r =
    All-zip (values s.jobs)
      (λ job p _.
        λ w. due_by-later job.next_attempt_at job.next_attempt_at.millis early late refl h (p w))
      r r

due_by-stamp : (now horizon : ℕ) → now ≤ horizon → due_by horizon (stamp now) ≡ true
due_by-stamp now horizon h = ground (arith, millis-stamp now)

-- the jobs that are due are all that wait
pub due_of_ready :
    (now : ℕ) (jobs : List SyncJob)
    → All (IsReady now) jobs
    → count_if (λ job. is_waiting job.status) jobs ≡ count_if (is_due now) jobs
due_of_ready now [] r = refl
due_of_ready now (job ∷ jobs) (p, r) = ground (arith, due_of_ready now jobs r)

module _ (horizon : ℕ) where
  start_all-IsReady :
      (chosen : List SyncJob) (m : Dict SyncJob)
      → All (IsReady horizon) (values m)
      → All (IsReady horizon) (values (start_all chosen m))
  unfolding start_all
  start_all-IsReady [] m r = r
  start_all-IsReady (job ∷ rest) m r =
      start_all-IsReady rest (adjust job.id start m)
        (All-adjust (IsReady horizon) job.id start m (λ j p w. cc) r)

  pub claim-IsReadyBy :
      (now l : ℕ) (s : Store) → IsReadyBy horizon s → IsReadyBy horizon (claim now l s).1
  unfolding claim
  claim-IsReadyBy now l s r = start_all-IsReady (picked now l s) s.jobs r

  module _ (opts : Options) (now : ℕ) (soon : now + 60000 ≤ horizon) where
    pub settled-IsReadyBy :
        (job : SyncJob) (s s' : Store)
        → IsSettled opts now job s s'
        → IsReadyBy horizon s
        → IsReadyBy horizon s'
    unfolding Queue.complete Queue.manual_review_job Queue.retry_job Queue.dead_letter_job
        update_job
    settled-IsReadyBy job s s' (completes e) r =
        rw e (All-adjust (IsReady horizon) job.id _ s.jobs (λ j p w. cc) r)
    settled-IsReadyBy job s s' (reviews m e) r =
        rw e (All-adjust (IsReady horizon) job.id _ s.jobs (λ j p w. cc) r)
    settled-IsReadyBy job s s' (retries m more e) r = rw e (
        All-adjust (IsReady horizon) job.id _ s.jobs
          (λ j p w.
            due_by-stamp (now + backoff job.attempts) horizon
              (omega (arith, backoff_bounds job.attempts)))
          r)
    settled-IsReadyBy job s s' (gives_up m spent e) r =
        rw e (All-adjust (IsReady horizon) job.id _ s.jobs (λ j p w. cc) r)
