-- ===== src/Engine/Work.antt =====
-- src/engine/syncEngine.ts: the attempts that the waiting jobs have left.
use hubspot_salesforce_conne.Prelude.{
  ℕ, suc, ◌+◌, ◌-◌, ◌≤◌, ◌≡◌, refl, some, List, [], ◌∷◌, ◌==◌, if◌then◌else◌, arith, leb, All,
  All-zip,
}
use hubspot_salesforce_conne.Prelude.Dict.{lookup, values, lookup-adjust}
use hubspot_salesforce_conne.Queue
use hubspot_salesforce_conne.Queue.{
  Crypto, SyncJob, Store, is_waiting, is_due, start, start_all, picked, claim, update_job,
  to_completed, to_retry, to_dead_letter, to_manual_review,
}
use hubspot_salesforce_conne.Queue.Valid.{IsValid}
use hubspot_salesforce_conne.Queue.Updates.{KeepsIdentity, update_job-IsValid}
use hubspot_salesforce_conne.Queue.Weights.{sum, sum-adjust}
use hubspot_salesforce_conne.Engine.{Services, Texts, Options, State, process, process_all}
use hubspot_salesforce_conne.Engine.Outcome.{
  max_attempts, IsSettled, completes, reviews, retries, gives_up, process-IsSettled,
}

-- how often a waiting job can still be claimed, at most
abbrev pub attempts_left : Options → SyncJob → ℕ
attempts_left opts job = if is_waiting job.status then suc (max_attempts opts - job.attempts) else 0

-- the attempts left over all stored jobs: the fuel that `pump` needs
abbrev pub work : Options → Store → ℕ
work opts s = sum (attempts_left opts) (values s.jobs)

-- the same for a job that is being processed, in case that it fails
abbrev pub after_failure : Options → SyncJob → ℕ
after_failure opts job =
    if leb (max_attempts opts) job.attempts then 0 else suc (max_attempts opts - job.attempts)

-- the job is stored, with that number of attempts
abbrev pub IsHeld : Store → SyncJob → Type 0
IsHeld s job = (o : SyncJob) × (lookup job.id s.jobs ≡ some o) × (o.attempts ≡ job.attempts)

-- a change of a job after which at most so many attempts are left
record IsFinal (opts : Options) (job : SyncJob) (f : SyncJob → SyncJob) : Type 0 where
  keeps : KeepsIdentity f
  attempts : (j : SyncJob) → (f j).attempts ≡ j.attempts
  left :
      (j : SyncJob) → j.attempts ≡ job.attempts → attempts_left opts (f j) ≤ after_failure opts job

module _ (opts : Options) (now : ℕ) (job : SyncJob) where
  settled-IsFinal :
      (s s' : Store)
      → IsSettled opts now job s s'
      → (f : SyncJob → SyncJob) × IsFinal opts job f × (s' ≡ update_job job.id f s)
  unfolding Queue.complete Queue.manual_review_job Queue.retry_job Queue.dead_letter_job
  settled-IsFinal s s' (completes e) = (
    to_completed,
    record {
      keeps = record { id = λ j. refl; event = λ j. refl };
      attempts = λ j. refl;
      left = λ j h. omega arith;
    },
    e,
  )
  settled-IsFinal s s' (reviews m e) = (
    to_manual_review m,
    record {
      keeps = record { id = λ j. refl; event = λ j. refl };
      attempts = λ j. refl;
      left = λ j h. omega arith;
    },
    e,
  )
  settled-IsFinal s s' (retries m more e) = (
    to_retry m _,
    record {
      keeps = record { id = λ j. refl; event = λ j. refl };
      attempts = λ j. refl;
      left = λ j h. ground arith;
    },
    e,
  )
  settled-IsFinal s s' (gives_up m spent e) = (
    to_dead_letter m,
    record {
      keeps = record { id = λ j. refl; event = λ j. refl };
      attempts = λ j. refl;
      left = λ j h. omega arith;
    },
    e,
  )

  module _ (f : SyncJob → SyncJob) (final : IsFinal opts job f) (s : Store) where
    final-work :
        IsHeld s job → work opts (update_job job.id f s) ≤ work opts s + after_failure opts job
    unfolding update_job
    final-work (o, found, same) =
        omega (arith, sum-adjust (attempts_left opts) job.id f o s.jobs found, final.left o same)

    final-IsHeld : (j : SyncJob) → IsHeld s j → IsHeld (update_job job.id f s) j
    unfolding update_job
    final-IsHeld j (o, found, same) = (
      if job.id == j.id then f o else o,
      ground (arith, lookup-adjust job.id j.id f s.jobs),
      ground (arith, final.attempts o),
    )

module _ {W : Type 0} (v : Services W) (t : Texts) (opts : Options) (now : ℕ) where
  process-IsFinal :
      (job : SyncJob) (s : State W)
      → (f : SyncJob → SyncJob) × IsFinal opts job f
        × ((process v t opts now job s).store ≡ update_job job.id f s.store)
  process-IsFinal job s =
      settled-IsFinal opts now job s.store _ (process-IsSettled v t opts now job s)

  pub process-IsValid :
      (c : Crypto) (job : SyncJob) (s : State W)
      → IsValid c s.store
      → IsValid c (process v t opts now job s).store
  process-IsValid c job s valid =
      let (f, final, e) = process-IsFinal job s in
      rw e (update_job-IsValid c job.id f final.keeps s.store valid)

  process-work :
      (job : SyncJob) (s : State W)
      → IsHeld s.store job
      → work opts (process v t opts now job s).store ≤ work opts s.store + after_failure opts job
  process-work job s held =
      let (f, final, e) = process-IsFinal job s in
      rw e (final-work opts now job f final s.store held)

  process-IsHeld :
      (job : SyncJob) (s : State W) (jobs : List SyncJob)
      → All (IsHeld s.store) jobs
      → All (IsHeld (process v t opts now job s).store) jobs
  process-IsHeld job s jobs held =
      let (f, final, e) = process-IsFinal job s in
      rw e (All-zip jobs (λ j h _. final-IsHeld opts now job f final s.store j h) held held)

  pub process_all-IsValid :
      (c : Crypto) (jobs : List SyncJob) (s : State W)
      → IsValid c s.store
      → IsValid c (process_all v t opts now jobs s).store
  unfolding process_all
  process_all-IsValid c [] s valid = valid
  process_all-IsValid c (job ∷ jobs) s valid =
      process_all-IsValid c jobs _ (process-IsValid c job s valid)

  pub process_all-work :
      (jobs : List SyncJob) (s : State W)
      → All (IsHeld s.store) jobs
      → work opts (process_all v t opts now jobs s).store
        ≤ work opts s.store + sum (after_failure opts) jobs
  unfolding process_all
  process_all-work [] s held = omega arith
  process_all-work (job ∷ jobs) s (held, rest) = omega (
    arith,
    process-work job s held,
    process_all-work jobs (process v t opts now job s) (process-IsHeld job s jobs rest),
  )
