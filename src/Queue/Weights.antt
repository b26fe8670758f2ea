-- ===== src/Queue/Weights.antt =====
-- src/engine/syncEventStore.ts: sums over the stored jobs.
use hubspot_salesforce_conne.Prelude.{
  ℕ, ◌+◌, String, ◌≡◌, false, some, List, [], ◌∷◌, ◌==◌, eq_iff, arith, All, contains, Bool-cases,
  inl, inr,
}
use hubspot_salesforce_conne.Prelude.Dict.{Dict, lookup, adjust, values, Distinct, lookup-adjust}
use hubspot_salesforce_conne.Queue.{SyncJob, start, start_all}
use hubspot_salesforce_conne.Queue.Claim.{ids}

module _ (w : SyncJob → ℕ) where
  abbrev pub sum : List SyncJob → ℕ
  sum [] = 0
  sum (job ∷ jobs) = w job + sum jobs

  pub sum-adjust :
      (k : String) (f : SyncJob → SyncJob) (job : SyncJob) (m : Dict SyncJob)
      → lookup k m ≡ some job
      → sum (values (adjust k f m)) + w job ≡ sum (values m) + w (f job)
  unfolding lookup adjust
  sum-adjust k f job [] h = cc
  sum-adjust k f job ((j, v) ∷ m) h = elim (Bool-cases (j == k)) [
    | inl same ↦ let e : v ≡ job = ground arith in rw (same, e) (omega arith)
    | inr other ↦ rw other (omega (arith, sum-adjust k f job m (ground arith)))
  ]

  -- the jobs of a list are stored, each under its own id
  abbrev pub AreStored : Dict SyncJob → List SyncJob → Type 0
  AreStored m jobs = All (λ j. lookup j.id m ≡ some j) jobs

  stored_apart :
      (k : String) (f : SyncJob → SyncJob) (m : Dict SyncJob) (jobs : List SyncJob)
      → contains k (ids jobs) ≡ false
      → AreStored m jobs
      → AreStored (adjust k f m) jobs
  stored_apart k f m [] n h = tt
  stored_apart k f m (j ∷ jobs) n (p, h) = (
    ground (arith, lookup-adjust k j.id f m, eq_iff k j.id, eq_iff j.id k),
    stored_apart k f m jobs (ground arith) h,
  )

  -- starting jobs takes their weight out of the sum, if a job that is being processed has none
  pub sum-start_all :
      (chosen : List SyncJob) (m : Dict SyncJob)
      → ((job : SyncJob) → w (start job) ≡ 0)
      → Distinct (ids chosen)
      → AreStored m chosen
      → sum (values (start_all chosen m)) + sum chosen ≡ sum (values m)
  unfolding start_all
  sum-start_all [] m idle d h = omega arith
  sum-start_all (job ∷ rest) m idle (n, d) (p, h) = omega (
    arith,
    idle job,
    sum-adjust job.id start job m p,
    sum-start_all rest (adjust job.id start m) idle d (stored_apart job.id start m rest n h),
  )
