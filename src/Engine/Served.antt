-- ===== src/Engine/Served.antt =====
-- src/engine/syncEngine.ts: which jobs are being processed, and that none gets lost.
use hubspot_salesforce_conne.Prelude.{
  ℕ, String, Bool, ◌≡◌, refl, true, false, some, none, Option, map_option, Bool-cases, List, [],
  ◌∷◌, ◌==◌, inl, inr, arith, ◌∙◌, map, ap, contains,
}
use hubspot_salesforce_conne.Prelude.Dict.{Dict, lookup, lookup-adjust, keys, keys-adjust, adjust}
use hubspot_salesforce_conne.Queue
use hubspot_salesforce_conne.Queue.{
  Crypto, SyncJob, SyncJobStatus, Store, start, start_all, picked, claim, update_job, status_eq,
}
use hubspot_salesforce_conne.Queue.Valid.{IsValid}
use hubspot_salesforce_conne.Queue.Claim.{ids, lookup-start_all, Distinct-picked}
use hubspot_salesforce_conne.Engine.{Options}
use hubspot_salesforce_conne.Engine.Outcome.{IsSettled, completes, reviews, retries, gives_up}

abbrev pub is_processing : SyncJob → Bool
is_processing job = status_eq job.status SyncJobStatus.processing

-- only jobs with one of these ids are being processed
abbrev pub IsServing : List String → Store → Type 0
IsServing open_ids s =
    (k : String) (job : SyncJob)
    → lookup k s.jobs ≡ some job
    → is_processing job ≡ true
    → contains k open_ids ≡ true

ids-start : (jobs : List SyncJob) → ids (map start jobs) ≡ ids jobs
ids-start [] = refl
ids-start (job ∷ jobs) = ap (λ rest. job.id ∷ rest) (ids-start jobs)

module _ (id : String) (open_ids : List String) (f : SyncJob → SyncJob)
    (stops : (job : SyncJob) → is_processing (f job) ≡ false) where
  is_processing-map_option :
      (o : Option SyncJob) (job : SyncJob) → map_option f o ≡ some job → is_processing job ≡ false
  is_processing-map_option none job h = cc
  is_processing-map_option (some old) job h = cc (stops old)

  update-IsServing :
      (s : Store) → IsServing (id ∷ open_ids) s → IsServing open_ids (update_job id f s)
  unfolding update_job
  update-IsServing s serving k job found busy = elim (Bool-cases (id == k)) [
    | inl same ↦
        let h : map_option f (lookup k s.jobs) ≡ some job =
          ground (arith, found, lookup-adjust id k f s.jobs) in
        cc (is_processing-map_option (lookup k s.jobs) job h)
    | inr apart ↦
        let h : lookup k s.jobs ≡ some job = ground (arith, found, lookup-adjust id k f s.jobs) in
        ground (arith, serving k job h busy)
  ]

pub claim-IsServing :
    (c : Crypto) (now l : ℕ) (s : Store)
    → IsValid c s
    → IsServing [] s
    → IsServing (ids (claim now l s).0) (claim now l s).1
unfolding claim
claim-IsServing c now l s valid serving k job found busy =
    rw (ids-start (picked now l s)) (elim (Bool-cases (contains k (ids (picked now l s)))) [
      | inl chosen ↦ chosen
      | inr passed ↦
          let h : lookup k s.jobs ≡ some job = ground (
            arith,
            found,
            lookup-start_all k (picked now l s) s.jobs (Distinct-picked c now l s valid),
          ) in
          cc (serving k job h busy)
    ])

module _ (opts : Options) (now : ℕ) where
  pub settled-IsServing :
      (job : SyncJob) (open_ids : List String) (s s' : Store)
      → IsSettled opts now job s s'
      → IsServing (job.id ∷ open_ids) s
      → IsServing open_ids s'
  unfolding Queue.complete Queue.manual_review_job Queue.retry_job Queue.dead_letter_job
  settled-IsServing job rest s s' (completes e) h =
      rw e (update-IsServing job.id rest _ (λ j. refl) s h)
  settled-IsServing job rest s s' (reviews m e) h =
      rw e (update-IsServing job.id rest _ (λ j. refl) s h)
  settled-IsServing job rest s s' (retries m more e) h =
      rw e (update-IsServing job.id rest _ (λ j. refl) s h)
  settled-IsServing job rest s s' (gives_up m spent e) h =
      rw e (update-IsServing job.id rest _ (λ j. refl) s h)

-- the jobs are stored under these keys
abbrev pub HasKeys : List String → Store → Type 0
HasKeys ks s = keys s.jobs ≡ ks

keys-start_all : (chosen : List SyncJob) (m : Dict SyncJob) → keys (start_all chosen m) ≡ keys m
unfolding start_all
keys-start_all [] m = refl
keys-start_all (job ∷ rest) m =
    keys-start_all rest (adjust job.id start m) ∙ keys-adjust job.id start m

pub claim-HasKeys :
    (now l : ℕ) (ks : List String) (s : Store) → HasKeys ks s → HasKeys ks (claim now l s).1
unfolding claim
claim-HasKeys now l ks s h = keys-start_all (picked now l s) s.jobs ∙ h

pub settled-HasKeys :
    (opts : Options) (now : ℕ) (job : SyncJob) (ks : List String) (s s' : Store)
    → IsSettled opts now job s s'
    → HasKeys ks s
    → HasKeys ks s'
unfolding Queue.complete Queue.manual_review_job Queue.retry_job Queue.dead_letter_job update_job
settled-HasKeys opts now job ks s s' (completes e) h = rw e (keys-adjust job.id _ s.jobs ∙ h)
settled-HasKeys opts now job ks s s' (reviews m e) h = rw e (keys-adjust job.id _ s.jobs ∙ h)
settled-HasKeys opts now job ks s s' (retries m more e) h = rw e (keys-adjust job.id _ s.jobs ∙ h)
settled-HasKeys opts now job ks s s' (gives_up m spent e) h = rw e (keys-adjust job.id _ s.jobs ∙ h)
