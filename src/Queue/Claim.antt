-- ===== src/Queue/Claim.antt =====
-- src/engine/syncEventStore.ts: what `claim` hands to a worker.
mod Ids
use hubspot_salesforce_conne.Prelude.{
  ℕ, zero, suc, ◌+◌, ◌≤◌, min, String, ◌≡◌, refl, Bool, true, false, ◌&&◌, ◌||◌, not, Option, none,
  some, List, [], ◌∷◌, ◌==◌, if◌then◌else◌, inl, inr, ◌⊎◌, Bool-cases, Option-cases, some_inj,
  eq_iff, eq_refl, arith, map_option, ap, ◌∙◌, sym, contains, take, keep, All, All-take, All-map,
  All-of_forall, All-zip, All-unkept, map, length, count_if, length-take, length-map, length-keep,
  leb→le,
}
use hubspot_salesforce_conne.Prelude.Dict.{
  Dict, lookup, insert, adjust, keys, values, Distinct, lookup-adjust, All-values, All-lookup,
}
use hubspot_salesforce_conne.Prelude.Sort.{
  sort_by, insert_sorted, IsOrdered, All-sort_by, All-unsorted, sort_by-IsOrdered, length-sort_by,
}
use hubspot_salesforce_conne.Prelude.Time.{parsed}
use hubspot_salesforce_conne.Queue.{
  Crypto, SyncJob, Store, is_due, older_first, start, start_all, picked, claim,
}
use hubspot_salesforce_conne.Queue.Valid.{IsValid}
use hubspot_salesforce_conne.Queue.Updates.{KeepsIdentity, adjust-IsValid}
pub use Ids.{ids, lookup-start_all, Distinct-picked}

-- A job that a `claim` at `now` handed out: a due job of the store before, marked as started, and
-- stored so.
abbrev pub IsClaimed : ℕ → Store → Store → SyncJob → Type 0
IsClaimed now before after job =
    (old : SyncJob) × (lookup job.id before.jobs ≡ some old)
    × (is_due now old ≡ true)
    × (job ≡ start old)
    × (lookup job.id after.jobs ≡ some job)

module _ (c : Crypto) (now limit : ℕ) (s : Store) (valid : IsValid c s) where
  -- a stored job that is due
  abbrev pub IsDueJob : SyncJob → Type 0
  IsDueJob job = (lookup job.id s.jobs ≡ some job) × (is_due now job ≡ true)

  keep-due :
      (xs : List SyncJob)
      → All (λ j. lookup j.id s.jobs ≡ some j) xs
      → All IsDueJob (keep (is_due now) xs)
  keep-due [] h = tt
  keep-due (x ∷ xs) (p, h) = elim (Bool-cases (is_due now x)) [
    | inl due ↦ rw due ((p, due), keep-due xs h)
    | inr not_due ↦ rw not_due (keep-due xs h)
  ]

  pub picked-IsDueJob : All IsDueJob (picked now limit s)
  unfolding picked
  picked-IsDueJob = All-take IsDueJob limit _ (
      All-sort_by older_first IsDueJob _ (
        keep-due _ (
          All-values (λ j. lookup j.id s.jobs ≡ some j) s.jobs valid.distinct
            λ k j found. simp (valid.keyed k j found) found)))

  started :
      (job : SyncJob)
      → contains job.id (ids (picked now limit s)) ≡ true
      → lookup job.id s.jobs ≡ some job
      → lookup job.id (claim now limit s).1.jobs ≡ some (start job)
  unfolding claim
  started job known found =
      rw (lookup-start_all job.id _ s.jobs (Distinct-picked c now limit s valid), known, found)

  All-IsClaimed :
      (xs : List SyncJob)
      → ((j : SyncJob)
          → contains j.id (ids xs) ≡ true
          → contains j.id (ids (picked now limit s)) ≡ true)
      → All IsDueJob xs
      → All (IsClaimed now s (claim now limit s).1) (map start xs)
  All-IsClaimed [] sub h = tt
  All-IsClaimed (x ∷ xs) sub ((found, due), h) = (
    (x, found, due, refl, started x (sub x (rw eq_refl)) found),
    All-IsClaimed xs (λ j known. sub j (ground (arith, known))) h,
  )

  -- Every job that `claim` returns was stored and due, is returned with the status `processing`
  -- and one attempt more, and is stored so.
  pub claim-IsClaimed : All (IsClaimed now s (claim now limit s).1) (claim now limit s).0
  unfolding claim
  claim-IsClaimed = All-IsClaimed (picked now limit s) (λ j known. known) picked-IsDueJob

-- `claim` returns as many jobs as there are due ones, up to the limit.
pub length-claim :
    (now limit : ℕ) (s : Store)
    → length (claim now limit s).0 ≡ min limit (count_if (is_due now) (values s.jobs))
unfolding claim picked
length-claim now limit s =
    let due = keep (is_due now) (values s.jobs) in
    omega (
      arith,
      length-map start (take limit (sort_by older_first due)),
      length-take limit (sort_by older_first due),
      length-sort_by older_first due,
      length-keep (is_due now) (values s.jobs),
    )

-- What is taken from an ordered list stands before all that is left.
taken_first :
    (n : ℕ) (xs : List SyncJob)
    → IsOrdered older_first xs
    → All
        (λ y.
          (contains y.id (ids (take n xs)) ≡ true) ⊎ All (λ x. older_first x y ≡ true) (take n xs))
        xs
taken_first zero xs h = All-of_forall xs (λ y. inr tt)
taken_first (suc n) [] h = tt
taken_first (suc n) (x ∷ xs) (p, h) = (
  inl (rw eq_refl),
  All-zip xs
      (λ y below taken. elim taken [
        | inl known ↦ inl (ground arith)
        | inr after ↦ inr (below, after)
      ])
      p (taken_first n xs h),
)

ids-map-start : (xs : List SyncJob) → ids (map start xs) ≡ ids xs
ids-map-start [] = refl
ids-map-start (x ∷ xs) = ap (◌∷◌ x.id) (ids-map-start xs)

module _ (c : Crypto) (now limit : ℕ) (s : Store) (valid : IsValid c s) where
  -- A job that `claim` does not return is left as it was.
  pub claim-unclaimed :
      (k : String)
      → contains k (ids (claim now limit s).0) ≡ false
      → lookup k (claim now limit s).1.jobs ≡ lookup k s.jobs
  unfolding claim
  claim-unclaimed k h =
      let unpicked : contains k (ids (picked now limit s)) ≡ false = rw (← ids-map-start _) h in
      rw (lookup-start_all k _ s.jobs (Distinct-picked c now limit s valid), unpicked)

  -- The oldest due jobs go first: a due job that `claim` passes over was created no earlier than
  -- any job that it returns.
  pub claim_oldest :
      (k : String) (job : SyncJob)
      → lookup k s.jobs ≡ some job
      → is_due now job ≡ true
      → contains k (ids (claim now limit s).0) ≡ false
      → All (λ x. parsed x.created_at ≤ parsed job.created_at) (claim now limit s).0
  unfolding claim picked
  claim_oldest k job found due passed =
      let sorted = sort_by older_first (keep (is_due now) (values s.jobs)) in
      let each = All-unkept _ (is_due now) (values s.jobs) (
        All-unsorted older_first _ _ (
          taken_first limit sorted (
            sort_by-IsOrdered older_first (λ x y h. ground arith) (λ x y z p q. ground arith)
              _))) in
      let unpicked : contains k (ids (take limit sorted)) ≡ false = rw (← ids-map-start _) passed in
      elim (All-lookup _ s.jobs k job each found due) [
        | inl known ↦ absurd (ground (arith, valid.keyed k job found))
        | inr after ↦
            All-map _ start _ (All-zip (take limit sorted) (λ x p _. leb→le _ _ p) after after)
      ]

start-KeepsIdentity : KeepsIdentity start
start-KeepsIdentity = record { id = λ job. refl; event = λ job. refl }

pub claim-IsValid :
    (c : Crypto) (now limit : ℕ) (s : Store) → IsValid c s → IsValid c (claim now limit s).1
unfolding claim start_all
claim-IsValid c now limit s valid = all_started (picked now limit s) s valid
  where
    all_started :
        (chosen : List SyncJob) (s : Store)
        → IsValid c s
        → IsValid c (record s { jobs = start_all chosen s.jobs })
    all_started [] s v = v
    all_started (job ∷ rest) s v =
        all_started rest (record s { jobs = adjust job.id start s.jobs })
          (adjust-IsValid c job.id start start-KeepsIdentity s v)

-- the job of a listed id
job_of_id {ℓ} :
    {P : SyncJob → Type ℓ} (k : String) (xs : List SyncJob)
    → contains k (ids xs) ≡ true
    → All P xs
    → (job : SyncJob) × (job.id ≡ k) × P job
job_of_id k [] known h = cc
job_of_id k (x ∷ xs) known (p, h) = elim (Bool-cases (x.id == k)) [
  | inl same ↦ (x, (eq_iff _ _).0 same, p)
  | inr other ↦ job_of_id k xs (ground arith) h
]

-- A job that is being processed is not handed out again: a second `claim`, at any time and with
-- any limit, returns none of the jobs that the first returned.
pub claim_once :
    (c : Crypto) (now later limit limit' : ℕ) (s : Store)
    → IsValid c s
    → All
        (λ x. contains x.id (ids (claim now limit s).0) ≡ false)
        (claim later limit' (claim now limit s).1).0
claim_once c now later limit limit' s valid =
    let s' = (claim now limit s).1 in
    let first = claim-IsClaimed c now limit s valid in
    let second = claim-IsClaimed c later limit' s' (claim-IsValid c now limit s valid) in
    All-zip (claim later limit' s').0
      (λ x again _. elim (Bool-cases (contains x.id (ids (claim now limit s).0))) [
        | inl known ↦
            let (job, same, (old, _, _, started_old, stored)) = job_of_id x.id _ known first in
            absurd (ground (arith, again.1, again.2, same, started_old, stored))
        | inr unknown ↦ unknown
      ])
      second second
