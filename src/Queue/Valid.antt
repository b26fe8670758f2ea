-- ===== src/Queue/Valid.antt =====
-- src/engine/syncEventStore.ts: the index of events and the jobs belong together, and `enqueue`
-- keeps it so.
use hubspot_salesforce_conne.Prelude.{
  ℕ, suc, ◌≤◌, String, ◌≡◌, refl, none, some, List, [], ◌∷◌, ◌==◌, inl, inr, Bool-cases,
  Option-cases, eq_iff, arith,
}
use hubspot_salesforce_conne.Prelude.Dict.{
  lookup, insert, keys, Distinct, lookup-insert, Distinct-insert,
}
use hubspot_salesforce_conne.Types.{ChangeEvent}
use hubspot_salesforce_conne.Queue.{
  Crypto, SyncJob, Store, empty_store, event_identity, new_job, enqueue_one, enqueue,
}

-- no UUID is drawn twice
abbrev pub IsInjective : (ℕ → String) → Type 0
IsInjective f = (m n : ℕ) → f m ≡ f n → m ≡ n

pub record IsValid (c : Crypto) (s : Store) : Type 0 where
  -- a job stands under its own id
  pub keyed : (k : String) (job : SyncJob) → lookup k s.jobs ≡ some job → job.id ≡ k
  -- an indexed event has the job that the index names
  pub indexed :
      (v id : String)
      → lookup v s.event_index ≡ some id
      → (job : SyncJob) × (lookup id s.jobs ≡ some job) × (job.event.event_id ≡ some v)
  -- the event of each job is indexed, under that job
  pub covered :
      (k : String) (job : SyncJob)
      → lookup k s.jobs ≡ some job
      → (v : String) × (job.event.event_id ≡ some v) × (lookup v s.event_index ≡ some k)
  -- no job has an id that is still to be drawn
  pub fresh : (n : ℕ) → s.drawn ≤ n → lookup (c.random_uuid n) s.jobs ≡ none
  pub distinct : Distinct (keys s.jobs)

pub empty_store-IsValid : (c : Crypto) → IsValid c empty_store
unfolding lookup
empty_store-IsValid c = record {
  keyed = λ k job h. cc;
  indexed = λ v id h. absurd (ground arith);
  covered = λ k job h. absurd (ground arith);
  fresh = λ n h. refl;
  distinct = tt;
}

module _ (c : Crypto) (now : ℕ) (unique : IsInjective c.random_uuid) where
  module _ (event : ChangeEvent) (s : Store) (valid : IsValid c s)
      (new : lookup (event_identity c event) s.event_index ≡ none) where
    abbrev v₀ : String
    v₀ = event_identity c event

    abbrev k₀ : String
    k₀ = c.random_uuid s.drawn

    abbrev job₀ : SyncJob
    unfolding new_job
    job₀ = new_job now k₀ v₀ event

    abbrev added : Store
    added = record {
      jobs = insert k₀ job₀ s.jobs;
      event_index = insert v₀ k₀ s.event_index;
      drawn = suc s.drawn;
    }

    added-keyed : (k : String) (job : SyncJob) → lookup k added.jobs ≡ some job → job.id ≡ k
    unfolding new_job
    added-keyed k job h =
        ground (arith, lookup-insert k₀ k job₀ s.jobs, eq_iff k₀ k, valid.keyed k job)

    added-indexed :
        (v id : String)
        → lookup v added.event_index ≡ some id
        → (job : SyncJob) × (lookup id added.jobs ≡ some job) × (job.event.event_id ≡ some v)
    unfolding new_job
    added-indexed v id h = elim (Bool-cases (v₀ == v)) [
      | inl same ↦ (
        job₀,
        ground (
          arith,
          lookup-insert v₀ v k₀ s.event_index,
          lookup-insert k₀ id job₀ s.jobs,
          eq_iff k₀ id,
        ),
        ground (arith, eq_iff v₀ v),
      )
      | inr differs ↦
          let (job, found, named) =
            valid.indexed v id (ground (arith, lookup-insert v₀ v k₀ s.event_index)) in
          (
            job,
            ground (arith, lookup-insert k₀ id job₀ s.jobs, eq_iff k₀ id, valid.fresh s.drawn),
            named,
          )
    ]

    added-covered :
        (k : String) (job : SyncJob)
        → lookup k added.jobs ≡ some job
        → (v : String) × (job.event.event_id ≡ some v) × (lookup v added.event_index ≡ some k)
    unfolding new_job
    added-covered k job h = elim (Bool-cases (k₀ == k)) [
      | inl same ↦ (
        v₀,
        ground (arith, lookup-insert k₀ k job₀ s.jobs),
        ground (arith, lookup-insert v₀ v₀ k₀ s.event_index, eq_iff v₀ v₀, eq_iff k₀ k),
      )
      | inr differs ↦
          let (v, named, found) =
            valid.covered k job (ground (arith, lookup-insert k₀ k job₀ s.jobs)) in
          (v, named, ground (arith, lookup-insert v₀ v k₀ s.event_index, eq_iff v₀ v))
    ]

    added-fresh : (n : ℕ) → suc s.drawn ≤ n → lookup (c.random_uuid n) added.jobs ≡ none
    added-fresh n h = ground (
      arith,
      lookup-insert k₀ (c.random_uuid n) job₀ s.jobs,
      eq_iff k₀ (c.random_uuid n),
      unique s.drawn n,
      valid.fresh n,
    )

    added-IsValid : IsValid c added
    added-IsValid = record {
      keyed = added-keyed;
      indexed = added-indexed;
      covered = added-covered;
      fresh = added-fresh;
      distinct = Distinct-insert k₀ job₀ s.jobs valid.distinct;
    }

  enqueue_one-IsValid :
      (event : ChangeEvent) (s : Store) → IsValid c s → IsValid c (enqueue_one c now event s).1
  unfolding enqueue_one
  enqueue_one-IsValid event s valid =
      elim (Option-cases (lookup (event_identity c event) s.event_index)) [
        | inl new ↦ rw (new, enqueue_one) (added-IsValid event s valid new)
        | inr (id, known) ↦ rw (known, enqueue_one) valid
      ]

  pub enqueue-IsValid :
      (events : List ChangeEvent) (s : Store) → IsValid c s → IsValid c (enqueue c now events s).1
  unfolding enqueue
  enqueue-IsValid [] s valid = valid
  enqueue-IsValid (event ∷ events) s valid =
      enqueue-IsValid events _ (enqueue_one-IsValid event s valid)
