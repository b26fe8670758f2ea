-- ===== src/Queue/Updates.antt =====
-- src/engine/syncEventStore.ts: an event is queued once, and changing a job keeps the store valid.
use hubspot_salesforce_conne.Prelude.{
  ℕ, String, ◌≡◌, refl, some, List, [], ◌∷◌, ◌==◌, if◌then◌else◌, inl, inr, Option-cases, eq_iff,
  eq_refl, arith,
}
use hubspot_salesforce_conne.Prelude.Dict.{
  Dict, lookup, adjust, lookup-insert, lookup-adjust, keys-adjust,
}
use hubspot_salesforce_conne.Types.{ChangeEvent}
use hubspot_salesforce_conne.Queue.{
  Crypto, SyncJob, Store, event_identity, enqueue_one, enqueue, update_job,
}
use hubspot_salesforce_conne.Queue.Valid.{IsValid}

-- the changes that leave a job's id and event alone
pub record KeepsIdentity (f : SyncJob → SyncJob) : Type 0 where
  pub id : (job : SyncJob) → (f job).id ≡ job.id
  pub event : (job : SyncJob) → (f job).event ≡ job.event

module _ (c : Crypto) (k : String) (f : SyncJob → SyncJob) (keeps : KeepsIdentity f) (s : Store)
    (valid : IsValid c s) where
  adjusted-keyed :
      (j : String) (job : SyncJob) → lookup j (adjust k f s.jobs) ≡ some job → job.id ≡ j
  adjusted-keyed j job h = elim (Option-cases (lookup j s.jobs)) [
    | inl absent ↦ ground (arith, lookup-adjust k j f s.jobs)
    | inr (old, found) ↦
        ground (arith, lookup-adjust k j f s.jobs, valid.keyed j old found, keeps.id old)
  ]

  adjusted-indexed :
      (v id : String)
      → lookup v s.event_index ≡ some id
      → (job : SyncJob) × (lookup id (adjust k f s.jobs) ≡ some job) × (job.event.event_id ≡ some v)
  adjusted-indexed v id h =
      let (old, found, named) = valid.indexed v id h in
      (
        if k == id then f old else old,
        ground (arith, lookup-adjust k id f s.jobs),
        ground (arith, keeps.event old),
      )

  adjusted-covered :
      (j : String) (job : SyncJob)
      → lookup j (adjust k f s.jobs) ≡ some job
      → (v : String) × (job.event.event_id ≡ some v) × (lookup v s.event_index ≡ some j)
  adjusted-covered j job h = elim (Option-cases (lookup j s.jobs)) [
    | inl absent ↦ absurd (ground (arith, lookup-adjust k j f s.jobs))
    | inr (old, found) ↦
        let (v, named, there) = valid.covered j old found in
        (v, ground (arith, lookup-adjust k j f s.jobs, keeps.event old), there)
  ]

  pub adjust-IsValid : IsValid c (record s { jobs = adjust k f s.jobs })
  adjust-IsValid = record {
    keyed = adjusted-keyed;
    indexed = adjusted-indexed;
    covered = adjusted-covered;
    fresh = λ n h. ground (arith, lookup-adjust k (c.random_uuid n) f s.jobs, valid.fresh n);
    distinct = rw (keys-adjust k f s.jobs) valid.distinct;
  }

  pub update_job-IsValid : IsValid c (update_job k f s)
  unfolding update_job
  update_job-IsValid = adjust-IsValid

-- At most one job per event: two jobs of a valid store with the same event identity are one.
pub one_job_per_event :
    (c : Crypto) (s : Store) (j k v : String) (a b : SyncJob)
    → IsValid c s
    → lookup j s.jobs ≡ some a
    → lookup k s.jobs ≡ some b
    → a.event.event_id ≡ some v
    → b.event.event_id ≡ some v
    → (j ≡ k) × (a ≡ b)
one_job_per_event c s j k v a b valid p q named_a named_b =
    let (v₁, n₁, i₁) = valid.covered j a p in
    let (v₂, n₂, i₂) = valid.covered k b q in let same : j ≡ k = cc in (same, cc)

module _ (c : Crypto) where
  -- each event is indexed under the id that stands at its place
  abbrev IsIndexed : List ChangeEvent → List String → Dict String → Type 0
  IsIndexed [] [] index = Unit
  IsIndexed (e ∷ es) (id ∷ ids) index =
      (lookup (event_identity c e) index ≡ some id) × IsIndexed es ids index
  IsIndexed _ _ index = ⊥

  enqueue_of_IsIndexed :
      (now : ℕ) (events : List ChangeEvent) (ids : List String) (s : Store)
      → IsIndexed events ids s.event_index
      → enqueue c now events s ≡ (ids, s)
  unfolding enqueue enqueue_one
  enqueue_of_IsIndexed now [] [] s h = refl
  enqueue_of_IsIndexed now [] (id ∷ ids) s h = elim h [ ]
  enqueue_of_IsIndexed now (e ∷ es) [] s h = elim h [ ]
  enqueue_of_IsIndexed now (e ∷ es) (id ∷ ids) s (p, h) =
      rw (p, enqueue_one) (rw (enqueue_of_IsIndexed now es ids s h))

  enqueue_one-indexed :
      (now : ℕ) (e : ChangeEvent) (s : Store)
      → lookup (event_identity c e) (enqueue_one c now e s).1.event_index
        ≡ some (enqueue_one c now e s).0
  unfolding enqueue_one
  enqueue_one-indexed now e s = elim (Option-cases (lookup (event_identity c e) s.event_index)) [
    | inl new ↦ rw (new, enqueue_one) (rw (lookup-insert, eq_refl))
    | inr (id, known) ↦ rw (known, enqueue_one) known
  ]

  -- an indexed event keeps its job
  enqueue_one-keeps_index :
      (now : ℕ) (e : ChangeEvent) (s : Store) (v id : String)
      → lookup v s.event_index ≡ some id
      → lookup v (enqueue_one c now e s).1.event_index ≡ some id
  unfolding enqueue_one
  enqueue_one-keeps_index now e s v id h = ground (
    arith,
    lookup-insert (event_identity c e) v (c.random_uuid s.drawn) s.event_index,
    eq_iff (event_identity c e) v,
  )

  enqueue-keeps_index :
      (now : ℕ) (es : List ChangeEvent) (s : Store) (v id : String)
      → lookup v s.event_index ≡ some id
      → lookup v (enqueue c now es s).1.event_index ≡ some id
  unfolding enqueue
  enqueue-keeps_index now [] s v id h = h
  enqueue-keeps_index now (e ∷ es) s v id h =
      enqueue-keeps_index now es _ v id (enqueue_one-keeps_index now e s v id h)

  enqueue-IsIndexed :
      (now : ℕ) (es : List ChangeEvent) (s : Store)
      → IsIndexed es (enqueue c now es s).0 (enqueue c now es s).1.event_index
  unfolding enqueue
  enqueue-IsIndexed now [] s = tt
  enqueue-IsIndexed now (e ∷ es) s = (
    enqueue-keeps_index now es _ _ _ (enqueue_one-indexed now e s),
    enqueue-IsIndexed now es (enqueue_one c now e s).1,
  )

  -- A batch that is delivered a second time, at any later time, gets the same job ids and changes
  -- nothing in the store.
  pub enqueue_idempotent :
      (now later : ℕ) (events : List ChangeEvent) (s : Store)
      → enqueue c later events (enqueue c now events s).1 ≡ enqueue c now events s
  enqueue_idempotent now later events s =
      enqueue_of_IsIndexed later events (enqueue c now events s).0 _
        (enqueue-IsIndexed now events s)
