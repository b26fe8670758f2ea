-- ===== src/Queue/History.antt =====
-- src/engine/syncEventStore.ts: sequences of store operations, in any interleaving of the webhook
-- handlers, the workers and the operators.
use hubspot_salesforce_conne.Prelude.{ℕ, String, ◌≡◌, refl, some, List, [], ◌∷◌}
use hubspot_salesforce_conne.Prelude.Dict.{lookup}
use hubspot_salesforce_conne.Prelude.Time.{Timestamp}
use hubspot_salesforce_conne.Types.{ChangeEvent}
use hubspot_salesforce_conne.Queue
use hubspot_salesforce_conne.Queue.{
  Crypto, SyncJob, Store, empty_store, to_completed, to_retry, to_dead_letter, to_manual_review,
  to_replayed, to_dismissed,
}
use hubspot_salesforce_conne.Queue.Valid.{
  IsInjective, IsValid, enqueue-IsValid, empty_store-IsValid,
}
use hubspot_salesforce_conne.Queue.Updates.{update_job-IsValid, one_job_per_event}
use hubspot_salesforce_conne.Queue.Claim.{claim-IsValid}

-- a call of the store, with the time at which it is made
pub data Action : Type 0 where
  enqueue : ℕ → List ChangeEvent → Action
  claim : (now limit : ℕ) → Action
  complete : String → Action
  retry : (id error : String) → Timestamp → Action
  dead_letter : (id error : String) → Action
  manual_review : (id error : String) → Action
  replay : ℕ → String → Action
  dismiss : String → Action

unfoldable pub perform : Crypto → Action → Store → Store
perform c (enqueue now events) s = (Queue.enqueue c now events s).1
perform c (claim now limit) s = (Queue.claim now limit s).1
perform c (complete id) s = Queue.complete id s
perform c (retry id error at) s = Queue.retry_job id error at s
perform c (dead_letter id error) s = Queue.dead_letter_job id error s
perform c (manual_review id error) s = Queue.manual_review_job id error s
perform c (replay now id) s = Queue.replay now id s
perform c (dismiss id) s = Queue.dismiss id s

unfoldable pub perform_all : Crypto → List Action → Store → Store
unfolding perform
perform_all c [] s = s
perform_all c (a ∷ rest) s = perform_all c rest (perform c a s)

module _ (c : Crypto) (unique : IsInjective c.random_uuid) where
  perform-IsValid : (a : Action) (s : Store) → IsValid c s → IsValid c (perform c a s)
  unfolding perform Queue.complete Queue.retry_job Queue.dead_letter_job Queue.manual_review_job
      Queue.replay Queue.dismiss
  perform-IsValid (enqueue now events) s v = enqueue-IsValid c now unique events s v
  perform-IsValid (claim now limit) s v = claim-IsValid c now limit s v
  perform-IsValid (complete id) s v =
      update_job-IsValid c id to_completed (record { id = λ j. refl; event = λ j. refl }) s v
  perform-IsValid (retry id error at) s v =
      update_job-IsValid c id (to_retry error at) (record { id = λ j. refl; event = λ j. refl }) s v
  perform-IsValid (dead_letter id error) s v =
      update_job-IsValid c id (to_dead_letter error) (record { id = λ j. refl; event = λ j. refl })
        s v
  perform-IsValid (manual_review id error) s v =
      update_job-IsValid c id (to_manual_review error)
        (record { id = λ j. refl; event = λ j. refl }) s v
  perform-IsValid (replay now id) s v =
      update_job-IsValid c id (to_replayed now) (record { id = λ j. refl; event = λ j. refl }) s v
  perform-IsValid (dismiss id) s v =
      update_job-IsValid c id to_dismissed (record { id = λ j. refl; event = λ j. refl }) s v

  perform_all-IsValid :
      (actions : List Action) (s : Store) → IsValid c s → IsValid c (perform_all c actions s)
  unfolding perform_all
  perform_all-IsValid [] s v = v
  perform_all-IsValid (a ∷ rest) s v =
      perform_all-IsValid rest (perform c a s) (perform-IsValid a s v)

  -- After any sequence of operations on an empty store, jobs and event index belong together:
  -- each job stands under its id and is indexed by its event, each indexed event has its job, and
  -- no job has an id that is still to be drawn.
  pub history-IsValid : (actions : List Action) → IsValid c (perform_all c actions empty_store)
  history-IsValid actions = perform_all-IsValid actions empty_store (empty_store-IsValid c)

  -- After any sequence of operations on an empty store, no event has two jobs.
  pub history_one_job_per_event :
      (actions : List Action) (j k v : String) (a b : SyncJob)
      → lookup j (perform_all c actions empty_store).jobs ≡ some a
      → lookup k (perform_all c actions empty_store).jobs ≡ some b
      → a.event.event_id ≡ some v
      → b.event.event_id ≡ some v
      → (j ≡ k) × (a ≡ b)
  history_one_job_per_event actions j k v a b =
      one_job_per_event c _ j k v a b (history-IsValid actions)
