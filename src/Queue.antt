-- ===== src/Queue.antt =====
-- src/engine/syncEventStore.ts: the queue of sync jobs (`InMemorySyncEventStore`).
pub mod Examples
pub mod Valid
pub mod Updates
pub mod Claim
pub mod Stats
pub mod Weights
pub mod History
use hubspot_salesforce_conne.Prelude.{
  ℕ, zero, suc, ◌+◌, String, Bool, true, false, ◌||◌, ◌&&◌, Option, none, some, List, [], ◌∷◌, ◌++◌,
  map, ◌==◌, if◌then◌else◌, leb, concat, keep, take, length,
}
use hubspot_salesforce_conne.Prelude.Dict.{Dict, lookup, insert, adjust, values}
use hubspot_salesforce_conne.Prelude.Sort.{sort_by}
use hubspot_salesforce_conne.Prelude.Time.{Timestamp, stamp, due_by, parsed}
use hubspot_salesforce_conne.Types.{ChangeEvent, ChangeType, system_text}

-- `node:crypto`: the hexadecimal SHA-256 of a text, and the nth random UUID that is drawn
pub record Crypto : Type 0 where
  pub sha256 : String → String
  pub random_uuid : ℕ → String

pub data SyncJobStatus : Type 0 where
  queued processing retry completed dead_letter manual_review dismissed : SyncJobStatus

pub record SyncJob : Type 0 where
  pub id : String
  pub event : ChangeEvent
  pub status : SyncJobStatus
  pub attempts : ℕ
  pub next_attempt_at : Timestamp
  pub last_error : Option String
  pub created_at : Timestamp

pub record SyncJobStats : Type 0 where
  pub queued : ℕ
  pub processing : ℕ
  pub retry : ℕ
  pub completed : ℕ
  pub dead_letter : ℕ
  pub manual_review : ℕ
  pub dismissed : ℕ

-- The store, and how many UUIDs have been drawn so far.
pub record Store : Type 0 where
  pub jobs : Dict SyncJob
  pub event_index : Dict String
  pub drawn : ℕ

abbrev pub empty_store : Store
empty_store = record { jobs = []; event_index = []; drawn = 0 }

abbrev change_text : ChangeType → String
change_text ChangeType.created = "created"
change_text ChangeType.updated = "updated"
change_text ChangeType.deleted = "deleted"

hashed_identity : Crypto → ChangeEvent → String
hashed_identity c event = c.sha256 (
    concat (
      system_text event.system
      ∷ ":"
      ∷ event.type
      ∷ ":"
      ∷ event.source_id
      ∷ ":"
      ∷ change_text event.change_type
      ∷ ":"
      ∷ event.occurred_at.text
      ∷ []))

-- `if (event.eventId)`: an empty id counts as absent
identity_by : Crypto → ChangeEvent → Option String → String
identity_by c event none = hashed_identity c event
identity_by c event (some id) =
    if id == "" then hashed_identity c event else concat (system_text event.system ∷ ":" ∷ id ∷ [])

unfoldable pub event_identity : Crypto → ChangeEvent → String
unfolding identity_by hashed_identity
event_identity c event = identity_by c event event.event_id

new_job : ℕ → String → String → ChangeEvent → SyncJob
new_job now id vendor_id event = record {
  id = id;
  event = record event { event_id = some vendor_id };
  status = queued;
  attempts = 0;
  next_attempt_at = stamp now;
  last_error = none;
  created_at = stamp now;
}

module _ (c : Crypto) (now : ℕ) where
  -- one round of `enqueue`: the id of the job of an event, and the store with that job
  unfoldable pub enqueue_one : ChangeEvent → Store → String × Store
  unfolding new_job
  enqueue_one event s = elim (lookup (event_identity c event) s.event_index) [
    | some existing ↦ (existing, s)
    | none ↦
        let id = c.random_uuid s.drawn in
        let vendor_id = event_identity c event in
        (
          id,
          record {
            jobs = insert id (new_job now id vendor_id event) s.jobs;
            event_index = insert vendor_id id s.event_index;
            drawn = suc s.drawn;
          },
        )
  ]

  unfoldable pub enqueue : List ChangeEvent → Store → List String × Store
  enqueue [] s = ([], s)
  enqueue (event ∷ events) s =
      let (id, s') = enqueue_one event s in let (ids, s'') = enqueue events s' in (id ∷ ids, s'')

abbrev pub is_waiting : SyncJobStatus → Bool
is_waiting queued = true
is_waiting retry = true
is_waiting _ = false

abbrev pub is_due : ℕ → SyncJob → Bool
is_due now job = is_waiting job.status && due_by now job.next_attempt_at

abbrev pub older_first : SyncJob → SyncJob → Bool
older_first a b = leb (parsed a.created_at) (parsed b.created_at)

abbrev newer_first : SyncJob → SyncJob → Bool
newer_first a b = leb (parsed b.created_at) (parsed a.created_at)

-- the loop body of `claim` on a job object
abbrev pub start : SyncJob → SyncJob
start job = record job { status = processing; attempts = job.attempts + 1 }

unfoldable pub picked : ℕ → ℕ → Store → List SyncJob
picked now limit s = take limit (sort_by older_first (keep (is_due now) (values s.jobs)))

-- `for (const job of jobs)`: the objects are those that the `Map` holds under their ids
unfoldable pub start_all : List SyncJob → Dict SyncJob → Dict SyncJob
start_all [] jobs = jobs
start_all (job ∷ rest) jobs = start_all rest (adjust job.id start jobs)

unfoldable pub claim : ℕ → ℕ → Store → List SyncJob × Store
claim now limit s =
    let chosen = picked now limit s in
    (map start chosen, record s { jobs = start_all chosen s.jobs })

-- `const job = this.jobs.get(id); if (job) …`
unfoldable pub update_job : String → (SyncJob → SyncJob) → Store → Store
update_job id f s = record s { jobs = adjust id f s.jobs }

abbrev pub to_completed : SyncJob → SyncJob
to_completed job = record job { status = completed }

abbrev pub to_retry : String → Timestamp → SyncJob → SyncJob
to_retry error at job = record job { status = retry; last_error = some error; next_attempt_at = at }

abbrev pub to_dead_letter : String → SyncJob → SyncJob
to_dead_letter error job = record job { status = dead_letter; last_error = some error }

abbrev pub to_manual_review : String → SyncJob → SyncJob
to_manual_review error job = record job { status = manual_review; last_error = some error }

abbrev pub to_replayed : ℕ → SyncJob → SyncJob
to_replayed now job = record job {
  status = queued;
  attempts = 0;
  last_error = none;
  next_attempt_at = stamp now;
}

abbrev pub to_dismissed : SyncJob → SyncJob
to_dismissed job = record job { status = dismissed }

unfoldable pub complete : String → Store → Store
unfolding update_job
complete id s = update_job id to_completed s

unfoldable pub retry_job : String → String → Timestamp → Store → Store
unfolding update_job
retry_job id error at s = update_job id (to_retry error at) s

unfoldable pub dead_letter_job : String → String → Store → Store
unfolding update_job
dead_letter_job id error s = update_job id (to_dead_letter error) s

unfoldable pub manual_review_job : String → String → Store → Store
unfolding update_job
manual_review_job id error s = update_job id (to_manual_review error) s

unfoldable pub replay : ℕ → String → Store → Store
unfolding update_job
replay now id s = update_job id (to_replayed now) s

unfoldable pub dismiss : String → Store → Store
unfolding update_job
dismiss id s = update_job id to_dismissed s

unfoldable pub get : String → Store → Option SyncJob
get id s = lookup id s.jobs

abbrev pub status_eq : SyncJobStatus → SyncJobStatus → Bool
status_eq queued queued = true
status_eq processing processing = true
status_eq retry retry = true
status_eq completed completed = true
status_eq dead_letter dead_letter = true
status_eq manual_review manual_review = true
status_eq dismissed dismissed = true
status_eq _ _ = false

abbrev pub matches : Option SyncJobStatus → SyncJob → Bool
matches none job = true
matches (some status) job = status_eq job.status status

unfoldable pub list : ℕ → Option SyncJobStatus → Store → List SyncJob
list limit status s = take limit (sort_by newer_first (keep (matches status) (values s.jobs)))

abbrev pub empty_stats : SyncJobStats
empty_stats = record {
  queued = 0;
  processing = 0;
  retry = 0;
  completed = 0;
  dead_letter = 0;
  manual_review = 0;
  dismissed = 0;
}

unfoldable pub increment_stats : SyncJobStats → SyncJobStatus → SyncJobStats
increment_stats r queued = record r { queued = r.queued + 1 }
increment_stats r processing = record r { processing = r.processing + 1 }
increment_stats r retry = record r { retry = r.retry + 1 }
increment_stats r completed = record r { completed = r.completed + 1 }
increment_stats r dead_letter = record r { dead_letter = r.dead_letter + 1 }
increment_stats r manual_review = record r { manual_review = r.manual_review + 1 }
increment_stats r dismissed = record r { dismissed = r.dismissed + 1 }

stats_loop : SyncJobStats → List SyncJob → SyncJobStats
stats_loop r [] = r
stats_loop r (job ∷ jobs) = stats_loop (increment_stats r job.status) jobs

unfoldable pub stats : Store → SyncJobStats
unfolding stats_loop increment_stats
stats s = stats_loop empty_stats (values s.jobs)
