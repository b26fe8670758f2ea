-- ===== src/Engine.antt =====
-- src/engine/syncEngine.ts: the worker that takes jobs from the queue. A round's jobs, which the
-- program awaits together, are processed one after another in the order in which they were
-- claimed.
pub mod Examples
pub mod Operations
pub mod Outcome
pub mod Deletes
pub mod Backoff
pub mod Work
pub mod Termination
pub mod World
pub mod Rounds
pub mod Horizon
pub mod Served
pub mod Turns
pub mod Drained
use hubspot_salesforce_conne.Prelude.{
  ℕ, zero, suc, ◌+◌, ◌-◌, ◌*◌, ◌^◌, min, String, Bool, true, false, not, ◌&&◌, ◌||◌, Option, none,
  some, List, [], ◌∷◌, ◌==◌, if◌then◌else◌, leb, ltb, nat_eq, get_or, concat, map_option, is_some,
}
use hubspot_salesforce_conne.Prelude.Time.{stamp}
use hubspot_salesforce_conne.Types.{
  SystemId, salesforce, hubspot, ChangeEvent, ChangeType, CanonicalRecord, other, system_text,
}
use hubspot_salesforce_conne.Failure.{
  Failure, plain, ambiguous_key, Patterns, friendly_error_message,
}
use hubspot_salesforce_conne.Exec.{
  Exec, Result, ok, err, pure, throw, modify, ◌>>=◌, ◌>>◌, and_then,
}
use hubspot_salesforce_conne.Queue
use hubspot_salesforce_conne.Queue.{Crypto, SyncJob, SyncJobStatus, Store, status_eq}
use hubspot_salesforce_conne.Activity
use hubspot_salesforce_conne.Activity.{ActivityLog, ActivityKind}

pub data DeletePolicy : Type 0 where
  ignore cascade manual_review : DeletePolicy

pub record DeletionInput : Type 0 where
  pub job_id : String
  pub event : ChangeEvent
  pub target_system : SystemId
  pub policy : DeletePolicy

-- What the engine calls: connectors, reconciler, associations and governance, over the state `W`
-- that these keep.
pub record Services (W : Type 0) : Type 0 where
  pub read : SystemId → String → String → Exec W (Option CanonicalRecord)
  pub reconcile : CanonicalRecord → Exec W (Unit {0})
  pub propagate_delete : ChangeEvent → Exec W (Unit {0})
  pub sync_record : CanonicalRecord → Exec W (Unit {0})
  pub record_deletion : DeletionInput → Exec W (Unit {0})
  pub complete_deletion : String → Option String → Exec W (Unit {0})

pub record Options : Type 0 where
  pub concurrency : Option ℕ
  pub max_attempts : Option ℕ
  pub delete_policy : Option DeletePolicy
  pub should_process : Option (ChangeEvent → Bool)

pub record State (W : Type 0) : Type 0 where
  pub store : Store
  pub activity : ActivityLog
  pub world : W
  pub running : Bool
  -- the delay of the timer that is set
  pub timer : Option ℕ

-- `Math.min(60_000, 500 * 2 ** Math.max(0, attempts - 1))`
unfoldable pub backoff : ℕ → ℕ
backoff attempts = min 60000 (500 * 2 ^ (attempts - 1))

-- `.slice(0, 2000)` of a message; only its use in `lastError` depends on it
pub record Texts : Type 0 where
  pub patterns : Patterns
  pub first_2000 : String → String

abbrev pub target_label : SystemId → String
target_label salesforce = "HubSpot"
target_label hubspot = "Salesforce"

unfoldable pub error_message : Texts → Failure → String → String
error_message t e target = t.first_2000 (friendly_error_message t.patterns e target)

abbrev policy_eq : DeletePolicy → DeletePolicy → Bool
policy_eq ignore ignore = true
policy_eq cascade cascade = true
policy_eq manual_review manual_review = true
policy_eq _ _ = false

abbrev pub is_deleted : ChangeType → Bool
is_deleted ChangeType.deleted = true
is_deleted _ = false

abbrev pub event_text : ChangeEvent → String → String
event_text event rest = concat (system_text event.system ∷ " " ∷ event.type ∷ rest ∷ [])

-- `this.opts.shouldProcess && !this.opts.shouldProcess(event)`
abbrev pub is_skipped : Options → ChangeEvent → Bool
is_skipped opts event = elim opts.should_process [ none ↦ false | some f ↦ not (f event) ]

module _ {W : Type 0} where
  -- an action of a service, on the engine's state
  abbrev pub call : {A : Type 0} → Exec W A → Exec (State W) A
  call m s = let (r, w) = m s.world in (r, record s { world = w })

  abbrev pub on_store : (Store → Store) → Exec (State W) (Unit {0})
  on_store f = modify (λ s. record s { store = f s.store })

  abbrev pub note : ℕ → ActivityKind → String → Exec (State W) (Unit {0})
  note now kind message =
      modify (λ s. record s { activity = Activity.log now kind message s.activity })

-- how many jobs a round claims at most
abbrev pub limit : Options → ℕ
limit opts = get_or opts.concurrency 4

module _ {W : Type 0} (v : Services W) (t : Texts) (opts : Options) where
  -- the branch of `process` for a deletion
  process_delete : ℕ → SyncJob → Exec (State W) (Unit {0})
  process_delete now job = do
    let policy = get_or opts.delete_policy manual_review
    call (
        v.record_deletion (record {
          job_id = job.id;
          event = job.event;
          target_system = other job.event.system;
          policy = policy;
        }))
    if policy_eq policy manual_review
        then (do
          on_store (Queue.manual_review_job job.id "delete requires operator approval")
          note now ActivityKind.delete (event_text job.event " delete awaiting review"))
        else if policy_eq policy ignore
        then on_store (Queue.complete job.id)
        else (do call (v.propagate_delete job.event); on_store (Queue.complete job.id))

  found_record : Option CanonicalRecord → Exec (State W) CanonicalRecord
  found_record none = throw (plain "record vanished before fetch")
  found_record (some r) = pure r

  -- the body of the `try` of `process`
  unfoldable pub attempt : ℕ → SyncJob → Exec (State W) (Unit {0})
  unfolding process_delete found_record
  attempt now job =
      if is_skipped opts job.event
      then (do
        on_store (Queue.complete job.id)
        note now ActivityKind.info (event_text job.event " event skipped by sync settings"))
      else if is_deleted job.event.change_type
      then process_delete now job
      else (do
        read ← call (v.read job.event.system job.event.type job.event.source_id)
        r ← found_record read
        call (v.reconcile r)
        call (v.sync_record r)
        on_store (Queue.complete job.id))

  -- the `catch` of `process`
  schedule : ℕ → SyncJob → String → State W → State W
  schedule now job message s =
      if leb (get_or opts.max_attempts 8) job.attempts
      then record s {
        store = Queue.dead_letter_job job.id message s.store;
        activity =
            Activity.log now ActivityKind.error (concat ("Sync dead-lettered: " ∷ message ∷ []))
              s.activity;
      }
      else record s {
        store = Queue.retry_job job.id message (stamp (now + backoff job.attempts)) s.store;
      }

  unfoldable pub recover : ℕ → SyncJob → Failure → State W → State W
  unfolding schedule
  recover now job (ambiguous_key plan) s = record s {
    store =
        Queue.manual_review_job job.id
          (error_message t (ambiguous_key plan) (target_label job.event.system)) s.store;
  }
  recover now job e s = schedule now job (error_message t e (target_label job.event.system)) s

  settle : ℕ → SyncJob → Result (Unit {0}) × State W → State W
  settle now job (ok _, s) = s
  settle now job (err e, s) = recover now job e s

  unfoldable pub process : ℕ → SyncJob → State W → State W
  unfolding settle
  process now job s = settle now job (attempt now job s)

  unfoldable pub process_all : ℕ → List SyncJob → State W → State W
  process_all now [] s = s
  process_all now (job ∷ rest) s = process_all now rest (process now job s)

  -- The loop of `pump`; `clock i` is the time of the ith round from the last, and `none` means
  -- that the fuel ran out before a claim came back empty.
  unfoldable pub pump_loop : (fuel : ℕ) → (clock : ℕ → ℕ) → State W → Option (State W)
  pump_loop zero clock s = none
  pump_loop (suc fuel) clock s =
      let (jobs, store) = Queue.claim (clock fuel) (limit opts) s.store in
      let next =
        pump_loop fuel clock (process_all (clock fuel) jobs (record s { store = store })) in
      elim jobs [ [] ↦ some (record s { store = store }) | _ ∷ _ ↦ next ]

module _ {W : Type 0} where
  unfoldable pub kick : ℕ → State W → State W
  kick delay s = if s.running || is_some s.timer then s else record s { timer = some delay }

  -- the `finally` of `pump`
  unfoldable pub pumped : State W → State W
  unfolding kick Queue.stats
  pumped s =
      let s' = record s { running = false } in
      if ltb 0 (Queue.stats s'.store).retry then kick 1000 s' else s'

module _ {W : Type 0} (v : Services W) (t : Texts) (opts : Options) where
  unfoldable pub pump : (fuel : ℕ) → (clock : ℕ → ℕ) → State W → Option (State W)
  unfolding pumped pump_loop
  pump fuel clock s =
      let done = pump_loop v t opts fuel clock (record s { running = true }) in
      if s.running then some s else map_option pumped done
