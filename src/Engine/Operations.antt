-- ===== src/Engine/Operations.antt =====
-- src/engine/syncEngine.ts: the operations that webhooks, the poller and operators call.
use hubspot_salesforce_conne.Prelude.{
  ℕ, zero, suc, String, Bool, true, false, not, ◌&&◌, Option, none, some, List, [], ◌∷◌,
  if◌then◌else◌, nat_eq, get_or, concat,
}
use hubspot_salesforce_conne.Types.{ChangeEvent}
use hubspot_salesforce_conne.Failure.{plain}
use hubspot_salesforce_conne.Exec.{Exec, ok, throw, ◌>>◌}
use hubspot_salesforce_conne.Queue
use hubspot_salesforce_conne.Queue.{Crypto, SyncJob, SyncJobStatus, Store, status_eq}
use hubspot_salesforce_conne.Activity.{ActivityKind}
use hubspot_salesforce_conne.Engine.{
  Services, State, call, on_store, note, event_text, is_deleted, kick,
}

-- `['dead_letter', 'manual_review', 'retry'].includes(job.status)`
abbrev pub is_dismissable : SyncJobStatus → Bool
is_dismissable SyncJobStatus.dead_letter = true
is_dismissable SyncJobStatus.manual_review = true
is_dismissable SyncJobStatus.retry = true
is_dismissable _ = false

abbrev pub is_pending_delete : SyncJob → Bool
is_pending_delete job =
    is_deleted job.event.change_type && status_eq job.status SyncJobStatus.manual_review

module _ {W : Type 0} where
  -- the store in memory has no stale jobs to recover
  unfoldable pub init : State W → State W
  unfolding kick
  init s = kick 0 s

  -- The loop of `drain`; `wait` is what happens in the 5 milliseconds of a round, where the pump
  -- may run.
  unfoldable pub drain : (rounds : ℕ) → (wait : ℕ → State W → State W) → Exec (State W) (Unit {0})
  unfolding kick Queue.stats
  drain zero wait s = throw (plain "sync queue did not drain") s
  drain (suc rounds) wait s =
      let stats = Queue.stats s.store in
      let again = drain rounds wait (wait rounds (if s.running then s else kick 0 s)) in
      if not s.running && nat_eq stats.queued 0 && nat_eq stats.processing 0
      then (ok tt, s)
      else again

module _ {W : Type 0} (c : Crypto) (now : ℕ) where
  unfoldable pub enqueue : List ChangeEvent → State W → List String × State W
  unfolding kick
  enqueue events s =
      let (ids, store) = Queue.enqueue c now events s.store in
      (ids, kick 0 (record s { store = store }))

  unfoldable pub replay : String → State W → State W
  unfolding kick
  replay id s = kick 0 (record s { store = Queue.replay now id s.store })

  unfoldable pub dismiss : String → Exec (State W) (Unit {0})
  unfolding Queue.get
  dismiss id s = elim (Queue.get id s.store) [
    | none ↦ throw (plain "job is not in a dismissable state") s
    | some job ↦
        if is_dismissable job.status
        then (do
          on_store (Queue.dismiss id)
          note now ActivityKind.info (
              event_text job.event
                (concat (" sync dismissed: " ∷ get_or job.last_error "no error detail" ∷ []))))
            s
        else throw (plain "job is not in a dismissable state") s
  ]

module _ {W : Type 0} (v : Services W) where
  unfoldable pub approve_delete : String → Option String → Exec (State W) (Unit {0})
  unfolding Queue.get
  approve_delete id actor s = elim (Queue.get id s.store) [
    | none ↦ throw (plain "job is not a pending delete") s
    | some job ↦
        if is_pending_delete job
        then (do
          call (v.propagate_delete job.event)
          on_store (Queue.complete id)
          call (v.complete_deletion id actor))
            s
        else throw (plain "job is not a pending delete") s
  ]
