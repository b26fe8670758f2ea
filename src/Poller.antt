-- ===== src/Poller.antt =====
-- src/engine/syncPoller.ts: scheduled polling for changes. A poll is a step of its own here, and
-- `running_types` says which polls of other calls are under way; the timers' callbacks, the logger
-- and the readiness hook are left out.
pub mod One
pub mod Object
pub mod Schedule
mod Spacing
mod Commits
mod History
pub mod Examples
use hubspot_salesforce_conne.Prelude.{
  ℕ, String, Bool, true, false, Option, none, some, List, [], ◌∷◌, contains, keep, not, ◌==◌,
  if◌then◌else◌,
}
use hubspot_salesforce_conne.Prelude.Dict.{Dict}
use hubspot_salesforce_conne.Prelude.Time.{Timestamp}
use hubspot_salesforce_conne.Types.{SystemId, ChangeEvent}
use hubspot_salesforce_conne.Exec.{Exec}
use hubspot_salesforce_conne.Activity.{ActivityLog}
use hubspot_salesforce_conne.SyncConfig.{SyncConfig, SyncCondition}
use hubspot_salesforce_conne.Registry.{Registry}
use hubspot_salesforce_conne.Migration.{RecordPage}

pub record SyncPollerSummary : Type 0 where
  pub at : Timestamp
  pub changed : ℕ
  pub deleted : ℕ
  pub errors : ℕ
  pub error_messages : List String

abbrev pub no_summary : Timestamp → SyncPollerSummary
no_summary at = record { at = at; changed = 0; deleted = 0; errors = 0; error_messages = [] }

pub record QueryCondition : Type 0 where
  pub conditions : Option (List SyncCondition)
  pub raw_condition : Option String

-- an entry of `listDeletedSince`
pub record Deletion : Type 0 where
  pub source_id : String
  pub occurred_at : Timestamp

-- What the poller calls, over the state `W` that these keep. `linked_type` is the type of the link
-- that the identity map has for a record, if there is a map and a link.
pub record Services (W : Type 0) : Type 0 where
  pub list : SystemId → String → Option String → String → QueryCondition → Exec W RecordPage
  pub list_deleted_since : SystemId → String → String → Exec W (List Deletion)
  pub get_cursor : SystemId → String → Exec W (Option String)
  pub commit_cursor : SystemId → String → String → Exec W (Unit {0})
  pub enqueue : List ChangeEvent → Exec W (Unit {0})
  pub linked_type : SystemId → String → Exec W (Option String)
  pub config : W → SyncConfig
  pub registry : W → Registry
  pub on_activity : (ActivityLog → ActivityLog) → W → W

-- the fields of `SyncPoller`
pub record State (W : Type 0) : Type 0 where
  pub world : W
  -- the delay of the timer that is set
  pub timer : Option ℕ
  pub stopped : Bool
  pub running_types : List String
  pub next_due_at : Dict ℕ
  pub last_run_by_type : Dict SyncPollerSummary
  pub history_by_type : Dict (List SyncPollerSummary)

module _ {W : Type 0} where
  unfoldable pub schedule_tick : ℕ → State W → State W
  schedule_tick delay s = if s.stopped then s else record s { timer = some delay }

  unfoldable pub start : State W → State W
  unfolding schedule_tick
  start s = schedule_tick 0 (record s { stopped = false })

  unfoldable pub stop : State W → State W
  stop s = record s { stopped = true; timer = none }
