-- ===== src/Poller/Examples.antt =====
-- src/engine/syncPoller.ts: polls of a contact that changed, and the theorems at them.
use hubspot_salesforce_conne.Prelude.{
  ℕ, String, true, false, ◌≡◌, refl, Option, none, some, List, [], ◌∷◌, contains, take, arith,
}
use hubspot_salesforce_conne.Prelude.Dict.{lookup, insert}
use hubspot_salesforce_conne.Prelude.Time.{stamp}
use hubspot_salesforce_conne.Types.{salesforce, CanonicalRecord, ChangeEvent}
use hubspot_salesforce_conne.Failure.{Patterns, plain}
use hubspot_salesforce_conne.Exec.{ok, pure, throw}
use hubspot_salesforce_conne.Conflict.{last_write_wins}
use hubspot_salesforce_conne.Registry.{
  Registry, require_native_object_name, native_object_name, canonical_objects_for,
}
use hubspot_salesforce_conne.SyncConfig.{
  SyncConfig, PollingConfig, default_object, sync_allows, originates,
}
use hubspot_salesforce_conne.Poller.{Services, State, SyncPollerSummary, no_summary, schedule_tick}
use hubspot_salesforce_conne.Poller.One.{
  poll_one, poll_since, find_changes, more_pages, find_deletions, deliver_found, enqueue_found,
}
use hubspot_salesforce_conne.Poller.Object.{
  poll_object, poll_both, poll_systems, poll_system, count_result, add_failure, note_summary,
  finished, finish_poll, history, history_limit, last_run,
}
use hubspot_salesforce_conne.Poller.Schedule.{tick, start_due, is_due, is_scheduled}
use hubspot_salesforce_conne.Poller.Spacing.{tick-tick}
use hubspot_salesforce_conne.Poller.Commits.{poll_one-failed}
use hubspot_salesforce_conne.Poller.History.{IsKept, poll_object-IsKept}

-- the queued events and the cursor
pub record World : Type 0 where
  pub queued : List ChangeEvent
  pub cursor : Option String

abbrev contact : CanonicalRecord
contact = record {
  canonical_id = "";
  type = "contact";
  fields = [];
  associations = none;
  meta = record { source = salesforce; source_id = "003"; modified_at = stamp 500; deleted = none };
}

abbrev polling : PollingConfig
polling = record { enabled = true; interval_minutes = some 0; lookback_days = none; cron = none }

abbrev config : SyncConfig
config = record {
  conflict_strategy = last_write_wins;
  source_of_truth = salesforce;
  objects = ("contact", default_object) ∷ [];
  polling = ("contact", polling) ∷ [];
}

abbrev registry : Registry
registry =
    (
      "contact",
      record {
        canonical_object = "contact";
        label = "Contact";
        salesforce_object = some "Contact";
        hubspot_object = some "contacts";
      },
    )
    ∷ []

-- a queue that is not available, behind connectors that find a change
abbrev services : Services World
services = record {
  list = λ system type cursor since condition.
      pure (record { records = contact ∷ []; next_cursor = none });
  list_deleted_since = λ system type since. pure [];
  get_cursor = λ system stream w. (ok w.cursor, w);
  commit_cursor = λ system stream cursor w. (ok tt, record w { cursor = some cursor });
  enqueue = λ events. throw (plain "database is down");
  linked_type = λ system id. pure none;
  config = λ w. config;
  registry = λ w. registry;
  on_activity = λ f w. w;
}

abbrev patterns : Patterns
patterns = record {
  trim = λ s. s;
  duplicate_value = λ s. none;
  is_not_found = λ s. false;
  is_invalid_value = λ s. false;
}

abbrev world : World
world = record { queued = []; cursor = some "2024-01-01T00:00:00.000Z" }

poll_one-failed_example : world.cursor ≡ some "2024-01-01T00:00:00.000Z"
unfolding poll_one poll_since find_changes more_pages find_deletions deliver_found enqueue_found
    require_native_object_name native_object_name lookup canonical_objects_for
poll_one-failed_example =
    poll_one-failed services (λ w. w.cursor ≡ some "2024-01-01T00:00:00.000Z")
      (λ system type cursor since condition w h. h) (λ system type since w h. h)
      (λ system stream w h. h) (λ system id w h. h) (λ events w h. h)
      (λ system stream cursor e w w' failed h. absurd (ground (arith, failed))) 1000000 salesforce
      "contact" config 1 (plain "database is down") world world refl refl

abbrev state : State World
state = record {
  world = world;
  timer = none;
  stopped = false;
  running_types = [];
  next_due_at = [];
  last_run_by_type = [];
  history_by_type = [];
}

abbrev after : Option (SyncPollerSummary × State World) → State World
after none = state
after (some (summary, s)) = s

abbrev given : Option (SyncPollerSummary × State World) → SyncPollerSummary
given none = no_summary (stamp 0)
given (some (summary, s)) = summary

abbrev outcome : Option (SyncPollerSummary × State World)
unfolding poll_object poll_both poll_systems poll_system count_result note_summary finished
    finish_poll sync_allows originates poll_one poll_since find_changes more_pages find_deletions
    deliver_found enqueue_found require_native_object_name native_object_name lookup insert
    canonical_objects_for
outcome = poll_object services patterns 1000000 "contact" 1 state

fails_twice : (given outcome).errors ≡ 2
unfolding outcome add_failure canonical_objects_for
fails_twice = refl

poll_object-IsKept_example :
    IsKept (after outcome)
    × (contains "contact" state.running_types ≡ false
        → (contains "contact" (after outcome).running_types ≡ false)
          × (history "contact" (after outcome)
              ≡ take history_limit (given outcome ∷ history "contact" state)))
unfolding outcome history last_run lookup
poll_object-IsKept_example =
    poll_object-IsKept services patterns 1000000 "contact" 1 state (after outcome) (given outcome)
      refl λ t. (omega arith, refl)

abbrev parse : String → ℕ → Option ℕ
parse expression from = none

abbrev next : ℕ → Option (ℕ × ℕ)
next at = none

tick-tick_example :
    contains "contact"
      (tick parse next services 1030000 (tick parse next services 1000000 state).1).0
    ≡ false
unfolding tick start_due is_due is_scheduled lookup schedule_tick
tick-tick_example =
    tick-tick parse next services services 1000000 1030000 state "contact" polling refl refl refl
      (omega arith)
