-- ===== src/Poller/Object.antt =====
-- src/engine/syncPoller.ts: the poll of an object on both systems.
use hubspot_salesforce_conne.Prelude.{
  ℕ, ◌+◌, String, Bool, false, not, ◌||◌, Option, none, some, List, [], ◌∷◌, ◌++◌, ◌==◌,
  if◌then◌else◌, ltb, take, keep, contains, get_or, concat, join, nat_eq, map_option,
}
use hubspot_salesforce_conne.Prelude.Dict.{lookup, insert}
use hubspot_salesforce_conne.Prelude.Time.{stamp, nat_text}
use hubspot_salesforce_conne.Types.{SystemId, salesforce, hubspot}
use hubspot_salesforce_conne.Failure.{Failure, Patterns, friendly_error_message}
use hubspot_salesforce_conne.Exec.{Result, ok, err}
use hubspot_salesforce_conne.Activity
use hubspot_salesforce_conne.Activity.{ActivityKind}
use hubspot_salesforce_conne.SyncConfig.{SyncConfig, SyncObjectConfig, sync_allows}
use hubspot_salesforce_conne.Poller.{Services, State, SyncPollerSummary, no_summary}
use hubspot_salesforce_conne.Poller.One.{Polled, poll_one}

abbrev pub history_limit : ℕ
history_limit = 20

abbrev pub system_label : SystemId → String
system_label salesforce = "Salesforce"
system_label hubspot = "HubSpot"

abbrev plural : ℕ → String
plural n = if nat_eq n 1 then "" else "s"

abbrev pub add_polled : Polled → SyncPollerSummary → SyncPollerSummary
add_polled polled summary = record summary {
  changed = summary.changed + polled.changed;
  deleted = summary.deleted + polled.deleted;
}

module _ {W : Type 0} (v : Services W) (patterns : Patterns) (now : ℕ) (type : String) where
  -- the `catch` of one system
  unfoldable pub add_failure : SystemId → Failure → SyncPollerSummary → SyncPollerSummary
  add_failure system e summary = record summary {
    errors = summary.errors + 1;
    error_messages =
        summary.error_messages
        ++ concat (
            system_label system
            ∷ ": "
            ∷ friendly_error_message patterns e (system_label system)
            ∷ [])
          ∷ [];
  }

  unfoldable pub count_result :
      SystemId → SyncPollerSummary → Result Polled × W → SyncPollerSummary × W
  unfolding add_failure
  count_result system summary (ok polled, w) = (add_polled polled summary, w)
  count_result system summary (err e, w) = (add_failure system e summary, w)

  -- one round of the loop over the systems
  unfoldable pub poll_system :
      ℕ → SyncConfig → SystemId → SyncPollerSummary × W → Option (SyncPollerSummary × W)
  unfolding count_result
  poll_system fuel config system (summary, w) =
      if not (sync_allows config type system)
      then some (summary, w)
      else map_option (count_result system summary) (poll_one v now system type config fuel w)

  unfoldable pub poll_systems :
      ℕ → SyncConfig → List SystemId → SyncPollerSummary × W → Option (SyncPollerSummary × W)
  unfolding poll_system
  poll_systems fuel config [] r = some r
  poll_systems fuel config (system ∷ systems) r = elim (poll_system fuel config system r) [
    | none ↦ none
    | some after ↦ poll_systems fuel config systems after
  ]

  note_text : SyncPollerSummary → String
  note_text summary =
      if ltb 0 summary.errors
      then concat
          ("Scheduled sync (" ∷ type ∷ ") failed: " ∷ join " · " summary.error_messages ∷ [])
      else concat (
          "Scheduled sync ("
          ∷ type
          ∷ "): "
          ∷ nat_text summary.changed
          ∷ " change"
          ∷ plural summary.changed
          ∷ ", "
          ∷ nat_text summary.deleted
          ∷ " deletion"
          ∷ plural summary.deleted
          ∷ " detected"
          ∷ [])

  unfoldable pub note_summary : SyncPollerSummary × W → SyncPollerSummary × W
  unfolding note_text
  note_summary (summary, w) =
      if ltb 0 summary.changed || ltb 0 summary.deleted || ltb 0 summary.errors
      then (
        summary,
        v.on_activity
            (Activity.log now
              (if ltb 0 summary.errors then ActivityKind.error else ActivityKind.info)
              (note_text summary))
            w,
      )
      else (summary, w)

  abbrev pub is_enabled : Option SyncObjectConfig → Bool
  is_enabled none = false
  is_enabled (some o) = o.enabled

  -- the `try` of `pollObject`
  unfoldable pub poll_both : ℕ → W → Option (SyncPollerSummary × W)
  unfolding poll_systems note_summary
  poll_both fuel w =
      let config = v.config w in
      if not (is_enabled (lookup type config.objects))
      then some (no_summary (stamp now), w)
      else map_option note_summary
          (poll_systems fuel config (salesforce ∷ hubspot ∷ []) (no_summary (stamp now), w))

  -- the `finally` of `pollObject`
  unfoldable pub finish_poll : SyncPollerSummary → State W → State W
  finish_poll summary s = record s {
    running_types = keep (λ t. not (t == type)) s.running_types;
    last_run_by_type = insert type summary s.last_run_by_type;
    history_by_type =
        insert type (take history_limit (summary ∷ get_or (lookup type s.history_by_type) []))
          s.history_by_type;
  }

  unfoldable pub finished : State W → SyncPollerSummary × W → SyncPollerSummary × State W
  unfolding finish_poll
  finished s (summary, w) = (summary, finish_poll summary (record s { world = w }))

  unfoldable pub poll_object : (fuel : ℕ) → State W → Option (SyncPollerSummary × State W)
  unfolding poll_both finished
  poll_object fuel s =
      if contains type s.running_types
      then some (get_or (lookup type s.last_run_by_type) (no_summary (stamp now)), s)
      else map_option (finished (record s { running_types = type ∷ s.running_types }))
          (poll_both fuel s.world)

module _ {W : Type 0} (type : String) where
  unfoldable pub last_run : State W → Option SyncPollerSummary
  last_run s = lookup type s.last_run_by_type

  -- `history(type)`
  unfoldable pub history : State W → List SyncPollerSummary
  history s = get_or (lookup type s.history_by_type) []
