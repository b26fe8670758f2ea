-- ===== src/Poller/Schedule.antt =====
-- src/engine/syncPoller.ts: which objects are due at a tick.
use hubspot_salesforce_conne.Prelude.{
  ℕ, ◌+◌, ◌*◌, min, max, String, Bool, false, not, ◌&&◌, Option, none, some, List, [], ◌∷◌, ◌==◌,
  if◌then◌else◌, ltb, get_or,
}
use hubspot_salesforce_conne.Prelude.Dict.{Dict, lookup, insert, keys}
use hubspot_salesforce_conne.SyncConfig.{
  SyncConfig, PollingConfig, min_polling_interval_minutes, max_polling_interval_minutes,
  next_cron_occurrences,
}
use hubspot_salesforce_conne.Poller.{State, Services, schedule_tick}

unfoldable pub clamp_interval : Option ℕ → ℕ
clamp_interval none = 30
clamp_interval (some minutes) =
    min max_polling_interval_minutes (max min_polling_interval_minutes minutes)

abbrev pub first_of : Option (List ℕ) → Option ℕ
first_of (some (at ∷ rest)) = some at
first_of _ = none

module _ {I : Type 0} (parse : String → ℕ → Option I) (next : I → Option (ℕ × I)) where
  -- the first occurrence by the cron expression, if there is one and it can be read
  unfoldable pub cron_due : PollingConfig → ℕ → Option ℕ
  cron_due polling now = elim polling.cron [
    | none ↦ none
    | some expression ↦
        if expression == ""
        then none
        else first_of (next_cron_occurrences parse next expression now 1)
  ]

  unfoldable pub compute_next_due_at : PollingConfig → ℕ → ℕ
  unfolding cron_due clamp_interval
  compute_next_due_at polling now =
      get_or (cron_due polling now) (now + clamp_interval polling.interval_minutes * 60000)

  -- both tests of the loop of `tick` that come before the due time
  unfoldable pub is_scheduled : SyncConfig → String → Bool
  is_scheduled config type = elim (lookup type config.objects) [
    | none ↦ false
    | some o ↦ elim (lookup type config.polling) [ none ↦ false | some p ↦ o.enabled && p.enabled ]
  ]

  abbrev pub due_at : String → Dict ℕ → ℕ
  due_at type due = get_or (lookup type due) 0

  unfoldable pub next_due : SyncConfig → String → ℕ → ℕ
  unfolding compute_next_due_at
  next_due config type now = elim (lookup type config.polling) [
    | none ↦ now
    | some p ↦ compute_next_due_at p now
  ]

  -- what lets `tick` start an object
  unfoldable pub is_due : SyncConfig → ℕ → Dict ℕ → String → Bool
  unfolding is_scheduled
  is_due config now due type = is_scheduled config type && not (ltb now (due_at type due))

  -- the loop of `tick`: the objects whose poll it starts, and the next due times
  unfoldable pub start_due : SyncConfig → ℕ → List String → Dict ℕ → List String × Dict ℕ
  start_due config now [] due = ([], due)
  start_due config now (type ∷ types) due =
      let later = start_due config now types (insert type (next_due config type now) due) in
      let skipped = start_due config now types due in
      if is_due config now due type then (type ∷ later.0, later.1) else skipped

  -- the objects that are polled, and the state after, with the next tick in `BASE_TICK_MS`
  unfoldable pub tick : {W : Type 0} → Services W → ℕ → State W → List String × State W
  unfolding start_due schedule_tick
  tick v now s =
      let config = v.config s.world in
      let (types, due) = start_due config now (keys config.objects) s.next_due_at in
      (types, schedule_tick 30000 (record s { next_due_at = due }))
