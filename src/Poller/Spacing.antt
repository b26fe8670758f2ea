-- ===== src/Poller/Spacing.antt =====
-- src/engine/syncPoller.ts: the time between the scheduled polls of an object.
use hubspot_salesforce_conne.Prelude.{
  ℕ, ◌+◌, ◌≤◌, ◌<◌, String, true, false, ◌≡◌, refl, Option, none, some, List, [], ◌∷◌, ◌==◌, eq_iff,
  arith, if◌then◌else◌, Bool-cases, inl, inr, contains,
}
use hubspot_salesforce_conne.Prelude.Dict.{Dict, lookup, insert, keys, lookup-insert}
use hubspot_salesforce_conne.SyncConfig.{SyncConfig, PollingConfig}
use hubspot_salesforce_conne.Poller.{State, Services, schedule_tick}
use hubspot_salesforce_conne.Poller.Schedule.{
  clamp_interval, cron_due, compute_next_due_at, due_at, next_due, is_due, start_due, tick,
}

module _ {I : Type 0} (parse : String → ℕ → Option I) (next : I → Option (ℕ × I)) where
  due_at-insert :
      (t type : String) (at : ℕ) (due : Dict ℕ)
      → due_at parse next t (insert type at due)
        ≡ (if type == t then at else due_at parse next t due)
  due_at-insert t type at due = ground (arith, lookup-insert type t at due)

  not_due :
      (config : SyncConfig) (now : ℕ) (due : Dict ℕ) (t : String)
      → now < due_at parse next t due
      → is_due parse next config now due t ≡ false
  unfolding is_due
  not_due config now due t h = ground (arith, h)

  later_still :
      (config : SyncConfig) (now : ℕ) (due : Dict ℕ) (t type : String)
      → now < due_at parse next t due
      → is_due parse next config now due type ≡ true
      → now < due_at parse next t (insert type (next_due parse next config type now) due)
  later_still config now due t type h starts = ground (
    arith,
    h,
    starts,
    eq_iff type t,
    not_due config now due t h,
    due_at-insert t type (next_due parse next config type now) due,
  )

  -- an object that is not due is not started
  start_due-later :
      (config : SyncConfig) (now : ℕ) (types : List String) (due : Dict ℕ) (t : String)
      → now < due_at parse next t due
      → contains t (start_due parse next config now types due).0 ≡ false
  unfolding start_due
  start_due-later config now [] due t h = refl
  start_due-later config now (type ∷ types) due t h =
      elim (Bool-cases (is_due parse next config now due type)) [
        | inr waits ↦ rw waits (start_due-later config now types due t h)
        | inl starts ↦ rw starts (
            ground (
              arith,
              eq_iff type t,
              not_due config now due t h,
              starts,
              start_due-later config now types
                  (insert type (next_due parse next config type now) due) t
                  (later_still config now due t type h starts),
            ))
      ]

  -- where a started object is due next, and that the others are due when they were
  start_due-next :
      (config : SyncConfig) (now : ℕ) (types : List String) (due : Dict ℕ) (t : String)
      → due_at parse next t (start_due parse next config now types due).1 ≡ (
          if contains t (start_due parse next config now types due).0
          then next_due parse next config t now
          else due_at parse next t due)
  unfolding start_due
  start_due-next config now [] due t = refl
  start_due-next config now (type ∷ types) due t =
      elim (Bool-cases (is_due parse next config now due type)) [
        | inr waits ↦ rw waits (start_due-next config now types due t)
        | inl starts ↦ rw starts (
            ground (
              arith,
              eq_iff type t,
              start_due-next config now types
                  (insert type (next_due parse next config type now) due) t,
              due_at-insert t type (next_due parse next config type now) due,
            ))
      ]

  next_due-after :
      (config : SyncConfig) (type : String) (p : PollingConfig) (now : ℕ)
      → lookup type config.polling ≡ some p
      → p.cron ≡ none
      → now + 60000 ≤ next_due parse next config type now
  unfolding next_due compute_next_due_at cron_due clamp_interval
  next_due-after config type p now h k = by_interval p.interval_minutes refl
    where
      by_interval :
          (minutes : Option ℕ)
          → p.interval_minutes ≡ minutes
          → now + 60000 ≤ next_due parse next config type now
      by_interval none e = ground (arith, h, k, e)
      by_interval (some minutes) e = ground (arith, h, k, e)

  next_due_at-tick :
      {W : Type 0} (v : Services W) (now : ℕ) (s : State W) (type : String)
      → contains type (tick parse next v now s).0 ≡ true
      → due_at parse next type (tick parse next v now s).1.next_due_at
        ≡ next_due parse next (v.config s.world) type now
  unfolding tick schedule_tick
  next_due_at-tick v now s type h = elim (Bool-cases s.stopped) [
    | inl still ↦ rw still (
        let e =
          start_due-next (v.config s.world) now (keys (v.config s.world).objects) s.next_due_at
            type in
        ground (arith, h, e))
    | inr running ↦ rw running (
        let e =
          start_due-next (v.config s.world) now (keys (v.config s.world).objects) s.next_due_at
            type in
        ground (arith, h, e))
  ]

  -- An object without a cron expression, whatever its interval is set to, is not started by a tick
  -- in the minute after a tick that started it, also if the configuration changed between the two.
  pub tick-tick :
      {W : Type 0} (v later : Services W) (now soon : ℕ) (s : State W) (type : String)
      (p : PollingConfig)
      → lookup type (v.config s.world).polling ≡ some p
      → p.cron ≡ none
      → contains type (tick parse next v now s).0 ≡ true
      → soon < now + 60000
      → contains type (tick parse next later soon (tick parse next v now s).1).0 ≡ false
  unfolding tick schedule_tick
  tick-tick v later now soon s type p h k started before =
      let s' = (tick parse next v now s).1 in
      start_due-later (later.config s'.world) soon (keys (later.config s'.world).objects)
        s'.next_due_at type
        (ground (
          arith,
          before,
          next_due-after (v.config s.world) type p now h k,
          next_due_at-tick v now s type started,
        ))
