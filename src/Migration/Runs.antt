-- ===== src/Migration/Runs.antt =====
-- src/engine/migrationEngine.ts: the methods of `MigrationEngine`. Once a run has begun, whatever
-- throws ends it as failed.
use hubspot_salesforce_conne.Prelude.{
  ℕ, ◌+◌, String, Bool, Option, none, some, List, [], ◌∷◌, if◌then◌else◌, concat,
}
use hubspot_salesforce_conne.Prelude.Dict.{Dict, insert, values}
use hubspot_salesforce_conne.Prelude.Time.{stamp, nat_text}
use hubspot_salesforce_conne.Types.{system_text, num, null}
use hubspot_salesforce_conne.Failure.{Patterns, message_of}
use hubspot_salesforce_conne.Exec.{Exec, Result, ok, err, pure, throw, modify, ◌>>◌, and_then}
use hubspot_salesforce_conne.Activity
use hubspot_salesforce_conne.Activity.{ActivityKind}
use hubspot_salesforce_conne.Mapping.{Native, scalar}
use hubspot_salesforce_conne.MigrationStore.{
  Mode, preview, execute, MigrationReport, MigrationRunInput, TypeStats,
}
use hubspot_salesforce_conne.Migration.{
  Services, MigrationOptions, Progress, no_stats, migrate_pages,
}

abbrev pub mode_of : Bool → Mode
mode_of dry_run = if dry_run then preview else execute

-- `n ?? null`
abbrev pub optional_number : Option ℕ → Native
optional_number none = scalar null
optional_number (some n) = scalar (num (nat_text n))

abbrev pub input_of : MigrationOptions → MigrationRunInput
input_of opts = record {
  source = opts.from;
  types = opts.types;
  mode = mode_of opts.dry_run;
  options = ("limitPerType", optional_number opts.limit_per_type) ∷ [];
  created_by = none;
}

abbrev pub new_report : ℕ → String → Mode → Dict TypeStats → MigrationReport
new_report now id mode per_type = record {
  run_id = id;
  per_type = per_type;
  mode = mode;
  plans = [];
  started_at = stamp now;
  finished_at = none;
}

abbrev pub total_of : List TypeStats → ℕ
total_of [] = 0
total_of (stats ∷ rest) = stats.reconciled + total_of rest

module _ {W : Type 0} (v : Services W) (patterns : Patterns) (now : ℕ) where
  -- the `catch` around a run: the error is kept in the store and thrown on
  unfoldable pub settle_run : {A : Type 0} → String → Result A × W → Result A × W
  settle_run id (ok a, w) = (ok a, w)
  settle_run id (err e, w) = (do v.store.fail id (message_of patterns e); throw e) w

  unfoldable pub finish_run : Bool → String → MigrationReport → Exec W MigrationReport
  finish_run dry_run from report =
      let total = total_of (values report.per_type) in
      let done = record report { finished_at = some (stamp now) } in
      (do
        modify (v.on_activity (λ log. if dry_run then log else Activity.inc_migrated total log))
        modify (
            v.on_activity (
              Activity.log now ActivityKind.migrate (
                concat (
                  (if dry_run then "Previewed" else "Migrated")
                  ∷ " "
                  ∷ nat_text total
                  ∷ " records from "
                  ∷ from
                  ∷ []))))
        v.store.complete report.run_id done
        pure done)

module _ {W : Type 0} (v : Services W) (patterns : Patterns) (now : ℕ)
    (opts : MigrationOptions) where
  unfoldable pub next_type :
      (MigrationReport → W → Option (Result MigrationReport × W))
      → String
      → MigrationReport
      → Option (Result Progress × W)
      → Option (Result MigrationReport × W)
  next_type continue type report none = none
  next_type continue type report (some (err e, w)) = some (err e, w)
  next_type continue type report (some (ok p, w)) =
      continue (record report { per_type = insert type p.stats report.per_type; plans = p.plans }) w

  -- the loop over the types
  unfoldable pub migrate_types :
      ℕ → List String → MigrationReport → W → Option (Result MigrationReport × W)
  unfolding next_type migrate_pages
  migrate_types fuel [] report w = some (ok report, w)
  migrate_types fuel (type ∷ types) report w = next_type (migrate_types fuel types) type report (
      migrate_pages v patterns now opts fuel report.run_id type none
        (record { stats = no_stats; plans = report.plans }) w)

  unfoldable pub end_run :
      String → Option (Result MigrationReport × W) → Option (Result MigrationReport × W)
  unfolding settle_run finish_run
  end_run id none = none
  end_run id (some (outcome, w)) = some (
      settle_run v patterns now id
        (and_then outcome (finish_run v patterns now opts.dry_run (system_text opts.from)) w))

  unfoldable pub begun : ℕ → Result String × W → Option (Result MigrationReport × W)
  unfolding end_run migrate_types
  begun fuel (err e, w) = some (err e, w)
  begun fuel (ok id, w) =
      end_run id (migrate_types fuel opts.types (new_report now id (mode_of opts.dry_run) []) w)

  unfoldable pub run : (fuel : ℕ) → W → Option (Result MigrationReport × W)
  unfolding begun
  run fuel w = begun fuel (v.store.begin (input_of opts) w)
