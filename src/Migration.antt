-- ===== src/Migration.antt =====
-- src/engine/migrationEngine.ts: the bulk migration, the preview of one record, and the execution
-- of a reviewed preview. The calls of one run read one clock; the logger is left out.
pub mod Runs
pub mod Frozen
mod Keeps
mod Invariant
pub mod Logged
pub mod DryRun
pub mod Ends
pub mod Reviewed
pub mod Examples
pub mod PagedExamples
pub mod Counts
use hubspot_salesforce_conne.Prelude.{
  ℕ, zero, suc, ◌+◌, String, Bool, true, false, not, ◌&&◌, ◌||◌, Option, none, some, List, [], ◌∷◌,
  ◌++◌, ◌==◌, if◌then◌else◌, leb, any, dedupe, map, get_or, concat, join, is_some,
}
use Prim.Native.String.{slice}
use hubspot_salesforce_conne.Prelude.Dict.{Dict, lookup, insert, values}
use hubspot_salesforce_conne.Prelude.Time.{stamp, nat_text}
use hubspot_salesforce_conne.Types.{
  SystemId, salesforce, hubspot, CanonicalRecord, other, system_eq, system_text, str, num, bool,
  null,
}
use hubspot_salesforce_conne.Plan.{
  ReconcilePlan, PlannedAction, create, update, match, skip, conflict, ambiguous, error, FieldDiff,
}
use hubspot_salesforce_conne.Failure.{Failure, plain, Patterns, friendly_error_message, message_of}
use hubspot_salesforce_conne.Exec.{
  Exec, Result, ok, err, pure, throw, modify, ◌>>=◌, ◌>>◌, and_then,
}
use hubspot_salesforce_conne.Activity
use hubspot_salesforce_conne.Activity.{ActivityLog, ActivityKind}
use hubspot_salesforce_conne.Mapping.{Native, scalar}
use hubspot_salesforce_conne.MigrationStore.{
  MigrationStore, Mode, preview, execute, MigrationReport, TypeStats,
}

pub record RecordPage : Type 0 where
  pub records : List CanonicalRecord
  pub next_cursor : Option String

-- What the engine calls, over the state `W` that these keep: the source's connector, the
-- reconciler, the store of runs, and the activity log that all of them share.
pub record Services (W : Type 0) : Type 0 where
  pub list : SystemId → String → Option String → Exec W RecordPage
  pub read : SystemId → String → String → Exec W (Option CanonicalRecord)
  pub preview : CanonicalRecord → Exec W ReconcilePlan
  pub reconcile : CanonicalRecord → Exec W (Unit {0})
  pub store : MigrationStore W
  pub on_activity : (ActivityLog → ActivityLog) → W → W

pub record MigrationOptions : Type 0 where
  pub types : List String
  pub from : SystemId
  pub limit_per_type : Option ℕ
  pub dry_run : Bool

abbrev pub action_text : PlannedAction → String
action_text create = "create"
action_text update = "update"
action_text match = "match"
action_text skip = "skip"
action_text conflict = "conflict"
action_text ambiguous = "ambiguous"
action_text error = "error"

abbrev pub is_ambiguous : PlannedAction → Bool
is_ambiguous ambiguous = true
is_ambiguous _ = false

abbrev pub system_label : SystemId → String
system_label salesforce = "Salesforce"
system_label hubspot = "HubSpot"

abbrev pub no_stats : TypeStats
no_stats = record { read = 0; reconciled = 0; errors = 0; actions = [] }

-- `actions[action] = (actions[action] ?? 0) + 1`
abbrev pub count_action : PlannedAction → Dict ℕ → Dict ℕ
count_action action actions =
    insert (action_text action) (get_or (lookup (action_text action) actions) 0 + 1) actions

-- the type's counts and the report's plans, while a type is run
pub record Progress : Type 0 where
  pub stats : TypeStats
  pub plans : List ReconcilePlan

abbrev pub begin_record : Progress → Progress
begin_record p = record p { stats = record p.stats { read = p.stats.read + 1 } }

abbrev pub count_plan : ReconcilePlan → Progress → Progress
count_plan plan p = record {
  stats = record p.stats {
    reconciled = p.stats.reconciled + 1;
    actions = count_action plan.action p.stats.actions;
  };
  plans = p.plans ++ plan ∷ [];
}

abbrev pub count_error : ReconcilePlan → Progress → Progress
count_error plan p = record {
  stats = record p.stats { errors = p.stats.errors + 1 };
  plans = p.plans ++ plan ∷ [];
}

-- `opts.limitPerType && stats.read >= opts.limitPerType`
abbrev pub is_reached : Option ℕ → ℕ → Bool
is_reached none read = false
is_reached (some zero) read = false
is_reached (some (suc n)) read = leb (suc n) read

-- the plan that is recorded for a record that failed
unfoldable pub failed_plan :
    SystemId → String → CanonicalRecord → String → Option ReconcilePlan → ReconcilePlan
failed_plan from type r message (some plan) = record plan {
  action = error;
  warnings = plan.warnings ++ message ∷ [];
}
failed_plan from type r message none = record {
  canonical_id = none;
  type = type;
  from = from;
  to = other from;
  source_id = r.meta.source_id;
  target_id = none;
  natural_key = none;
  action = error;
  field_diff = [];
  warnings = message ∷ [];
}

module _ {W : Type 0} (v : Services W) (patterns : Patterns) (now : ℕ)
    (opts : MigrationOptions) where
  -- the `catch` of one record
  unfoldable pub fail_record :
      String
      → String
      → CanonicalRecord
      → Progress
      → Option ReconcilePlan
      → Failure
      → Exec W Progress
  unfolding failed_plan
  fail_record run_id type r p plan e =
      let failed =
        failed_plan opts.from type r
          (friendly_error_message patterns e (system_label (other opts.from))) plan in
      (do v.store.record_plan run_id failed; pure (count_error failed p))

  -- the writes for one record, by its plan
  unfoldable pub carry_out : String → CanonicalRecord → ReconcilePlan → Exec W (Unit {0})
  carry_out run_id r plan =
      if opts.dry_run
      then v.store.record_plan run_id plan
      else if is_ambiguous plan.action
      then throw (plain (join "; " plan.warnings))
      else (do v.reconcile r; v.store.record_plan run_id plan)

  carried_out :
      String
      → String
      → CanonicalRecord
      → Progress
      → ReconcilePlan
      → Result (Unit {0})
      → Exec W Progress
  unfolding fail_record
  carried_out run_id type r p plan (ok _) = pure (count_plan plan p)
  carried_out run_id type r p plan (err e) = fail_record run_id type r p (some plan) e

  previewed : String → String → CanonicalRecord → Progress → Result ReconcilePlan → Exec W Progress
  unfolding carry_out carried_out fail_record
  previewed run_id type r p (ok plan) w =
      let (result, w') = carry_out run_id r plan w in carried_out run_id type r p plan result w'
  previewed run_id type r p (err e) w = fail_record run_id type r p none e w

  -- the body of the loop over the records, past the test of the limit
  unfoldable pub migrate_record : String → String → CanonicalRecord → Progress → Exec W Progress
  unfolding previewed
  migrate_record run_id type r p w =
      let (result, w') = v.preview r w in previewed run_id type r (begin_record p) result w'

  unfoldable pub migrate_records :
      String → String → List CanonicalRecord → Progress → Exec W Progress
  unfolding migrate_record
  migrate_records run_id type [] p = pure p
  migrate_records run_id type (r ∷ rest) p =
      if is_reached opts.limit_per_type p.stats.read
      then pure p
      else migrate_record run_id type r p >>= migrate_records run_id type rest

  -- the cursor after a page; the empty text ends the loop too
  unfoldable pub next_cursor : Option String → Progress → Option String
  next_cursor none p = none
  next_cursor (some cursor) p =
      if is_reached opts.limit_per_type p.stats.read || cursor == "" then none else some cursor

  turn_page :
      (Option String → Progress → W → Option (Result Progress × W))
      → Option String
      → Result Progress × W
      → Option (Result Progress × W)
  unfolding next_cursor
  turn_page continue cursor (err e, w) = some (err e, w)
  turn_page continue cursor (ok p, w) = elim (next_cursor cursor p) [
    | none ↦ some (ok p, w)
    | some next ↦ continue (some next) p w
  ]

  take_page :
      (Option String → Progress → W → Option (Result Progress × W))
      → String
      → String
      → Progress
      → Result RecordPage × W
      → Option (Result Progress × W)
  unfolding turn_page migrate_records
  take_page continue run_id type p (err e, w) = some (err e, w)
  take_page continue run_id type p (ok page, w) =
      turn_page continue page.next_cursor (migrate_records run_id type page.records p w)

  -- The loop over the pages of a type; `none` means that the fuel ran out.
  unfoldable pub migrate_pages :
      (fuel : ℕ) → String → String → Option String → Progress → W → Option (Result Progress × W)
  unfolding take_page
  migrate_pages zero run_id type cursor p w = none
  migrate_pages (suc fuel) run_id type cursor p w =
      take_page (migrate_pages fuel run_id type) run_id type p (v.list opts.from type cursor w)
