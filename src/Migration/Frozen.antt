-- ===== src/Migration/Frozen.antt =====
-- src/engine/migrationEngine.ts: the preview of one record, and the execution of a reviewed preview.
use hubspot_salesforce_conne.Prelude.{
  ℕ, ◌+◌, String, true, not, Option, none, some, List, [], ◌∷◌, ◌==◌, if◌then◌else◌, any, dedupe,
  map, concat,
}
use Prim.Native.String.{slice}
use hubspot_salesforce_conne.Prelude.Dict.{Dict, insert, adjust, values, fill}
use hubspot_salesforce_conne.Prelude.Time.{stamp, nat_text}
use hubspot_salesforce_conne.Types.{SystemId, CanonicalRecord, system_eq, system_text, str, bool}
use hubspot_salesforce_conne.Plan.{ReconcilePlan, PlannedAction, FieldDiff}
use hubspot_salesforce_conne.Failure.{Failure, plain, Patterns}
use hubspot_salesforce_conne.Exec.{Exec, pure, throw, modify, ◌>>=◌, ◌>>◌}
use hubspot_salesforce_conne.Activity
use hubspot_salesforce_conne.Activity.{ActivityKind}
use hubspot_salesforce_conne.Mapping.{Native, scalar}
use hubspot_salesforce_conne.MigrationStore.{
  preview, execute, MigrationReport, MigrationRunInput, TypeStats,
}
use hubspot_salesforce_conne.Migration.{Services, no_stats, count_action, is_ambiguous}
use hubspot_salesforce_conne.Migration.Runs.{new_report, total_of, settle_run}

pub record RecordPreviewOptions : Type 0 where
  pub from : SystemId
  pub type : String
  pub source_id : String
  pub run_options : Dict Native

-- `{ ...entries, ...more }`
abbrev pub assign : Dict Native → Dict Native → Dict Native
assign out [] = out
assign out ((k, v) ∷ more) = assign (insert k v out) more

-- what `planFingerprint` writes as JSON
pub record Fingerprint : Type 0 where
  pub type : String
  pub from : SystemId
  pub to : SystemId
  pub source_id : String
  pub target_id : Option String
  pub natural_key : Option String
  pub action : PlannedAction
  pub field_diff : List FieldDiff
  pub warnings : List String

abbrev pub fingerprint_of : ReconcilePlan → Fingerprint
fingerprint_of plan = record {
  type = plan.type;
  from = plan.from;
  to = plan.to;
  source_id = plan.source_id;
  target_id = plan.target_id;
  natural_key = plan.natural_key;
  action = plan.action;
  field_diff = plan.field_diff;
  warnings = plan.warnings;
}

pub record Verified : Type 0 where
  pub source : CanonicalRecord
  pub plan : ReconcilePlan

module _ {W : Type 0} (v : Services W) (patterns : Patterns) (now : ℕ) where
  -- the body of the `try` of `previewRecord`
  unfoldable pub preview_one :
      RecordPreviewOptions → CanonicalRecord → String → Exec W MigrationReport
  preview_one opts r id = do
    plan ← v.preview r
    v.store.record_plan id plan
    modify (
        v.on_activity (
          Activity.log now ActivityKind.migrate
            (concat ("Prepared one-record migration test from " ∷ system_text opts.from ∷ []))))
    let stats : TypeStats = record {
      read = 1;
      reconciled = 1;
      errors = 0;
      actions = count_action plan.action [];
    }
    let report = record (new_report now id preview ((opts.type, stats) ∷ [])) {
      plans = plan ∷ [];
      finished_at = some (stamp now);
    }
    v.store.complete id report
    pure report

  canary_input : RecordPreviewOptions → MigrationRunInput
  canary_input opts = record {
    source = opts.from;
    types = opts.type ∷ [];
    mode = preview;
    options =
        assign (("canary", scalar (bool true)) ∷ ("sourceId", scalar (str opts.source_id)) ∷ [])
          opts.run_options;
    created_by = none;
  }

  found_source : RecordPreviewOptions → Option CanonicalRecord → Exec W CanonicalRecord
  found_source opts none =
      throw (plain (concat ("source record not found: " ∷ opts.type ∷ " " ∷ opts.source_id ∷ [])))
  found_source opts (some r) = pure r

  unfoldable pub preview_record : RecordPreviewOptions → Exec W MigrationReport
  unfolding preview_one canary_input found_source settle_run
  preview_record opts = do
    read ← v.read opts.from opts.type opts.source_id
    r ← found_source opts read
    id ← v.store.begin (canary_input opts)
    λ w. settle_run v patterns now id (preview_one opts r id w)

-- `stringify` is `JSON.stringify` of the object that `planFingerprint` builds.
module _ {W : Type 0} (v : Services W) (patterns : Patterns)
    (stringify : Fingerprint → String) where
  drift : ReconcilePlan → String → Failure
  drift frozen what =
      plain (concat ("preview drift: " ∷ frozen.type ∷ " " ∷ frozen.source_id ∷ what ∷ []))

  -- one round of the loop that rechecks the plans
  unfoldable pub check_plan : ReconcilePlan → CanonicalRecord → ReconcilePlan → Exec W Verified
  unfolding drift
  check_plan frozen r current =
      if not (stringify (fingerprint_of current) == stringify (fingerprint_of frozen))
      then throw (drift frozen " changed after review")
      else pure (record { source = r; plan = frozen })

  unfoldable pub check_source : ReconcilePlan → Option CanonicalRecord → Exec W Verified
  unfolding drift check_plan
  check_source frozen none = throw (drift frozen " no longer exists")
  check_source frozen (some r) = v.preview r >>= check_plan frozen r

  unfoldable pub verify_plan : SystemId → ReconcilePlan → Exec W Verified
  unfolding check_source
  verify_plan from frozen = v.read from frozen.type frozen.source_id >>= check_source frozen

  unfoldable pub verify_plans : SystemId → List ReconcilePlan → Exec W (List Verified)
  unfolding verify_plan
  verify_plans from [] = pure []
  verify_plans from (frozen ∷ rest) = do
    one ← verify_plan from frozen
    others ← verify_plans from rest
    pure (one ∷ others)

abbrev count_executed : PlannedAction → TypeStats → TypeStats
count_executed action stats = record stats {
  read = stats.read + 1;
  reconciled = stats.reconciled + 1;
  actions = count_action action stats.actions;
}

module _ {W : Type 0} (v : Services W) (patterns : Patterns) (now : ℕ) where
  -- The loop over the verified records. A failure ends the run, so its count is lost.
  unfoldable pub execute_all : String → List Verified → MigrationReport → Exec W MigrationReport
  execute_all id [] report = pure report
  execute_all id (one ∷ rest) report = do
    v.store.record_plan id one.plan
    v.reconcile one.source
    execute_all id rest (record report {
      per_type = adjust one.plan.type (count_executed one.plan.action) report.per_type;
    })

  unfoldable pub finish_execution : String → MigrationReport → Exec W MigrationReport
  finish_execution preview_id report =
      let total = total_of (values report.per_type) in
      let done = record report { finished_at = some (stamp now) } in
      (do
        modify (v.on_activity (Activity.inc_migrated total))
        modify (
            v.on_activity (
              Activity.log now ActivityKind.migrate (
                concat (
                  "Executed frozen preview "
                  ∷ slice preview_id 0 8
                  ∷ " ("
                  ∷ nat_text total
                  ∷ " records)"
                  ∷ []))))
        v.store.complete report.run_id done
        pure done)

  abbrev types_of : List ReconcilePlan → List String
  types_of plans = dedupe (map (λ (plan : ReconcilePlan). plan.type) plans)

  frozen_input : String → SystemId → List ReconcilePlan → MigrationRunInput
  frozen_input preview_id from plans = record {
    source = from;
    types = types_of plans;
    mode = execute;
    options = ("previewRunId", scalar (str preview_id)) ∷ ("frozen", scalar (bool true)) ∷ [];
    created_by = none;
  }

  -- what follows once every plan is verified
  unfoldable pub execute_verified :
      String → SystemId → List ReconcilePlan → List Verified → Exec W MigrationReport
  unfolding execute_all finish_execution frozen_input fill settle_run
  execute_verified preview_id from plans verified = do
    id ← v.store.begin (frozen_input preview_id from plans)
    let report = new_report now id execute (fill (types_of plans) no_stats [])
    λ w.
        settle_run v patterns now id
          ((execute_all id verified report >>= finish_execution preview_id) w)

module _ {W : Type 0} (v : Services W) (patterns : Patterns) (now : ℕ)
    (stringify : Fingerprint → String) where
  -- what follows once the stored plans are read
  unfoldable pub execute_plans : String → List ReconcilePlan → Exec W MigrationReport
  unfolding verify_plans execute_verified
  execute_plans preview_id [] = throw (plain "preview has no executable records")
  execute_plans preview_id (first ∷ rest) =
      if any (λ (plan : ReconcilePlan). is_ambiguous plan.action) (first ∷ rest)
      then throw (plain "preview contains ambiguous matches")
      else if any (λ (plan : ReconcilePlan). not (system_eq plan.from first.from)) (first ∷ rest)
      then throw (plain "preview contains mixed source systems")
      else verify_plans v patterns stringify first.from (first ∷ rest)
        >>= execute_verified v patterns now preview_id first.from (first ∷ rest)

  unfoldable pub execute_preview : String → Exec W MigrationReport
  unfolding execute_plans
  execute_preview preview_id = v.store.plans preview_id 100000 >>= execute_plans preview_id
