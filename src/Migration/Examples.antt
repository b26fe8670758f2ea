-- ===== src/Migration/Examples.antt =====
-- src/engine/migrationEngine.ts: a contact that is migrated through the store in memory, and the
-- theorems at it.
use hubspot_salesforce_conne.Prelude.{
  ℕ, String, true, false, ◌≡◌, refl, ◌⊎◌, Option, none, some, List, [], ◌∷◌, ◌++◌, All, map,
  map_option, concat, arith, sym, ap, ◌∙◌, eq_refl,
}
use hubspot_salesforce_conne.Prelude.Dict.{
  Dict, lookup, insert, adjust, values, fill, lookup-insert, lookup-adjust,
}
use hubspot_salesforce_conne.Prelude.Time.{stamp}
use hubspot_salesforce_conne.Types.{salesforce, hubspot, CanonicalRecord}
use hubspot_salesforce_conne.Plan.{ReconcilePlan, create}
use hubspot_salesforce_conne.Failure.{Patterns, plain}
use hubspot_salesforce_conne.Exec.{Exec, Result, ok, err, pure, throw}
use hubspot_salesforce_conne.Activity.{ActivityLog, empty_log, log, inc_migrated}
use hubspot_salesforce_conne.MigrationStore.{
  MigrationStore, MigrationReport, Memory, in_memory, begin_run, record_plan, complete_run,
  plans_of, preview, TypeStats,
}
use hubspot_salesforce_conne.Migration.{
  Services, MigrationOptions, migrate_pages, next_cursor, migrate_records, migrate_record,
  carry_out,
}
use hubspot_salesforce_conne.Migration.Runs.{
  run, begun, end_run, migrate_types, next_type, settle_run, finish_run, new_report,
}
use hubspot_salesforce_conne.Migration.Counts.{IsSound, run-IsSound}
use hubspot_salesforce_conne.Migration.Logged.{IsLogged, run-logs}
use hubspot_salesforce_conne.Migration.DryRun.{run-dry}
use hubspot_salesforce_conne.Migration.Frozen.{
  Fingerprint, execute_preview, execute_plans, execute_verified, execute_all, verify_plans,
  verify_plan, check_source, check_plan, finish_execution,
}
use hubspot_salesforce_conne.Migration.Reviewed.{IsReviewed, execute_preview-IsReviewed}

abbrev pub State : Type 0
State = Memory × ActivityLog

-- the store in memory as a part of the state
abbrev within : {A : Type 0} → Exec Memory A → Exec State A
within m (memory, log) = let (r, after) = m memory in (r, (after, log))

abbrev uuid : ℕ → String
uuid n = "r"

abbrev store : MigrationStore State
store =
    let inner = in_memory uuid 1000 in
    record {
      begin = λ input. within (inner.begin input);
      record_plan = λ id plan. within (inner.record_plan id plan);
      complete = λ id report. within (inner.complete id report);
      fail = λ id message. within (inner.fail id message);
      list = λ limit. within (inner.list limit);
      plans = λ id limit. within (inner.plans id limit);
    }

abbrev pub patterns : Patterns
patterns = record {
  trim = λ s. s;
  duplicate_value = λ s. none;
  is_not_found = λ s. false;
  is_invalid_value = λ s. false;
}

abbrev pub contact : CanonicalRecord
contact = record {
  canonical_id = "";
  type = "contact";
  fields = [];
  associations = none;
  meta = record { source = salesforce; source_id = "003"; modified_at = stamp 500; deleted = none };
}

abbrev plan : ReconcilePlan
plan = record {
  canonical_id = none;
  type = "contact";
  from = salesforce;
  to = hubspot;
  source_id = "003";
  target_id = none;
  natural_key = none;
  action = create;
  field_diff = [];
  warnings = [];
}

abbrev pub services : Services State
services = record {
  list = λ system type cursor. pure (record { records = contact ∷ []; next_cursor = none });
  read = λ system type id. pure (some contact);
  preview = λ r. pure plan;
  reconcile = λ r. pure tt;
  store = store;
  on_activity = λ f (memory, log). (memory, f log);
}

abbrev pub options : MigrationOptions
options = record {
  types = "contact" ∷ [];
  from = salesforce;
  limit_per_type = some 5;
  dry_run = true;
}

abbrev pub start : State
start = (record { runs = []; items = []; drawn = 0 }, empty_log)

abbrev ended : Option (Result MigrationReport × State)
unfolding run begun end_run migrate_types migrate_pages next_type next_cursor migrate_records
    migrate_record carry_out settle_run finish_run begin_run record_plan complete_run in_memory
    insert lookup adjust log inc_migrated
ended = run services patterns 2000 options 1 start

abbrev report_of : Option (Result MigrationReport × State) → MigrationReport
report_of (some (ok report, w)) = report
report_of _ = new_report 0 "" preview []

abbrev state_of : Option (Result MigrationReport × State) → State
state_of (some (r, w)) = w
state_of none = start

reads_one : map (λ (stats : TypeStats). stats.read) (values (report_of ended).per_type) ≡ 1 ∷ []
unfolding ended
reads_one = refl

run-IsSound_example : All (IsSound (some 5)) (values (report_of ended).per_type)
unfolding ended
run-IsSound_example =
    run-IsSound services patterns 2000 options 1 start (state_of ended) (report_of ended) refl

run-dry_example :
    run services patterns 2000 options 1 start
    ≡ run (record services { reconcile = λ r. throw (plain "no") }) patterns 2000 options 1 start
run-dry_example = run-dry services (λ r. throw (plain "no")) patterns 2000 options refl 1 start

adjusted :
    (id : String) (f : List ReconcilePlan → List ReconcilePlan) (items : Dict (List ReconcilePlan))
    → lookup id (adjust id f items) ≡ map_option f (lookup id items)
adjusted id f items = ground (arith, lookup-adjust id id f items, eq_refl id)

-- the store in memory keeps what the engine relies on
logged : IsLogged services (λ id w. lookup id w.0.items)
unfolding in_memory begin_run record_plan complete_run
logged = record {
  begins = λ input id w w' e.
      ground (arith, e, lookup-insert (uuid w.0.drawn) id [] w.0.items, eq_refl id);
  records = λ id plan w w' e.
      sym (ap (λ (x : Result (Unit {0}) × State). lookup id x.1.0.items) e)
      ∙ adjusted id (λ plans. plans ++ plan ∷ []) w.0.items;
  refuses = λ id plan f w w' e. absurd (ground (arith, e));
  completes = λ id asked report w. refl;
  lists = λ id type system cursor w. refl;
  previews = λ id r w. refl;
  reconciles = λ id r w. refl;
  notes = λ id f w. refl;
}

run-logs_example :
    lookup (report_of ended).run_id (state_of ended).0.items ≡ some (report_of ended).plans
unfolding ended logged
run-logs_example =
    run-logs services patterns 2000 options (λ id w. lookup id w.0.items) logged 1 start
      (state_of ended) (report_of ended) refl

abbrev stringify : Fingerprint → String
stringify f = concat (f.type ∷ "/" ∷ f.source_id ∷ [])

report_executed : Result MigrationReport × State → MigrationReport
report_executed (ok report, w) = report
report_executed (err e, w) = new_report 0 "" preview []

-- the state after the preview of the contact, with no execution yet
abbrev IsUntouched : State → Type 0
IsUntouched w = w.0.drawn ≡ 1

execute_preview-IsReviewed_example :
    IsUntouched (execute_preview services patterns 3000 stringify "r" (state_of ended)).1
    ⊎ ((plans : List ReconcilePlan) × ((services.store.plans "r" 100000 (state_of ended)).0
          ≡ ok plans)
        × IsReviewed services patterns stringify plans
            (services.store.plans "r" 100000 (state_of ended)).1)
unfolding ended in_memory plans_of
execute_preview-IsReviewed_example =
    execute_preview-IsReviewed services patterns stringify IsUntouched (λ system type id w h. h)
      (λ r w h. h) 3000 "r" (state_of ended) refl

-- the plan of the preview is executed
executed :
    map
      (λ (stats : TypeStats). stats.reconciled)
      (values
        (report_executed
          (execute_preview services patterns 3000 stringify "r" (state_of ended))).per_type)
    ≡ 1 ∷ []
unfolding ended execute_preview execute_plans execute_verified execute_all verify_plans verify_plan
    check_source check_plan finish_execution settle_run in_memory plans_of begin_run record_plan
    complete_run insert lookup adjust log inc_migrated fill report_executed
executed = refl
