-- ===== src/MigrationStore.antt =====
-- src/engine/migrationStore.ts: the runs of the migration engine with the plans of their records.
use hubspot_salesforce_conne.Prelude.{
  ℕ, zero, suc, ◌+◌, String, Option, none, some, List, [], ◌∷◌, ◌++◌, reverse, take, take_last,
  get_or,
}
use hubspot_salesforce_conne.Prelude.Dict.{Dict, lookup, insert, adjust, values}
use hubspot_salesforce_conne.Prelude.Time.{Timestamp, stamp}
use hubspot_salesforce_conne.Types.{SystemId}
use hubspot_salesforce_conne.Plan.{ReconcilePlan}
use hubspot_salesforce_conne.Exec.{Exec, pure, modify, gets, ◌>>=◌, ◌>>◌}
use hubspot_salesforce_conne.Mapping.{Native}

pub data Mode : Type 0 where
  preview execute : Mode

pub data RunStatus : Type 0 where
  queued running completed failed cancelled : RunStatus

pub record MigrationRunInput : Type 0 where
  pub source : SystemId
  pub types : List String
  pub mode : Mode
  pub options : Dict Native
  pub created_by : Option String

-- what a report says of one type
pub record TypeStats : Type 0 where
  pub read : ℕ
  pub reconciled : ℕ
  pub errors : ℕ
  pub actions : Dict ℕ

pub record MigrationReport : Type 0 where
  pub run_id : String
  pub per_type : Dict TypeStats
  pub mode : Mode
  pub plans : List ReconcilePlan
  pub started_at : Timestamp
  pub finished_at : Option Timestamp

pub record MigrationRunSummary : Type 0 where
  pub input : MigrationRunInput
  pub id : String
  pub status : RunStatus
  pub report : Option MigrationReport
  pub error : Option String
  pub created_at : Timestamp
  pub started_at : Option Timestamp
  pub finished_at : Option Timestamp

-- The interface `MigrationStore`, over the state `W` that a store is part of.
pub record MigrationStore (W : Type 0) : Type 0 where
  pub begin : MigrationRunInput → Exec W String
  pub record_plan : String → ReconcilePlan → Exec W (Unit {0})
  pub complete : String → MigrationReport → Exec W (Unit {0})
  pub fail : String → String → Exec W (Unit {0})
  pub list : ℕ → Exec W (List MigrationRunSummary)
  pub plans : String → ℕ → Exec W (List ReconcilePlan)

-- the fields of `InMemoryMigrationStore`, and how many ids were drawn
pub record Memory : Type 0 where
  pub runs : Dict MigrationRunSummary
  pub items : Dict (List ReconcilePlan)
  pub drawn : ℕ

module _ (random_uuid : ℕ → String) (now : ℕ) where
  started : MigrationRunInput → String → MigrationRunSummary
  started input id = record {
    input = input;
    id = id;
    status = running;
    report = none;
    error = none;
    created_at = stamp now;
    started_at = some (stamp now);
    finished_at = none;
  }

  unfoldable pub begin_run : MigrationRunInput → Exec Memory String
  unfolding started
  begin_run input = do
    id ← gets (λ (m : Memory). random_uuid m.drawn)
    modify (λ (m : Memory). record {
      runs = insert id (started input id) m.runs;
      items = insert id [] m.items;
      drawn = m.drawn + 1;
    })
    pure id

unfoldable pub record_plan : String → ReconcilePlan → Exec Memory (Unit {0})
record_plan id plan =
    modify (λ (m : Memory). record m { items = adjust id (λ plans. plans ++ plan ∷ []) m.items })

module _ (now : ℕ) where
  unfoldable pub complete_run : String → MigrationReport → Exec Memory (Unit {0})
  complete_run id report = modify (λ (m : Memory). record m {
    runs =
        adjust id
          (λ run. record run {
            status = completed;
            report = some report;
            finished_at = some (stamp now);
          })
          m.runs;
  })

  unfoldable pub fail_run : String → String → Exec Memory (Unit {0})
  fail_run id message = modify (λ (m : Memory). record m {
    runs =
        adjust id
          (λ run. record run {
            status = failed;
            error = some message;
            finished_at = some (stamp now);
          })
          m.runs;
  })

-- `[...runs].slice(-limit).reverse()`, where `slice(-0)` gives all
unfoldable pub list_runs : ℕ → Exec Memory (List MigrationRunSummary)
list_runs limit = gets (λ (m : Memory). elim limit [
  | zero ↦ reverse (values m.runs)
  | suc n ↦ reverse (take_last (suc n) (values m.runs))
])

abbrev pub items_of : String → Memory → List ReconcilePlan
items_of id m = get_or (lookup id m.items) []

unfoldable pub plans_of : String → ℕ → Exec Memory (List ReconcilePlan)
plans_of id limit = gets (λ (m : Memory). take limit (items_of id m))

unfoldable pub in_memory : (random_uuid : ℕ → String) (now : ℕ) → MigrationStore Memory
unfolding begin_run record_plan complete_run fail_run list_runs plans_of
in_memory random_uuid now = record {
  begin = begin_run random_uuid now;
  record_plan = record_plan;
  complete = complete_run now;
  fail = fail_run now;
  list = list_runs;
  plans = plans_of;
}
