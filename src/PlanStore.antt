-- ===== src/PlanStore.antt =====
-- src/engine/migrationPlanStore.ts: migration plans as an operator edits, validates, previews and
-- runs them (`InMemoryMigrationPlanStore`). Plans leave the store as copies, so a change of a plan
-- is a change by one of these operations.
mod Examples
pub mod History
pub mod Revisions
use hubspot_salesforce_conne.Prelude.{
  ℕ, zero, suc, ◌+◌, String, Bool, true, false, ◌&&◌, Option, none, some, List, [], ◌∷◌,
  if◌then◌else◌, nat_eq, take_last, reverse, get_or, map_option, is_some,
}
use hubspot_salesforce_conne.Prelude.Dict.{Dict, lookup, insert, adjust, values}
use hubspot_salesforce_conne.Prelude.Time.{Timestamp, stamp}
use hubspot_salesforce_conne.Types.{SystemId}

pub data MigrationPlanStatus : Type 0 where
  draft validated previewed executing completed failed : MigrationPlanStatus

-- `objectSettings`: whether each type is included, where this is said
pub record MigrationPlanConfig : Type 0 where
  pub object_settings : Option (Dict (Option Bool))

pub record Canary : Type 0 where
  pub type : String
  pub source_id : String
  pub preview_run_id : String
  pub preview_revision : ℕ
  pub execution_run_id : Option String
  pub verified_at : Option Timestamp

pub record MigrationPlan : Type 0 where
  pub id : String
  pub name : String
  pub source : SystemId
  pub types : List String
  pub limit_per_type : Option ℕ
  pub config : MigrationPlanConfig
  pub status : MigrationPlanStatus
  pub revision : ℕ
  pub schema_hashes : Dict String
  pub preview_run_id : Option String
  pub preview_revision : Option ℕ
  pub execution_run_id : Option String
  pub canary : Option Canary
  pub created_by : Option String
  pub created_at : Timestamp
  pub updated_at : Timestamp

pub record MigrationPlanInput : Type 0 where
  pub name : String
  pub source : SystemId
  pub types : List String
  pub limit_per_type : Option ℕ
  pub config : Option MigrationPlanConfig
  pub created_by : Option String

abbrev pub Plans : Type 0
Plans = Dict MigrationPlan

-- a new plan; `id` is the random UUID that is drawn for it
unfoldable pub new_plan : ℕ → String → MigrationPlanInput → MigrationPlan
new_plan now id input = record {
  id = id;
  name = input.name;
  source = input.source;
  types = input.types;
  limit_per_type = input.limit_per_type;
  config = get_or input.config (record { object_settings = none });
  status = draft;
  revision = 1;
  schema_hashes = [];
  preview_run_id = none;
  preview_revision = none;
  execution_run_id = none;
  canary = none;
  created_by = input.created_by;
  created_at = stamp now;
  updated_at = stamp now;
}

unfoldable pub create : ℕ → String → MigrationPlanInput → Plans → MigrationPlan × Plans
create now id input s = (new_plan now id input, insert id (new_plan now id input) s)

-- `slice(-limit).reverse()`, where `slice(-0)` is the whole array
unfoldable pub list : Option ℕ → Plans → List MigrationPlan
list limit s =
    reverse
      (if nat_eq (get_or limit 50) 0 then values s else take_last (get_or limit 50) (values s))

unfoldable pub get : String → Plans → Option MigrationPlan
get id s = lookup id s

-- what `update` assigns
unfoldable pub edited : ℕ → MigrationPlanInput → MigrationPlan → MigrationPlan
edited now input plan = record plan {
  name = input.name;
  source = input.source;
  types = input.types;
  limit_per_type = input.limit_per_type;
  config = get_or input.config (record { object_settings = none });
  status = draft;
  revision = plan.revision + 1;
  schema_hashes = [];
  preview_run_id = none;
  preview_revision = none;
  execution_run_id = none;
  canary = none;
  updated_at = stamp now;
}

unfoldable pub update : ℕ → String → MigrationPlanInput → Plans → Option MigrationPlan × Plans
update now id input s =
    (map_option (edited now input) (lookup id s), adjust id (edited now input) s)

-- `if (!plan || ...) return false; ...; return true`, with the test of the plan and its change
unfoldable pub guarded :
    String → (MigrationPlan → Bool) → (MigrationPlan → MigrationPlan) → Plans → Bool × Plans
guarded id test change s = elim (lookup id s) [
  | none ↦ (false, s)
  | some plan ↦ if test plan then (true, adjust id change s) else (false, s)
]

abbrev pub at_revision : ℕ → MigrationPlan → Bool
at_revision revision plan = nat_eq plan.revision revision

-- `value === revision` of an optional number
abbrev pub is_number : Option ℕ → ℕ → Bool
is_number none revision = false
is_number (some n) revision = nat_eq n revision

abbrev pub canary_revision : MigrationPlan → Option ℕ
canary_revision plan = map_option (λ (c : Canary). c.preview_revision) plan.canary

unfoldable pub to_validated : ℕ → Dict String → MigrationPlan → MigrationPlan
to_validated now schema_hashes plan = record plan {
  status = validated;
  schema_hashes = schema_hashes;
  updated_at = stamp now;
}

unfoldable pub save_validation : ℕ → String → ℕ → Dict String → Plans → Bool × Plans
save_validation now id revision schema_hashes =
    guarded id (at_revision revision) (to_validated now schema_hashes)

unfoldable pub to_previewed : ℕ → ℕ → String → MigrationPlan → MigrationPlan
to_previewed now revision run_id plan = record plan {
  status = previewed;
  preview_run_id = some run_id;
  preview_revision = some revision;
  updated_at = stamp now;
}

unfoldable pub save_preview : ℕ → String → ℕ → String → Plans → Bool × Plans
save_preview now id revision run_id =
    guarded id (at_revision revision) (to_previewed now revision run_id)

unfoldable pub with_canary : ℕ → ℕ → String → String → String → MigrationPlan → MigrationPlan
with_canary now revision type source_id run_id plan = record plan {
  canary = some (record {
    type = type;
    source_id = source_id;
    preview_run_id = run_id;
    preview_revision = revision;
    execution_run_id = none;
    verified_at = none;
  });
  updated_at = stamp now;
}

unfoldable pub save_canary_preview :
    ℕ → String → ℕ → String → String → String → Plans → Bool × Plans
save_canary_preview now id revision type source_id run_id =
    guarded id (at_revision revision) (with_canary now revision type source_id run_id)

unfoldable pub verified : ℕ → String → MigrationPlan → MigrationPlan
verified now run_id plan = record plan {
  canary =
      map_option
        (λ (c : Canary). record c {
          execution_run_id = some run_id;
          verified_at = some (stamp now);
        })
        plan.canary;
  updated_at = stamp now;
}

unfoldable pub finish_canary : ℕ → String → ℕ → String → Plans → Bool × Plans
finish_canary now id revision run_id =
    guarded id (λ plan. at_revision revision plan && is_number (canary_revision plan) revision)
      (verified now run_id)

unfoldable pub to_executing : ℕ → MigrationPlan → MigrationPlan
to_executing now plan = record plan { status = executing; updated_at = stamp now }

unfoldable pub start_execution : ℕ → String → ℕ → Plans → Bool × Plans
start_execution now id revision =
    guarded id (λ plan. at_revision revision plan && is_number plan.preview_revision revision)
      (to_executing now)

unfoldable pub finished : ℕ → Option String → Bool → MigrationPlan → MigrationPlan
finished now run_id ok plan = record plan {
  status = if ok then completed else failed;
  execution_run_id = run_id;
  updated_at = stamp now;
}

unfoldable pub finish_execution : ℕ → String → Option String → Bool → Plans → Plans
finish_execution now id run_id ok = adjust id (finished now run_id ok)
