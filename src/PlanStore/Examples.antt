-- ===== src/PlanStore/Examples.antt =====
-- src/engine/migrationPlanStore.ts: a plan that is edited, previewed and run, and the theorems at it.
use hubspot_salesforce_conne.Prelude.{◌≡◌, refl, false, some, none, List, [], ◌∷◌, inr}
use hubspot_salesforce_conne.Prelude.Dict.{lookup, insert, adjust}
use hubspot_salesforce_conne.Types.{salesforce}
use hubspot_salesforce_conne.PlanStore.{
  MigrationPlan, MigrationPlanInput, Plans, create, update, new_plan, guarded, edited, to_previewed,
  to_executing, with_canary, save_validation, save_preview, save_canary_preview, finish_canary,
  start_execution,
}
use hubspot_salesforce_conne.PlanStore.History.{Action, perform, perform_all, history_previewed}
use hubspot_salesforce_conne.PlanStore.Revisions.{stale_writer}

abbrev input : MigrationPlanInput
input = record {
  name = "contacts";
  source = salesforce;
  types = "contact" ∷ [];
  limit_per_type = some 10;
  config = none;
  created_by = some "kim";
}

abbrev actions : List Action
actions =
    Action.create 1000 "p" input
    ∷ Action.update 2000 "p" input
    ∷ Action.save_canary_preview 2500 "p" 2 "contact" "003" "c1"
    ∷ Action.save_preview 3000 "p" 2 "r1"
    ∷ Action.start_execution 4000 "p" 2
    ∷ []

-- the plan that these leave
abbrev executed : MigrationPlan
unfolding to_executing to_previewed with_canary edited new_plan
executed = to_executing 4000 (
    to_previewed 3000 2 "r1"
      (with_canary 2500 2 "contact" "003" "c1" (edited 2000 input (new_plan 1000 "p" input))))

history_previewed_example : executed.preview_revision ≡ some executed.revision
unfolding perform_all perform lookup insert adjust guarded create update save_preview
    save_canary_preview start_execution to_executing to_previewed with_canary edited new_plan
history_previewed_example = history_previewed actions "p" executed refl (inr refl)

abbrev one_plan : Plans
unfolding new_plan
one_plan = ("p", new_plan 1000 "p" input) ∷ []

stale_writer_example :
    (save_validation 5000 "p" 2 [] one_plan ≡ (false, one_plan))
    × (save_preview 5000 "p" 2 "r" one_plan ≡ (false, one_plan))
    × (save_canary_preview 5000 "p" 2 "contact" "003" "r" one_plan ≡ (false, one_plan))
    × (finish_canary 5000 "p" 2 "r" one_plan ≡ (false, one_plan))
    × (start_execution 5000 "p" 2 one_plan ≡ (false, one_plan))
unfolding lookup new_plan
stale_writer_example = stale_writer 5000 "p" 2 one_plan refl [] "contact" "003" "r"
