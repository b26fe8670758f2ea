-- ===== src/PlanStore/Revisions.antt =====
-- src/engine/migrationPlanStore.ts: the revision that guards a plan against a stale writer.
use hubspot_salesforce_conne.Prelude.{
  ℕ, String, Bool, false, ◌≡◌, none, some, eq_iff, arith, Option-cases, inl, inr, nat_eq,
  if◌then◌else◌, ◌&&◌,
}
use hubspot_salesforce_conne.Prelude.Dict.{Dict, lookup, lookup-adjust}
use hubspot_salesforce_conne.PlanStore.{
  MigrationPlan, MigrationPlanInput, Plans, guarded, update, save_validation, save_preview,
  save_canary_preview, finish_canary, start_execution, to_executing, edited, at_revision, is_number,
}

-- the revision at which the store holds a plan
abbrev pub stands_at : String → ℕ → Plans → Bool
stands_at id revision s = elim (lookup id s) [
  | none ↦ false
  | some plan ↦ nat_eq plan.revision revision
]

refused :
    (id : String) (test : MigrationPlan → Bool) (change : MigrationPlan → MigrationPlan) (s : Plans)
    → ((plan : MigrationPlan) → lookup id s ≡ some plan → test plan ≡ false)
    → guarded id test change s ≡ (false, s)
unfolding guarded
refused id test change s fails = elim (Option-cases (lookup id s)) [
  | inl e ↦ ground (arith, e)
  | inr (plan, e) ↦ ground (arith, e, fails plan e)
]

module _ (now : ℕ) (id : String) (revision : ℕ) (s : Plans)
    (h : stands_at id revision s ≡ false) where
  stale : (plan : MigrationPlan) → lookup id s ≡ some plan → at_revision revision plan ≡ false
  stale plan e = ground (arith, h, e)

  -- A writer that names another revision than the stored plan's, or a plan that is not stored, is
  -- refused by each of the five guarded operations, and changes nothing.
  pub stale_writer :
      (hashes : Dict String) (type source_id run_id : String)
      → (save_validation now id revision hashes s ≡ (false, s))
        × (save_preview now id revision run_id s ≡ (false, s))
        × (save_canary_preview now id revision type source_id run_id s ≡ (false, s))
        × (finish_canary now id revision run_id s ≡ (false, s))
        × (start_execution now id revision s ≡ (false, s))
  unfolding save_validation save_preview save_canary_preview finish_canary start_execution
  stale_writer hashes type source_id run_id = (
    refused id _ _ s stale,
    refused id _ _ s stale,
    refused id _ _ s stale,
    refused id _ _ s (λ plan e. ground (arith, stale plan e)),
    refused id _ _ s (λ plan e. ground (arith, stale plan e)),
  )

-- Right after a plan is edited no execution of it starts, whatever revision is asked for, and the
-- attempt changes nothing.
pub start_execution-update :
    (now later : ℕ) (id : String) (input : MigrationPlanInput) (revision : ℕ) (s : Plans)
    → start_execution later id revision (update now id input s).1
      ≡ (false, (update now id input s).1)
unfolding start_execution update edited
start_execution-update now later id input revision s =
    refused id _ _ (update now id input s).1 λ plan e. elim (Option-cases (lookup id s)) [
      | inl none_there ↦
          ground (arith, e, none_there, lookup-adjust id id (edited now input) s, eq_iff id id)
      | inr (old, there) ↦
          ground (arith, e, there, lookup-adjust id id (edited now input) s, eq_iff id id)
    ]

-- An execution of a plan starts exactly if the plan is stored at the named revision and was
-- previewed at that revision; the stored plan is then executing, at the same revision.
pub start_execution_lem :
    (now : ℕ) (id : String) (revision : ℕ) (s : Plans) (plan : MigrationPlan)
    → lookup id s ≡ some plan
    → ((start_execution now id revision s).0
        ≡ (nat_eq plan.revision revision && is_number plan.preview_revision revision))
      × (lookup id (start_execution now id revision s).1
          ≡ some (
              if nat_eq plan.revision revision && is_number plan.preview_revision revision
              then to_executing now plan
              else plan))
unfolding start_execution guarded
start_execution_lem now id revision s plan h =
    ground (arith, h, lookup-adjust id id (to_executing now) s, eq_iff id id)
