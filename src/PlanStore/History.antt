-- ===== src/PlanStore/History.antt =====
-- src/engine/migrationPlanStore.ts: what holds of every plan after any calls of the store.
use mathlib.Core.Path.{subst}
use hubspot_salesforce_conne.Prelude.{
  ℕ, String, Bool, true, ◌≡◌, refl, Option, none, some, List, [], ◌∷◌, ◌==◌, eq_iff, arith,
  Option-cases, Bool-cases, inl, inr, ◌⊎◌, some_inj, and-eq-true,
}
use hubspot_salesforce_conne.Prelude.Dict.{
  Dict, lookup, insert, adjust, lookup-adjust, lookup-insert,
}
use hubspot_salesforce_conne.PlanStore
use hubspot_salesforce_conne.PlanStore.{
  MigrationPlan, MigrationPlanInput, MigrationPlanStatus, Plans, draft, previewed, executing,
  new_plan, guarded, edited, at_revision, is_number, canary_revision, to_validated, to_previewed,
  with_canary, verified, to_executing, finished,
}

-- a call of the store, with the time at which it is made
pub data Action : Type 0 where
  create : ℕ → String → MigrationPlanInput → Action
  update : ℕ → String → MigrationPlanInput → Action
  save_validation : ℕ → String → ℕ → Dict String → Action
  save_preview : ℕ → String → ℕ → String → Action
  save_canary_preview : ℕ → String → ℕ → (type source_id run_id : String) → Action
  finish_canary : ℕ → String → ℕ → String → Action
  start_execution : ℕ → String → ℕ → Action
  finish_execution : ℕ → String → Option String → Bool → Action

unfoldable pub perform : Action → Plans → Plans
perform (create now id input) s = (PlanStore.create now id input s).1
perform (update now id input) s = (PlanStore.update now id input s).1
perform (save_validation now id revision hashes) s =
    (PlanStore.save_validation now id revision hashes s).1
perform (save_preview now id revision run) s = (PlanStore.save_preview now id revision run s).1
perform (save_canary_preview now id revision type source run) s =
    (PlanStore.save_canary_preview now id revision type source run s).1
perform (finish_canary now id revision run) s = (PlanStore.finish_canary now id revision run s).1
perform (start_execution now id revision) s = (PlanStore.start_execution now id revision s).1
perform (finish_execution now id run ok) s = PlanStore.finish_execution now id run ok s

unfoldable pub perform_all : List Action → Plans → Plans
perform_all [] s = s
perform_all (a ∷ rest) s = perform_all rest (perform a s)

-- what is reviewed in a plan is its present revision
pub record IsReviewed (plan : MigrationPlan) : Type 0 where
  pub preview : (r : ℕ) → plan.preview_revision ≡ some r → r ≡ plan.revision
  pub canary : (r : ℕ) → canary_revision plan ≡ some r → r ≡ plan.revision
  pub previewed : plan.status ≡ PlanStore.previewed → plan.preview_revision ≡ some plan.revision
  pub executing : plan.status ≡ PlanStore.executing → plan.preview_revision ≡ some plan.revision
  pub draft : plan.status ≡ PlanStore.draft → plan.preview_revision ≡ none

abbrev pub AreReviewed : Plans → Type 0
AreReviewed s = (k : String) (plan : MigrationPlan) → lookup k s ≡ some plan → IsReviewed plan

adjust-AreReviewed :
    (id : String) (change : MigrationPlan → MigrationPlan) (s : Plans)
    → ((plan : MigrationPlan)
        → lookup id s ≡ some plan
        → IsReviewed plan
        → IsReviewed (change plan))
    → AreReviewed s
    → AreReviewed (adjust id change s)
adjust-AreReviewed id change s keeps v k plan h = elim (Bool-cases (id == k)) [
  | inr other ↦ v k plan (ground (arith, h, other, lookup-adjust id k change s))
  | inl same ↦ elim (Option-cases (lookup k s)) [
    | inl e ↦ absurd (ground (arith, h, same, e, lookup-adjust id k change s))
    | inr (old, e) ↦
        let is_old : lookup id s ≡ some old = ground (arith, e, same, eq_iff id k) in
        let changed : some (change old) ≡ some plan =
          ground (arith, h, same, e, lookup-adjust id k change s) in
        subst IsReviewed (some_inj changed) (keeps old is_old (v id old is_old))
  ]
]

guarded-AreReviewed :
    (id : String) (test : MigrationPlan → Bool) (change : MigrationPlan → MigrationPlan) (s : Plans)
    → ((plan : MigrationPlan) → test plan ≡ true → IsReviewed plan → IsReviewed (change plan))
    → AreReviewed s
    → AreReviewed (guarded id test change s).1
unfolding guarded
guarded-AreReviewed id test change s keeps v = elim (Option-cases (lookup id s)) [
  | inl e ↦ rw (guarded, e) v
  | inr (plan, e) ↦ elim (Bool-cases (test plan)) [
    | inr fails ↦ rw (guarded, e, fails) v
    | inl passes ↦
        rw (guarded, e, passes)
          (adjust-AreReviewed id change s
            (λ other h r. keeps other (ground (arith, h, e, passes)) r) v)
  ]
]

new_plan-IsReviewed :
    (now : ℕ) (id : String) (input : MigrationPlanInput) → IsReviewed (new_plan now id input)
unfolding new_plan
new_plan-IsReviewed now id input = record {
  preview = λ r h. ground (arith, h);
  canary = λ r h. ground (arith, h);
  previewed = λ h. ground (arith, h);
  executing = λ h. ground (arith, h);
  draft = λ h. refl;
}

edited-IsReviewed :
    (now : ℕ) (input : MigrationPlanInput) (plan : MigrationPlan)
    → IsReviewed (edited now input plan)
unfolding edited
edited-IsReviewed now input plan = record {
  preview = λ r h. ground (arith, h);
  canary = λ r h. ground (arith, h);
  previewed = λ h. ground (arith, h);
  executing = λ h. ground (arith, h);
  draft = λ h. refl;
}

module _ (now : ℕ) (plan : MigrationPlan) (v : IsReviewed plan) where
  to_validated-IsReviewed : (hashes : Dict String) → IsReviewed (to_validated now hashes plan)
  unfolding to_validated
  to_validated-IsReviewed hashes = record {
    preview = v.preview;
    canary = v.canary;
    previewed = λ h. ground (arith, h);
    executing = λ h. ground (arith, h);
    draft = λ h. ground (arith, h);
  }

  to_previewed-IsReviewed :
      (revision : ℕ) (run : String)
      → at_revision revision plan ≡ true
      → IsReviewed (to_previewed now revision run plan)
  unfolding to_previewed
  to_previewed-IsReviewed revision run same = record {
    preview = λ r h. ground (arith, h, same);
    canary = v.canary;
    previewed = λ h. ground (arith, same);
    executing = λ h. ground (arith, h);
    draft = λ h. ground (arith, h);
  }

  with_canary-IsReviewed :
      (revision : ℕ) (type source_id run : String)
      → at_revision revision plan ≡ true
      → IsReviewed (with_canary now revision type source_id run plan)
  unfolding with_canary
  with_canary-IsReviewed revision type source_id run same = record {
    preview = v.preview;
    canary = λ r h. ground (arith, h, same);
    previewed = v.previewed;
    executing = v.executing;
    draft = v.draft;
  }

  verified-IsReviewed : (run : String) → IsReviewed (verified now run plan)
  unfolding verified
  verified-IsReviewed run = record {
    preview = v.preview;
    canary = λ r h. v.canary r (ground (arith, h));
    previewed = v.previewed;
    executing = v.executing;
    draft = v.draft;
  }

  to_executing-IsReviewed :
      (revision : ℕ)
      → at_revision revision plan ≡ true
      → is_number plan.preview_revision revision ≡ true
      → IsReviewed (to_executing now plan)
  unfolding to_executing
  to_executing-IsReviewed revision same reviewed = record {
    preview = v.preview;
    canary = v.canary;
    previewed = λ h. ground (arith, h);
    executing = λ h. ground (arith, same, reviewed);
    draft = λ h. ground (arith, h);
  }

  finished-IsReviewed : (run : Option String) (ok : Bool) → IsReviewed (finished now run ok plan)
  unfolding finished
  finished-IsReviewed run ok = record {
    preview = v.preview;
    canary = v.canary;
    previewed = λ h. ground (arith, h);
    executing = λ h. ground (arith, h);
    draft = λ h. ground (arith, h);
  }

insert-AreReviewed :
    (id : String) (plan : MigrationPlan) (s : Plans)
    → IsReviewed plan
    → AreReviewed s
    → AreReviewed (insert id plan s)
insert-AreReviewed id plan s new v k found h = elim (Bool-cases (id == k)) [
  | inr other ↦ v k found (ground (arith, h, other, lookup-insert id k plan s))
  | inl same ↦
      let is_new : some plan ≡ some found = ground (arith, h, same, lookup-insert id k plan s) in
      subst IsReviewed (some_inj is_new) new
]

perform-AreReviewed : (a : Action) (s : Plans) → AreReviewed s → AreReviewed (perform a s)
unfolding perform PlanStore.create PlanStore.update PlanStore.save_validation PlanStore.save_preview
    PlanStore.save_canary_preview PlanStore.finish_canary PlanStore.start_execution
    PlanStore.finish_execution
perform-AreReviewed (create now id input) s v =
    insert-AreReviewed id (new_plan now id input) s (new_plan-IsReviewed now id input) v
perform-AreReviewed (update now id input) s v =
    adjust-AreReviewed id (edited now input) s (λ plan h r. edited-IsReviewed now input plan) v
perform-AreReviewed (save_validation now id revision hashes) s v =
    guarded-AreReviewed id _ _ s (λ plan h r. to_validated-IsReviewed now plan r hashes) v
perform-AreReviewed (save_preview now id revision run) s v =
    guarded-AreReviewed id _ _ s (λ plan h r. to_previewed-IsReviewed now plan r revision run h) v
perform-AreReviewed (save_canary_preview now id revision type source run) s v =
    guarded-AreReviewed id _ _ s
      (λ plan h r. with_canary-IsReviewed now plan r revision type source run h) v
perform-AreReviewed (finish_canary now id revision run) s v =
    guarded-AreReviewed id _ _ s (λ plan h r. verified-IsReviewed now plan r run) v
perform-AreReviewed (start_execution now id revision) s v =
    guarded-AreReviewed id _ _ s
      (λ plan h r.
        let (same, reviewed) = and-eq-true _ _ h in
        to_executing-IsReviewed now plan r revision same reviewed)
      v
perform-AreReviewed (finish_execution now id run ok) s v =
    adjust-AreReviewed id (finished now run ok) s
      (λ plan h r. finished-IsReviewed now plan r run ok) v

perform_all-AreReviewed :
    (actions : List Action) (s : Plans) → AreReviewed s → AreReviewed (perform_all actions s)
unfolding perform_all
perform_all-AreReviewed [] s v = v
perform_all-AreReviewed (a ∷ rest) s v =
    perform_all-AreReviewed rest (perform a s) (perform-AreReviewed a s v)

-- After any sequence of calls on an empty store, a stored plan that is being executed, or that
-- counts as previewed, has been previewed at its present revision.
pub history_previewed :
    (actions : List Action) (k : String) (plan : MigrationPlan)
    → lookup k (perform_all actions []) ≡ some plan
    → (plan.status ≡ previewed) ⊎ (plan.status ≡ executing)
    → plan.preview_revision ≡ some plan.revision
unfolding lookup
history_previewed actions k plan h (inl is_previewed) =
    (perform_all-AreReviewed actions [] (λ j p e. ground (arith, e)) k plan h).previewed
      is_previewed
history_previewed actions k plan h (inr is_executing) =
    (perform_all-AreReviewed actions [] (λ j p e. ground (arith, e)) k plan h).executing
      is_executing

-- After any sequence of calls on an empty store, a canary that a stored plan records was previewed
-- at the plan's present revision.
pub history_canary :
    (actions : List Action) (k : String) (plan : MigrationPlan) (revision : ℕ)
    → lookup k (perform_all actions []) ≡ some plan
    → canary_revision plan ≡ some revision
    → revision ≡ plan.revision
unfolding lookup
history_canary actions k plan revision h =
    (perform_all-AreReviewed actions [] (λ j p e. ground (arith, e)) k plan h).canary revision
