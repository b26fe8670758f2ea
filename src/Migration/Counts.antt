-- ===== src/Migration/Counts.antt =====
-- src/engine/migrationEngine.ts: what the report of a run counts.
use hubspot_salesforce_conne.Prelude.{
  ℕ, zero, suc, ◌+◌, ◌≤◌, String, false, ◌≡◌, refl, sym, ◌⊎◌, inl, inr, Option, none, some, arith,
  All,
}
use mathlib.Core.Path.{subst}
use hubspot_salesforce_conne.Prelude.Dict.{values}
use hubspot_salesforce_conne.Types.{CanonicalRecord, other}
use hubspot_salesforce_conne.Plan.{ReconcilePlan}
use hubspot_salesforce_conne.Failure.{Failure, Patterns, friendly_error_message}
use hubspot_salesforce_conne.Exec.{Result, ok, err, bind_ok, pure}
use hubspot_salesforce_conne.MigrationStore.{MigrationReport, TypeStats}
use hubspot_salesforce_conne.Migration.{
  Services, MigrationOptions, Progress, is_reached, begin_record, count_plan, count_error,
  failed_plan, fail_record, system_label, carry_out, carried_out, previewed, migrate_record,
  no_stats,
}
use hubspot_salesforce_conne.Migration.Runs.{run}
use hubspot_salesforce_conne.Migration.Invariant.{run-keeps}

-- one record further, with its plan or with the plan of its failure
abbrev pub IsCounted : Progress → Progress → Type 0
IsCounted p p' =
    (plan : ReconcilePlan) × ((p' ≡ count_plan plan (begin_record p))
      ⊎ (p' ≡ count_error plan (begin_record p)))

module _ {W : Type 0} (v : Services W) (patterns : Patterns) (now : ℕ) (opts : MigrationOptions)
    (run_id type : String) (r : CanonicalRecord) (p p' : Progress) where
  fail_record-IsCounted :
      (plan : Option ReconcilePlan) (e : Failure) (w w' : W)
      → fail_record v patterns now opts run_id type r (begin_record p) plan e w ≡ (ok p', w')
      → IsCounted p p'
  unfolding fail_record
  fail_record-IsCounted plan e w w' h =
      let failed =
        failed_plan opts.from type r
          (friendly_error_message patterns e (system_label (other opts.from))) plan in
      let (a, u, recorded, done) =
        bind_ok (v.store.record_plan run_id failed)
          (λ _. pure (count_error failed (begin_record p))) w w' p' h in
      (failed, inr (ground (arith, done)))

  carried_out-IsCounted :
      (plan : ReconcilePlan) (result : Result (Unit {0})) (w w' : W)
      → carried_out v patterns now opts run_id type r (begin_record p) plan result w ≡ (ok p', w')
      → IsCounted p p'
  unfolding carried_out
  carried_out-IsCounted plan (ok _) w w' h = (plan, inl (ground (arith, h)))
  carried_out-IsCounted plan (err e) w w' h = fail_record-IsCounted (some plan) e w w' h

  previewed-IsCounted :
      (result : Result ReconcilePlan) (w w' : W)
      → previewed v patterns now opts run_id type r (begin_record p) result w ≡ (ok p', w')
      → IsCounted p p'
  unfolding previewed
  previewed-IsCounted (ok plan) w w' h =
      carried_out-IsCounted plan (carry_out v patterns now opts run_id r plan w).0
        (carry_out v patterns now opts run_id r plan w).1 w' h
  previewed-IsCounted (err e) w w' h = fail_record-IsCounted none e w w' h

  pub migrate_record-IsCounted :
      (w w' : W)
      → migrate_record v patterns now opts run_id type r p w ≡ (ok p', w')
      → IsCounted p p'
  unfolding migrate_record
  migrate_record-IsCounted w w' h = previewed-IsCounted (v.preview r w).0 (v.preview r w).1 w' h

-- the counts of a type add up, and keep to the limit if there is one
abbrev pub Within : Option ℕ → ℕ → Type 0
Within none read = Unit
Within (some zero) read = Unit
Within (some (suc n)) read = read ≤ suc n

abbrev pub IsSound : Option ℕ → TypeStats → Type 0
IsSound limit stats = (stats.read ≡ stats.reconciled + stats.errors) × Within limit stats.read

IsSound-no_stats : (limit : Option ℕ) → IsSound limit no_stats
IsSound-no_stats none = (refl, tt)
IsSound-no_stats (some zero) = (refl, tt)
IsSound-no_stats (some (suc n)) = (refl, omega arith)

Within-suc : (limit : Option ℕ) (read : ℕ) → is_reached limit read ≡ false → Within limit (read + 1)
Within-suc none read h = tt
Within-suc (some zero) read h = tt
Within-suc (some (suc n)) read h = ground (arith, h)

IsCounted-IsSound :
    (limit : Option ℕ) (p p' : Progress)
    → is_reached limit p.stats.read ≡ false
    → IsSound limit p.stats
    → IsCounted p p'
    → IsSound limit p'.stats
IsCounted-IsSound limit p p' more (e, k) (plan, inl h) =
    subst (λ (q : Progress). IsSound limit q.stats) (sym h)
      (omega (arith, e), Within-suc limit p.stats.read more)
IsCounted-IsSound limit p p' more (e, k) (plan, inr h) =
    subst (λ (q : Progress). IsSound limit q.stats) (sym h)
      (omega (arith, e), Within-suc limit p.stats.read more)

module _ {W : Type 0} (v : Services W) (patterns : Patterns) (now : ℕ)
    (opts : MigrationOptions) where
  -- In the report of a run, the counts of every type add up: each record that was read was either
  -- reconciled or is an error; and no more records of a type were read than the limit, if it is
  -- not 0, allows.
  pub run-IsSound :
      (fuel : ℕ) (w w' : W) (report : MigrationReport)
      → run v patterns now opts fuel w ≡ some (ok report, w')
      → All (IsSound opts.limit_per_type) (values report.per_type)
  run-IsSound fuel w w' report h =
      (run-keeps v patterns now opts (IsSound opts.limit_per_type) (λ id plans w. Unit)
        (IsSound-no_stats opts.limit_per_type) (λ id type cursor plans w w' page h k. tt)
        (λ id type r p p' w w' more h k. (
          IsCounted-IsSound opts.limit_per_type p p' more k.0
              (migrate_record-IsCounted v patterns now opts id type r p p' w w' h),
          tt,
        ))
        (λ id w w' h. tt) (λ id plans w w' q q' h k. tt) fuel w w' report h).0
