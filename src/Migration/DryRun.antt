-- ===== src/Migration/DryRun.antt =====
-- src/engine/migrationEngine.ts: what a dry run calls.
use hubspot_salesforce_conne.Prelude.{
  ℕ, zero, suc, String, true, ◌≡◌, refl, ap, ◌∙◌, Option, none, some, List, [], ◌∷◌, if◌then◌else◌,
}
use hubspot_salesforce_conne.Types.{CanonicalRecord, system_text}
use hubspot_salesforce_conne.Plan.{ReconcilePlan}
use hubspot_salesforce_conne.Failure.{Patterns}
use hubspot_salesforce_conne.Exec.{Exec, Result, ok, err, pure, ◌>>=◌}
use hubspot_salesforce_conne.MigrationStore.{MigrationReport}
use hubspot_salesforce_conne.Migration.{
  Services, MigrationOptions, Progress, RecordPage, is_reached, begin_record, carry_out,
  carried_out, previewed, migrate_record, migrate_records, next_cursor, turn_page, take_page,
  migrate_pages, fail_record, no_stats,
}
use hubspot_salesforce_conne.Migration.Runs.{
  input_of, migrate_types, next_type, end_run, begun, run, settle_run, finish_run, new_report,
  mode_of,
}

module _ {W : Type 0} (v : Services W) (reconcile : CanonicalRecord → Exec W (Unit {0}))
    (patterns : Patterns) (now : ℕ) (opts : MigrationOptions) (dry : opts.dry_run ≡ true) where
  -- the same services, with another reconciler
  v' : Services W
  v' = record v { reconcile = reconcile }

  same_carry_out :
      (id : String) (r : CanonicalRecord) (plan : ReconcilePlan) (w : W)
      → carry_out v patterns now opts id r plan w ≡ carry_out v' patterns now opts id r plan w
  unfolding carry_out v'
  same_carry_out id r plan w = rw dry refl

  same_carried_out :
      (id type : String) (r : CanonicalRecord) (p : Progress) (plan : ReconcilePlan)
      (result : Result (Unit {0})) (w : W)
      → carried_out v patterns now opts id type r p plan result w
        ≡ carried_out v' patterns now opts id type r p plan result w
  unfolding carried_out fail_record v'
  same_carried_out id type r p plan (ok _) w = refl
  same_carried_out id type r p plan (err e) w = refl

  same_previewed :
      (id type : String) (r : CanonicalRecord) (p : Progress) (result : Result ReconcilePlan)
      (w : W)
      → previewed v patterns now opts id type r p result w
        ≡ previewed v' patterns now opts id type r p result w
  unfolding previewed fail_record v'
  same_previewed id type r p (ok plan) w =
      ap (λ (x : Result (Unit {0}) × W). carried_out v patterns now opts id type r p plan x.0 x.1)
        (same_carry_out id r plan w)
      ∙ same_carried_out id type r p plan _ _
  same_previewed id type r p (err e) w = refl

  same_record :
      (id type : String) (r : CanonicalRecord) (p : Progress) (w : W)
      → migrate_record v patterns now opts id type r p w
        ≡ migrate_record v' patterns now opts id type r p w
  unfolding migrate_record v'
  same_record id type r p w = same_previewed id type r (begin_record p) _ _

  same_records :
      (id type : String) (rs : List CanonicalRecord) (p : Progress) (w : W)
      → migrate_records v patterns now opts id type rs p w
        ≡ migrate_records v' patterns now opts id type rs p w
  unfolding migrate_records
  same_records id type [] p w = refl
  same_records id type (r ∷ rest) p w = λ i.
      (if is_reached opts.limit_per_type p.stats.read
          then pure p
          else ((λ u. same_record id type r p u i) >>= (λ q u. same_records id type rest q u i)))
        w

  same_turn :
      (go : Option String → Progress → W → Option (Result Progress × W)) (cursor : Option String)
      (r : Result Progress × W)
      → turn_page v patterns now opts go cursor r ≡ turn_page v' patterns now opts go cursor r
  unfolding turn_page next_cursor
  same_turn go cursor (err e, w) = refl
  same_turn go none (ok p, w) = refl
  same_turn go (some cursor) (ok p, w) = refl

  same_take :
      (go : Option String → Progress → W → Option (Result Progress × W)) (id type : String)
      (p : Progress) (r : Result RecordPage × W)
      → take_page v patterns now opts go id type p r ≡ take_page v' patterns now opts go id type p r
  unfolding take_page
  same_take go id type p (err e, w) = refl
  same_take go id type p (ok page, w) =
      ap (turn_page v patterns now opts go page.next_cursor) (same_records id type page.records p w)
      ∙ same_turn go page.next_cursor _

  same_pages :
      (fuel : ℕ) (id type : String) (cursor : Option String) (p : Progress) (w : W)
      → migrate_pages v patterns now opts fuel id type cursor p w
        ≡ migrate_pages v' patterns now opts fuel id type cursor p w
  unfolding migrate_pages v'
  same_pages zero id type cursor p w = refl
  same_pages (suc fuel) id type cursor p w =
      (λ i.
        take_page v patterns now opts (λ c q u. same_pages fuel id type c q u i) id type p
          (v.list opts.from type cursor w))
      ∙ same_take (migrate_pages v' patterns now opts fuel id type) id type p
          (v.list opts.from type cursor w)

  same_next :
      (go : MigrationReport → W → Option (Result MigrationReport × W)) (type : String)
      (report : MigrationReport) (r : Option (Result Progress × W))
      → next_type v patterns now opts go type report r
        ≡ next_type v' patterns now opts go type report r
  unfolding next_type
  same_next go type report none = refl
  same_next go type report (some (err e, w)) = refl
  same_next go type report (some (ok p, w)) = refl

  same_types :
      (fuel : ℕ) (types : List String) (report : MigrationReport) (w : W)
      → migrate_types v patterns now opts fuel types report w
        ≡ migrate_types v' patterns now opts fuel types report w
  unfolding migrate_types
  same_types fuel [] report w = refl
  same_types fuel (type ∷ types) report w =
      (λ i.
        next_type v patterns now opts (λ q u. same_types fuel types q u i) type report
          (same_pages fuel report.run_id type none
            (record { stats = no_stats; plans = report.plans }) w i))
      ∙ same_next (migrate_types v' patterns now opts fuel types) type report (
          migrate_pages v' patterns now opts fuel report.run_id type none
            (record { stats = no_stats; plans = report.plans }) w)

  same_settled :
      (id : String) (r : Result MigrationReport × W)
      → settle_run v patterns now id r ≡ settle_run v' patterns now id r
  unfolding settle_run v'
  same_settled id (ok report, w) = refl
  same_settled id (err e, w) = refl

  same_end :
      (id : String) (r : Option (Result MigrationReport × W))
      → end_run v patterns now opts id r ≡ end_run v' patterns now opts id r
  unfolding end_run finish_run v'
  same_end id none = refl
  same_end id (some (ok report, w)) =
      ap some
        (same_settled id (finish_run v patterns now opts.dry_run (system_text opts.from) report w))
  same_end id (some (err e, w)) = ap some (same_settled id (err e, w))

  same_begun :
      (fuel : ℕ) (r : Result String × W)
      → begun v patterns now opts fuel r ≡ begun v' patterns now opts fuel r
  unfolding begun
  same_begun fuel (err e, w) = refl
  same_begun fuel (ok id, w) =
      ap (end_run v patterns now opts id)
        (same_types fuel opts.types (new_report now id (mode_of opts.dry_run) []) w)
      ∙ same_end id _

  -- A dry run does the same with any reconciler: it never writes through it.
  pub run-dry :
      (fuel : ℕ) (w : W)
      → run v patterns now opts fuel w
        ≡ run (record v { reconcile = reconcile }) patterns now opts fuel w
  unfolding run v'
  run-dry fuel w = same_begun fuel (v.store.begin (input_of opts) w)
