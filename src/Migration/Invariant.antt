-- ===== src/Migration/Invariant.antt =====
-- src/engine/migrationEngine.ts: an invariant of the counts of a type, and one of the plans and the
-- state, that every step keeps, hold of the report and the state after a whole run.
use hubspot_salesforce_conne.Prelude.{
  ℕ, String, Bool, false, ◌≡◌, refl, sym, Option, none, some, List, [], ◌∷◌, arith, All, some_inj,
}
use mathlib.Core.Path.{subst}
use hubspot_salesforce_conne.Prelude.Dict.{values, insert, All-insert}
use hubspot_salesforce_conne.Prelude.Time.{stamp}
use hubspot_salesforce_conne.Types.{CanonicalRecord, system_text}
use hubspot_salesforce_conne.Plan.{ReconcilePlan}
use hubspot_salesforce_conne.Failure.{Patterns, message_of}
use hubspot_salesforce_conne.Exec.{Result, ok, err, bind_ok, pure, throw}
use hubspot_salesforce_conne.MigrationStore.{MigrationReport, TypeStats}
use hubspot_salesforce_conne.Migration.{
  Services, MigrationOptions, Progress, RecordPage, is_reached, migrate_record, migrate_pages,
  no_stats,
}
use hubspot_salesforce_conne.Migration.Runs.{
  input_of, migrate_types, next_type, finish_run, settle_run, end_run, begun, run, new_report,
  mode_of,
}
use hubspot_salesforce_conne.Migration.Keeps.{migrate_pages-keeps}

module _ {W : Type 0} (v : Services W) (patterns : Patterns) (now : ℕ) where
  pub finish_run_lem :
      (dry_run : Bool) (from : String) (report report' : MigrationReport) (w w' : W)
      → finish_run v patterns now dry_run from report w ≡ (ok report', w')
      → report' ≡ record report { finished_at = some (stamp now) }
  unfolding finish_run
  finish_run_lem dry_run from report report' w w' h =
      let done = record report { finished_at = some (stamp now) } in
      let (a, t, completed, same) =
        bind_ok (v.store.complete report.run_id done) (λ _. pure done) _ w' report' h in
      ground (arith, same)

module _ {W : Type 0} (v : Services W) (patterns : Patterns) (now : ℕ) (opts : MigrationOptions)
    (Good : TypeStats → Type 0) (Kept : String → List ReconcilePlan → W → Type 0)
    (start : Good no_stats)
    (lists : (id type : String) (cursor : Option String) (plans : List ReconcilePlan) (w w' : W)
        (page : RecordPage)
      → v.list opts.from type cursor w ≡ (ok page, w')
      → Kept id plans w
      → Kept id plans w')
    (records : (id type : String) (r : CanonicalRecord) (p p' : Progress) (w w' : W)
      → is_reached opts.limit_per_type p.stats.read ≡ false
      → migrate_record v patterns now opts id type r p w ≡ (ok p', w')
      → Good p.stats × Kept id p.plans w
      → Good p'.stats × Kept id p'.plans w')
    (begins : (id : String) (w w' : W)
      → v.store.begin (input_of opts) w ≡ (ok id, w')
      → Kept id [] w')
    (ends : (id : String) (plans : List ReconcilePlan) (w w' : W) (report report' : MigrationReport)
      → finish_run v patterns now opts.dry_run (system_text opts.from) report w ≡ (ok report', w')
      → Kept id plans w
      → Kept id plans w') where
  -- what holds of a report that is being built
  Holds : String → MigrationReport → W → Type 0
  Holds id report w =
      (report.run_id ≡ id) × All Good (values report.per_type) × Kept id report.plans w

  next_type-keeps :
      (continue : MigrationReport → W → Option (Result MigrationReport × W)) (id type : String)
      (report report' : MigrationReport) (w' : W) (r : Option (Result Progress × W))
      → ((q : MigrationReport) (t : W)
          → continue q t ≡ some (ok report', w')
          → Holds id q t
          → Holds id report' w')
      → ((p : Progress) (t : W) → r ≡ some (ok p, t) → Good p.stats × Kept id p.plans t)
      → report.run_id ≡ id
      → All Good (values report.per_type)
      → next_type v patterns now opts continue type report r ≡ some (ok report', w')
      → Holds id report' w'
  unfolding next_type Holds
  next_type-keeps continue id type report report' w' none go k e g h = absurd (ground (arith, h))
  next_type-keeps continue id type report report' w' (some (err f, t)) go k e g h =
      absurd (ground (arith, h))
  next_type-keeps continue id type report report' w' (some (ok p, t)) go k e g h =
      let (good, kept) = k p t refl in
      go (record report { per_type = insert type p.stats report.per_type; plans = p.plans }) t h
        (e, All-insert Good type p.stats report.per_type good g, kept)

  migrate_types-keeps :
      (fuel : ℕ) (types : List String) (id : String) (report report' : MigrationReport) (w w' : W)
      → migrate_types v patterns now opts fuel types report w ≡ some (ok report', w')
      → Holds id report w
      → Holds id report' w'
  unfolding migrate_types Holds
  migrate_types-keeps fuel [] id report report' w w' h k =
      let same : (report, w) ≡ (report', w') = ground (arith, h) in
      subst (λ (x : MigrationReport × W). Holds id x.0 x.1) same k
  migrate_types-keeps fuel (type ∷ types) id report report' w w' h (e, g, k) =
      let first : Progress = record { stats = no_stats; plans = report.plans } in
      next_type-keeps (migrate_types v patterns now opts fuel types) id type report report' w'
        (migrate_pages v patterns now opts fuel report.run_id type none first w)
        (λ q t. migrate_types-keeps fuel types id q report' t w')
        (λ p t done.
          migrate_pages-keeps v patterns now opts id (λ q u. Good q.stats × Kept id q.plans u)
            (λ type' cursor q u u' page read x.
              (x.0, lists id type' cursor q.plans u u' page read x.1))
            (records id) fuel type none first p w t
            (subst
              (λ (x : String).
                migrate_pages v patterns now opts fuel x type none first w ≡ some (ok p, t))
              e done)
            (start, k))
        e g h

  settle_run-ok :
      (id : String) (outcome : Result MigrationReport) (report : MigrationReport) (u w' : W)
      → settle_run v patterns now id (outcome, u) ≡ (ok report, w')
      → (outcome ≡ ok report) × (u ≡ w')
  unfolding settle_run
  settle_run-ok id (ok r) report u w' h = (ground (arith, h), ground (arith, h))
  settle_run-ok id (err e) report u w' h =
      let (a, t, kept, thrown) =
        bind_ok (v.store.fail id (message_of patterns e)) (λ _. throw e) u w' report h in
      absurd (ground (arith, thrown))

  finished-keeps :
      (id : String) (q report : MigrationReport) (u w' : W)
      → Holds id q u
      → finish_run v patterns now opts.dry_run (system_text opts.from) q u ≡ (ok report, w')
      → Holds id report w'
  unfolding Holds
  finished-keeps id q report u w' (e, g, k) h =
      subst
        (λ (x : MigrationReport).
          (x.run_id ≡ id) × All Good (values x.per_type) × Kept id x.plans w')
        (sym (finish_run_lem v patterns now opts.dry_run (system_text opts.from) q report u w' h))
        (e, g, ends id q.plans u w' q report h k)

  end_run-keeps :
      (id : String) (report : MigrationReport) (w' : W) (r : Option (Result MigrationReport × W))
      → ((q : MigrationReport) (u : W) → r ≡ some (ok q, u) → Holds id q u)
      → end_run v patterns now opts id r ≡ some (ok report, w')
      → Holds id report w'
  unfolding end_run
  end_run-keeps id report w' none k h = absurd (ground (arith, h))
  end_run-keeps id report w' (some (ok q, u)) k h =
      let (finished, same) =
        settle_run-ok id (finish_run v patterns now opts.dry_run (system_text opts.from) q u).0
          report (finish_run v patterns now opts.dry_run (system_text opts.from) q u).1 w'
          (some_inj h) in
      finished-keeps id q report u w' (k q u refl) (ground (arith, finished, same))
  end_run-keeps id report w' (some (err e, u)) k h =
      let (failed, same) = settle_run-ok id (err e) report u w' (some_inj h) in
      absurd (ground (arith, failed))

  begun-keeps :
      (fuel : ℕ) (w' : W) (report : MigrationReport) (r : Result String) (u : W)
      → ((id : String) → r ≡ ok id → Kept id [] u)
      → begun v patterns now opts fuel (r, u) ≡ some (ok report, w')
      → All Good (values report.per_type) × Kept report.run_id report.plans w'
  unfolding begun Holds
  begun-keeps fuel w' report (err e) u k h = absurd (ground (arith, h))
  begun-keeps fuel w' report (ok id) u k h =
      let (e, g, kept) =
        end_run-keeps id report w' _
          (λ q t done.
            migrate_types-keeps fuel opts.types id (new_report now id (mode_of opts.dry_run) []) q u
              t done (refl, tt, k id refl))
          h in
      (g, subst (λ (x : String). Kept x report.plans w') (sym e) kept)

  -- provided so, each report that a run gives
  pub run-keeps :
      (fuel : ℕ) (w w' : W) (report : MigrationReport)
      → run v patterns now opts fuel w ≡ some (ok report, w')
      → All Good (values report.per_type) × Kept report.run_id report.plans w'
  unfolding run
  run-keeps fuel w w' report h =
      begun-keeps fuel w' report (v.store.begin (input_of opts) w).0
        (v.store.begin (input_of opts) w).1 (λ id e. begins id w _ (ground (arith, e))) h
