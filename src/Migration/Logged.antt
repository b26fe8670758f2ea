-- ===== src/Migration/Logged.antt =====
-- src/engine/migrationEngine.ts: what the store keeps of a run.
use hubspot_salesforce_conne.Prelude.{
  ℕ, String, Bool, true, false, ◌≡◌, refl, sym, ap, ◌∙◌, Option, none, some, List, [], ◌∷◌, ◌++◌,
  arith, map_option,
}
use hubspot_salesforce_conne.Prelude.Time.{stamp}
use hubspot_salesforce_conne.Types.{CanonicalRecord, SystemId, other}
use hubspot_salesforce_conne.Plan.{ReconcilePlan}
use hubspot_salesforce_conne.Failure.{Failure, Patterns, friendly_error_message}
use hubspot_salesforce_conne.Exec.{Result, ok, err, bind_ok, pure, and_then}
use hubspot_salesforce_conne.Activity.{ActivityLog}
use hubspot_salesforce_conne.MigrationStore.{MigrationReport, MigrationRunInput}
use hubspot_salesforce_conne.Migration.{
  Services, MigrationOptions, Progress, RecordPage, begin_record, count_plan, count_error,
  failed_plan, fail_record, system_label, carry_out, carried_out, previewed, migrate_record,
  is_ambiguous,
}
use hubspot_salesforce_conne.Migration.Runs.{finish_run, run}
use hubspot_salesforce_conne.Migration.Invariant.{run-keeps}

-- What the engine relies on: the plans of a run that has begun are kept in order, from none, by
-- `record_plan` alone.
pub record IsLogged {W : Type 0} (v : Services W) (log : String → W → Option (List ReconcilePlan))
    : Type 0 where
  pub begins :
      (input : MigrationRunInput) (id : String) (w w' : W)
      → v.store.begin input w ≡ (ok id, w')
      → log id w' ≡ some []
  pub records :
      (id : String) (plan : ReconcilePlan) (w w' : W)
      → v.store.record_plan id plan w ≡ (ok tt, w')
      → log id w' ≡ map_option (λ plans. plans ++ plan ∷ []) (log id w)
  pub refuses :
      (id : String) (plan : ReconcilePlan) (e : Failure) (w w' : W)
      → v.store.record_plan id plan w ≡ (err e, w')
      → log id w' ≡ log id w
  pub completes :
      (id asked : String) (report : MigrationReport) (w : W)
      → log asked (v.store.complete id report w).1 ≡ log asked w
  pub lists :
      (id type : String) (system : SystemId) (cursor : Option String) (w : W)
      → log id (v.list system type cursor w).1 ≡ log id w
  pub previews : (id : String) (r : CanonicalRecord) (w : W) → log id (v.preview r w).1 ≡ log id w
  pub reconciles :
      (id : String) (r : CanonicalRecord) (w : W) → log id (v.reconcile r w).1 ≡ log id w
  pub notes :
      (id : String) (f : ActivityLog → ActivityLog) (w : W) → log id (v.on_activity f w) ≡ log id w

module _ {W : Type 0} (v : Services W) (patterns : Patterns) (now : ℕ) (opts : MigrationOptions)
    (log : String → W → Option (List ReconcilePlan)) (laws : IsLogged v log) where
  module _ (id type : String) (r : CanonicalRecord) (p p' : Progress) where
    fail_record-logs :
        (plan : Option ReconcilePlan) (e : Failure) (w w' : W)
        → log id w ≡ some p.plans
        → fail_record v patterns now opts id type r (begin_record p) plan e w ≡ (ok p', w')
        → log id w' ≡ some p'.plans
    unfolding fail_record
    fail_record-logs plan e w w' k h =
        let failed =
          failed_plan opts.from type r
            (friendly_error_message patterns e (system_label (other opts.from))) plan in
        let (a, u, recorded, done) =
          bind_ok (v.store.record_plan id failed) (λ _. pure (count_error failed (begin_record p)))
            w w' p' h in
        let kept = laws.records id failed w u recorded in
        let same : (count_error failed (begin_record p), u) ≡ (p', w') = ground (arith, done) in
        sym (ap (λ (x : Progress × W). log id x.1) same)
        ∙ kept
        ∙ ap (map_option (λ plans. plans ++ failed ∷ [])) k
        ∙ ap (λ (x : Progress × W). some x.0.plans) same

  reconcile_first :
      (id : String) (r : CanonicalRecord) (plan : ReconcilePlan) (result : Result (Unit {0}))
      (u w : W)
      → log id u ≡ log id w
      → let after = and_then result (λ _. v.store.record_plan id plan) u in
        (after.0 ≡ ok tt → log id after.1 ≡ map_option (λ plans. plans ++ plan ∷ []) (log id w))
        × ((e : Failure) → after.0 ≡ err e → log id after.1 ≡ log id w)
  reconcile_first id r plan (ok _) u w k = (
    λ h.
        laws.records id plan u _ (ground (arith, h))
        ∙ ap (map_option (λ plans. plans ++ plan ∷ [])) k,
    λ e h. laws.refuses id plan e u _ (ground (arith, h)) ∙ k,
  )
  reconcile_first id r plan (err e) u w k = (λ h. absurd (ground (arith, h)), λ e' h. k)

  carry_out-logs :
      (id : String) (r : CanonicalRecord) (plan : ReconcilePlan) (w : W)
      → ((carry_out v patterns now opts id r plan w).0 ≡ ok tt
          → log id (carry_out v patterns now opts id r plan w).1
            ≡ map_option (λ plans. plans ++ plan ∷ []) (log id w))
        × ((e : Failure)
            → (carry_out v patterns now opts id r plan w).0 ≡ err e
            → log id (carry_out v patterns now opts id r plan w).1 ≡ log id w)
  unfolding carry_out
  carry_out-logs id r plan w = by_mode opts.dry_run refl (is_ambiguous plan.action) refl
    where
      by_mode :
          (dry : Bool)
          → opts.dry_run ≡ dry
          → (unclear : Bool) → is_ambiguous plan.action ≡ unclear
          → ((carry_out v patterns now opts id r plan w).0 ≡ ok tt
              → log id (carry_out v patterns now opts id r plan w).1
                ≡ map_option (λ plans. plans ++ plan ∷ []) (log id w))
            × ((e : Failure)
                → (carry_out v patterns now opts id r plan w).0 ≡ err e
                → log id (carry_out v patterns now opts id r plan w).1 ≡ log id w)
      by_mode true d unclear a = rw d (
        λ h. laws.records id plan w _ (ground (arith, h)),
        λ e h. laws.refuses id plan e w _ (ground (arith, h)),
      )
      by_mode false d true a = rw (d, a) (λ h. absurd (ground (arith, h)), λ e h. refl)
      by_mode false d false a =
          rw (d, a)
            (reconcile_first id r plan (v.reconcile r w).0 (v.reconcile r w).1 w
              (laws.reconciles id r w))

  module _ (id type : String) (r : CanonicalRecord) (p p' : Progress) where
    carried_out-logs :
        (plan : ReconcilePlan) (result : Result (Unit {0})) (w u w' : W)
        → log id w ≡ some p.plans
        → (result ≡ ok tt → log id u ≡ map_option (λ plans. plans ++ plan ∷ []) (log id w))
        → ((e : Failure) → result ≡ err e → log id u ≡ log id w)
        → carried_out v patterns now opts id type r (begin_record p) plan result u ≡ (ok p', w')
        → log id w' ≡ some p'.plans
    unfolding carried_out
    carried_out-logs plan (ok _) w u w' k done failed h =
        let same : (count_plan plan (begin_record p), u) ≡ (p', w') = ground (arith, h) in
        sym (ap (λ (x : Progress × W). log id x.1) same)
        ∙ done refl
        ∙ ap (map_option (λ plans. plans ++ plan ∷ [])) k
        ∙ ap (λ (x : Progress × W). some x.0.plans) same
    carried_out-logs plan (err e) w u w' k done failed h =
        fail_record-logs id type r p p' (some plan) e u w' (failed e refl ∙ k) h

    previewed-logs :
        (result : Result ReconcilePlan) (w w' : W)
        → log id w ≡ some p.plans
        → previewed v patterns now opts id type r (begin_record p) result w ≡ (ok p', w')
        → log id w' ≡ some p'.plans
    unfolding previewed
    previewed-logs (ok plan) w w' k h =
        let (done, failed) = carry_out-logs id r plan w in
        carried_out-logs plan (carry_out v patterns now opts id r plan w).0 w _ w' k done failed h
    previewed-logs (err e) w w' k h = fail_record-logs id type r p p' none e w w' k h

    migrate_record-logs :
        (w w' : W)
        → log id w ≡ some p.plans
        → migrate_record v patterns now opts id type r p w ≡ (ok p', w')
        → log id w' ≡ some p'.plans
    unfolding migrate_record
    migrate_record-logs w w' k h =
        previewed-logs (v.preview r w).0 (v.preview r w).1 w' (laws.previews id r w ∙ k) h

  finish_run-logs :
      (asked from : String) (report report' : MigrationReport) (w w' : W)
      → finish_run v patterns now opts.dry_run from report w ≡ (ok report', w')
      → log asked w' ≡ log asked w
  unfolding finish_run
  finish_run-logs asked from report report' w w' h =
      let done = record report { finished_at = some (stamp now) } in
      let (a, t, completed, same) =
        bind_ok (v.store.complete report.run_id done) (λ _. pure done) _ w' report' h in
      sym (ap (λ (x : Result MigrationReport × W). log asked x.1) same)
      ∙ sym (ap (λ (x : Result (Unit {0}) × W). log asked x.1) completed)
      ∙ laws.completes report.run_id asked done _
      ∙ laws.notes asked _ _
      ∙ laws.notes asked _ w

  -- When a run gives a report, the plans that the store keeps for the run are the plans of the
  -- report, in order, those of failed records included; provided that the store appends plans to a
  -- run and nothing else that the engine calls changes them.
  pub run-logs :
      (fuel : ℕ) (w w' : W) (report : MigrationReport)
      → run v patterns now opts fuel w ≡ some (ok report, w')
      → log report.run_id w' ≡ some report.plans
  run-logs fuel w w' report h =
      (run-keeps v patterns now opts (λ stats. Unit) (λ id plans u. log id u ≡ some plans) tt
        (λ id type cursor plans u u' page read k.
          sym (ap (λ (x : Result RecordPage × W). log id x.1) read)
          ∙ laws.lists id type opts.from cursor u
          ∙ k)
        (λ id type r p p' u u' more one k. (tt, migrate_record-logs id type r p p' u u' k.1 one))
        (λ id u u' begun. laws.begins _ id u u' begun)
        (λ id plans u u' q q' done k. finish_run-logs id _ q q' u u' done ∙ k) fuel w w' report h).1
