-- ===== src/Migration/Ends.antt =====
-- src/engine/migrationEngine.ts: how a run ends.
use hubspot_salesforce_conne.Prelude.{
  ℕ, zero, suc, ◌<◌, String, true, ◌≡◌, refl, Option, none, some, List, [], ◌∷◌, arith, is_some, ap,
  Bool-cases, inl, inr,
}
use mathlib.Core.Path.{subst}
use hubspot_salesforce_conne.Types.{CanonicalRecord}
use hubspot_salesforce_conne.Plan.{ReconcilePlan}
use hubspot_salesforce_conne.Failure.{Failure, Patterns}
use hubspot_salesforce_conne.Exec.{Result, ok, err, bind_keeps}
use hubspot_salesforce_conne.MigrationStore.{MigrationReport}
use hubspot_salesforce_conne.Migration.{
  Services, MigrationOptions, Progress, RecordPage, next_cursor, turn_page, take_page,
  migrate_pages, migrate_records, no_stats, fail_record, carry_out, carried_out, previewed,
  migrate_record, is_reached, is_ambiguous, begin_record,
}
use hubspot_salesforce_conne.Migration.Keeps.{migrate_pages-keeps}
use hubspot_salesforce_conne.Migration.Runs.{
  input_of, migrate_types, next_type, end_run, begun, run, new_report, mode_of,
}

-- what the calls of the loops keep, the loop over a page's records keeps
module _ {W : Type 0} (v : Services W) (patterns : Patterns) (now : ℕ) (opts : MigrationOptions)
    (P : W → Type 0) (previews : (r : CanonicalRecord) (w : W) → P w → P (v.preview r w).1)
    (reconciles : (r : CanonicalRecord) (w : W) → P w → P (v.reconcile r w).1)
    (records : (id : String) (plan : ReconcilePlan) (w : W)
      → P w
      → P (v.store.record_plan id plan w).1) where
  fail_record-keeps :
      (id type : String) (r : CanonicalRecord) (p : Progress) (plan : Option ReconcilePlan)
      (e : Failure) (w : W)
      → P w
      → P (fail_record v patterns now opts id type r p plan e w).1
  unfolding fail_record
  fail_record-keeps id type r p plan e w h =
      bind_keeps P (v.store.record_plan id _) _ w (records id _ w h) λ a t k. k

  carry_out-keeps :
      (id : String) (r : CanonicalRecord) (plan : ReconcilePlan) (w : W)
      → P w
      → P (carry_out v patterns now opts id r plan w).1
  unfolding carry_out
  carry_out-keeps id r plan w h = elim (Bool-cases opts.dry_run) [
    | inl dry ↦ rw dry (records id plan w h)
    | inr wet ↦ elim (Bool-cases (is_ambiguous plan.action)) [
      | inl unclear ↦ rw (wet, unclear) h
      | inr clear ↦
          rw (wet, clear)
            (bind_keeps P (v.reconcile r) (λ _. v.store.record_plan id plan) w (reconciles r w h)
              λ a t k. records id plan t k)
    ]
  ]

  carried_out-keeps :
      (id type : String) (r : CanonicalRecord) (p : Progress) (plan : ReconcilePlan)
      (result : Result (Unit {0})) (w : W)
      → P w
      → P (carried_out v patterns now opts id type r p plan result w).1
  unfolding carried_out
  carried_out-keeps id type r p plan (ok _) w h = h
  carried_out-keeps id type r p plan (err e) w h = fail_record-keeps id type r p (some plan) e w h

  previewed-keeps :
      (id type : String) (r : CanonicalRecord) (p : Progress) (result : Result ReconcilePlan)
      (w : W)
      → P w
      → P (previewed v patterns now opts id type r p result w).1
  unfolding previewed
  previewed-keeps id type r p (ok plan) w h =
      carried_out-keeps id type r p plan (carry_out v patterns now opts id r plan w).0
        (carry_out v patterns now opts id r plan w).1 (carry_out-keeps id r plan w h)
  previewed-keeps id type r p (err e) w h = fail_record-keeps id type r p none e w h

  migrate_record-keeps :
      (id type : String) (r : CanonicalRecord) (p : Progress) (w : W)
      → P w
      → P (migrate_record v patterns now opts id type r p w).1
  unfolding migrate_record
  migrate_record-keeps id type r p w h =
      previewed-keeps id type r (begin_record p) (v.preview r w).0 (v.preview r w).1
        (previews r w h)

  page-keeps :
      (id type : String) (rs : List CanonicalRecord) (p : Progress) (w : W)
      → P w
      → P (migrate_records v patterns now opts id type rs p w).1
  unfolding migrate_records
  page-keeps id type [] p w h = h
  page-keeps id type (r ∷ rest) p w h =
      elim (Bool-cases (is_reached opts.limit_per_type p.stats.read)) [
        | inl full ↦ rw full h
        | inr more ↦ rw more (
            bind_keeps P (migrate_record v patterns now opts id type r p)
              (migrate_records v patterns now opts id type rest) w
              (migrate_record-keeps id type r p w h) λ q t k. page-keeps id type rest q t k)
      ]

module _ {W : Type 0} (v : Services W) (patterns : Patterns) (now : ℕ) (opts : MigrationOptions)
    (P : W → Type 0) (previews : (r : CanonicalRecord) (w : W) → P w → P (v.preview r w).1)
    (reconciles : (r : CanonicalRecord) (w : W) → P w → P (v.reconcile r w).1)
    (records : (id : String) (plan : ReconcilePlan) (w : W)
      → P w
      → P (v.store.record_plan id plan w).1)
    (lists : (type : String) (cursor : Option String) (w : W)
      → P w
      → P (v.list opts.from type cursor w).1)
    (left : Option String → ℕ)
    (pages_end : (type c : String) (cursor : Option String) (w w' : W) (page : RecordPage)
      → P w
      → v.list opts.from type cursor w ≡ (ok page, w')
      → page.next_cursor ≡ some c
      → left (some c) < left cursor) where
  next_cursor-same :
      (cursor : Option String) (p : Progress) (c : String)
      → next_cursor v patterns now opts cursor p ≡ some c
      → cursor ≡ some c
  unfolding next_cursor
  next_cursor-same none p c h = h
  next_cursor-same (some cursor) p c h = ground (arith, h)

  turn_page_ends :
      (go : Option String → Progress → W → Option (Result Progress × W)) (cursor : Option String)
      (r : Result Progress × W)
      → ((c : String) (q : Progress) (u : W)
          → cursor ≡ some c
          → P u
          → is_some (go (some c) q u) ≡ true)
      → ((p : Progress) (u : W) → r ≡ (ok p, u) → P u)
      → is_some (turn_page v patterns now opts go cursor r) ≡ true
  unfolding turn_page
  turn_page_ends go cursor (err e, w) k s = refl
  turn_page_ends go cursor (ok p, w) k s = by_cursor _ refl
    where
      by_cursor :
          (c : Option String)
          → next_cursor v patterns now opts cursor p ≡ c
          → is_some (turn_page v patterns now opts go cursor (ok p, w)) ≡ true
      by_cursor none e = ground (arith, e)
      by_cursor (some c) e = ground (arith, e, k c p w (next_cursor-same cursor p c e) (s p w refl))

  take_page_ends :
      (go : Option String → Progress → W → Option (Result Progress × W)) (id type : String)
      (p : Progress) (r : Result RecordPage) (w : W)
      → ((page : RecordPage) (c : String) (q : Progress) (u : W)
          → r ≡ ok page
          → page.next_cursor ≡ some c
          → P u
          → is_some (go (some c) q u) ≡ true)
      → P w
      → is_some (take_page v patterns now opts go id type p (r, w)) ≡ true
  unfolding take_page
  take_page_ends go id type p (err e) w k h = refl
  take_page_ends go id type p (ok page) w k h =
      turn_page_ends go page.next_cursor
        (migrate_records v patterns now opts id type page.records p w) (λ c q u. k page c q u refl)
        λ q u e.
          subst P (ap (λ (x : Result Progress × W). x.1) e) (
            page-keeps v patterns now opts P previews reconciles records id type page.records p w h)

  migrate_pages_ends :
      (fuel : ℕ) (id type : String) (cursor : Option String) (p : Progress) (w : W)
      → left cursor < fuel
      → P w
      → is_some (migrate_pages v patterns now opts fuel id type cursor p w) ≡ true
  unfolding migrate_pages
  migrate_pages_ends zero id type cursor p w h k = absurd (omega (arith, h))
  migrate_pages_ends (suc fuel) id type cursor p w h k =
      take_page_ends (migrate_pages v patterns now opts fuel id type) id type p
        (v.list opts.from type cursor w).0 (v.list opts.from type cursor w).1
        (λ page c q u read next l.
          migrate_pages_ends fuel id type (some c) q u
            (omega (
              arith,
              h,
              pages_end type c cursor w (v.list opts.from type cursor w).1 page k
                  (ground (arith, read)) next,
            ))
            l)
        (lists type cursor w k)

  next_type_ends :
      (go : MigrationReport → W → Option (Result MigrationReport × W)) (type : String)
      (report : MigrationReport) (r : Option (Result Progress × W))
      → is_some r ≡ true
      → ((p : Progress) (u : W) → r ≡ some (ok p, u) → P u)
      → ((q : MigrationReport) (u : W) → P u → is_some (go q u) ≡ true)
      → is_some (next_type v patterns now opts go type report r) ≡ true
  unfolding next_type
  next_type_ends go type report none h s k = h
  next_type_ends go type report (some (err e, w)) h s k = refl
  next_type_ends go type report (some (ok p, w)) h s k = k _ w (s p w refl)

  migrate_types_ends :
      (fuel : ℕ) (types : List String) (report : MigrationReport) (w : W)
      → left none < fuel
      → P w
      → is_some (migrate_types v patterns now opts fuel types report w) ≡ true
  unfolding migrate_types
  migrate_types_ends fuel [] report w h k = refl
  migrate_types_ends fuel (type ∷ types) report w h k =
      next_type_ends (migrate_types v patterns now opts fuel types) type report
        (migrate_pages v patterns now opts fuel report.run_id type none
          (record { stats = no_stats; plans = report.plans }) w)
        (migrate_pages_ends fuel report.run_id type none _ w h k)
        (λ p u done.
          migrate_pages-keeps v patterns now opts report.run_id (λ q t. P t)
            (λ type' cursor q t t' page e l.
              subst P (ap (λ (x : Result RecordPage × W). x.1) e) (lists type' cursor t l))
            (λ type' r q q' t t' more e l. subst P (ap (λ (x : Result Progress × W). x.1) e) (
              migrate_record-keeps v patterns now opts P previews reconciles records report.run_id
                type' r q t l))
            fuel type none (record { stats = no_stats; plans = report.plans }) p w u done k)
        λ q u l. migrate_types_ends fuel types q u h l

  end_run_ends :
      (id : String) (r : Option (Result MigrationReport × W))
      → is_some r ≡ true
      → is_some (end_run v patterns now opts id r) ≡ true
  unfolding end_run
  end_run_ends id none h = h
  end_run_ends id (some (r, w)) h = refl

  begun_ends :
      (fuel : ℕ) (r : Result String) (w : W)
      → left none < fuel
      → P w
      → is_some (begun v patterns now opts fuel (r, w)) ≡ true
  unfolding begun
  begun_ends fuel (err e) w h k = refl
  begun_ends fuel (ok id) w h k =
      end_run_ends id _
        (migrate_types_ends fuel opts.types (new_report now id (mode_of opts.dry_run) []) w h k)

  -- If what the calls of the loops keep holds once the run is begun, and if where it holds each
  -- page's cursor leaves less to read, by some measure of cursors, than the page's own, then a run
  -- ends, with a report or an error, within one round more than there is to read of a type.
  pub run_ends :
      (fuel : ℕ) (w : W)
      → left none < fuel
      → P (v.store.begin (input_of opts) w).1
      → is_some (run v patterns now opts fuel w) ≡ true
  unfolding run
  run_ends fuel w h k =
      begun_ends fuel (v.store.begin (input_of opts) w).0 (v.store.begin (input_of opts) w).1 h k
