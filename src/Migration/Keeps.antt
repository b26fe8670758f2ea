-- ===== src/Migration/Keeps.antt =====
-- src/engine/migrationEngine.ts: what every step of the loops keeps, a whole run keeps.
use hubspot_salesforce_conne.Prelude.{
  ℕ, zero, suc, String, false, ◌≡◌, refl, inl, inr, Bool-cases, Option, none, some, List, [], ◌∷◌,
  arith,
}
use mathlib.Core.Path.{subst}
use hubspot_salesforce_conne.Types.{CanonicalRecord}
use hubspot_salesforce_conne.Failure.{Patterns}
use hubspot_salesforce_conne.Exec.{Result, ok, err, bind_ok}
use hubspot_salesforce_conne.Migration.{
  Services, MigrationOptions, Progress, RecordPage, is_reached, migrate_record, migrate_records,
  next_cursor, turn_page, take_page, migrate_pages,
}

module _ {W : Type 0} (v : Services W) (patterns : Patterns) (now : ℕ) (opts : MigrationOptions)
    (run_id : String) (P : Progress → W → Type 0)
    (lists : (type : String) (cursor : Option String) (p : Progress) (w w' : W) (page : RecordPage)
      → v.list opts.from type cursor w ≡ (ok page, w')
      → P p w
      → P p w')
    (records : (type : String) (r : CanonicalRecord) (p p' : Progress) (w w' : W)
      → is_reached opts.limit_per_type p.stats.read ≡ false
      → migrate_record v patterns now opts run_id type r p w ≡ (ok p', w')
      → P p w
      → P p' w') where
  pub migrate_records-keeps :
      (type : String) (rs : List CanonicalRecord) (p p' : Progress) (w w' : W)
      → migrate_records v patterns now opts run_id type rs p w ≡ (ok p', w')
      → P p w
      → P p' w'
  unfolding migrate_records
  migrate_records-keeps type [] p p' w w' h k =
      subst (λ (x : Progress × W). P x.0 x.1) (ground (arith, h)) k
  migrate_records-keeps type (r ∷ rest) p p' w w' h k =
      elim (Bool-cases (is_reached opts.limit_per_type p.stats.read)) [
        | inl full ↦
            let e : (ok p, w) ≡ (ok p', w') = rw full at h in
            subst (λ (x : Progress × W). P x.0 x.1) (ground (arith, e)) k
        | inr more ↦
            let (q, u, one, others) =
              bind_ok (migrate_record v patterns now opts run_id type r p)
                (migrate_records v patterns now opts run_id type rest) w w' p' (rw more at h) in
            migrate_records-keeps type rest q p' u w' others (records type r p q w u more one k)
      ]

  turn_page-keeps :
      (continue : Option String → Progress → W → Option (Result Progress × W))
      (cursor : Option String) (p' : Progress) (w' : W) (r : Result Progress) (u : W)
      → ((c : Option String) (q : Progress) (t : W)
          → continue c q t ≡ some (ok p', w')
          → P q t
          → P p' w')
      → ((q : Progress) → r ≡ ok q → P q u)
      → turn_page v patterns now opts continue cursor (r, u) ≡ some (ok p', w')
      → P p' w'
  unfolding turn_page
  turn_page-keeps continue cursor p' w' (err e) u go k h = absurd (ground (arith, h))
  turn_page-keeps continue cursor p' w' (ok q) u go k h = by_cursor _ refl
    where
      by_cursor : (c : Option String) → next_cursor v patterns now opts cursor q ≡ c → P p' w'
      by_cursor none e = subst (λ (x : Progress × W). P x.0 x.1) (ground (arith, h, e)) (k q refl)
      by_cursor (some c) e = go (some c) q u (ground (arith, h, e)) (k q refl)

  take_page-keeps :
      (continue : Option String → Progress → W → Option (Result Progress × W)) (type : String)
      (p p' : Progress) (w' : W) (r : Result RecordPage) (u : W)
      → ((c : Option String) (q : Progress) (t : W)
          → continue c q t ≡ some (ok p', w')
          → P q t
          → P p' w')
      → ((page : RecordPage) → r ≡ ok page → P p u)
      → take_page v patterns now opts continue run_id type p (r, u) ≡ some (ok p', w')
      → P p' w'
  unfolding take_page
  take_page-keeps continue type p p' w' (err e) u go k h = absurd (ground (arith, h))
  take_page-keeps continue type p p' w' (ok page) u go k h =
      turn_page-keeps continue page.next_cursor p' w'
        (migrate_records v patterns now opts run_id type page.records p u).0
        (migrate_records v patterns now opts run_id type page.records p u).1 go
        (λ q e. migrate_records-keeps type page.records p q u _ (ground (arith, e)) (k page refl)) h

  pub migrate_pages-keeps :
      (fuel : ℕ) (type : String) (cursor : Option String) (p p' : Progress) (w w' : W)
      → migrate_pages v patterns now opts fuel run_id type cursor p w ≡ some (ok p', w')
      → P p w
      → P p' w'
  unfolding migrate_pages
  migrate_pages-keeps zero type cursor p p' w w' h k = absurd (ground (arith, h))
  migrate_pages-keeps (suc fuel) type cursor p p' w w' h k =
      take_page-keeps (migrate_pages v patterns now opts fuel run_id type) type p p' w'
        (v.list opts.from type cursor w).0 (v.list opts.from type cursor w).1
        (λ c q t. migrate_pages-keeps fuel type c q p' t w')
        (λ page e. lists type cursor p w _ page (ground (arith, e)) k) h
