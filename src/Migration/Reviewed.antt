-- ===== src/Migration/Reviewed.antt =====
-- src/engine/migrationEngine.ts: what the execution of a preview executes.
use hubspot_salesforce_conne.Prelude.{
  ℕ, String, Bool, true, false, not, ◌≡◌, refl, ◌⊎◌, inl, inr, Bool-cases, Option, none, some, List,
  [], ◌∷◌, ◌==◌, eq_iff, arith, any,
}
use mathlib.Core.Path.{subst}
use hubspot_salesforce_conne.Types.{CanonicalRecord, SystemId, system_eq}
use hubspot_salesforce_conne.Plan.{ReconcilePlan}
use hubspot_salesforce_conne.Failure.{Patterns}
use hubspot_salesforce_conne.Exec.{Result, ok, err, bind_ok, bind_keeps, pure, ◌>>=◌, and_then}
use hubspot_salesforce_conne.Migration.{Services, is_ambiguous}
use hubspot_salesforce_conne.Migration.Frozen.{
  Fingerprint, fingerprint_of, Verified, check_plan, check_source, verify_plan, verify_plans,
  execute_verified, execute_plans, execute_preview,
}

eq_of : (s t : String) → (s == t) ≡ true → s ≡ t
eq_of s t h = ground (arith, h, eq_iff s t)

module _ {W : Type 0} (v : Services W) (patterns : Patterns)
    (stringify : Fingerprint → String) where
  -- From `w`, the record of the plan's own id is read, which leads to some `t`, and its preview
  -- there leads to `w'` with a plan that has the fingerprint of the stored one.
  abbrev pub IsConfirmed : SystemId → ReconcilePlan → Verified → W → W → Type 0
  IsConfirmed from frozen one w w' =
      (one.plan ≡ frozen)
      × ((current : ReconcilePlan) × (t : W) × (v.read from frozen.type frozen.source_id w
            ≡ (ok (some one.source), t))
          × (v.preview one.source t ≡ (ok current, w'))
          × (stringify (fingerprint_of current) ≡ stringify (fingerprint_of frozen)))

  -- one plan after the other, each from the state that the one before leads to
  abbrev pub AreConfirmed : SystemId → List ReconcilePlan → List Verified → W → W → Type 0
  AreConfirmed from [] [] w w' = w ≡ w'
  AreConfirmed from [] (one ∷ others) w w' = ⊥
  AreConfirmed from (frozen ∷ rest) [] w w' = ⊥
  AreConfirmed from (frozen ∷ rest) (one ∷ others) w w' =
      (t : W) × IsConfirmed from frozen one w t × AreConfirmed from rest others t w'

  check_plan-IsConfirmed :
      (from : SystemId) (frozen current : ReconcilePlan) (r : CanonicalRecord) (one : Verified)
      (w t u w' : W)
      → v.read from frozen.type frozen.source_id w ≡ (ok (some r), t)
      → v.preview r t ≡ (ok current, u)
      → check_plan v patterns stringify frozen r current u ≡ (ok one, w')
      → IsConfirmed from frozen one w w'
  unfolding check_plan
  check_plan-IsConfirmed from frozen current r one w t u w' found seen h =
      elim (Bool-cases (stringify (fingerprint_of current) == stringify (fingerprint_of frozen))) [
        | inl same ↦
            let at : r ≡ one.source = ground (arith, h, same) in
            (
              ground (arith, h, same),
              (
                current,
                t,
                subst
                    (λ (x : CanonicalRecord).
                      v.read from frozen.type frozen.source_id w ≡ (ok (some x), t))
                    at found,
                subst (λ (x : CanonicalRecord). v.preview x t ≡ (ok current, w')) at
                    (subst (λ (x : W). v.preview r t ≡ (ok current, x)) (ground (arith, h, same))
                      seen),
                eq_of (stringify (fingerprint_of current)) (stringify (fingerprint_of frozen)) same,
              ),
            )
        | inr different ↦ absurd (ground (arith, h, different))
      ]

  check_source-IsConfirmed :
      (from : SystemId) (frozen : ReconcilePlan) (read : Option CanonicalRecord) (one : Verified)
      (w t w' : W)
      → v.read from frozen.type frozen.source_id w ≡ (ok read, t)
      → check_source v patterns stringify frozen read t ≡ (ok one, w')
      → IsConfirmed from frozen one w w'
  unfolding check_source
  check_source-IsConfirmed from frozen none one w t w' found h = absurd (ground (arith, h))
  check_source-IsConfirmed from frozen (some r) one w t w' found h =
      let (current, u, seen, checked) =
        bind_ok (v.preview r) (check_plan v patterns stringify frozen r) t w' one h in
      check_plan-IsConfirmed from frozen current r one w t u w' found seen checked

  verify_plan-IsConfirmed :
      (from : SystemId) (frozen : ReconcilePlan) (one : Verified) (w w' : W)
      → verify_plan v patterns stringify from frozen w ≡ (ok one, w')
      → IsConfirmed from frozen one w w'
  unfolding verify_plan
  verify_plan-IsConfirmed from frozen one w w' h =
      let (read, t, found, checked) =
        bind_ok (v.read from frozen.type frozen.source_id)
          (check_source v patterns stringify frozen) w w' one h in
      check_source-IsConfirmed from frozen read one w t w' found checked

  verify_plans-AreConfirmed :
      (from : SystemId) (plans : List ReconcilePlan) (all' : List Verified) (w w' : W)
      → verify_plans v patterns stringify from plans w ≡ (ok all', w')
      → AreConfirmed from plans all' w w'
  unfolding verify_plans
  verify_plans-AreConfirmed from [] all' w w' h =
      let same : [] ≡ all' = ground (arith, h) in
      subst (λ (x : List Verified). AreConfirmed from [] x w w') same (ground (arith, h))
  verify_plans-AreConfirmed from (frozen ∷ rest) all' w w' h =
      let (one, t, first, more) =
        bind_ok (verify_plan v patterns stringify from frozen)
          (λ one. verify_plans v patterns stringify from rest >>= λ others. pure (one ∷ others)) w
          w' all' h in
      let (others, u, later, done) =
        bind_ok (verify_plans v patterns stringify from rest) (λ others. pure (one ∷ others)) t w'
          all' more in
      let same : one ∷ others ≡ all' = ground (arith, done) in
      let ends : u ≡ w' = ground (arith, done) in
      subst (λ (x : List Verified). AreConfirmed from (frozen ∷ rest) x w w') same
        (
          t,
          verify_plan-IsConfirmed from frozen one w t first,
          subst (AreConfirmed from rest others t) ends
              (verify_plans-AreConfirmed from rest others t u later),
        )

-- what holds of plans that are executed
module _ {W : Type 0} (v : Services W) (patterns : Patterns)
    (stringify : Fingerprint → String) where
  -- the plans, whose check begins at `w`
  abbrev pub IsReviewed : List ReconcilePlan → W → Type 0
  IsReviewed plans w =
      (any (λ (plan : ReconcilePlan). is_ambiguous plan.action) plans ≡ false)
      × ((from : SystemId) × (any (λ (plan : ReconcilePlan). not (system_eq plan.from from)) plans
            ≡ false)
          × ((all' : List Verified) × (w' : W) × AreConfirmed v patterns stringify from plans all' w
                w'))

  module _ (P : W → Type 0)
      (reads : (system : SystemId) (type id : String) (w : W) → P w → P (v.read system type id w).1)
      (previews : (r : CanonicalRecord) (w : W) → P w → P (v.preview r w).1) where
    check_plan-keeps :
        (frozen current : ReconcilePlan) (r : CanonicalRecord) (w : W)
        → P w
        → P (check_plan v patterns stringify frozen r current w).1
    unfolding check_plan
    check_plan-keeps frozen current r w h =
        elim (Bool-cases
          (stringify (fingerprint_of current) == stringify (fingerprint_of frozen))) [
            | inl same ↦ rw same h
            | inr different ↦ rw different h
          ]

    check_source-keeps :
        (frozen : ReconcilePlan) (read : Option CanonicalRecord) (w : W)
        → P w
        → P (check_source v patterns stringify frozen read w).1
    unfolding check_source
    check_source-keeps frozen none w h = h
    check_source-keeps frozen (some r) w h =
        bind_keeps P (v.preview r) (check_plan v patterns stringify frozen r) w (previews r w h)
          λ current t k. check_plan-keeps frozen current r t k

    verify_plan-keeps :
        (from : SystemId) (frozen : ReconcilePlan) (w : W)
        → P w
        → P (verify_plan v patterns stringify from frozen w).1
    unfolding verify_plan
    verify_plan-keeps from frozen w h =
        bind_keeps P (v.read from frozen.type frozen.source_id)
          (check_source v patterns stringify frozen) w (reads from frozen.type frozen.source_id w h)
          λ read t k. check_source-keeps frozen read t k

    verify_plans-keeps :
        (from : SystemId) (plans : List ReconcilePlan) (w : W)
        → P w
        → P (verify_plans v patterns stringify from plans w).1
    unfolding verify_plans
    verify_plans-keeps from [] w h = h
    verify_plans-keeps from (frozen ∷ rest) w h =
        bind_keeps P (verify_plan v patterns stringify from frozen) _ w
          (verify_plan-keeps from frozen w h)
          λ one t k.
            bind_keeps P (verify_plans v patterns stringify from rest)
              (λ others. pure (one ∷ others)) t (verify_plans-keeps from rest t k) λ others u l. l

    module _ (now : ℕ) (preview_id : String) where
      verified_or_kept :
          (from : SystemId) (plans : List ReconcilePlan) (r : Result (List Verified)) (t : W)
          → P t
          → (start : W) → ((all' : List Verified) → r ≡ ok all' → IsReviewed plans start)
          → P (and_then r (execute_verified v patterns now preview_id from plans) t).1
            ⊎ IsReviewed plans start
      verified_or_kept from plans (ok all') t h start k = inr (k all' refl)
      verified_or_kept from plans (err e) t h start k = inl h

      execute_plans-IsReviewed :
          (plans : List ReconcilePlan) (w : W)
          → P w
          → P (execute_plans v patterns now stringify preview_id plans w).1 ⊎ IsReviewed plans w
      unfolding execute_plans
      execute_plans-IsReviewed [] w h = inl h
      execute_plans-IsReviewed (first ∷ rest) w h = by_guards _ refl _ refl
        where
          by_guards :
              (unclear : Bool)
              → any (λ (plan : ReconcilePlan). is_ambiguous plan.action) (first ∷ rest) ≡ unclear
              → (mixed : Bool)
              → any (λ (plan : ReconcilePlan). not (system_eq plan.from first.from)) (first ∷ rest)
                ≡ mixed
              → P (execute_plans v patterns now stringify preview_id (first ∷ rest) w).1
                ⊎ IsReviewed (first ∷ rest) w
          by_guards true a mixed m = inl (rw a h)
          by_guards false a true m = inl (rw (a, m) h)
          by_guards false a false m =
              elim (verified_or_kept first.from (first ∷ rest)
                (verify_plans v patterns stringify first.from (first ∷ rest) w).0
                (verify_plans v patterns stringify first.from (first ∷ rest) w).1
                (verify_plans-keeps first.from (first ∷ rest) w h) w
                λ all' e. (
                  a,
                  (
                    first.from,
                    m,
                    (
                      all',
                      (verify_plans v patterns stringify first.from (first ∷ rest) w).1,
                      verify_plans-AreConfirmed v patterns stringify first.from (first ∷ rest) all'
                          w (verify_plans v patterns stringify first.from (first ∷ rest) w).1
                          (ground (arith, e)),
                    ),
                  ),
                )) [ inl kept ↦ inl (rw (a, m) kept) | inr reviewed ↦ inr reviewed ]

      stored_or_kept :
          (r : Result (List ReconcilePlan)) (t : W)
          → P t
          → P (and_then r (execute_plans v patterns now stringify preview_id) t).1
            ⊎ ((plans : List ReconcilePlan) × (r ≡ ok plans) × IsReviewed plans t)
      stored_or_kept (err e) t h = inl h
      stored_or_kept (ok plans) t h = elim (execute_plans-IsReviewed plans t h) [
        | inl kept ↦ inl kept
        | inr reviewed ↦ inr (plans, refl, reviewed)
      ]

      -- Whatever reading the stored plans, reading records and previewing them keeps, an execution
      -- of a preview keeps too, so it neither begins a run nor writes, unless this execution has
      -- confirmed all stored plans: no match is ambiguous, all come from one system, and from the
      -- state after reading the plans, one after the other, the record of the plan's type and
      -- source id was read from that system and previewed, which gave the fingerprint of the plan.
      pub execute_preview-IsReviewed :
          (w : W)
          → P (v.store.plans preview_id 100000 w).1
          → P (execute_preview v patterns now stringify preview_id w).1
            ⊎ ((plans : List ReconcilePlan) × ((v.store.plans preview_id 100000 w).0 ≡ ok plans)
                × IsReviewed plans (v.store.plans preview_id 100000 w).1)
      unfolding execute_preview
      execute_preview-IsReviewed w h =
          stored_or_kept (v.store.plans preview_id 100000 w).0 (v.store.plans preview_id 100000 w).1
            h
