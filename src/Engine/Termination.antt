-- ===== src/Engine/Termination.antt =====
-- src/engine/syncEngine.ts: the rounds of `pump`.
use hubspot_salesforce_conne.Prelude.{
  ℕ, zero, suc, ◌+◌, ◌≤◌, ◌<◌, ◌≡◌, refl, true, false, some, List, [], ◌∷◌, ◌⊎◌, inl, inr, arith,
  All, All-zip, map, length, List-cases, ap, is_some, count_if,
}
use hubspot_salesforce_conne.Prelude.Dict.{values}
use hubspot_salesforce_conne.Queue
use hubspot_salesforce_conne.Queue.{
  Crypto, SyncJob, Store, is_waiting, is_due, start, start_all, picked, claim, update_job,
  to_completed, to_retry, to_dead_letter, to_manual_review,
}
use hubspot_salesforce_conne.Queue.Valid.{IsValid}
use hubspot_salesforce_conne.Queue.Claim.{
  claim-IsClaimed, claim-IsValid, Distinct-picked, picked-IsDueJob, length-claim,
}
use hubspot_salesforce_conne.Queue.Weights.{sum, sum-start_all}
use hubspot_salesforce_conne.Engine.{
  Services, Texts, Options, State, process_all, pump_loop, pump, limit, pumped,
}
use hubspot_salesforce_conne.Engine.Work.{
  attempts_left, work, after_failure, IsHeld, process_all-IsValid, process_all-work,
}

-- a due job that is started loses an attempt, failing or not
sum-started :
    (opts : Options) (now : ℕ) (xs : List SyncJob)
    → All (λ x. is_due now x ≡ true) xs
    → sum (after_failure opts) (map start xs) + length (map start xs) ≤ sum (attempts_left opts) xs
sum-started opts now [] due = omega arith
sum-started opts now (x ∷ xs) (p, due) = ground (arith, sum-started opts now xs due)

module _ (c : Crypto) (opts : Options) (now l : ℕ) (s : Store) (valid : IsValid c s) where
  claimed-IsHeld : All (IsHeld (claim now l s).1) (claim now l s).0
  claimed-IsHeld =
      let claimed = claim-IsClaimed c now l s valid in
      All-zip (claim now l s).0 (λ j h _. (j, h.4, refl)) claimed claimed

  claim-work :
      work opts (claim now l s).1
        + sum (after_failure opts) (claim now l s).0
        + length (claim now l s).0
      ≤ work opts s
  unfolding claim
  claim-work =
      let stored = picked-IsDueJob c now l s valid in
      omega (
        arith,
        sum-start_all (attempts_left opts) (picked now l s) s.jobs (λ j. refl)
            (Distinct-picked c now l s valid)
            (All-zip (picked now l s) (λ j h _. h.0) stored stored),
        sum-started opts now (picked now l s)
            (All-zip (picked now l s) (λ j h _. h.1) stored stored),
      )

claim-nil : (now l : ℕ) (s : Store) → (claim now l s).0 ≡ [] → (claim now l s).1 ≡ s
unfolding claim start_all
claim-nil now l s h = none_started (picked now l s) h
  where
    none_started :
        (xs : List SyncJob) → map start xs ≡ [] → (record s { jobs = start_all xs s.jobs }) ≡ s
    none_started [] h = refl
    none_started (x ∷ xs) h = cc

-- nothing is due at `now`
abbrev pub IsIdle : ℕ → Store → Type 0
IsIdle now s = count_if (is_due now) (values s.jobs) ≡ 0

module _ {W : Type 0} (v : Services W) (t : Texts) (opts : Options) (clock : ℕ → ℕ) (fuel : ℕ)
    (s : State W) where
  -- the state after a round at the time of the next step of the loop
  abbrev pub after_round : State W
  after_round =
      let (jobs, store) = claim (clock fuel) (limit opts) s.store in
      process_all v t opts (clock fuel) jobs (record s { store = store })

  pub pump_loop_done :
      (claim (clock fuel) (limit opts) s.store).0 ≡ []
      → pump_loop v t opts (suc fuel) clock s ≡ some s
  unfolding pump_loop
  pump_loop_done h = ground (arith, claim-nil (clock fuel) (limit opts) s.store h)

  pub pump_loop_more :
      (job : SyncJob) (jobs : List SyncJob)
      → (claim (clock fuel) (limit opts) s.store).0 ≡ job ∷ jobs
      → pump_loop v t opts (suc fuel) clock s ≡ pump_loop v t opts fuel clock after_round
  unfolding pump_loop
  pump_loop_more job jobs h = ground (arith, h)

-- what the `finally` of `pump` leaves
pub pumped_lem :
    {W : Type 0} (s : State W)
    → ((pumped s).running ≡ false)
      × ((pumped s).store ≡ s.store)
      × (((Queue.stats s.store).retry ≡ 0) ⊎ (is_some (pumped s).timer ≡ true))
unfolding pumped
pumped_lem s = (ground arith, ground arith, ground arith)

module _ {W : Type 0} (c : Crypto) (v : Services W) (t : Texts) (opts : Options) (clock : ℕ → ℕ)
    (several : 1 ≤ limit opts) where
  pub round-work :
      (fuel : ℕ) (s : State W)
      → IsValid c s.store
      → work opts (after_round v t opts clock fuel s).store
          + length (claim (clock fuel) (limit opts) s.store).0
        ≤ work opts s.store
  round-work fuel s valid =
      let (jobs, store) = claim (clock fuel) (limit opts) s.store in
      omega (
        arith,
        claim-work c opts (clock fuel) (limit opts) s.store valid,
        process_all-work v t opts (clock fuel) jobs (record s { store = store })
            (claimed-IsHeld c opts (clock fuel) (limit opts) s.store valid),
      )

  pub pump_loop-ends :
      (fuel : ℕ) (s : State W)
      → IsValid c s.store
      → work opts s.store < fuel
      → (s' : State W) × (pump_loop v t opts fuel clock s ≡ some s')
        × IsValid c s'.store
        × ((i : ℕ) × IsIdle (clock i) s'.store)
  pump_loop-ends zero s valid enough = elim enough [ ]
  pump_loop-ends (suc fuel) s valid enough =
      let now = clock fuel in
      elim (List-cases (claim now (limit opts) s.store).0) [
        | inl none_due ↦ (
          s,
          pump_loop_done v t opts clock fuel s none_due,
          valid,
          (
            fuel,
            omega
                (arith, length-claim now (limit opts) s.store, ap (length {A = SyncJob}) none_due),
          ),
        )
        | inr (job, jobs, e) ↦ rw (pump_loop_more v t opts clock fuel s job jobs e) (
            pump_loop-ends fuel (after_round v t opts clock fuel s)
              (process_all-IsValid v t opts now c _ _
                (claim-IsValid c now (limit opts) s.store valid))
              (omega (arith, round-work fuel s valid, ap (length {A = SyncJob}) e)))
      ]

  -- Where a round may claim a job at all, `pump` comes to an end, whatever the services do and
  -- however time passes between its rounds, on a valid queue and if it is not running already: a
  -- round for each attempt that the waiting jobs have left, and one more, are enough. It ends
  -- with the flag `running` cleared, with a valid queue, with no job due at one of the
  -- readings of the clock, and with a timer set if a job waits for a retry.
  pub pump_ends :
      (fuel : ℕ) (s : State W)
      → IsValid c s.store
      → s.running ≡ false
      → work opts s.store < fuel
      → (s' : State W) × (pump v t opts fuel clock s ≡ some s')
        × (s'.running ≡ false)
        × IsValid c s'.store
        × ((i : ℕ) × IsIdle (clock i) s'.store)
        × (((Queue.stats s'.store).retry ≡ 0) ⊎ (is_some s'.timer ≡ true))
  unfolding pump
  pump_ends fuel s valid idle enough =
      let (done, e, valid', (i, none_due)) =
        pump_loop-ends fuel (record s { running = true }) valid enough in
      let (stopped, same, timed) = pumped_lem done in
      (pumped done, rw (idle, e), stopped, rw same valid', (i, rw same none_due), rw same timed)
