-- ===== src/Engine/Rounds.antt =====
-- src/engine/syncEngine.ts: what every claim and every settled job keep, the rounds of `pump` keep.
use hubspot_salesforce_conne.Prelude.{ℕ, zero, suc, ◌≡◌, some, List, [], ◌∷◌, inl, inr, List-cases}
use hubspot_salesforce_conne.Queue.{Crypto, SyncJob, Store, claim}
use hubspot_salesforce_conne.Queue.Valid.{IsValid}
use hubspot_salesforce_conne.Queue.Claim.{claim-IsValid}
use hubspot_salesforce_conne.Engine.{
  Services, Texts, Options, State, process, process_all, pump_loop, limit,
}
use hubspot_salesforce_conne.Engine.Outcome.{IsSettled, process-IsSettled}
use hubspot_salesforce_conne.Engine.Termination.{after_round, pump_loop_done, pump_loop_more}
use hubspot_salesforce_conne.Engine.Work.{process_all-IsValid}

-- `P jobs s` speaks of a store and of the jobs that are claimed and not settled yet.
module _ {W : Type 0} (c : Crypto) (v : Services W) (t : Texts) (opts : Options) (clock : ℕ → ℕ)
    (P : List SyncJob → Store → Type 0)
    (claims : (i : ℕ) (s : Store)
      → IsValid c s
      → P [] s
      → P (claim (clock i) (limit opts) s).0 (claim (clock i) (limit opts) s).1)
    (settles : (i : ℕ) (job : SyncJob) (jobs : List SyncJob) (s s' : Store)
      → IsSettled opts (clock i) job s s'
      → P (job ∷ jobs) s
      → P jobs s') where
  process_all-keeps :
      (i : ℕ) (jobs : List SyncJob) (s : State W)
      → P jobs s.store
      → P [] (process_all v t opts (clock i) jobs s).store
  unfolding process_all
  process_all-keeps i [] s h = h
  process_all-keeps i (job ∷ jobs) s h =
      process_all-keeps i jobs (process v t opts (clock i) job s)
        (settles i job jobs s.store _ (process-IsSettled v t opts (clock i) job s) h)

  pub after_round-keeps :
      (i : ℕ) (s : State W)
      → IsValid c s.store
      → P [] s.store
      → P [] (after_round v t opts clock i s).store
  after_round-keeps i s valid h =
      process_all-keeps i (claim (clock i) (limit opts) s.store).0 _ (claims i s.store valid h)

  pub pump_loop-keeps :
      (fuel : ℕ) (s s' : State W)
      → pump_loop v t opts fuel clock s ≡ some s'
      → IsValid c s.store
      → P [] s.store
      → P [] s'.store
  pump_loop-keeps zero s s' e valid h = unfold pump_loop in cc
  pump_loop-keeps (suc fuel) s s' e valid h =
      elim (List-cases (claim (clock fuel) (limit opts) s.store).0) [
        | inl empty ↦
            let same : s ≡ s' = cc (pump_loop_done v t opts clock fuel s empty) in rw (← same) h
        | inr (job, jobs, more) ↦
            pump_loop-keeps fuel (after_round v t opts clock fuel s) s'
              (cc (pump_loop_more v t opts clock fuel s job jobs more))
              (process_all-IsValid v t opts (clock fuel) c _ _
                (claim-IsValid c (clock fuel) (limit opts) s.store valid))
              (after_round-keeps fuel s valid h)
      ]
