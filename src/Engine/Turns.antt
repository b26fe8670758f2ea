-- ===== src/Engine/Turns.antt =====
-- src/engine/syncEngine.ts: one call of `pump`, which finds a due job or not.
use hubspot_salesforce_conne.Prelude.{
  ℕ, zero, suc, String, ◌+◌, ◌≤◌, ◌<◌, ◌≡◌, true, false, some, List, [], ◌∷◌, ◌∙◌, inl, inr, arith,
  List-cases, count_if, length, ap,
}
use hubspot_salesforce_conne.Prelude.Dict.{values}
use hubspot_salesforce_conne.Queue.{Crypto, SyncJob, Store, is_waiting, claim}
use hubspot_salesforce_conne.Queue.Valid.{IsValid}
use hubspot_salesforce_conne.Queue.Claim.{ids, claim-IsValid, length-claim}
use hubspot_salesforce_conne.Engine.{
  Services, Texts, Options, State, pump_loop, pump, limit, pumped,
}
use hubspot_salesforce_conne.Engine.Termination.{
  after_round, pump_loop_done, pump_loop_more, pump_loop-ends, pumped_lem, round-work,
}
use hubspot_salesforce_conne.Engine.Work.{work, process_all-IsValid}
use hubspot_salesforce_conne.Engine.Horizon.{
  IsReadyBy, due_of_ready, claim-IsReadyBy, settled-IsReadyBy,
}
use hubspot_salesforce_conne.Engine.Served.{
  IsServing, HasKeys, claim-IsServing, settled-IsServing, claim-HasKeys, settled-HasKeys,
}
use hubspot_salesforce_conne.Engine.Rounds.{pump_loop-keeps}

-- one call of `pump`: the readings of its clock, and when it has ended
pub record Turn : Type 0 where
  pub clock : ℕ → ℕ
  pub ended : ℕ

-- no job waits
abbrev pub IsDrained : Store → Type 0
IsDrained s = count_if (λ job. is_waiting job.status) (values s.jobs) ≡ 0

-- What the rounds keep while the jobs of a list are still to be settled: those that wait are due by
-- some instant, no other job is being processed, and the stored jobs are the same.
abbrev pub IsOpen : ℕ → List String → List SyncJob → Store → Type 0
IsOpen horizon ks jobs s = IsReadyBy horizon s × IsServing (ids jobs) s × HasKeys ks s

pub idle-IsDrained :
    (opts : Options) (now : ℕ) (s : Store)
    → 1 ≤ limit opts
    → IsReadyBy now s
    → (claim now (limit opts) s).0 ≡ []
    → IsDrained s
idle-IsDrained opts now s several ready empty = omega (
  arith,
  due_of_ready now (values s.jobs) ready,
  length-claim now (limit opts) s,
  ap (length {A = SyncJob}) empty,
)

module _ {W : Type 0} (c : Crypto) (v : Services W) (t : Texts) (opts : Options)
    (several : 1 ≤ limit opts) where
  -- what a call leaves that finds no due job
  pub turn_idle :
      (turn : Turn) (s : State W)
      → s.running ≡ false
      → (claim (turn.clock (work opts s.store)) (limit opts) s.store).0 ≡ []
      → (s' : State W) × (pump v t opts (suc (work opts s.store)) turn.clock s ≡ some s')
        × (s'.running ≡ false)
        × (s'.store ≡ s.store)
  unfolding pump
  turn_idle turn s idle empty =
      let began : State W = record s { running = true } in
      let (stopped, same, _) = pumped_lem began in
      (
        pumped began,
        rw (idle, pump_loop_done v t opts turn.clock (work opts s.store) began empty),
        stopped,
        same,
      )

  pump_loop-work :
      (clock : ℕ → ℕ) (fuel : ℕ) (s s' : State W)
      → IsValid c s.store
      → pump_loop v t opts fuel clock s ≡ some s'
      → work opts s'.store ≤ work opts s.store
  pump_loop-work clock zero s s' valid h = unfold pump_loop in cc
  pump_loop-work clock (suc fuel) s s' valid h =
      elim (List-cases (claim (clock fuel) (limit opts) s.store).0) [
        | inl empty ↦
            let e : s ≡ s' = cc (pump_loop_done v t opts clock fuel s empty) in
            rw (← e) (omega arith)
        | inr (job, jobs, more) ↦ omega (
          arith,
          round-work c v t opts clock several fuel s valid,
          pump_loop-work clock fuel (after_round v t opts clock fuel s) s'
              (process_all-IsValid v t opts (clock fuel) c _ _
                (claim-IsValid c (clock fuel) (limit opts) s.store valid))
              (cc (pump_loop_more v t opts clock fuel s job jobs more)),
        )
      ]

  pump_loop-IsOpen :
      (clock : ℕ → ℕ) (horizon : ℕ) (ks : List String)
      → ((i : ℕ) → clock i + 60000 ≤ horizon)
      → (fuel : ℕ) (s s' : State W) → pump_loop v t opts fuel clock s ≡ some s'
      → IsValid c s.store
      → IsOpen horizon ks [] s.store
      → IsOpen horizon ks [] s'.store
  pump_loop-IsOpen clock horizon ks soon =
      pump_loop-keeps c v t opts clock (IsOpen horizon ks)
        (λ i s valid h. (
          claim-IsReadyBy horizon (clock i) (limit opts) s h.0,
          claim-IsServing c (clock i) (limit opts) s valid h.1,
          claim-HasKeys (clock i) (limit opts) ks s h.2,
        ))
        (λ i job jobs s s' settled h. (
          settled-IsReadyBy horizon opts (clock i) (soon i) job s s' settled h.0,
          settled-IsServing opts (clock i) job (ids jobs) s s' settled h.1,
          settled-HasKeys opts (clock i) job ks s s' settled h.2,
        ))

  -- what a call leaves that finds one
  pub turn_busy :
      (turn : Turn) (horizon : ℕ) (ks : List String) (s : State W) (job : SyncJob)
      (jobs : List SyncJob)
      → IsValid c s.store
      → s.running ≡ false
      → ((i : ℕ) → turn.clock i + 60000 ≤ horizon)
      → IsOpen horizon ks [] s.store
      → (claim (turn.clock (work opts s.store)) (limit opts) s.store).0 ≡ job ∷ jobs
      → (s' : State W) × (pump v t opts (suc (work opts s.store)) turn.clock s ≡ some s')
        × (s'.running ≡ false)
        × IsValid c s'.store
        × (work opts s'.store < work opts s.store)
        × IsOpen horizon ks [] s'.store
  unfolding pump
  turn_busy turn horizon ks s job jobs valid idle soon is_open found =
      let fuel = work opts s.store in
      let began : State W = record s { running = true } in
      let after : State W = after_round v t opts turn.clock fuel began in
      let valid' : IsValid c after.store =
        process_all-IsValid v t opts (turn.clock fuel) c _ _
          (claim-IsValid c (turn.clock fuel) (limit opts) s.store valid) in
      let less : work opts after.store < work opts s.store = omega (
        arith,
        round-work c v t opts turn.clock several fuel began valid,
        ap (length {A = SyncJob}) found,
      ) in
      let (ended, e, valid'', _) =
        pump_loop-ends c v t opts turn.clock several fuel after valid' less in
      let more : pump_loop v t opts (suc fuel) turn.clock began ≡ some ended =
        pump_loop_more v t opts turn.clock fuel began job jobs found ∙ e in
      let (stopped, same, _) = pumped_lem ended in
      (
        pumped ended,
        rw (idle, more),
        stopped,
        rw same valid'',
        rw same (omega (arith, less, pump_loop-work turn.clock fuel after ended valid' e)),
        rw same
            (pump_loop-IsOpen turn.clock horizon ks soon (suc fuel) began ended more valid is_open),
      )
