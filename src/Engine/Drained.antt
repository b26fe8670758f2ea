-- ===== src/Engine/Drained.antt =====
-- src/engine/syncEngine.ts: calls of `pump` one after another, until no job waits.
use hubspot_salesforce_conne.Prelude.{
  ℕ, suc, String, Bool, All, ◌+◌, ◌*◌, ◌≤◌, ◌<◌, max, ◌≡◌, refl, true, false, Option, none, some,
  List, [], ◌∷◌, ◌∙◌, leb, leb→le, inl, inr, arith, List-cases, Bool-cases, count_if, length,
}
use hubspot_salesforce_conne.Prelude.Dict.{lookup, values, All-lookup}
use hubspot_salesforce_conne.Queue.{
  Crypto, SyncJob, SyncJobStatus, Store, is_waiting, is_due, claim, status_eq,
}
use hubspot_salesforce_conne.Queue.Valid.{IsValid}
use hubspot_salesforce_conne.Queue.Claim.{length-claim}
use hubspot_salesforce_conne.Engine.{Services, Texts, Options, State, pump, limit}
use hubspot_salesforce_conne.Engine.Work.{work}
use hubspot_salesforce_conne.Engine.Horizon.{IsReadyBy, IsReadyBy-later}
use hubspot_salesforce_conne.Engine.Served.{IsServing, is_processing, HasKeys}
use hubspot_salesforce_conne.Engine.Turns.{
  Turn, IsDrained, IsOpen, idle-IsDrained, turn_idle, turn_busy,
}

module _ {W : Type 0} (v : Services W) (t : Texts) (opts : Options) where
  -- calls of `pump` one after another, each with fuel for the work that it finds
  unfoldable pub pumps : List Turn → State W → Option (State W)
  pumps [] s = some s
  pumps (turn ∷ turns) s = elim (pump v t opts (suc (work opts s.store)) turn.clock s) [
    | none ↦ none
    | some s' ↦ pumps turns s'
  ]

-- From `from` on, the calls follow each other, and each ends, and the next begins, no more than
-- `gap` after it began.
abbrev pub ArePaced : (gap : ℕ) → (from : ℕ) → List Turn → Type 0
ArePaced gap from [] = Unit
ArePaced gap from (turn ∷ turns) =
    ((i : ℕ) → (from ≤ turn.clock i) × (turn.clock i ≤ turn.ended))
    × (from ≤ turn.ended)
    × (turn.ended ≤ from + gap)
    × ArePaced gap turn.ended turns

-- when the last of the calls ends
abbrev pub last_end : ℕ → List Turn → ℕ
last_end from [] = from
last_end from (turn ∷ turns) = last_end turn.ended turns

-- the time that an attempt takes at most: the longest delay before it, and two calls
abbrev pub span : ℕ → ℕ
span gap = 60000 + gap + gap

-- a job that is done with: it neither waits nor is being processed
abbrev pub is_closed : SyncJobStatus → Bool
is_closed SyncJobStatus.completed = true
is_closed SyncJobStatus.dead_letter = true
is_closed SyncJobStatus.manual_review = true
is_closed SyncJobStatus.dismissed = true
is_closed _ = false

none_waiting :
    (jobs : List SyncJob)
    → count_if (λ job. is_waiting job.status) jobs ≡ 0
    → All (λ job. is_waiting job.status ≡ false) jobs
none_waiting [] h = tt
none_waiting (job ∷ jobs) h = (ground arith, none_waiting jobs (ground arith))

closed_of :
    (status : SyncJobStatus)
    → is_waiting status ≡ false
    → status_eq status SyncJobStatus.processing ≡ false
    → is_closed status ≡ true
closed_of status h k = ground arith

drained-is_closed :
    (s : Store)
    → IsDrained s
    → IsServing [] s
    → (k : String) (job : SyncJob) → lookup k s.jobs ≡ some job
    → is_closed job.status ≡ true
drained-is_closed s drained serving k job found =
    closed_of job.status
      (All-lookup (λ job. is_waiting job.status ≡ false) s.jobs k job
        (none_waiting (values s.jobs) drained) found)
      (elim (Bool-cases (is_processing job)) [
        | inl busy ↦ cc (serving k job found busy)
        | inr free ↦ free
      ])

count-is_due-le :
    (now : ℕ) (jobs : List SyncJob)
    → count_if (is_due now) jobs ≤ count_if (λ job. is_waiting job.status) jobs
count-is_due-le now [] = omega arith
count-is_due-le now (job ∷ jobs) = ground (arith, count-is_due-le now jobs)

length-zero {ℓ} : {A : Type ℓ} (xs : List A) → length xs ≡ 0 → xs ≡ []
length-zero [] h = refl
length-zero (x ∷ xs) h = absurd (omega (arith, h))

times_mono : (a b k : ℕ) → a < b → a * k + k ≤ b * k
times_mono a b k h = grind arith

module _ {W : Type 0} (c : Crypto) (v : Services W) (t : Texts) (opts : Options)
    (several : 1 ≤ limit opts) where
  pumps-step :
      (turn : Turn) (turns : List Turn) (s s' : State W)
      → pump v t opts (suc (work opts s.store)) turn.clock s ≡ some s'
      → pumps v t opts (turn ∷ turns) s ≡ pumps v t opts turns s'
  unfolding pumps
  pumps-step turn turns s s' h = ground (arith, h)

  -- where no job waits, the calls change nothing in the queue
  pumps_idle :
      (turns : List Turn) (s : State W)
      → s.running ≡ false
      → IsDrained s.store
      → (s' : State W) × (pumps v t opts turns s ≡ some s') × (s'.store ≡ s.store)
  unfolding pumps
  pumps_idle [] s idle drained = (s, refl, refl)
  pumps_idle (turn ∷ turns) s idle drained =
      let now = turn.clock (work opts s.store) in
      let (next, e, stopped, same) = turn_idle c v t opts several turn s idle (
        length-zero _ (
          omega (
            arith,
            length-claim now (limit opts) s.store,
            count-is_due-le now (values s.store.jobs),
          ))) in
      let (s', h, same') = pumps_idle turns next stopped (rw same drained) in
      (s', pumps-step turn turns s next e ∙ h, same' ∙ same)

  module _ (gap : ℕ) (ks : List String) where
    drains :
        (turns : List Turn) (from due : ℕ) (s : State W)
        → IsValid c s.store
        → s.running ≡ false
        → IsOpen due ks [] s.store
        → ArePaced gap from turns
        → from ≤ due + gap
        → due + gap + work opts s.store * span gap < last_end from turns
        → (s' : State W) × (pumps v t opts turns s ≡ some s')
          × IsDrained s'.store
          × IsServing [] s'.store
          × HasKeys ks s'.store
    unfolding pumps
    drains [] from due s valid idle h paced near late = absurd (omega arith)
    drains (turn ∷ turns) from due s valid idle h (readings, order, short, paced) near late =
        let now = turn.clock (work opts s.store) in
        elim (List-cases (claim now (limit opts) s.store).0) [
          | inl empty ↦
              let (next, e, stopped, same) = turn_idle c v t opts several turn s idle empty in
              elim (Bool-cases (leb due from)) [
                | inl over ↦
                    let drained =
                      idle-IsDrained opts now s.store several
                        (IsReadyBy-later due now s.store
                          (omega (arith, leb→le due from over, (readings (work opts s.store)).0))
                          h.0)
                        empty in
                    let (s', g, same') = pumps_idle turns next stopped (rw same drained) in
                    let final : s'.store ≡ s.store = same' ∙ same in
                    (
                      s',
                      pumps-step turn turns s next e ∙ g,
                      rw final drained,
                      rw final h.1,
                      rw final h.2,
                    )
                | inr before ↦
                    let (s', g, drained, served, held) =
                      drains turns turn.ended due next (rw same valid) stopped (rw same h) paced
                        (ground arith) (rw same late) in
                    (s', pumps-step turn turns s next e ∙ g, drained, served, held)
              ]
          | inr (job, jobs, found) ↦
              let horizon : ℕ = max due (turn.ended + 60000) in
              let (next, e, stopped, valid', less, h') =
                turn_busy c v t opts several turn horizon ks s job jobs valid idle
                  (λ i. omega (arith, (readings i).1))
                  (IsReadyBy-later due horizon s.store (omega arith) h.0, h.1, h.2) found in
              let (s', g, drained, served, held) =
                drains turns turn.ended horizon next valid' stopped h' paced (omega arith)
                  (omega (arith, less, times_mono _ _ (span gap) less)) in
              (s', pumps-step turn turns s next e ∙ g, drained, served, held)
        ]

    -- Every job is settled in the end, whatever the services do. Suppose that a round may claim a
    -- job at all, that the queue is valid and nothing else is done to it, and that at the start no
    -- `pump` runs, no job is being processed, and those that wait are due by some instant. Suppose
    -- that `pump` is called from that instant or an earlier one on, again and again, each call
    -- ending, and the next one beginning, within some gap after it began. Once the calls have gone
    -- on past that instant for the gap and, for each attempt that the waiting jobs have left, a
    -- minute and twice the gap, the queue holds the jobs that it held, and each is completed, given
    -- up, dismissed or with an operator.
    pub pumps_settle_all :
        (turns : List Turn) (from due : ℕ) (s : State W)
        → IsValid c s.store
        → s.running ≡ false
        → IsReadyBy due s.store
        → IsServing [] s.store
        → HasKeys ks s.store
        → from ≤ due
        → ArePaced gap from turns
        → due + gap + work opts s.store * span gap < last_end from turns
        → (s' : State W) × (pumps v t opts turns s ≡ some s')
          × HasKeys ks s'.store
          × ((k : String) (job : SyncJob)
              → lookup k s'.store.jobs ≡ some job
              → is_closed job.status ≡ true)
    pumps_settle_all turns from due s valid idle ready serving held early paced late =
        let (s', e, drained, served, same) =
          drains turns from due s valid idle (ready, serving, held) paced (omega arith) late in
        (s', e, same, drained-is_closed s'.store drained served)
