-- ===== src/Digest/Once.antt =====
-- src/engine/syncAlertDigester.ts: which failures a check alerts on.
use mathlib.Core.Path.{subst}
use hubspot_salesforce_conne.Prelude.{
  ℕ, String, true, ◌≡◌, ◌==◌, refl, Option, none, some, List, [], ◌∷◌, arith, eq_iff, if◌then◌else◌,
  contains, keep, length, All, Bool-cases, sym, inl, inr,
}
use hubspot_salesforce_conne.Exec.{Exec, Result, ok, err, and_then}
use hubspot_salesforce_conne.Queue
use hubspot_salesforce_conne.Queue.{SyncJob}
use hubspot_salesforce_conne.Digest.{
  Settings, Sender, Email, State, alert_key, candidates, fresh, add_all, alert, check_jobs,
  check_now, check_email, nothing, mail, report,
}

added-stays :
    (k : String) (jobs : List SyncJob) (alerted : List String)
    → contains k alerted ≡ true
    → contains k (add_all jobs alerted) ≡ true
unfolding add_all
added-stays k [] alerted h = h
added-stays k (job ∷ jobs) alerted h =
    added-stays k jobs
      (if contains (alert_key job) alerted then alerted else alert_key job ∷ alerted)
      (ground (arith, h))

-- once the fresh jobs are marked, none of the jobs is fresh
fresh_after_marking :
    (jobs : List SyncJob) (alerted marked : List String)
    → ((k : String) → contains k alerted ≡ true → contains k marked ≡ true)
    → All (λ job. contains (alert_key job) marked ≡ true) (fresh alerted jobs)
    → fresh marked jobs ≡ []
unfolding fresh
fresh_after_marking [] alerted marked h a = refl
fresh_after_marking (job ∷ jobs) alerted marked h a =
    elim (Bool-cases (contains (alert_key job) alerted)) [
      | inl old ↦
          let rest : All (λ job. contains (alert_key job) marked ≡ true) (keep _ jobs) =
            rw old at a in
          ground (arith, h (alert_key job) old, fresh_after_marking jobs alerted marked h rest)
      | inr new ↦
          let both : (contains (alert_key job) marked ≡ true)
              × All (λ job. contains (alert_key job) marked ≡ true) (keep _ jobs) =
            rw new at a in
          ground (arith, both.0, fresh_after_marking jobs alerted marked h both.1)
    ]

All-added :
    (jobs : List SyncJob) (alerted : List String)
    → All (λ job. contains (alert_key job) (add_all jobs alerted) ≡ true) jobs
unfolding add_all
All-added [] alerted = tt
All-added (job ∷ jobs) alerted =
    let next = if contains (alert_key job) alerted then alerted else alert_key job ∷ alerted in
    (
      added-stays (alert_key job) jobs next
          (ground (arith, eq_iff (alert_key job) (alert_key job))),
      All-added jobs next,
    )

module _ {W : Type 0} (send : Sender → Email → Exec W (Unit {0})) (settings : Settings) where
  alerted-report :
      (now n : ℕ) (r : Result (Unit {0})) (s : State W)
      → (and_then r (λ _. report send now settings n) s).1.alerted ≡ s.alerted
  unfolding report
  alerted-report now n (ok _) s = refl
  alerted-report now n (err e) s = refl

  alerted-alert :
      (now : ℕ) (email : String) (jobs : List SyncJob) (s : State W)
      → (alert send now settings email jobs s).1.alerted ≡ s.alerted
  unfolding alert mail
  alerted-alert now email jobs s =
      let (r, s') = mail send now settings email jobs s in alerted-report now (length jobs) r s'

  alerted-check_jobs :
      (now : ℕ) (email : String) (jobs : List SyncJob) (s : State W)
      → (check_jobs send now settings email jobs s).1.alerted ≡ add_all jobs s.alerted
  unfolding check_jobs add_all
  alerted-check_jobs now email [] s = refl
  alerted-check_jobs now email (job ∷ jobs) s =
      alerted-alert now email (job ∷ jobs) (record s { alerted = add_all (job ∷ jobs) s.alerted })

  all_told :
      (now : ℕ) (email : String) (jobs : List SyncJob) (s : State W)
      → fresh (check_jobs send now settings email (fresh s.alerted jobs) s).1.alerted jobs ≡ []
  all_told now email jobs s =
      subst (λ marked. fresh marked jobs ≡ [])
        (sym (alerted-check_jobs now email (fresh s.alerted jobs) s))
        (fresh_after_marking jobs s.alerted (add_all (fresh s.alerted jobs) s.alerted)
          (λ k h. added-stays k (fresh s.alerted jobs) s.alerted h)
          (All-added (fresh s.alerted jobs) s.alerted))

  quiet :
      (now : ℕ) (email : String) (jobs : List SyncJob) (s : State W)
      → fresh s.alerted jobs ≡ []
      → check_jobs send now settings email (fresh s.alerted jobs) s ≡ (ok nothing, s)
  unfolding check_jobs
  quiet now email jobs s h =
      subst (λ left. check_jobs send now settings email left s ≡ (ok nothing, s)) (sym h) quiet_none
    where
      quiet_none : check_jobs send now settings email [] s ≡ (ok nothing, s)
      quiet_none = refl

  by_email :
      (now later : ℕ) (to : Option String) (store : Queue.Store) (s : State W)
      → check_email send later settings to store (check_email send now settings to store s).1
        ≡ (ok nothing, (check_email send now settings to store s).1)
  unfolding check_email
  by_email now later none store s = refl
  by_email now later (some email) store s = elim (Bool-cases (email == "")) [
    | inl blank ↦ rw blank
    | inr given ↦ rw given (
        quiet later email (candidates store)
          (check_jobs send now settings email (fresh s.alerted (candidates store)) s).1
          (all_told now email (candidates store) s))
  ]

  -- A second check of the same jobs, under the same settings, sends nothing and changes nothing,
  -- whatever the first one did: also when the first one's mail failed.
  pub check_now-check_now :
      (now later : ℕ) (store : Queue.Store) (s : State W)
      → check_now send later settings store (check_now send now settings store s).1
        ≡ (ok nothing, (check_now send now settings store s).1)
  unfolding check_now
  check_now-check_now now later store s = elim (Bool-cases settings.enabled) [
    | inl on ↦ rw on (by_email now later settings.alert_email store s)
    | inr off ↦ rw off
  ]
