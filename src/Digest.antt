-- ===== src/Digest.antt =====
-- src/engine/syncAlertDigester.ts: the digest of jobs that need a person (`SyncAlertDigester`). The
-- timer that calls it every five minutes, and its start and stop, are left out.
mod Examples
pub mod Once
use hubspot_salesforce_conne.Prelude.{
  ℕ, ◌-◌, String, Bool, true, false, not, ◌&&◌, ◌||◌, Option, none, some, List, [], ◌∷◌, ◌++◌, map,
  ◌==◌, if◌then◌else◌, contains, keep, take, length, nat_eq, ltb, concat, join, get_or,
}
use hubspot_salesforce_conne.Prelude.Time.{nat_text}
use hubspot_salesforce_conne.Types.{system_text}
use hubspot_salesforce_conne.Exec.{Exec, ok, pure, modify, ◌>>=◌, ◌>>◌, and_then}
use hubspot_salesforce_conne.Queue
use hubspot_salesforce_conne.Queue.{SyncJob, SyncJobStatus}
use hubspot_salesforce_conne.Activity
use hubspot_salesforce_conne.Activity.{ActivityLog, ActivityKind}

pub record Settings : Type 0 where
  pub enabled : Bool
  pub alert_email : Option String
  pub smtp_host : Option String
  pub smtp_port : Option ℕ
  pub smtp_user : Option String
  pub smtp_password : Option String
  pub smtp_from : Option String

-- the sender that `senderFor` makes
pub data Sender : Type 0 where
  smtp : (host : String) → ℕ → (user password from : String) → Sender
  logging : Sender

pub record Email : Type 0 where
  pub to : String
  pub subject : String
  pub text : String

pub record CheckResult : Type 0 where
  pub sent : Bool
  pub new_issues : ℕ

pub record State (W : Type 0) : Type 0 where
  pub world : W
  pub activity : ActivityLog
  -- the keys in the set, in the order in which they were added
  pub alerted : List String

sender_by : Option String → Option ℕ → Option String → Option String → Option String → Sender
sender_by (some host) (some port) (some user) (some password) (some from) =
    if not (host == "")
      && not (nat_eq port 0)
      && not (user == "")
      && not (password == "")
      && not (from == "")
    then smtp host port user password from
    else logging
sender_by _ _ _ _ _ = logging

unfoldable pub sender_for : Settings → Sender
unfolding sender_by
sender_for s = sender_by s.smtp_host s.smtp_port s.smtp_user s.smtp_password s.smtp_from

abbrev pub status_text : SyncJobStatus → String
status_text SyncJobStatus.queued = "queued"
status_text SyncJobStatus.processing = "processing"
status_text SyncJobStatus.retry = "retry"
status_text SyncJobStatus.completed = "completed"
status_text SyncJobStatus.dead_letter = "dead_letter"
status_text SyncJobStatus.manual_review = "manual_review"
status_text SyncJobStatus.dismissed = "dismissed"

unfoldable pub alert_key : SyncJob → String
alert_key job = concat (job.id ∷ ":" ∷ status_text job.status ∷ ":" ∷ nat_text job.attempts ∷ [])

unfoldable pub candidates : Queue.Store → List SyncJob
candidates store =
    Queue.list 200 (some SyncJobStatus.dead_letter) store
    ++ Queue.list 200 (some SyncJobStatus.manual_review) store

unfoldable pub fresh : List String → List SyncJob → List SyncJob
fresh alerted jobs = keep (λ job. not (contains (alert_key job) alerted)) jobs

-- `for (const job of fresh) this.alerted.add(alertKey(job))`
unfoldable pub add_all : List SyncJob → List String → List String
add_all [] alerted = alerted
add_all (job ∷ jobs) alerted =
    add_all jobs (if contains (alert_key job) alerted then alerted else alert_key job ∷ alerted)

unfoldable pub subject_of : ℕ → String
subject_of n = concat (
    nat_text n
    ∷ " sync issue"
    ∷ (if nat_eq n 1 then "" else "s")
    ∷ " need"
    ∷ (if nat_eq n 1 then "s" else "")
    ∷ " attention"
    ∷ [])

job_line : SyncJob → String
job_line job = concat (
    "- ["
    ∷ status_text job.status
    ∷ "] "
    ∷ system_text job.event.system
    ∷ " "
    ∷ job.event.type
    ∷ " "
    ∷ job.event.source_id
    ∷ ": "
    ∷ get_or job.last_error "no error detail"
    ∷ [])

unfoldable pub text_of : List SyncJob → String
unfolding job_line
text_of jobs = concat (
    join "\n" (
      map job_line (take 20 jobs)
      ++ (if ltb 20 (length jobs)
          then concat ("...and " ∷ nat_text (length jobs - 20) ∷ " more" ∷ []) ∷ []
          else []))
    ∷ "\n\nReview these in the Sync tab's \"Conflicts & manual review\" list, or the Activity tab's Sync jobs list."
    ∷ [])

abbrev pub nothing : CheckResult
nothing = record { sent = false; new_issues = 0 }

module _ {W : Type 0} (send : Sender → Email → Exec W (Unit {0})) (now : ℕ)
    (settings : Settings) where
  unfoldable pub mail : String → List SyncJob → Exec (State W) (Unit {0})
  unfolding sender_for subject_of text_of
  mail email jobs s =
      let (r, w) =
        send (sender_for settings)
          (record { to = email; subject = subject_of (length jobs); text = text_of jobs })
          s.world in
      (r, record s { world = w })

  unfoldable pub report : ℕ → Exec (State W) CheckResult
  unfolding subject_of
  report n s = (
    ok (record { sent = true; new_issues = n }),
    record s {
      activity =
          Activity.log now ActivityKind.info (concat ("Email alert sent: " ∷ subject_of n ∷ []))
            s.activity;
    },
  )

  -- the mail, once the jobs are marked
  unfoldable pub alert : String → List SyncJob → Exec (State W) CheckResult
  unfolding mail report
  alert email jobs = mail email jobs >>= λ _. report (length jobs)

  unfoldable pub check_jobs : String → List SyncJob → Exec (State W) CheckResult
  unfolding alert
  check_jobs email [] s = (ok nothing, s)
  check_jobs email (job ∷ jobs) s =
      alert email (job ∷ jobs) (record s { alerted = add_all (job ∷ jobs) s.alerted })

  unfoldable pub check_email : Option String → Queue.Store → Exec (State W) CheckResult
  unfolding check_jobs
  check_email none store s = (ok nothing, s)
  check_email (some email) store s =
      if email == ""
      then (ok nothing, s)
      else check_jobs email (fresh s.alerted (candidates store)) s

  unfoldable pub check_now : Queue.Store → Exec (State W) CheckResult
  unfolding check_email
  check_now store s =
      if settings.enabled then check_email settings.alert_email store s else (ok nothing, s)
