-- ===== src/Digest/Examples.antt =====
-- src/engine/syncAlertDigester.ts: a failed job, whose mail cannot be sent, and the theorem at it.
use hubspot_salesforce_conne.Prelude.{◌≡◌, String, true, some, none, List, [], ◌∷◌}
use hubspot_salesforce_conne.Prelude.Time.{stamp}
use hubspot_salesforce_conne.Types.{hubspot, ChangeType}
use hubspot_salesforce_conne.Failure.{plain}
use hubspot_salesforce_conne.Exec.{Exec, ok, err}
use hubspot_salesforce_conne.Activity.{empty_log}
use hubspot_salesforce_conne.Queue
use hubspot_salesforce_conne.Queue.{SyncJobStatus}
use hubspot_salesforce_conne.Digest.{Settings, Sender, Email, State, check_now, nothing}
use hubspot_salesforce_conne.Digest.Once.{check_now-check_now}

abbrev failing : Sender → Email → Exec (List String) (Unit {0})
failing sender email w = (err (plain "no connection"), email.subject ∷ w)

abbrev settings : Settings
settings = record {
  enabled = true;
  alert_email = some "ops@b.c";
  smtp_host = none;
  smtp_port = none;
  smtp_user = none;
  smtp_password = none;
  smtp_from = none;
}

abbrev store : Queue.Store
store = record {
  jobs =
      (
        "j",
        record {
          id = "j";
          event = record {
            event_id = some "hubspot:1";
            system = hubspot;
            type = "contact";
            source_id = "5";
            change_type = ChangeType.updated;
            occurred_at = stamp 0;
          };
          status = SyncJobStatus.dead_letter;
          attempts = 8;
          next_attempt_at = stamp 0;
          last_error = some "no";
          created_at = stamp 0;
        },
      )
      ∷ [];
  event_index = [];
  drawn = 1;
}

abbrev start : State (List String)
start = record { world = []; activity = empty_log; alerted = [] }

check_now-check_now_example :
    check_now failing 2000 settings store (check_now failing 1000 settings store start).1
    ≡ (ok nothing, (check_now failing 1000 settings store start).1)
check_now-check_now_example = check_now-check_now failing settings 1000 2000 store start
