-- ===== src/Engine/Examples.antt =====
-- src/engine/syncEngine.ts: a worker over services that log their calls, and the theorems at it.
use hubspot_salesforce_conne.Prelude.{
  ℕ, zero, suc, ◌+◌, String, ◌≡◌, ◌⊎◌, refl, true, false, some, none, List, [], ◌∷◌, arith, is_some,
}
use hubspot_salesforce_conne.Prelude.Dict.{lookup, All-lookup}
use hubspot_salesforce_conne.Types.{hubspot, ChangeType}
use hubspot_salesforce_conne.Exec.{Exec, ok}
use hubspot_salesforce_conne.Queue
use hubspot_salesforce_conne.Queue.{Store, SyncJob, SyncJobStatus, enqueue, empty_store, claim}
use hubspot_salesforce_conne.Queue.Valid.{IsValid}
use hubspot_salesforce_conne.Queue.Examples.{sample, sample_crypto, sample-IsValid, run}
use hubspot_salesforce_conne.Activity.{empty_log}
use hubspot_salesforce_conne.Engine.{ignore, Services, Texts, Options, State, process, pump}
use hubspot_salesforce_conne.Engine.Outcome.{IsSettled, process-IsSettled}
use hubspot_salesforce_conne.Engine.Termination.{IsIdle, pump_ends}
use hubspot_salesforce_conne.Engine.Served.{IsServing, is_processing, HasKeys}
use hubspot_salesforce_conne.Engine.Turns.{Turn}
use hubspot_salesforce_conne.Engine.Drained.{pumps, ArePaced, is_closed, pumps_settle_all}

-- a world that keeps the names of the calls, and in which every read finds nothing
abbrev World : Type 0
World = List String

abbrev logged : String → Exec World (Unit {0})
logged name w = (ok tt, name ∷ w)

abbrev services : Services World
services = record {
  read = λ system type id w. (ok none, "read" ∷ w);
  reconcile = λ r. logged "reconcile";
  propagate_delete = λ e. logged "propagate_delete";
  sync_record = λ r. logged "sync_record";
  record_deletion = λ d. logged "record_deletion";
  complete_deletion = λ id actor. logged "complete_deletion";
}

abbrev pub texts : Texts
texts = record {
  patterns = record {
    trim = λ s. s;
    duplicate_value = λ s. none;
    is_not_found = λ s. false;
    is_invalid_value = λ s. false;
  };
  first_2000 = λ s. s;
}

abbrev options : Options
options = record {
  concurrency = none;
  max_attempts = some 2;
  delete_policy = some ignore;
  should_process = none;
}

abbrev start_state : State World
start_state = record {
  store = sample;
  activity = empty_log;
  world = [];
  running = false;
  timer = none;
}

abbrev deletion : SyncJob
deletion = record {
  id = "d";
  event = record {
    event_id = some "hubspot:e9";
    system = hubspot;
    type = "contact";
    source_id = "77";
    change_type = ChangeType.deleted;
    occurred_at = record { text = "2024-01-01T00:00:00Z"; millis = some 1704067200000 };
  };
  status = SyncJobStatus.processing;
  attempts = 1;
  next_attempt_at = record { text = ""; millis = none };
  last_error = none;
  created_at = record { text = ""; millis = none };
}

process-IsSettled_example :
    IsSettled options 5000 deletion sample
      (process services texts options 5000 deletion start_state).store
process-IsSettled_example = process-IsSettled services texts options 5000 deletion start_state

pump_ends_example :
    (s' : State World) × (pump services texts options 7 (λ i. 2000) start_state ≡ some s')
    × (s'.running ≡ false)
    × IsValid sample_crypto s'.store
    × ((i : ℕ) × IsIdle 2000 s'.store)
    × (((Queue.stats s'.store).retry ≡ 0) ⊎ (is_some s'.timer ≡ true))
unfolding run
pump_ends_example =
    pump_ends sample_crypto services texts options (λ i. 2000) (omega arith) 7 start_state
      sample-IsValid refl (omega arith)

-- calls of `pump` every ten minutes
abbrev calls : ℕ → ℕ → List Turn
calls zero from = []
calls (suc n) from = record { clock = λ i. from; ended = from + 600000 } ∷ calls n (from + 600000)

calls-ArePaced : (n from : ℕ) → ArePaced 600000 from (calls n from)
calls-ArePaced zero from = tt
calls-ArePaced (suc n) from =
    (λ i. (omega arith, omega arith), omega arith, omega arith, calls-ArePaced n (from + 600000))

nothing_open : IsServing [] sample
unfolding run
nothing_open k job found busy =
    cc (All-lookup (λ j. is_processing j ≡ false) sample.jobs k job (refl, (refl, tt)) found)

pumps_settle_all_example :
    (s' : State World) × (pumps services texts options (calls 14 1000) start_state ≡ some s')
    × HasKeys ("" ∷ "x" ∷ []) s'.store
    × ((k : String) (job : SyncJob)
        → lookup k s'.store.jobs ≡ some job
        → is_closed job.status ≡ true)
unfolding run
pumps_settle_all_example =
    pumps_settle_all sample_crypto services texts options (omega arith) 600000 ("" ∷ "x" ∷ [])
      (calls 14 1000) 1000 1000 start_state sample-IsValid refl (λ w. refl, (λ w. refl, tt))
      nothing_open refl (omega arith) (calls-ArePaced 14 1000) (omega arith)
