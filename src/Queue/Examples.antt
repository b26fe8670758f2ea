-- ===== src/Queue/Examples.antt =====
-- src/engine/syncEventStore.ts: a queue of two webhook events, and the theorems at it.

use text.Mathlib.TextLemmas.{nil≢cons, cons≢nil, tail-eq_of_cons-eq}
use hubspot_salesforce_conne.Prelude.{
  ℕ, zero, suc, String, ◌≡◌, ◌≤◌, refl, ap, false, some, none, List, [], ◌∷◌, All, contains,
}
use hubspot_salesforce_conne.Prelude.Dict.{lookup, insert, adjust}
use hubspot_salesforce_conne.Prelude.Sort.{sort_by}
use hubspot_salesforce_conne.Prelude.Time.{stamp, parsed}
use hubspot_salesforce_conne.Types.{salesforce, hubspot, ChangeEvent, ChangeType}
use hubspot_salesforce_conne.Queue.{
  Crypto, SyncJob, Store, empty_store, event_identity, enqueue_one, enqueue, claim, picked,
  start_all, new_job,
}
use hubspot_salesforce_conne.Queue.Valid.{
  IsInjective, IsValid, enqueue-IsValid, empty_store-IsValid,
}
use hubspot_salesforce_conne.Queue.Updates.{enqueue_idempotent}
use hubspot_salesforce_conne.Queue.Claim.{ids, claim_oldest, claim_once}
use hubspot_salesforce_conne.Queue.History.{
  Action, perform_all, history-IsValid, history_one_job_per_event,
}

-- ids that are told apart by their length
unfoldable pub tally : ℕ → String
tally zero = ""
tally (suc k) = String.◌∷◌ "x" (tally k)

pub tally-IsInjective : IsInjective tally
unfolding tally
tally-IsInjective zero zero same = refl
tally-IsInjective zero (suc k) same = absurd (nil≢cons same)
tally-IsInjective (suc j) zero same = absurd (cons≢nil same)
tally-IsInjective (suc j) (suc k) same = ap suc (tally-IsInjective j k (tail-eq_of_cons-eq same))

abbrev pub sample_crypto : Crypto
sample_crypto = record { sha256 = λ s. s; random_uuid = tally }

abbrev pub contact_event : ChangeEvent
contact_event = record {
  event_id = some "e1";
  system = salesforce;
  type = "contact";
  source_id = "003";
  change_type = ChangeType.updated;
  occurred_at = record { text = "2024-01-01T00:00:00Z"; millis = some 1704067200000 };
}

abbrev pub deal_event : ChangeEvent
deal_event = record {
  event_id = none;
  system = hubspot;
  type = "deal";
  source_id = "9";
  change_type = ChangeType.created;
  occurred_at = record { text = "2024-01-01T00:00:00Z"; millis = some 1704067200000 };
}

abbrev pub two_events : List ChangeEvent
two_events = contact_event ∷ deal_event ∷ contact_event ∷ []

abbrev pub sample : Store
sample = (enqueue sample_crypto 1000 two_events empty_store).1

pub sample-IsValid : IsValid sample_crypto sample
sample-IsValid =
    enqueue-IsValid sample_crypto 1000 tally-IsInjective two_events empty_store
      (empty_store-IsValid sample_crypto)

-- what a test computes with
unfoldable pub run : Unit {0}
unfolding enqueue enqueue_one event_identity lookup insert adjust tally claim picked start_all
    sort_by stamp perform_all
run = tt

-- the second delivery of the contact's event got the first one's id
sample_ids : (enqueue sample_crypto 1000 two_events empty_store).0 ≡ "" ∷ "x" ∷ "" ∷ []
unfolding run
sample_ids = refl

enqueue_idempotent_example :
    enqueue sample_crypto 9000 two_events sample ≡ enqueue sample_crypto 1000 two_events empty_store
enqueue_idempotent_example = enqueue_idempotent sample_crypto 1000 9000 two_events empty_store

abbrev actions : List Action
actions =
    Action.enqueue 1000 two_events
    ∷ Action.claim 2000 4
    ∷ Action.complete ""
    ∷ Action.enqueue 3000 two_events
    ∷ []

history-IsValid_example : IsValid sample_crypto (perform_all sample_crypto actions empty_store)
history-IsValid_example = history-IsValid sample_crypto tally-IsInjective actions

abbrev stored_job : SyncJob
unfolding new_job
stored_job = new_job 1000 "" "salesforce:e1" contact_event

history_one_job_per_event_example : (◌≡◌ {A = String} "" "") × (stored_job ≡ stored_job)
unfolding run new_job
history_one_job_per_event_example =
    history_one_job_per_event sample_crypto tally-IsInjective (Action.enqueue 1000 two_events ∷ [])
      "" "" "salesforce:e1" stored_job stored_job refl refl refl refl

abbrev passed_job : SyncJob
unfolding new_job
passed_job = new_job 1000 "x" "hubspot:deal:9:created:2024-01-01T00:00:00Z" deal_event

claim_oldest_example : All (λ (x : SyncJob). parsed x.created_at ≤ 1000) (claim 2000 1 sample).0
unfolding run new_job
claim_oldest_example =
    claim_oldest sample_crypto 2000 1 sample sample-IsValid "x" passed_job refl refl refl

claim_once_example :
    All
      (λ (x : SyncJob). contains x.id (ids (claim 2000 1 sample).0) ≡ false)
      (claim 3000 9 (claim 2000 1 sample).1).0
claim_once_example = claim_once sample_crypto 2000 3000 1 9 sample sample-IsValid
