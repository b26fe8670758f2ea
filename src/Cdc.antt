-- ===== src/Cdc.antt =====
-- src/connectors/salesforce/cdcWorker.ts: the stream of changes of Salesforce. A subscription is the
-- list of the envelopes that it yields before it ends or the worker is stopped; whether it ends by
-- an error matters only for the pause before the next one.
pub mod Delivered
pub mod Served
pub mod Examples
use hubspot_salesforce_conne.Prelude.{
  ℕ, zero, suc, String, Bool, true, false, Option, none, some, List, [], ◌∷◌, ◌==◌, if◌then◌else◌,
  concat,
}
use hubspot_salesforce_conne.Prelude.Dict.{Dict, lookup, insert}
use hubspot_salesforce_conne.Types.{SystemId, salesforce, ChangeEvent, system_text}
use hubspot_salesforce_conne.Exec.{Exec, Result, ok, err, pure, gets, modify, ◌>>=◌, ◌>>◌}

pub record CdcEnvelope : Type 0 where
  pub replay_id : String
  pub event : ChangeEvent

-- the field of `InMemoryReplayCursorStore`
abbrev pub Cursors : Type 0
Cursors = Dict String

abbrev pub cursor_key : SystemId → String → String
cursor_key system stream = concat (system_text system ∷ ":" ∷ stream ∷ [])

unfoldable pub get_cursor : SystemId → String → Exec Cursors (Option String)
get_cursor system stream = gets (λ (c : Cursors). lookup (cursor_key system stream) c)

unfoldable pub commit_cursor : SystemId → String → String → Exec Cursors (Unit {0})
commit_cursor system stream cursor =
    modify (λ (c : Cursors). insert (cursor_key system stream) cursor c)

-- What the worker calls, over the state `W` that these keep; `subscribe` is given the cursor.
pub record Services (W : Type 0) : Type 0 where
  pub get_cursor : SystemId → String → Exec W (Option String)
  pub commit_cursor : SystemId → String → String → Exec W (Unit {0})
  pub enqueue : List ChangeEvent → Exec W (Unit {0})
  pub subscribe : String → Option String → Exec W (List CdcEnvelope)

module _ {W : Type 0} (v : Services W) (topic : String) where
  abbrev pub event_of : CdcEnvelope → ChangeEvent
  event_of envelope = record envelope.event {
    event_id = some (concat ("sf-cdc:" ∷ topic ∷ ":" ∷ envelope.replay_id ∷ []));
  }

  unfoldable pub deliver : CdcEnvelope → Exec W (Unit {0})
  deliver envelope = do
    v.enqueue (event_of envelope ∷ [])
    v.commit_cursor salesforce topic envelope.replay_id

  unfoldable pub deliver_all : List CdcEnvelope → Exec W (Unit {0})
  unfolding deliver
  deliver_all [] = pure tt
  deliver_all (envelope ∷ rest) = do deliver envelope; deliver_all rest

  -- one round of the loop of `consume`; an error ends it, and the next round starts over
  unfoldable pub consume_once : Exec W (Unit {0})
  unfolding deliver_all
  consume_once = do
    cursor ← v.get_cursor salesforce topic
    envelopes ← v.subscribe topic cursor
    deliver_all envelopes

  -- rounds of the loop
  unfoldable pub consume : ℕ → W → W
  unfolding consume_once
  consume zero w = w
  consume (suc n) w = consume n (consume_once w).1
