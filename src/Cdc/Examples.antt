-- ===== src/Cdc/Examples.antt =====
-- src/connectors/salesforce/cdcWorker.ts: a change that is delivered, and the theorem at it.
use hubspot_salesforce_conne.Prelude.{
  String, true, ◌≡◌, refl, ◌⊎◌, inl, inr, ◌<◌, ◌++◌, ◌==◌, if◌then◌else◌, length, Option, none,
  some, List, [], ◌∷◌, eq_refl, contains, get_or, arith, ap, sym,
}
use mathlib.Core.Path.{subst}
use hubspot_salesforce_conne.Prelude.Time.{stamp}
use hubspot_salesforce_conne.Types.{salesforce, ChangeEvent, ChangeType}
use hubspot_salesforce_conne.Exec.{Result, ok, pure}
use hubspot_salesforce_conne.Cdc.{
  CdcEnvelope, Services, consume, consume_once, deliver_all, deliver,
}
use hubspot_salesforce_conne.Cdc.Delivered.{
  IsDurable, IsDelivered, consume_once-IsDelivered, cursor_after, AreQueued,
}
use hubspot_salesforce_conne.Cdc.Served.{IsServed, consume-delivers_all}

-- the ids of the events in the queue, and the cursor
pub record World : Type 0 where
  pub queued : List String
  pub cursor : Option String

abbrev change : ChangeEvent
change = record {
  event_id = none;
  system = salesforce;
  type = "contact";
  source_id = "003";
  change_type = ChangeType.updated;
  occurred_at = stamp 500;
}

abbrev first : CdcEnvelope
first = record { replay_id = "7"; event = change }

abbrev second : CdcEnvelope
second = record { replay_id = "8"; event = change }

abbrev stream : List CdcEnvelope
stream = first ∷ second ∷ []

-- one envelope after the cursor, as long as there are any
abbrev envelopes_from : Option String → List CdcEnvelope
envelopes_from none = first ∷ []
envelopes_from (some cursor) = if cursor == "7" then second ∷ [] else []

abbrev ids_of : List ChangeEvent → List String → List String
ids_of [] queued = queued
ids_of (e ∷ rest) queued = get_or e.event_id "" ∷ ids_of rest queued

abbrev services : Services World
services = record {
  get_cursor = λ system stream w. (ok w.cursor, w);
  commit_cursor = λ system stream cursor w. (ok tt, record w { cursor = some cursor });
  enqueue = λ events w. (ok tt, record w { queued = ids_of events w.queued });
  subscribe = λ topic cursor. pure (envelopes_from cursor);
}

-- the event is in the queue
abbrev IsQueued : ChangeEvent → World → Type 0
IsQueued e w = contains (get_or e.event_id "") w.queued ≡ true

-- the queue in memory keeps what it took
durable : IsDurable services "contacts" (λ w. w.cursor) IsQueued
durable = record {
  queues = λ e w w' done.
      subst (IsQueued e) (ap (λ (x : Result (Unit {0}) × World). x.1) done)
        (ground (arith, eq_refl (get_or e.event_id "")));
  enqueue_keeps = λ e d w h. ground (arith, h);
  enqueue_moves = λ e w. refl;
  commit_keeps = λ c d w h. h;
  commits = λ c w w' done. sym (ap (λ (x : Result (Unit {0}) × World). x.1.cursor) done);
  refuses = λ c f w w' failed. absurd (ground (arith, failed));
}

abbrev start : World
start = record { queued = []; cursor = none }

abbrev round : Result (Unit {0}) × World
unfolding consume_once deliver_all deliver
round = consume_once services "contacts" start

delivers :
    (consume services "contacts" 2 start).queued ≡ "sf-cdc:contacts:8" ∷ "sf-cdc:contacts:7" ∷ []
unfolding consume consume_once deliver_all deliver
delivers = refl

consume_once-IsDelivered_example :
    IsDelivered services "contacts"
      (λ w. w.cursor)
      IsQueued
      (envelopes_from none)
      none
      round.0
      round.1
unfolding round
consume_once-IsDelivered_example =
    consume_once-IsDelivered services "contacts" (λ w. w.cursor) IsQueued durable none
      (envelopes_from none) start start start round.1 round.0 refl refl refl

-- each call succeeds
served : IsServed services "contacts" (λ w. w.cursor) IsQueued stream
served = record {
  gets = λ w. refl;
  enqueues = λ e w. refl;
  commits = λ c w. refl;
  subscribes = follows;
}
  where
    follows :
        (done ahead : List CdcEnvelope) (w : World)
        → stream ≡ done ++ ahead
        → (es : List CdcEnvelope) × (later : List CdcEnvelope) × (services.subscribe "contacts"
              (cursor_after none done)
              w
            ≡ (ok es, w))
          × (ahead ≡ es ++ later)
          × ((length ahead ≡ 0) ⊎ (0 < length es))
    follows [] ahead w h = (first ∷ [], second ∷ [], refl, sym h, inr (omega arith))
    follows (d ∷ []) ahead w h =
        let same : first ≡ d = ground (arith, h) in
        (
          second ∷ [],
          [],
          subst
              (λ (e : CdcEnvelope).
                services.subscribe "contacts" (cursor_after none (e ∷ [])) w
                ≡ (ok (second ∷ []), w))
              same refl,
          ground (arith, h),
          inr (omega arith),
        )
    follows (d ∷ e ∷ []) ahead w h =
        let same : second ≡ e = ground (arith, h) in
        (
          [],
          [],
          subst
              (λ (x : CdcEnvelope).
                services.subscribe "contacts" (cursor_after none (d ∷ x ∷ [])) w ≡ (ok [], w))
              same refl,
          ground (arith, h),
          inl (ground (arith, h)),
        )
    follows (d ∷ e ∷ f ∷ done) ahead w h = absurd (ground (arith, h))

consume-delivers_all_example :
    AreQueued services "contacts"
      (λ w. w.cursor)
      IsQueued
      stream
      (consume services "contacts" 2 start)
    × ((consume services "contacts" 2 start).cursor ≡ some "8")
consume-delivers_all_example =
    consume-delivers_all services "contacts" (λ w. w.cursor) IsQueued durable stream served 2 start
      refl (omega arith)
