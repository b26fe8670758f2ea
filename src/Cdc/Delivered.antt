-- ===== src/Cdc/Delivered.antt =====
-- src/connectors/salesforce/cdcWorker.ts: what is in the queue when the cursor moves.
use hubspot_salesforce_conne.Prelude.{
  String, ◌≡◌, refl, ◌⊎◌, inl, inr, Option, some, List, [], ◌∷◌, ◌++◌, All, arith, ap, ◌∙◌,
}
use mathlib.Core.Path.{subst}
use hubspot_salesforce_conne.Types.{salesforce, ChangeEvent}
use hubspot_salesforce_conne.Failure.{Failure}
use hubspot_salesforce_conne.Exec.{Result, ok, err, and_then, bind_keeps}
use hubspot_salesforce_conne.Cdc.{
  CdcEnvelope, Services, event_of, deliver, deliver_all, consume_once,
}

-- the cursor after the envelopes
abbrev pub cursor_after : Option String → List CdcEnvelope → Option String
cursor_after cursor [] = cursor
cursor_after cursor (e ∷ rest) = cursor_after (some e.replay_id) rest

-- What the queue and the cursors do: `cursor w` is the committed cursor of the topic, and
-- `IsQueued event w` says that the event is in the queue.
pub record IsDurable {W : Type 0} (v : Services W) (topic : String) (cursor : W → Option String)
    (IsQueued : ChangeEvent → W → Type 0) : Type 0 where
  pub queues : (e : ChangeEvent) (w w' : W) → v.enqueue (e ∷ []) w ≡ (ok tt, w') → IsQueued e w'
  pub enqueue_keeps :
      (e d : ChangeEvent) (w : W) → IsQueued d w → IsQueued d (v.enqueue (e ∷ []) w).1
  pub enqueue_moves : (e : ChangeEvent) (w : W) → cursor (v.enqueue (e ∷ []) w).1 ≡ cursor w
  pub commit_keeps :
      (c : String) (d : ChangeEvent) (w : W)
      → IsQueued d w
      → IsQueued d (v.commit_cursor salesforce topic c w).1
  pub commits :
      (c : String) (w w' : W)
      → v.commit_cursor salesforce topic c w ≡ (ok tt, w')
      → cursor w' ≡ some c
  pub refuses :
      (c : String) (f : Failure) (w w' : W)
      → v.commit_cursor salesforce topic c w ≡ (err f, w')
      → cursor w' ≡ cursor w

module _ {W : Type 0} (v : Services W) (topic : String) (cursor : W → Option String)
    (IsQueued : ChangeEvent → W → Type 0) where
  abbrev pub AreQueued : List CdcEnvelope → W → Type 0
  AreQueued es w = All (λ (e : CdcEnvelope). IsQueued (event_of v topic e) w) es

  -- Either all envelopes are delivered and in the queue, and the cursor is that of the last; or an
  -- error ends the round at one of them, all before it are in the queue, and the cursor is that of
  -- the last before it.
  abbrev pub IsDelivered : List CdcEnvelope → Option String → Result (Unit {0}) → W → Type 0
  IsDelivered es from r w =
      ((r ≡ ok tt) × AreQueued es w × (cursor w ≡ cursor_after from es))
      ⊎ ((f : Failure) × (r ≡ err f)
          × ((done : List CdcEnvelope) × (e : CdcEnvelope) × (rest : List CdcEnvelope) × (es
                ≡ done ++ e ∷ rest)
              × AreQueued done w
              × (cursor w ≡ cursor_after from done)))

  module _ (laws : IsDurable v topic cursor IsQueued) where
    deliver-queues :
        (e : CdcEnvelope) (w w' : W)
        → deliver v topic e w ≡ (ok tt, w')
        → IsQueued (event_of v topic e) w' × (cursor w' ≡ some e.replay_id)
    unfolding deliver
    deliver-queues e w w' h =
        enqueued (v.enqueue (event_of v topic e ∷ []) w).0 (v.enqueue (event_of v topic e ∷ []) w).1
          refl h
      where
        enqueued :
            (r : Result (Unit {0})) (t : W)
            → v.enqueue (event_of v topic e ∷ []) w ≡ (r, t)
            → and_then r (λ _. v.commit_cursor salesforce topic e.replay_id) t ≡ (ok tt, w')
            → IsQueued (event_of v topic e) w' × (cursor w' ≡ some e.replay_id)
        enqueued (err f) t k g = absurd (ground (arith, g))
        enqueued (ok _) t k g = (
          subst (IsQueued (event_of v topic e)) (ap (λ (x : Result (Unit {0}) × W). x.1) g) (
              laws.commit_keeps e.replay_id (event_of v topic e) t
                (laws.queues (event_of v topic e) w t k)),
          laws.commits e.replay_id t w' g,
        )

    -- whether or not the delivery fails
    deliver-keeps :
        (e : CdcEnvelope) (d : ChangeEvent) (w : W)
        → IsQueued d w
        → IsQueued d (deliver v topic e w).1
    unfolding deliver
    deliver-keeps e d w h =
        bind_keeps (IsQueued d) (v.enqueue (event_of v topic e ∷ []))
          (λ _. v.commit_cursor salesforce topic e.replay_id) w
          (laws.enqueue_keeps (event_of v topic e) d w h)
          λ a t k. laws.commit_keeps e.replay_id d t k

    deliver-refused :
        (e : CdcEnvelope) (f : Failure) (w w' : W)
        → deliver v topic e w ≡ (err f, w')
        → cursor w' ≡ cursor w
    unfolding deliver
    deliver-refused e f w w' h =
        enqueued (v.enqueue (event_of v topic e ∷ []) w).0 (v.enqueue (event_of v topic e ∷ []) w).1
          (laws.enqueue_moves (event_of v topic e) w) h
      where
        enqueued :
            (r : Result (Unit {0})) (t : W)
            → cursor t ≡ cursor w
            → and_then r (λ _. v.commit_cursor salesforce topic e.replay_id) t ≡ (err f, w')
            → cursor w' ≡ cursor w
        enqueued (err f') t k g = subst (λ (x : W). cursor x ≡ cursor w) (ground (arith, g)) k
        enqueued (ok _) t k g = laws.refuses e.replay_id f t w' g ∙ k

    pub deliver_all-keeps :
        (es : List CdcEnvelope) (d : ChangeEvent) (w : W)
        → IsQueued d w
        → IsQueued d (deliver_all v topic es w).1
    unfolding deliver_all
    deliver_all-keeps [] d w h = h
    deliver_all-keeps (e ∷ rest) d w h =
        bind_keeps (IsQueued d) (deliver v topic e) (λ _. deliver_all v topic rest) w
          (deliver-keeps e d w h) λ a t k. deliver_all-keeps rest d t k

    -- one envelope more, before those of the rest
    IsDelivered-more :
        (e : CdcEnvelope) (rest : List CdcEnvelope) (from : Option String) (r : Result (Unit {0}))
        (w : W)
        → IsQueued (event_of v topic e) w
        → IsDelivered rest (some e.replay_id) r w
        → IsDelivered (e ∷ rest) from r w
    IsDelivered-more e rest from r w h (inl (good, queued, at)) = inl (good, (h, queued), at)
    IsDelivered-more e rest from r w h (inr (f, bad, (done, d, later, split, queued, at))) = inr (
      f,
      bad,
      (e ∷ done, d, later, ap (λ (es : List CdcEnvelope). e ∷ es) split, (h, queued), at),
    )

    deliver_all-IsDelivered :
        (es : List CdcEnvelope) (w w' : W) (r : Result (Unit {0}))
        → deliver_all v topic es w ≡ (r, w')
        → IsDelivered es (cursor w) r w'
    unfolding deliver_all
    deliver_all-IsDelivered [] w w' r h = inl (ground (arith, h), tt, ground (arith, h))
    deliver_all-IsDelivered (e ∷ rest) w w' r h =
        delivered (deliver v topic e w).0 (deliver v topic e w).1 refl h
          λ t g. deliver_all-IsDelivered rest t w' r g
      where
        delivered :
            (a : Result (Unit {0})) (t : W)
            → deliver v topic e w ≡ (a, t)
            → and_then a (λ _. deliver_all v topic rest) t ≡ (r, w')
            → ((t : W) → deliver_all v topic rest t ≡ (r, w') → IsDelivered rest (cursor t) r w')
            → IsDelivered (e ∷ rest) (cursor w) r w'
        delivered (err f) t k g go = inr (
          f,
          ground (arith, g),
          ([], e, rest, refl, tt, ground (arith, g, deliver-refused e f w t k)),
        )
        delivered (ok _) t k g go =
            let (queued, at) = deliver-queues e w t k in
            IsDelivered-more e rest (cursor w) r w'
              (subst (IsQueued (event_of v topic e)) (ap (λ (x : Result (Unit {0}) × W). x.1) g)
                (deliver_all-keeps rest (event_of v topic e) t queued))
              (subst (λ (c : Option String). IsDelivered rest c r w') at (go t g))

    -- When a round of the worker has read the cursor and subscribed, then either the round ends
    -- without an error, every envelope of the subscription has its event in the queue, and the
    -- committed cursor is that of the last (the former cursor, if there is none); or it ends by an
    -- error at some envelope, those before it have their events in the queue, and the committed
    -- cursor is that of the last before it (again the former one, if there is none). This is under
    -- the laws of a queue that keeps what it took and of cursors that a failing commit leaves.
    pub consume_once-IsDelivered :
        (from : Option String) (es : List CdcEnvelope) (w t u w' : W) (r : Result (Unit {0}))
        → v.get_cursor salesforce topic w ≡ (ok from, t)
        → v.subscribe topic from t ≡ (ok es, u)
        → consume_once v topic w ≡ (r, w')
        → IsDelivered es (cursor u) r w'
    unfolding consume_once
    consume_once-IsDelivered from es w t u w' r got opened h =
        deliver_all-IsDelivered es u w' r (ground (arith, got, opened, h))
