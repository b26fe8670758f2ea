-- ===== src/Cdc/Served.antt =====
-- src/connectors/salesforce/cdcWorker.ts: a stream whose calls succeed is delivered to its end.
use hubspot_salesforce_conne.Prelude.{
  ℕ, zero, suc, ◌≤◌, ◌<◌, String, ◌≡◌, refl, sym, ◌⊎◌, inl, inr, Option, none, some, List, [], ◌∷◌,
  ◌++◌, ◌+◌, All-append, All-zip, length, arith, ap, ◌∙◌,
}
use mathlib.Core.Path.{subst}
use hubspot_salesforce_conne.Types.{salesforce, ChangeEvent}
use hubspot_salesforce_conne.Exec.{Result, ok}
use hubspot_salesforce_conne.Cdc.{
  CdcEnvelope, Services, event_of, deliver, deliver_all, consume_once, consume,
}
use hubspot_salesforce_conne.Cdc.Delivered.{
  IsDurable, AreQueued, cursor_after, consume_once-IsDelivered, deliver_all-keeps,
}

-- What the calls do while none fails: a subscription after the cursor of some envelope gives an
-- initial part of those that follow it in the stream, at least one if there are any.
pub record IsServed {W : Type 0} (v : Services W) (topic : String) (cursor : W → Option String)
    (IsQueued : ChangeEvent → W → Type 0) (stream : List CdcEnvelope) : Type 0 where
  pub gets : (w : W) → v.get_cursor salesforce topic w ≡ (ok (cursor w), w)
  pub enqueues : (e : ChangeEvent) (w : W) → (v.enqueue (e ∷ []) w).0 ≡ ok tt
  pub commits : (c : String) (w : W) → (v.commit_cursor salesforce topic c w).0 ≡ ok tt
  pub subscribes :
      (done ahead : List CdcEnvelope) (w : W)
      → stream ≡ done ++ ahead
      → (es : List CdcEnvelope) × (later : List CdcEnvelope) × (v.subscribe topic
            (cursor_after none done)
            w
          ≡ (ok es, w))
        × (ahead ≡ es ++ later)
        × ((length ahead ≡ 0) ⊎ (0 < length es))

cursor_after-append :
    (from : Option String) (es fs : List CdcEnvelope)
    → cursor_after (cursor_after from es) fs ≡ cursor_after from (es ++ fs)
cursor_after-append from [] fs = refl
cursor_after-append from (e ∷ es) fs = cursor_after-append (some e.replay_id) es fs

append_assoc : (xs ys zs : List CdcEnvelope) → xs ++ (ys ++ zs) ≡ (xs ++ ys) ++ zs
append_assoc [] ys zs = refl
append_assoc (x ∷ xs) ys zs = ap (λ (l : List CdcEnvelope). x ∷ l) (append_assoc xs ys zs)

length-append : (xs ys : List CdcEnvelope) → length (xs ++ ys) ≡ length xs + length ys
length-append [] ys = omega arith
length-append (x ∷ xs) ys = omega (arith, length-append xs ys)

module _ {W : Type 0} (v : Services W) (topic : String) (cursor : W → Option String)
    (IsQueued : ChangeEvent → W → Type 0) (laws : IsDurable v topic cursor IsQueued)
    (stream : List CdcEnvelope) (served : IsServed v topic cursor IsQueued stream) where
  deliver-ok : (e : CdcEnvelope) (w : W) → (deliver v topic e w).0 ≡ ok tt
  unfolding deliver
  deliver-ok e w =
      let t = (v.enqueue (event_of v topic e ∷ []) w).1 in
      rw (served.enqueues (event_of v topic e) w) (served.commits e.replay_id t)

  deliver_all-ok : (es : List CdcEnvelope) (w : W) → (deliver_all v topic es w).0 ≡ ok tt
  unfolding deliver_all
  deliver_all-ok [] w = refl
  deliver_all-ok (e ∷ rest) w = rw (deliver-ok e w) (deliver_all-ok rest (deliver v topic e w).1)

  -- some envelopes are delivered, and so many at most are still ahead
  abbrev IsAhead : ℕ → W → Type 0
  IsAhead n w =
      (done : List CdcEnvelope) × (ahead : List CdcEnvelope) × (stream ≡ done ++ ahead)
      × AreQueued v topic cursor IsQueued done w
      × (cursor w ≡ cursor_after none done)
      × (length ahead ≤ n)

  round :
      (es : List CdcEnvelope) (w : W)
      → v.subscribe topic (cursor w) w ≡ (ok es, w)
      → AreQueued v topic cursor IsQueued es (consume_once v topic w).1
        × (cursor (consume_once v topic w).1 ≡ cursor_after (cursor w) es)
        × ((d : ChangeEvent) → IsQueued d w → IsQueued d (consume_once v topic w).1)
  unfolding consume_once
  round es w opened =
      let same : consume_once v topic w ≡ deliver_all v topic es w =
        ground (arith, served.gets w, opened) in
      elim (consume_once-IsDelivered v topic cursor IsQueued laws (cursor w) es w w w
        (consume_once v topic w).1 (consume_once v topic w).0 (served.gets w) opened refl) [
          | inl (good, queued, at) ↦ (
            queued,
            at,
            λ d h.
                subst (λ (x : Result (Unit {0}) × W). IsQueued d x.1) (sym same)
                  (deliver_all-keeps v topic cursor IsQueued laws es d w h),
          )
          | inr (f, bad, _) ↦ absurd (ground (arith, bad, same, deliver_all-ok es w))
        ]

  consume_once-IsAhead : (n : ℕ) (w : W) → IsAhead (suc n) w → IsAhead n (consume_once v topic w).1
  consume_once-IsAhead n w (done, ahead, split, queued, at, short) =
      let (es, later, opened, parts, moves) = served.subscribes done ahead w split in
      let (more, after, kept) = round es w (rw at opened) in
      (
        done ++ es,
        later,
        split ∙ ap (λ (l : List CdcEnvelope). done ++ l) parts ∙ append_assoc done es later,
        All-append (λ (e : CdcEnvelope). IsQueued (event_of v topic e) (consume_once v topic w).1)
            done es (All-zip done (λ e q _. kept (event_of v topic e) q) queued queued) more,
        after ∙ ap (λ (c : Option String). cursor_after c es) at ∙ cursor_after-append none done es,
        fewer es later (subst (λ (l : List CdcEnvelope). length l ≤ suc n) parts short)
            (subst (λ (l : List CdcEnvelope). (length l ≡ 0) ⊎ (0 < length es)) parts moves),
      )
    where
      fewer :
          (es later : List CdcEnvelope)
          → length (es ++ later) ≤ suc n
          → (length (es ++ later) ≡ 0) ⊎ (0 < length es)
          → length later ≤ n
      fewer es later h (inl k) = omega (arith, h, k, length-append es later)
      fewer es later h (inr k) = omega (arith, h, k, length-append es later)

  consume-IsAhead : (rounds : ℕ) (w : W) → IsAhead rounds w → IsAhead 0 (consume v topic rounds w)
  unfolding consume
  consume-IsAhead zero w h = h
  consume-IsAhead (suc n) w h =
      consume-IsAhead n (consume_once v topic w).1 (consume_once-IsAhead n w h)

  -- From a state without a cursor, while no call fails and each subscription gives an initial part
  -- of what follows the cursor in the stream, not an empty one before its end, as many rounds as the
  -- stream has envelopes, or more, deliver it: the event of each of its envelopes is in the queue,
  -- and the committed cursor is that of the last, if there is one. This is for a queue that keeps
  -- what it took and a commit that sets the cursor.
  pub consume-delivers_all :
      (rounds : ℕ) (w : W)
      → cursor w ≡ none
      → length stream ≤ rounds
      → AreQueued v topic cursor IsQueued stream (consume v topic rounds w)
        × (cursor (consume v topic rounds w) ≡ cursor_after none stream)
  consume-delivers_all rounds w start enough =
      let (done, ahead, split, queued, at, short) =
        consume-IsAhead rounds w ([], stream, refl, tt, start, enough) in
      let whole : done ≡ stream = sym (split ∙ nothing_ahead done ahead short) in
      (
        subst
            (λ (l : List CdcEnvelope).
              AreQueued v topic cursor IsQueued l (consume v topic rounds w))
            whole queued,
        at ∙ ap (cursor_after none) whole,
      )
    where
      nothing_ahead : (done ahead : List CdcEnvelope) → length ahead ≤ 0 → done ++ ahead ≡ done
      nothing_ahead [] [] h = refl
      nothing_ahead [] (e ∷ ahead) h = absurd (omega (arith, h))
      nothing_ahead (d ∷ done) ahead h =
          ap (λ (l : List CdcEnvelope). d ∷ l) (nothing_ahead done ahead h)
