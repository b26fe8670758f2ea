-- ===== src/Poller/Commits.antt =====
-- src/engine/syncPoller.ts: when the cursor moves.
use hubspot_salesforce_conne.Prelude.{
  ℕ, zero, suc, String, ◌≡◌, refl, inl, inr, Option, none, some, List, [], ◌∷◌, ◌++◌, ◌==◌, map,
  length, get_or, arith, if◌then◌else◌, some_inj, Bool-cases,
}
use mathlib.Core.Path.{subst}
use hubspot_salesforce_conne.Prelude.Time.{iso_string}
use hubspot_salesforce_conne.Types.{SystemId, ChangeEvent}
use hubspot_salesforce_conne.Failure.{Failure}
use hubspot_salesforce_conne.Exec.{
  Result, ok, err, pure, bind_keeps, lift, go_on, ◌>>=◌, ◌>>◌, and_then,
}
use hubspot_salesforce_conne.SyncConfig.{SyncConfig}
use hubspot_salesforce_conne.Registry.{require_native_object_name}
use hubspot_salesforce_conne.Migration.{RecordPage}
use hubspot_salesforce_conne.Poller.{Services, QueryCondition, Deletion}
use hubspot_salesforce_conne.Poller.One.{
  stream_of, first_since, condition_of, Found, Polled, add_page, more_pages, find_changes,
  own_deletions, is_shared, find_deletions, enqueue_found, deliver_found, deleted_event, poll_since,
  poll_one,
}

module _ {W : Type 0} (v : Services W) (P : W → Type 0)
    (lists : (system : SystemId) (type : String) (cursor : Option String) (since : String)
        (condition : QueryCondition) (w : W)
      → P w
      → P (v.list system type cursor since condition w).1)
    (deletions : (system : SystemId) (type since : String) (w : W)
      → P w
      → P (v.list_deleted_since system type since w).1)
    (cursors : (system : SystemId) (stream : String) (w : W)
      → P w
      → P (v.get_cursor system stream w).1)
    (links : (system : SystemId) (id : String) (w : W) → P w → P (v.linked_type system id w).1)
    (enqueues : (events : List ChangeEvent) (w : W) → P w → P (v.enqueue events w).1)
    (commits : (system : SystemId) (stream cursor : String) (e : Failure) (w w' : W)
      → v.commit_cursor system stream cursor w ≡ (err e, w')
      → P w
      → P w')
    (now : ℕ) (system : SystemId) (type : String) (config : SyncConfig) where
  own_deletions-keeps :
      (ds : List Deletion) (w : W) → P w → P (own_deletions v now system type config ds w).1
  unfolding own_deletions
  own_deletions-keeps [] w h = h
  own_deletions-keeps (d ∷ rest) w h =
      bind_keeps P (v.linked_type system d.source_id) _ w (links system d.source_id w h)
        λ linked t k.
          bind_keeps P (own_deletions v now system type config rest) _ t
            (own_deletions-keeps rest t k) λ others u l. l

  find_deletions-keeps :
      (since : String) (w : W) → P w → P (find_deletions v now system type config since w).1
  unfolding find_deletions
  find_deletions-keeps since w h =
      by_name (require_native_object_name system type (v.registry w)) refl
    where
      sorted_out :
          (native : String) (raw : List Deletion) (t : W)
          → P t
          → P
              ((if is_shared v now system type config native (v.registry w)
                  then own_deletions v now system type config raw
                  else pure raw)
                t).1
      sorted_out native raw t k =
          elim (Bool-cases (is_shared v now system type config native (v.registry w))) [
            | inl shared ↦ rw shared (own_deletions-keeps raw t k)
            | inr single ↦ rw single k
          ]

      by_name :
          (r : Result String)
          → require_native_object_name system type (v.registry w) ≡ r
          → P (find_deletions v now system type config since w).1
      by_name (err e) name = rw (find_deletions, name) h
      by_name (ok native) name =
          rw (find_deletions, name)
            (bind_keeps P (v.list_deleted_since system type since) _ w
              (deletions system type since w h) λ raw t k. sorted_out native raw t k)

  find_changes-keeps :
      (fuel : ℕ) (since : String) (cursor : Option String) (found : Found) (w w' : W)
      (r : Result Found)
      → find_changes v now system type config fuel since cursor found w ≡ some (r, w')
      → P w
      → P w'
  unfolding find_changes more_pages
  find_changes-keeps zero since cursor found w w' r h k = absurd (ground (arith, h))
  find_changes-keeps (suc fuel) since cursor found w w' r h k =
      after_page (v.list system type cursor since (condition_of system config type) w).0
        (v.list system type cursor since (condition_of system config type) w).1
        (lists system type cursor since (condition_of system config type) w k) h
        (λ c q u g l. find_changes-keeps fuel since c q u w' r g l)
    where
      Again : Type 0
      Again =
          (c : Option String) (q : Found) (u : W)
          → find_changes v now system type config fuel since c q u ≡ some (r, w')
          → P u
          → P w'

      turned :
          (page : RecordPage) (next : Option String) (u : W)
          → page.next_cursor ≡ next
          → P u
          → more_pages v now system type config
              (find_changes v now system type config fuel since)
              found
              page
              u
            ≡ some (r, w')
          → Again
          → P w'
      turned page none u e l g again = subst P (ground (arith, e, g)) l
      turned page (some cursor) u e l g again = elim (Bool-cases (cursor == "")) [
        | inl last ↦ subst P (ground (arith, e, g, last)) l
        | inr next ↦
            again (some cursor) (add_page v now system type config found page) u
              (ground (arith, e, g, next)) l
      ]

      after_page :
          (p : Result RecordPage) (u : W)
          → P u
          → go_on (some (p, u)) (
              more_pages v now system type config
                (find_changes v now system type config fuel since)
                found)
            ≡ some (r, w')
          → Again
          → P w'
      after_page (err e) u l g again = subst P (ground (arith, g)) l
      after_page (ok page) u l g again = turned page _ u refl l g again

  enqueue_found-keeps :
      (events : List ChangeEvent) (w : W)
      → P w
      → P (enqueue_found v now system type config events w).1
  unfolding enqueue_found
  enqueue_found-keeps [] w h = h
  enqueue_found-keeps (event ∷ events) w h = enqueues (event ∷ events) w h

  deliver_found-failed :
      (found : Found) (ds : List Deletion) (e : Failure) (w w' : W)
      → deliver_found v now system type config found ds w ≡ (err e, w')
      → P w
      → P w'
  unfolding deliver_found
  deliver_found-failed found ds e w w' h k =
      enqueued (enqueue_found v now system type config events w).0
        (enqueue_found v now system type config events w).1 (enqueue_found-keeps events w k) h
    where
      counts : Polled
      counts = record { changed = found.changed; deleted = length ds }

      events : List ChangeEvent
      events = found.events ++ map (deleted_event system type) ds

      after_commit :
          (r : Result (Unit {0})) (u t : W)
          → v.commit_cursor system (stream_of type) (iso_string now) u ≡ (r, t)
          → P u
          → and_then r (λ _. pure counts) t ≡ (err e, w')
          → P w'
      after_commit (ok _) u t c l g = absurd (ground (arith, g))
      after_commit (err e') u t c l g =
          subst P (ground (arith, g)) (commits system (stream_of type) (iso_string now) e' u t c l)

      enqueued :
          (r : Result (Unit {0})) (u : W)
          → P u
          → and_then r
              (λ _. v.commit_cursor system (stream_of type) (iso_string now) >> pure counts)
              u
            ≡ (err e, w')
          → P w'
      enqueued (err e') u l g = subst P (ground (arith, g)) l
      enqueued (ok _) u l g =
          after_commit (v.commit_cursor system (stream_of type) (iso_string now) u).0 u
            (v.commit_cursor system (stream_of type) (iso_string now) u).1 refl l g

  after_changes :
      (since : String) (found : Found) (e : Failure) (w w' : W)
      → (find_deletions v now system type config since
            >>= deliver_found v now system type config found)
          w
        ≡ (err e, w')
      → P w
      → P w'
  after_changes since found e w w' h k =
      collected (find_deletions v now system type config since w).0
        (find_deletions v now system type config since w).1 (find_deletions-keeps since w k) h
    where
      collected :
          (r : Result (List Deletion)) (u : W)
          → P u
          → and_then r (deliver_found v now system type config found) u ≡ (err e, w')
          → P w'
      collected (err e') u l g = subst P (ground (arith, g)) l
      collected (ok ds) u l g = deliver_found-failed found ds e u w' g l

  poll_since-failed :
      (fuel : ℕ) (since : String) (e : Failure) (w w' : W)
      → poll_since v now system type config fuel since w ≡ some (err e, w')
      → P w
      → P w'
  unfolding poll_since
  poll_since-failed fuel since e w w' h k =
      from
        (find_changes v now system type config fuel since none (record { events = []; changed = 0 })
          w)
        refl h
    where
      from :
          (r : Option (Result Found × W))
          → find_changes v now system type config fuel since none
              (record { events = []; changed = 0 })
              w
            ≡ r
          → go_on r (λ found. lift (
              find_deletions v now system type config since
              >>= deliver_found v now system type config found))
            ≡ some (err e, w')
          → P w'
      from none c g = absurd (ground (arith, g))
      from (some (err e', u)) c g =
          subst P (ground (arith, g)) (find_changes-keeps fuel since none _ w u (err e') c k)
      from (some (ok found, u)) c g =
          after_changes since found e u w' (some_inj g)
            (find_changes-keeps fuel since none _ w u (ok found) c k)

  -- A poll that fails, wherever it fails, leaves whatever its other calls and a failing commit
  -- keep, so the cursor of the stream in particular.
  pub poll_one-failed :
      (fuel : ℕ) (e : Failure) (w w' : W)
      → poll_one v now system type config fuel w ≡ some (err e, w')
      → P w
      → P w'
  unfolding poll_one
  poll_one-failed fuel e w w' h k =
      from (v.get_cursor system (stream_of type) w).0 (v.get_cursor system (stream_of type) w).1
        (cursors system (stream_of type) w k) h
    where
      from :
          (r : Result (Option String)) (u : W)
          → P u
          → go_on (some (r, u)) (λ cursor.
            poll_since v now system type config fuel (get_or cursor (first_since now config type)))
            ≡ some (err e, w')
          → P w'
      from (err e') u l g = subst P (ground (arith, g)) l
      from (ok cursor) u l g = poll_since-failed fuel _ e u w' g l
