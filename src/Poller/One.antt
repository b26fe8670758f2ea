-- ===== src/Poller/One.antt =====
-- src/engine/syncPoller.ts: one poll of one system for one object.
use hubspot_salesforce_conne.Prelude.{
  ℕ, zero, suc, ◌+◌, ◌-◌, ◌*◌, String, Bool, false, not, Option, none, some, List, [], ◌∷◌, ◌++◌,
  ◌==◌, if◌then◌else◌, ltb, map, length, get_or, concat, bind_option,
}
use hubspot_salesforce_conne.Prelude.Dict.{lookup}
use hubspot_salesforce_conne.Prelude.Time.{iso_string}
use hubspot_salesforce_conne.Types.{
  SystemId, ChangeEvent, ChangeType, CanonicalRecord, of_system, system_text,
}
use hubspot_salesforce_conne.Exec.{Exec, ok, err, pure, Fueled, lift, ◌>>=◌, ◌>>◌, ◌>=>◌, go_on}
use hubspot_salesforce_conne.SyncConfig.{SyncConfig}
use hubspot_salesforce_conne.Registry.{Registry, canonical_objects_for, require_native_object_name}
use hubspot_salesforce_conne.Migration.{RecordPage}
use hubspot_salesforce_conne.Poller.{Services, QueryCondition, Deletion}

-- `POLL_STREAM_PREFIX + type`
abbrev pub stream_of : String → String
stream_of type = concat ("poll:" ∷ type ∷ [])

abbrev pub default_lookback_days : ℕ
default_lookback_days = 1

-- where the first poll starts
unfoldable pub first_since : ℕ → SyncConfig → String → String
first_since now config type =
    let days =
      get_or (bind_option (lookup type config.polling) λ p. p.lookback_days)
        default_lookback_days in
    iso_string (now - days * 24 * 60 * 60 * 1000)

abbrev pub condition_of : SystemId → SyncConfig → String → QueryCondition
condition_of system config type = record {
  conditions = bind_option (lookup type config.objects) λ o. of_system system o.conditions;
  raw_condition = bind_option (lookup type config.objects) λ o. of_system system o.raw_condition;
}

abbrev pub changed_event : SystemId → String → CanonicalRecord → ChangeEvent
changed_event system type r = record {
  event_id = some (
      concat (
        "poll:"
        ∷ system_text system
        ∷ ":"
        ∷ type
        ∷ ":"
        ∷ r.meta.source_id
        ∷ ":"
        ∷ r.meta.modified_at.text
        ∷ []));
  system = system;
  type = type;
  source_id = r.meta.source_id;
  change_type = ChangeType.updated;
  occurred_at = r.meta.modified_at;
}

abbrev pub deleted_event : SystemId → String → Deletion → ChangeEvent
deleted_event system type d = record {
  event_id = some (
      concat (
        "poll:"
        ∷ system_text system
        ∷ ":"
        ∷ type
        ∷ ":"
        ∷ d.source_id
        ∷ ":deleted:"
        ∷ d.occurred_at.text
        ∷ []));
  system = system;
  type = type;
  source_id = d.source_id;
  change_type = ChangeType.deleted;
  occurred_at = d.occurred_at;
}

-- the events that were found, and how many records changed
pub record Found : Type 0 where
  pub events : List ChangeEvent
  pub changed : ℕ

pub record Polled : Type 0 where
  pub changed : ℕ
  pub deleted : ℕ

module _ {W : Type 0} (v : Services W) (now : ℕ) (system : SystemId) (type : String)
    (config : SyncConfig) where
  abbrev pub add_page : Found → RecordPage → Found
  add_page found page = record {
    events = found.events ++ map (changed_event system type) page.records;
    changed = found.changed + length page.records;
  }

  -- `while (cursor)`
  unfoldable pub more_pages :
      (Option String → Found → Fueled W Found) → Found → RecordPage → Fueled W Found
  more_pages continue found page = elim page.next_cursor [
    | none ↦ lift (pure (add_page found page))
    | some cursor ↦
        if cursor == ""
        then lift (pure (add_page found page))
        else continue (some cursor) (add_page found page)
  ]

  unfoldable pub find_changes : (fuel : ℕ) → String → Option String → Found → Fueled W Found
  unfolding more_pages
  find_changes zero since cursor found w = none
  find_changes (suc fuel) since cursor found w =
      go_on (some (v.list system type cursor since (condition_of system config type) w))
        (more_pages (find_changes fuel since) found)

  -- `link && link.type !== type`
  abbrev pub is_foreign : Option String → Bool
  is_foreign none = false
  is_foreign (some linked) = not (linked == type)

  unfoldable pub own_deletions : List Deletion → Exec W (List Deletion)
  own_deletions [] = pure []
  own_deletions (d ∷ rest) = do
    linked ← v.linked_type system d.source_id
    others ← own_deletions rest
    pure (if is_foreign linked then others else d ∷ others)

  abbrev pub is_shared : String → Registry → Bool
  is_shared native registry = ltb 1 (length (canonical_objects_for system native registry))

  -- the name of the native object is required first, and may be missing
  unfoldable pub find_deletions : String → Exec W (List Deletion)
  unfolding own_deletions
  find_deletions since w = elim (require_native_object_name system type (v.registry w)) [
    | err e ↦ (err e, w)
    | ok native ↦
        (v.list_deleted_since system type since >>= λ raw.
        if is_shared native (v.registry w) then own_deletions raw else pure raw)
          w
  ]

  unfoldable pub enqueue_found : List ChangeEvent → Exec W (Unit {0})
  enqueue_found [] = pure tt
  enqueue_found (event ∷ events) = v.enqueue (event ∷ events)

  -- the cursor is committed once the events are in the queue
  unfoldable pub deliver_found : Found → List Deletion → Exec W Polled
  unfolding enqueue_found
  deliver_found found deletions =
      enqueue_found (found.events ++ map (deleted_event system type) deletions)
      >> (v.commit_cursor system (stream_of type) (iso_string now)
          >> pure (record { changed = found.changed; deleted = length deletions }))

  unfoldable pub poll_since : (fuel : ℕ) → String → Fueled W Polled
  unfolding find_changes find_deletions deliver_found
  poll_since fuel since =
      find_changes fuel since none (record { events = []; changed = 0 }) >=> λ found.
      lift (find_deletions since >>= deliver_found found)

  unfoldable pub poll_one : (fuel : ℕ) → Fueled W Polled
  unfolding poll_since first_since
  poll_one fuel = lift (v.get_cursor system (stream_of type)) >=> λ cursor.
      poll_since fuel (get_or cursor (first_since now config type))
