-- ===== src/Wired/Examples.antt =====
-- src/app.ts: a contact that was carried over to Salesforce, and the theorem at the event that
-- this causes.
use hubspot_salesforce_conne.Prelude.{
  ℕ, String, true, ◌≡◌, refl, some, none, List, [], ◌∷◌, ◌==◌, count_if, inl,
}
use hubspot_salesforce_conne.Prelude.Dict.{lookup, insert}
use hubspot_salesforce_conne.Prelude.Sort.{sort_by}
use hubspot_salesforce_conne.Prelude.Time.{stamp}
use hubspot_salesforce_conne.Types.{salesforce, CanonicalRecord, ChangeType, Operation}
use hubspot_salesforce_conne.Exec.{ok}
use hubspot_salesforce_conne.Activity.{empty_log}
use hubspot_salesforce_conne.IdMap.{
  Link, by_source, content_hash, normalized, upsert_link, index_link, index_source,
}
use hubspot_salesforce_conne.Mapping.{field_rules}
use hubspot_salesforce_conne.Queue.{SyncJob, SyncJobStatus, empty_store}
use hubspot_salesforce_conne.Reconciler
use hubspot_salesforce_conne.Reconciler.{
  propagate, choose_winner, settle, deliver, agree, finish, write_winner, write_back,
}
use hubspot_salesforce_conne.Reconciler.Steps.{check_required_fields}
use hubspot_salesforce_conne.Reconciler.Records.{LeavesEcho}
use hubspot_salesforce_conne.Reconciler.Examples.{connectors, context, contact, link, linked}
use hubspot_salesforce_conne.Associations
use hubspot_salesforce_conne.Engine
use hubspot_salesforce_conne.Engine.{Options, process}
use hubspot_salesforce_conne.Engine.Examples.{texts}
use hubspot_salesforce_conne.Wired.{Governance, Wired, services}
use hubspot_salesforce_conne.Wired.Echo.{process-own_write}

-- the contact as Salesforce gives it back
abbrev copy : CanonicalRecord
copy = record contact {
  meta = record { source = salesforce; source_id = "n1"; modified_at = stamp 3000; deleted = none };
}

abbrev crm : Reconciler.Base.Connectors (List String)
crm = record connectors { read = λ system type id w. (ok (some copy), "read" ∷ w) }

abbrev relations : Associations.Connectors (List String)
relations = record {
  list_associations = λ system type id w. (ok [], "list" ∷ w);
  associate = λ system type id a w. (ok tt, "associate" ∷ w);
}

abbrev governance : Governance (List String)
governance = record {
  record_deletion = λ input w. (ok tt, w);
  complete_deletion = λ id actor w. (ok tt, w);
}

abbrev carried : Reconciler.Base.State (List String)
carried = (propagate crm context 2000 contact link linked).1

-- the link that this leaves
abbrev stored : Link
stored = record link {
  ids = record { sf = some "n1"; hs = some "5" };
  hashes = record { sf = some "email=a@b.c"; hs = some "email=a@b.c" };
  modified_at = record { sf = some (stamp 2000); hs = some (stamp 1000) };
  updated_at = stamp 2000;
}

-- the state when the winner is written
abbrev described : Reconciler.Base.State (List String)
described = (check_required_fields crm context 2000 salesforce contact linked).1

left : LeavesEcho crm context 2000 contact link carried
unfolding propagate choose_winner settle deliver agree finish check_required_fields field_rules
    write_winner write_back content_hash normalized lookup sort_by by_source upsert_link index_link
    index_source insert
left = record {
  winner = contact;
  result = record {
    system = salesforce;
    type = "contact";
    target_id = "n1";
    operation = Operation.created;
  };
  stored = stored;
  before = described;
  after = record described { world = "upsert" ∷ described.world };
  written = refl;
  from_source = refl;
  from_target = inl refl;
  target_hash = refl;
  source_hash = inl refl;
}

abbrev echo : SyncJob
echo = record {
  id = "j";
  event = record {
    event_id = some "e2";
    system = salesforce;
    type = "contact";
    source_id = "n1";
    change_type = ChangeType.updated;
    occurred_at = stamp 3000;
  };
  status = SyncJobStatus.processing;
  attempts = 1;
  next_attempt_at = stamp 3000;
  last_error = none;
  created_at = stamp 3000;
}

abbrev options : Options
options = record {
  concurrency = none;
  max_attempts = none;
  delete_policy = none;
  should_process = none;
}

abbrev after_write : Engine.State (Wired (List String))
after_write = record {
  store = empty_store;
  activity = empty_log;
  world = record { sync = carried; links = [] };
  running = true;
  timer = none;
}

-- how many writes of records the log has
abbrev writes : List String → ℕ
writes w = count_if (λ name. name == "upsert") w

process-own_write_example :
    (writes
        (process
          (services crm relations governance context (λ s. s) (λ s. s) 3000)
          texts
          options
          3000
          echo
          after_write).world.sync.world
      ≡ 1)
    × ((process
          (services crm relations governance context (λ s. s) (λ s. s) 3000)
          texts
          options
          3000
          echo
          after_write).world.sync.id_map
        ≡ carried.id_map)
unfolding propagate choose_winner settle deliver agree finish check_required_fields field_rules
    write_winner write_back content_hash normalized lookup sort_by by_source upsert_link index_link
    index_source insert left
process-own_write_example =
    process-own_write crm relations governance context (λ s. s) (λ s. s) texts options 3000
      (λ w. writes w ≡ 1) (λ system type id w h. h) (λ system type id w h. h)
      (λ system type id x w h. h) 2000 contact link carried left echo copy ("read" ∷ carried.world)
      after_write refl refl refl refl refl refl refl refl
