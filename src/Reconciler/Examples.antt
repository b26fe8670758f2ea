-- ===== src/Reconciler/Examples.antt =====
-- src/engine/reconciler.ts: a contact on two systems that log their calls, and the theorems at it.
use hubspot_salesforce_conne.Prelude.{String, refl, some, none, List, [], ◌∷◌}
use hubspot_salesforce_conne.Prelude.Dict.{lookup}
use hubspot_salesforce_conne.Prelude.Sort.{sort_by}
use hubspot_salesforce_conne.Prelude.Time.{stamp}
use hubspot_salesforce_conne.Types.{salesforce, hubspot, str, Fields, CanonicalRecord, Operation}
use hubspot_salesforce_conne.Exec.{ok}
use hubspot_salesforce_conne.Activity.{empty_log}
use hubspot_salesforce_conne.Conflict.{ConflictStrategy}
use hubspot_salesforce_conne.Mapping.{no_tables, field_rules}
use hubspot_salesforce_conne.Mapping.Examples.{sample_host}
use hubspot_salesforce_conne.IdMap.{Link, content_hash, normalized}
use hubspot_salesforce_conne.Engine.Examples.{texts}
use hubspot_salesforce_conne.Reconciler.{
  propagate, choose_winner, settle, deliver, agree, finish, write_winner, write_back,
}
use hubspot_salesforce_conne.Reconciler.Base.{Connectors, Context, State}
use hubspot_salesforce_conne.Reconciler.Steps.{check_required_fields}
use hubspot_salesforce_conne.Reconciler.Preview.{preview, SameButWorld, preview-reads_only}
use hubspot_salesforce_conne.Reconciler.Records.{LeavesEcho, propagate-LeavesEcho}

-- systems with no records, which log the calls; a new record gets the id `n1`
abbrev pub World : Type 0
World = List String

abbrev pub connectors : Connectors World
connectors = record {
  read = λ system type id w. (ok none, "read" ∷ w);
  find_by_natural_key = λ system type q w. (ok [], "search" ∷ w);
  describe = λ system type w. (ok [], "describe" ∷ w);
  upsert = λ system r id w. (
    ok (record { system = system; type = r.type; target_id = "n1"; operation = Operation.created }),
    "upsert" ∷ w,
  );
  remove = λ system type id w. (
    ok (record { system = system; type = type; target_id = id; operation = Operation.deleted }),
    "remove" ∷ w,
  );
  record_conflict = λ input w. (ok tt, "conflict" ∷ w);
}

abbrev pub context : Context
context = record {
  host = sample_host;
  patterns = texts.patterns;
  hash = λ s. s;
  random_uuid = λ n. "u";
  env = record { conflict_strategy = ConflictStrategy.field_merge; source_of_truth = salesforce };
  tables = no_tables;
  key_fields = [];
  read_counterpart = none;
  strategy = none;
  source_of_truth = none;
}

abbrev pub contact : CanonicalRecord
contact = record {
  canonical_id = "";
  type = "contact";
  fields = ("email", str "a@b.c") ∷ [];
  associations = none;
  meta = record { source = hubspot; source_id = "5"; modified_at = stamp 1000; deleted = none };
}

abbrev pub link : Link
link = record {
  canonical_id = "u";
  type = "contact";
  ids = record { sf = none; hs = some "5" };
  hashes = record { sf = none; hs = some "email=a@b.c" };
  modified_at = record { sf = none; hs = none };
  natural_keys = none;
  updated_at = stamp 0;
}

abbrev pub linked : State World
linked = record {
  world = [];
  id_map = record {
    links = ("u", link) ∷ [];
    source_index = ("hubspot:5", "u") ∷ [];
    natural_index = [];
  };
  activity = empty_log;
  schema_cache = [];
  drawn = 1;
}

abbrev changed : Fields
changed = ("email", str "x@b.c") ∷ ("phone", str "1") ∷ []

preview-reads_only_example :
    SameButWorld connectors context 2000 (preview connectors context 2000 contact linked).1 linked
preview-reads_only_example = preview-reads_only connectors context 2000 contact linked

propagate-LeavesEcho_example :
    LeavesEcho connectors context 2000 contact link
      (propagate connectors context 2000 contact link linked).1
unfolding propagate choose_winner settle deliver agree finish check_required_fields field_rules
    write_winner write_back content_hash normalized lookup sort_by
propagate-LeavesEcho_example =
    propagate-LeavesEcho connectors context 2000 contact link linked
      (propagate connectors context 2000 contact link linked).1 refl refl refl
