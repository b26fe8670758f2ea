-- ===== src/Associations/Examples.antt =====
-- src/engine/associationEngine.ts: two relationships of a contact, one of them linked, and the
-- theorem at them.
use hubspot_salesforce_conne.Prelude.{String, some, none, List, [], ◌∷◌}
use hubspot_salesforce_conne.Prelude.Time.{stamp}
use hubspot_salesforce_conne.Exec.{ok}
use hubspot_salesforce_conne.Activity.{empty_log}
use hubspot_salesforce_conne.IdMap
use hubspot_salesforce_conne.IdMap.{Link, by_source}
use hubspot_salesforce_conne.Associations.{ConnectorAssociation, Connectors, State, SyncCounts}

abbrev connectors : Connectors (List String)
connectors = record {
  list_associations = λ system type id w. (ok [], w);
  associate = λ system type id a w. (ok tt, a.to_id ∷ w);
}

abbrev company : Link
company = record {
  canonical_id = "u";
  type = "company";
  ids = record { sf = some "001"; hs = some "9" };
  hashes = record { sf = none; hs = none };
  modified_at = record { sf = none; hs = none };
  natural_keys = none;
  updated_at = stamp 0;
}

abbrev ids : IdMap.Store
ids = record {
  links = ("u", company) ∷ [];
  source_index = ("hubspot:9", "u") ∷ [];
  natural_index = [];
}

abbrev start : State (List String)
start = record { world = []; links = []; activity = empty_log }

abbrev association : String → ConnectorAssociation
association id = record { to_type = "company"; kind = "works_at"; to_id = id; label = none }

abbrev zeros : SyncCounts
zeros = record { synced = 0; deferred = 0 }
