-- ===== src/Mock.antt =====
-- src/connectors/mock/mockConnector.ts: the connector that keeps its records in memory. A cursor is
-- the text of an offset there, and the offset here; a record's `__id` and `__modifiedAt` are fields
-- of their own. The events that listeners are told are kept in order.
pub mod Upsert
pub mod Describe
pub mod Pages
pub mod Table
pub mod Examples
use hubspot_salesforce_conne.Prelude.{
  ℕ, zero, suc, ◌+◌, String, Bool, true, false, not, ◌&&◌, Option, none, some, List, [], ◌∷◌, ◌++◌,
  ◌==◌, if◌then◌else◌, map, keep, any, take, drop, length, get_or, concat, is_some, map_option, ltb,
}
use hubspot_salesforce_conne.Prelude.Dict.{Dict, lookup, insert, delete, adjust, values}
use hubspot_salesforce_conne.Prelude.Time.{Timestamp, stamp, not_before}
use hubspot_salesforce_conne.Types.{
  SystemId, FieldValue, str, null, Fields, CanonicalRecord, ChangeEvent, ChangeType, UpsertResult,
  Operation, NaturalKeyQuery, system_text,
}
use hubspot_salesforce_conne.Host.{Host}
use hubspot_salesforce_conne.IdMap.{KeyFields, natural_key}
use hubspot_salesforce_conne.Mapping.{
  Native, scalar, Properties, done, property, Tables, to_canonical_fields, from_canonical_fields,
}
use hubspot_salesforce_conne.Registry.{Registry, ObjectRegistration, canonical_objects_for}
use hubspot_salesforce_conne.SyncConfig.{SyncCondition, evaluate_conditions}
use hubspot_salesforce_conne.Associations.{ConnectorAssociation}
use hubspot_salesforce_conne.Poller.{Deletion}

pub record NativeRecord : Type 0 where
  pub fields : Fields
  pub id : String
  pub modified_at : Timestamp

-- the fields of `MockConnector`
pub record State : Type 0 where
  pub store : Dict (Dict NativeRecord)
  pub associations : Dict (List ConnectorAssociation)
  pub deletions : Dict (List Deletion)
  pub emitted : List ChangeEvent

pub record Page : Type 0 where
  pub records : List CanonicalRecord
  pub next_cursor : Option ℕ

abbrev pub page_size : ℕ
page_size = 100

-- `{ ...out, ...more }`
unfoldable pub assign : Fields → Fields → Fields
assign out [] = out
assign out ((k, v) ∷ more) = assign (insert k v out) more

abbrev pub properties_of : Fields → Properties
properties_of [] = done
properties_of ((k, v) ∷ rest) = property k (scalar v) (properties_of rest)

unfoldable pub bucket : String → State → Dict NativeRecord
bucket type s = get_or (lookup type s.store) []

-- `a === b` of optional labels
abbrev pub same_label : Option String → Option String → Bool
same_label none none = true
same_label (some a) (some b) = a == b
same_label _ _ = false

abbrev pub same_association : ConnectorAssociation → ConnectorAssociation → Bool
same_association a b =
    a.to_type == b.to_type && a.to_id == b.to_id && a.kind == b.kind && same_label a.label b.label

abbrev pub association_key : String → String → String
association_key type id = concat (type ∷ ":" ∷ id ∷ [])

unfoldable pub list_associations : String → String → State → List ConnectorAssociation
list_associations type id s = get_or (lookup (association_key type id) s.associations) []

unfoldable pub associate : String → String → ConnectorAssociation → State → State
unfolding list_associations
associate type id association s =
    let current = list_associations type id s in
    if any (λ item. same_association item association) current then s else record s {
      associations = insert (association_key type id) (current ++ association ∷ []) s.associations;
    }

unfoldable pub list_deleted_since : String → Timestamp → State → List Deletion
list_deleted_since type since s =
    keep (λ (d : Deletion). not_before d.occurred_at since) (get_or (lookup type s.deletions) [])

module _ (system : SystemId) where
  unfoldable pub emit : String → String → ChangeType → ℕ → State → State
  emit type id change now s = record s {
    emitted =
        s.emitted
        ++ record {
          event_id = none;
          system = system;
          type = type;
          source_id = id;
          change_type = change;
          occurred_at = stamp now;
        }
          ∷ [];
  }

  unfoldable pub remove : ℕ → String → String → State → UpsertResult × State
  unfolding emit bucket
  remove now type id s = (
    record { system = system; type = type; target_id = id; operation = Operation.deleted },
    emit type id ChangeType.deleted now (record s {
      store = insert type (delete id (bucket type s)) s.store;
      deletions =
          insert type
            (get_or (lookup type s.deletions) []
              ++ record { source_id = id; occurred_at = stamp now } ∷ [])
            s.deletions;
    }),
  )

-- `first_8` is `crypto.randomUUID().slice(0, 8)`, drawn for a call
module _ (host : Host) (tables : Tables) (system : SystemId) where
  abbrev pub id_for : String → Option String → String
  id_for first_8 target_id = get_or target_id (concat (system_text system ∷ "-" ∷ first_8 ∷ []))

  abbrev pub old_fields : Option NativeRecord → Fields
  old_fields none = []
  old_fields (some n) = n.fields

  unfoldable pub merged : ℕ → CanonicalRecord → String → Option NativeRecord → NativeRecord
  unfolding assign
  merged now r id existing = record {
    fields =
        assign (old_fields existing) (from_canonical_fields host tables system r.type r.fields);
    id = id;
    modified_at = stamp now;
  }

  unfoldable pub upsert :
      ℕ → String → CanonicalRecord → Option String → State → UpsertResult × State
  unfolding merged emit bucket
  upsert now first_8 r target_id s =
      let id = id_for first_8 target_id in
      let existing = lookup id (bucket r.type s) in
      (
        record {
          system = system;
          type = r.type;
          target_id = id;
          operation = if is_some existing then Operation.updated else Operation.created;
        },
        emit system r.type id (if is_some existing then ChangeType.updated else ChangeType.created)
            now
            (record s {
              store =
                  insert r.type (insert id (merged now r id existing) (bucket r.type s)) s.store;
            }),
      )

  unfoldable pub seed : ℕ → String → String → Fields → State → String × State
  unfolding bucket
  seed now first_8 type fields s =
      let id = id_for first_8 none in
      (
        id,
        record s {
          store =
              insert type
                (insert id
                  (record {
                    fields = from_canonical_fields host tables system type fields;
                    id = id;
                    modified_at = stamp now;
                  })
                  (bucket type s))
                s.store;
        },
      )

  unfoldable pub canonicalize : String → NativeRecord → CanonicalRecord
  canonicalize type n = record {
    canonical_id = "";
    type = type;
    fields = to_canonical_fields host tables system type (properties_of n.fields);
    associations = none;
    meta = record {
      source = system;
      source_id = n.id;
      modified_at = n.modified_at;
      deleted = none;
    };
  }

  unfoldable pub read : String → String → State → Option CanonicalRecord
  unfolding canonicalize bucket
  read type id s = map_option (canonicalize type) (lookup id (bucket type s))

-- the records that `list` filters, and a page of them
module _ (host : Host) (tables : Tables) (system : SystemId)
    (less : Option Native → Option Native → Bool) where
  unfoldable pub is_listed : Option Timestamp → Option (List SyncCondition) → NativeRecord → Bool
  is_listed since conditions n =
      (elim since [ none ↦ true | some t ↦ not_before n.modified_at t ])
      && evaluate_conditions host less conditions (properties_of n.fields)

  unfoldable pub listed :
      String → Option Timestamp → Option (List SyncCondition) → State → List NativeRecord
  unfolding is_listed bucket
  listed type since conditions s = keep (is_listed since conditions) (values (bucket type s))

  unfoldable pub list :
      String → Option ℕ → Option Timestamp → Option (List SyncCondition) → State → Page
  unfolding canonicalize listed
  list type cursor since conditions s =
      let all = listed type since conditions s in
      let start = get_or cursor 0 in
      record {
        records = map (canonicalize host tables system type) (take page_size (drop start all));
        next_cursor =
            if ltb (start + page_size) (length all) then some (start + page_size) else none;
      }

  unfoldable pub find_by_natural_key :
      KeyFields → String → NaturalKeyQuery → State → List CanonicalRecord
  unfolding list
  find_by_natural_key k type query s =
      keep (λ r. elim (natural_key host k r) [ none ↦ false | some key ↦ key == query.key ])
        (list type none none none s).records

-- `Object.fromEntries(fields.map((f) => [f, record[f] ?? null]))`
unfoldable pub picked_fields : List String → Fields → Fields → Fields
picked_fields [] from out = out
picked_fields (f ∷ fields) from out =
    picked_fields fields from (insert f (get_or (lookup f from) null) out)

unfoldable pub read_among : List ObjectRegistration → String → List String → State → Option Fields
unfolding picked_fields bucket
read_among [] id fields s = none
read_among (candidate ∷ rest) id fields s = elim (lookup id (bucket candidate.canonical_object s)) [
  | some n ↦ some (picked_fields fields n.fields [])
  | none ↦ read_among rest id fields s
]

unfoldable pub read_native_fields :
    SystemId → Registry → String → String → List String → State → Option Fields
unfolding read_among canonical_objects_for
read_native_fields system registry native id fields s =
    read_among (canonical_objects_for system native registry) id fields s

unfoldable pub set_modified_at : String → String → Timestamp → State → State
unfolding bucket
set_modified_at type id at s = record s {
  store = insert type (adjust id (λ n. record n { modified_at = at }) (bucket type s)) s.store;
}

unfoldable pub peek : String → String → String → State → Option FieldValue
unfolding bucket
peek type id field s = elim (lookup id (bucket type s)) [
  | none ↦ none
  | some n ↦ lookup field n.fields
]

-- the sizes of all buckets
unfoldable pub size_of : List (Dict NativeRecord) → ℕ
size_of [] = 0
size_of (records ∷ rest) = length records + size_of rest

unfoldable pub size : State → ℕ
unfolding size_of
size s = size_of (values s.store)
