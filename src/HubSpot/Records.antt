-- ===== src/HubSpot/Records.antt =====
-- src/connectors/hubspot/hubspotConnector.ts: reading and writing records and relationships.
use hubspot_salesforce_conne.Prelude.{
  ℕ, zero, suc, String, true, false, not, ◌&&◌, ◌||◌, Option, none, some, List, [], ◌∷◌, ◌++◌, ◌==◌,
  if◌then◌else◌, map, keep, get_or, map_option,
}
use hubspot_salesforce_conne.Prelude.Dict.{Dict, lookup}
use hubspot_salesforce_conne.Prelude.Text.{includes}
use hubspot_salesforce_conne.Prelude.Time.{Timestamp, stamp, nat_text, not_before}
use hubspot_salesforce_conne.Types.{
  FieldValue, str, num, null, hubspot, CanonicalRecord, UpsertResult, Operation, NaturalKeyQuery,
  Criterion,
}
use hubspot_salesforce_conne.Exec.{
  Exec, Result, ok, err, pure, ◌>>=◌, ◌>>◌, and_then, Fueled, lift, go_on,
}
use hubspot_salesforce_conne.Host.{Host}
use hubspot_salesforce_conne.Mapping.{
  Tables, to_canonical_fields, from_canonical_fields, native_field, native_fields,
}
use hubspot_salesforce_conne.Registry.{
  Registry, ObjectRegistration, native_object_name, require_native_object_name,
  list_canonical_objects,
}
use hubspot_salesforce_conne.SyncConfig.{SyncCondition}
use hubspot_salesforce_conne.Associations.{ConnectorAssociation}
use hubspot_salesforce_conne.Migration.{RecordPage}
use hubspot_salesforce_conne.Poller.{Deletion}
use hubspot_salesforce_conne.HubSpot.{
  HsObject, HsPage, Filter, HsAssociation, Http, compile_condition_filter, has_status, flat_of,
  none_if_missing,
}

-- `parse` is `Date.parse`
module _ {W : Type 0} (http : Http W) (host : Host) (tables : Tables) (registry : Registry)
    (parse : String → Option ℕ) (now : ℕ) where
  named : {A : Type 0} → String → (String → Exec W A) → Exec W A
  named type next = λ w. and_then (require_native_object_name hubspot type registry) next w

  abbrev pub timestamp : String → Timestamp
  timestamp text = record { text = text; millis = parse text }

  unfoldable pub canonicalize : String → HsObject → CanonicalRecord
  canonicalize type native = record {
    canonical_id = "";
    type = type;
    fields = to_canonical_fields host tables hubspot type (flat_of native.properties native.id);
    associations = none;
    meta = record {
      source = hubspot;
      source_id = native.id;
      modified_at = timestamp (
          get_or native.updated_at
            (get_or (lookup "hs_lastmodifieddate" native.properties) (stamp now).text));
      deleted = none;
    };
  }

  abbrev pub record_page : String → HsPage → RecordPage
  record_page type page = record {
    records = map (canonicalize type) page.results;
    next_cursor = page.next_after;
  }

  -- the number `Date.parse(modifiedSince)` in JSON
  abbrev millis_value : Timestamp → FieldValue
  millis_value t = elim t.millis [ none ↦ null | some m ↦ num (nat_text m) ]

  unfoldable pub since_filters : Option Timestamp → List Filter
  since_filters none = []
  since_filters (some t) =
      if t.text == ""
      then []
      else record {
        property_name = "hs_lastmodifieddate";
        operator = "GT";
        value = some (millis_value t);
      }
        ∷ []

  list_object :
      String → Option String → Option Timestamp → List SyncCondition → String → Exec W RecordPage
  unfolding since_filters
  list_object type cursor since conditions object =
      let properties = native_fields host hubspot type tables in
      let filters = since_filters since ++ map compile_condition_filter conditions in
      elim filters [
        | [] ↦ (do page ← http.page object cursor properties; pure (record_page type page))
        | first ∷ rest ↦ (do
          http.acquire
          page ← http.search object (record {
            filters = first ∷ rest;
            sorted = true;
            properties = properties;
            limit = 100;
            after = cursor;
          })
          pure (record_page type page))
      ]

  unfoldable pub list :
      String → Option String → Option Timestamp → Option (List SyncCondition) → Exec W RecordPage
  unfolding named list_object
  list type cursor since conditions =
      named type (list_object type cursor since (get_or conditions []))

  unfoldable pub deletion_of : Timestamp → HsObject → List Deletion
  deletion_of since r = elim (lookup "hs_lastmodifieddate" r.properties) [
    | none ↦ []
    | some text ↦
        if not (text == "") && not_before (timestamp text) since
        then record { source_id = r.id; occurred_at = stamp (get_or (parse text) 0) } ∷ []
        else []
  ]

  unfoldable pub deletions_of : Timestamp → List HsObject → List Deletion
  unfolding deletion_of
  deletions_of since [] = []
  deletions_of since (r ∷ rest) = deletion_of since r ++ deletions_of since rest

  unfoldable pub archived_turn :
      (Option String → List Deletion → Fueled W (List Deletion))
      → Timestamp
      → List Deletion
      → HsPage
      → Fueled W (List Deletion)
  unfolding deletions_of
  archived_turn continue since out page = elim page.next_after [
    | none ↦ lift (pure (out ++ deletions_of since page.results))
    | some after ↦
        if after == ""
        then lift (pure (out ++ deletions_of since page.results))
        else continue (some after) (out ++ deletions_of since page.results)
  ]

  unfoldable pub archived :
      (fuel : ℕ) → String → Timestamp → Option String → List Deletion → Fueled W (List Deletion)
  unfolding archived_turn
  archived zero object since after out w = none
  archived (suc fuel) object since after out w =
      go_on (some (http.archived_page object after w))
        (archived_turn (archived fuel object since) since out)

  unfoldable pub list_deleted_since : (fuel : ℕ) → String → Timestamp → Fueled W (List Deletion)
  unfolding archived
  list_deleted_since fuel type since w =
      go_on (some (require_native_object_name hubspot type registry, w))
        λ object. archived fuel object since none []

  unfoldable pub read : String → String → Exec W (Option CanonicalRecord)
  unfolding named canonicalize
  read type id w = none_if_missing (
      named type
        (λ object. do
          native ← http.get object id (native_fields host hubspot type tables)
          pure (canonicalize type native))
        w)

  unfoldable pub read_native_fields : String → String → List String → Exec W (Option (Dict String))
  read_native_fields object id fields w =
      none_if_missing ((do native ← http.get object id fields; pure native.properties) w)

  -- the filters by the natural key; none where a field has no property of its own
  unfoldable pub key_filters : String → List Criterion → Option (List Filter)
  key_filters type [] = some []
  key_filters type (criterion ∷ rest) = elim (native_field hubspot type criterion.field tables) [
    | none ↦ none
    | some name ↦
        if name == "" || includes name "."
        then none
        else map_option
            (λ filters.
              record { property_name = name; operator = "EQ"; value = some (str criterion.value) }
              ∷ filters)
            (key_filters type rest)
  ]

  unfoldable pub find_by_natural_key : String → NaturalKeyQuery → Exec W (List CanonicalRecord)
  unfolding key_filters named canonicalize
  find_by_natural_key type query = elim (key_filters type query.criteria) [
    | none ↦ pure []
    | some filters ↦ (do
      http.acquire
      page ← named type λ object. http.search object (record {
        filters = filters;
        sorted = false;
        properties = native_fields host hubspot type tables;
        limit = 10;
        after = none;
      })
      pure (map (canonicalize type) page.results))
  ]

  result : String → String → Operation → UpsertResult
  result type id operation = record {
    system = hubspot;
    type = type;
    target_id = id;
    operation = operation;
  }

  unfoldable pub upsert : CanonicalRecord → Option String → Exec W UpsertResult
  unfolding named result
  upsert r target_id = named r.type λ object.
      let properties = from_canonical_fields host tables hubspot r.type r.fields in
      let create : Exec W UpsertResult = (do
        id ← http.post object properties
        pure (result r.type id Operation.created)) in
      elim target_id [
        | none ↦ create
        | some id ↦
            if id == ""
            then create
            else (do http.patch object id properties; pure (result r.type id Operation.updated))
      ]

  unfoldable pub remove : String → String → Exec W UpsertResult
  unfolding named result
  remove type id =
      named type λ object. do http.delete object id; pure (result type id Operation.deleted)

  -- the first label of its types that is not empty
  first_label : List (Option String) → Option String
  first_label [] = none
  first_label (none ∷ labels) = first_label labels
  first_label (some label ∷ labels) = if label == "" then first_label labels else some label

  abbrev association_of : String → HsAssociation → ConnectorAssociation
  unfolding first_label
  association_of type item = record {
    to_type = type;
    kind = type;
    to_id = item.to_object_id;
    label = first_label item.labels;
  }

  abbrev empty_if_missing : {A : Type 0} → Result (List A) × W → Result (List A) × W
  empty_if_missing (ok xs, w) = (ok xs, w)
  empty_if_missing (err e, w) = if has_status 404 e then (ok [], w) else (err e, w)

  -- the loop over the other objects
  associations_with : String → String → List String → Exec W (List ConnectorAssociation)
  unfolding association_of
  associations_with object id [] = pure []
  associations_with object id (type ∷ types) = elim (native_object_name hubspot type registry) [
    | none ↦ associations_with object id types
    | some to_object ↦
        (λ w.
          if to_object == ""
          then (ok [], w)
          else empty_if_missing (http.associations object id to_object w))
        >>= λ items. do
          others ← associations_with object id types
          pure (map (association_of type) items ++ others)
  ]

  unfoldable pub list_associations : String → String → Exec W (List ConnectorAssociation)
  unfolding named associations_with list_canonical_objects
  list_associations type id = named type λ object. associations_with object id (
      keep (λ t. not (t == type))
        (map (λ (entry : ObjectRegistration). entry.canonical_object)
          (list_canonical_objects registry)))

  unfoldable pub associate : String → String → ConnectorAssociation → Exec W (Unit {0})
  unfolding named
  associate from_type from_id association = named from_type λ from_object.
      named association.to_type
        λ to_object. http.put_association from_object from_id to_object association.to_id
