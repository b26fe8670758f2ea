-- ===== src/HubSpot.antt =====
-- src/connectors/hubspot/hubspotConnector.ts: the connector of HubSpot. The calls of its HTTP API
-- are parameters, one for each kind of request, with the parts of the answer that are read.
pub mod Records
pub mod Schemas
pub mod Webhook
pub mod Examples
use hubspot_salesforce_conne.Prelude.{
  ℕ, zero, suc, ◌+◌, String, Bool, true, false, not, ◌&&◌, ◌||◌, Option, none, some, List, [], ◌∷◌,
  ◌++◌, ◌==◌, if◌then◌else◌, map, any, keep, find, concat, get_or, or_else, is_some, map_option,
  ltb, length, nat_eq,
}
use hubspot_salesforce_conne.Prelude.Dict.{Dict, lookup}
use hubspot_salesforce_conne.Prelude.Text.{includes}
use hubspot_salesforce_conne.Prelude.Time.{Timestamp, stamp, nat_text, not_before}
use hubspot_salesforce_conne.Types.{
  FieldValue, str, num, null, hubspot, Fields, CanonicalRecord, UpsertResult, Operation,
  NaturalKeyQuery, Criterion,
}
use hubspot_salesforce_conne.Failure.{Failure, plain, axios, missing_required, ambiguous_key}
use hubspot_salesforce_conne.Exec.{
  Exec, Result, ok, err, pure, throw, ◌>>=◌, ◌>>◌, and_then, Fueled, lift, go_on, ◌>=>◌,
}
use hubspot_salesforce_conne.Host.{Host}
use hubspot_salesforce_conne.Mapping.{
  Native, scalar, Properties, done, property, Tables, to_canonical_fields, from_canonical_fields,
  native_field, native_fields,
}
use hubspot_salesforce_conne.Registry.{
  Registry, ObjectRegistration, native_object_name, require_native_object_name,
  list_canonical_objects,
}
use hubspot_salesforce_conne.SyncConfig.{SyncCondition, SyncConditionOperator}
use hubspot_salesforce_conne.Associations.{ConnectorAssociation}
use hubspot_salesforce_conne.Migration.{RecordPage}
use hubspot_salesforce_conne.Poller.{Deletion}

pub record HsObject : Type 0 where
  pub id : String
  pub properties : Dict String
  pub updated_at : Option String

pub record HsPage : Type 0 where
  pub results : List HsObject
  -- `paging.next.after`
  pub next_after : Option String

pub record Filter : Type 0 where
  pub property_name : String
  pub operator : String
  pub value : Option FieldValue

-- the body of a search
pub record Search : Type 0 where
  pub filters : List Filter
  pub sorted : Bool
  pub properties : List String
  pub limit : ℕ
  pub after : Option String

-- an entry of the answer about associations: the id, and the labels of its types
pub record HsAssociation : Type 0 where
  pub to_object_id : String
  pub labels : List (Option String)

-- The requests that the connector makes, over the state `W` of HubSpot; `acquire` waits for the
-- limiter of searches.
pub record Http (W : Type 0) : Type 0 where
  pub acquire : Exec W (Unit {0})
  pub search : String → Search → Exec W HsPage
  pub page : String → Option String → List String → Exec W HsPage
  pub archived_page : String → Option String → Exec W HsPage
  pub get : String → String → List String → Exec W HsObject
  pub patch : String → String → Fields → Exec W (Unit {0})
  pub post : String → Fields → Exec W String
  pub delete : String → String → Exec W (Unit {0})
  pub associations : String → String → String → Exec W (List HsAssociation)
  pub put_association : String → String → String → String → Exec W (Unit {0})

unfoldable pub compile_condition_filter : SyncCondition → Filter
compile_condition_filter condition =
    let filter : String → Option FieldValue → Filter = λ operator value. record {
      property_name = condition.field;
      operator = operator;
      value = value;
    } in
    elim condition.operator [
      | SyncConditionOperator.is_null ↦ filter "NOT_HAS_PROPERTY" none
      | SyncConditionOperator.is_not_null ↦ filter "HAS_PROPERTY" none
      | SyncConditionOperator.eq ↦ filter "EQ" condition.value
      | SyncConditionOperator.ne ↦ filter "NEQ" condition.value
      | SyncConditionOperator.gt ↦ filter "GT" condition.value
      | SyncConditionOperator.lt ↦ filter "LT" condition.value
      | SyncConditionOperator.contains ↦ filter "CONTAINS_TOKEN" condition.value
    ]

-- `axios.isAxiosError(err) && err.response?.status === status`
abbrev pub has_status : ℕ → Failure → Bool
has_status status (axios e) = elim e.status [ none ↦ false | some n ↦ nat_eq n status ]
has_status status _ = false

-- `{ ...native.properties, id: native.id }`
abbrev pub flat_of : Dict String → String → Properties
flat_of [] id = property "id" (scalar (str id)) done
flat_of ((k, v) ∷ rest) id =
    if k == "id" then flat_of rest id else property k (scalar (str v)) (flat_of rest id)

-- the answer to a request that finds nothing
abbrev pub none_if_missing : {A W : Type 0} → Result A × W → Result (Option A) × W
none_if_missing (ok a, w) = (ok (some a), w)
none_if_missing (err e, w) = if has_status 404 e then (ok none, w) else (err e, w)
