-- ===== src/HubSpot/Schemas.antt =====
-- src/connectors/hubspot/hubspotConnector.ts: the objects of a portal and their properties.
use text.Mathlib.Text.{starts_with}
use hubspot_salesforce_conne.Prelude.{
  String, Bool, true, false, not, ◌&&◌, ◌||◌, Option, none, some, List, [], ◌∷◌, ◌++◌, ◌==◌,
  if◌then◌else◌, map, find, get_or,
}
use hubspot_salesforce_conne.Prelude.Dict.{Dict, insert}
use hubspot_salesforce_conne.Prelude.Sort.{sort_by}
use hubspot_salesforce_conne.Types.{hubspot}
use hubspot_salesforce_conne.Failure.{Failure}
use hubspot_salesforce_conne.Exec.{Exec, Result, ok, err, ◌>>=◌, pure}
use hubspot_salesforce_conne.Registry.{Registry, canonical_object_for, require_native_object_name}
use hubspot_salesforce_conne.Schema.{
  FieldOption, SchemaField, CrmObjectDescriptor, CrmObjectMetadata, full_access,
}
use hubspot_salesforce_conne.HubSpot.{has_status}

pub record HsSchema : Type 0 where
  pub name : String
  pub object_type_id : Option String
  pub fully_qualified_name : Option String
  -- `labels?.singular` and `labels?.plural`
  pub singular : Option String
  pub plural : Option String

pub record HsProperty : Type 0 where
  pub name : String
  pub label : String
  pub type : String
  pub description : Option String
  pub group_name : Option String
  pub required : Option Bool
  pub has_unique_value : Option Bool
  pub calculated : Option Bool
  pub hub_spot_defined : Option Bool
  pub options : Option (List FieldOption)
  -- `modificationMetadata?.readOnlyValue`
  pub read_only_value : Option Bool

-- the requests about schemas, over the state `W` of HubSpot
pub record SchemaHttp (W : Type 0) : Type 0 where
  pub schemas : Exec W (List HsSchema)
  pub properties : String → Exec W (List HsProperty)

-- the connector's cache of object type ids, beside HubSpot
pub record Known (W : Type 0) : Type 0 where
  pub world : W
  pub object_type_ids : Dict String

abbrev pub standard_objects : List CrmObjectDescriptor
standard_objects =
    full_access "contacts" "Contact" "Contacts" false
    ∷ full_access "companies" "Company" "Companies" false
    ∷ full_access "deals" "Deal" "Deals" false
    ∷ full_access "tickets" "Ticket" "Tickets" false
    ∷ full_access "products" "Product" "Products" false
    ∷ full_access "line_items" "Line item" "Line items" false
    ∷ full_access "quotes" "Quote" "Quotes" false
    ∷ full_access "calls" "Call" "Calls" false
    ∷ full_access "emails" "Email" "Emails" false
    ∷ full_access "meetings" "Meeting" "Meetings" false
    ∷ full_access "notes" "Note" "Notes" false
    ∷ full_access "tasks" "Task" "Tasks" false
    ∷ []

-- what the cache holds at first
abbrev pub seeded_type_ids : Dict String
seeded_type_ids = ("0-1", "contacts") ∷ ("0-2", "companies") ∷ ("0-3", "deals") ∷ []

abbrev pub schema_id : HsSchema → String
schema_id schema = get_or schema.fully_qualified_name schema.name

-- `if (schema.objectTypeId)`: an empty id counts as absent
unfoldable pub remember_type : HsSchema → Dict String → Dict String
remember_type schema ids = elim schema.object_type_id [
  | none ↦ ids
  | some type_id ↦ if type_id == "" then ids else insert type_id (schema_id schema) ids
]

unfoldable pub remember_types : List HsSchema → Dict String → Dict String
unfolding remember_type
remember_types [] ids = ids
remember_types (schema ∷ schemas) ids = remember_types schemas (remember_type schema ids)

abbrev pub custom_object : HsSchema → CrmObjectDescriptor
custom_object schema =
    full_access (schema_id schema) (get_or schema.singular schema.name)
      (get_or schema.plural schema.name) true

-- the failures that count as no custom objects
abbrev pub lacks_scope : Failure → Bool
lacks_scope e = has_status 401 e || has_status 403 e || has_status 404 e

abbrev pub has_type : CrmObjectDescriptor → Bool
has_type object = elim object.canonical_type [ none ↦ false | some type ↦ not (type == "") ]

module _ {W : Type 0} (http : SchemaHttp W) (registry : Registry)
    (locale_le : String → String → Bool) where
  -- mapped objects first, then by label; `locale_le` is `localeCompare(…) <= 0`
  abbrev pub shown_first : CrmObjectDescriptor → CrmObjectDescriptor → Bool
  shown_first x y =
      if has_type x
      then (not (has_type y) || locale_le x.label y.label)
      else (not (has_type y) && locale_le x.label y.label)

  abbrev pub with_type : CrmObjectDescriptor → CrmObjectDescriptor
  with_type object = record object {
    canonical_type = canonical_object_for hubspot object.id registry;
  }

  unfoldable pub shown : List CrmObjectDescriptor → List CrmObjectDescriptor
  shown custom = sort_by shown_first (map with_type (standard_objects ++ custom))

  -- the answer about schemas, and the cache after it
  unfoldable pub listed_objects :
      Dict String → Result (List HsSchema) × W → Result (List CrmObjectDescriptor) × Known W
  unfolding shown remember_types
  listed_objects ids (ok schemas, w) = (
    ok (shown (map custom_object schemas)),
    record { world = w; object_type_ids = remember_types schemas ids },
  )
  listed_objects ids (err e, w) =
      (if lacks_scope e then ok (shown []) else err e, record { world = w; object_type_ids = ids })

  unfoldable pub list_objects : Exec (Known W) (List CrmObjectDescriptor)
  unfolding listed_objects
  list_objects s = listed_objects s.object_type_ids (http.schemas s.world)

  -- an object that is not listed
  abbrev pub unlisted : String → CrmObjectDescriptor
  unlisted id = full_access id id id (starts_with id "2-" || starts_with id "p_")

  abbrev pub schema_field : HsProperty → SchemaField
  schema_field field = record {
    name = field.name;
    label = field.label;
    type = field.type;
    required = field.required;
    read_only = field.read_only_value;
    createable = some (not (get_or field.read_only_value false));
    updateable = some (not (get_or field.read_only_value false));
    unique = field.has_unique_value;
    calculated = field.calculated;
    custom = some (not (get_or field.hub_spot_defined true));
    description = field.description;
    group = field.group_name;
    options = field.options;
  }

  unfoldable pub read_properties : String → Exec (Known W) (List HsProperty)
  read_properties id s = let (r, w) = http.properties id s.world in (r, record s { world = w })

  unfoldable pub describe_object : String → Exec (Known W) CrmObjectMetadata
  unfolding list_objects read_properties
  describe_object id = do
    objects ← list_objects
    properties ← read_properties id
    pure (record {
      object = get_or (find (λ (o : CrmObjectDescriptor). o.id == id) objects) (unlisted id);
      fields = map schema_field properties;
      relationships = [];
    })

  -- the name of the native object is required first, and may be missing
  unfoldable pub describe : String → Exec (Known W) (List SchemaField)
  unfolding describe_object
  describe type s = elim (require_native_object_name hubspot type registry) [
    | err e ↦ (err e, s)
    | ok id ↦ (describe_object id >>= λ metadata. pure metadata.fields) s
  ]
