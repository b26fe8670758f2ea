-- ===== src/Mock/Describe.antt =====
-- src/connectors/mock/mockConnector.ts: the objects of the mock and their fields.
use hubspot_salesforce_conne.Prelude.{
  String, ◌≡◌, refl, false, Option, none, some, List, [], ◌∷◌, ◌==◌, if◌then◌else◌, map, find,
  concat,
}
use hubspot_salesforce_conne.Types.{SystemId, salesforce, hubspot}
use hubspot_salesforce_conne.Failure.{plain}
use hubspot_salesforce_conne.Exec.{Result, ok, err}
use hubspot_salesforce_conne.Mapping.{FieldRule, Tables, field_rules, no_tables}
use hubspot_salesforce_conne.Schema.{
  SchemaField, CrmObjectDescriptor, CrmObjectMetadata, SchemaRelationship, RelationshipKind,
  full_access, plain_field,
}
use hubspot_salesforce_conne.Mock.{State, associate}

abbrev pub described : FieldRule → SchemaField
described rule = record (plain_field rule.native rule.native "string") {
  read_only = some rule.read_only;
}

unfoldable pub describe : SystemId → Tables → String → List SchemaField
describe system tables type = map described (field_rules system type tables)

abbrev named : SystemId → (salesforce_id hubspot_id label type : String) → CrmObjectDescriptor
named system salesforce_id hubspot_id label type =
    record (full_access (elim system [ salesforce ↦ salesforce_id | hubspot ↦ hubspot_id ]) label
      (concat (label ∷ "s" ∷ [])) false) { canonical_type = some type }

unfoldable pub list_objects : SystemId → List CrmObjectDescriptor
list_objects system =
    named system "Contact" "contacts" "Contact" "contact"
    ∷ named system "Account" "companies" "Company" "company"
    ∷ named system "Opportunity" "deals" "Deal" "deal"
    ∷ full_access (elim system [ salesforce ↦ "Case" | hubspot ↦ "tickets" ]) "Ticket" "Tickets"
        false
    ∷ []

abbrev pub relationships_of : Option String → List SchemaRelationship
relationships_of none = []
relationships_of (some type) =
    if type == "contact"
    then record {
      name = "company";
      label = "Company";
      target_object_id = "company";
      kind = RelationshipKind.parent;
    }
      ∷ []
    else []

abbrev pub fields_of : SystemId → Tables → Option String → List SchemaField
fields_of system tables none = []
fields_of system tables (some type) = describe system tables type

unfoldable pub describe_object : SystemId → Tables → String → Result CrmObjectMetadata
unfolding list_objects describe
describe_object system tables id =
    elim (find (λ (o : CrmObjectDescriptor). o.id == id) (list_objects system)) [
      | none ↦ err (plain (concat ("unknown mock object " ∷ id ∷ [])))
      | some object ↦ ok (record {
        object = object;
        fields = fields_of system tables object.canonical_type;
        relationships = relationships_of object.canonical_type;
      })
    ]

-- `link`: `kind` defaults to the type of the other end
unfoldable pub link :
    String → String → String → String → Option String → Option String → State → State
unfolding associate
link from_type from_id to_type to_id kind label s =
    associate from_type from_id
      (record {
        to_type = to_type;
        to_id = to_id;
        kind = elim kind [ none ↦ to_type | some k ↦ k ];
        label = label;
      })
      s

unknown_object : describe_object hubspot no_tables "Case" ≡ err (plain "unknown mock object Case")
unfolding describe_object
unknown_object = refl
