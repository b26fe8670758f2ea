-- ===== src/IdMap.antt =====
-- src/core/idMap.ts: the links between the records of the two systems, the content hash and the
-- natural keys. The file that the store is flushed to, and `init`, which reads it, are left out.
mod Examples
pub mod ContentHash
pub mod NaturalKeys
pub mod Links
use hubspot_salesforce_conne.Prelude.{
  ℕ, String, Bool, true, false, ◌&&◌, ◌||◌, not, Option, none, some, List, [], ◌∷◌, ◌==◌,
  if◌then◌else◌, concat, join, map, get_or, contains, any, find, dedupe, length, ltb, nat_eq,
  map_option, bind_option,
}
use hubspot_salesforce_conne.Prelude.Dict.{Dict, lookup, insert, delete, keys}
use hubspot_salesforce_conne.Prelude.Sort.{sort_by}
use hubspot_salesforce_conne.Prelude.Text.{includes, ends_with, text_le}
use hubspot_salesforce_conne.Prelude.Time.{Timestamp, stamp}
use hubspot_salesforce_conne.Types.{
  SystemId, salesforce, hubspot, PerSystem, system_text, FieldValue, str, num, bool, null, Fields,
  CanonicalRecord, Criterion, NaturalKeyQuery,
}
use hubspot_salesforce_conne.Failure.{Failure, plain}
use hubspot_salesforce_conne.Exec.{Result, ok, err}
use hubspot_salesforce_conne.Host.{Host}

pub record Link : Type 0 where
  pub canonical_id : String
  pub type : String
  pub ids : PerSystem (Option String)
  pub hashes : PerSystem (Option String)
  pub modified_at : PerSystem (Option Timestamp)
  pub natural_keys : Option (List String)
  pub updated_at : Timestamp

-- `${fields[k] ?? ''}`
abbrev pub value_text : Option FieldValue → String
value_text none = ""
value_text (some null) = ""
value_text (some (str s)) = s
value_text (some (num n)) = n
value_text (some (bool true)) = "true"
value_text (some (bool false)) = "false"

abbrev pub entry_text : Fields → String → String
entry_text fields k = concat (k ∷ "=" ∷ value_text (lookup k fields) ∷ [])

unfoldable pub normalized : Fields → String
normalized fields = join "|" (map (entry_text fields) (sort_by text_le (keys fields)))

-- `hash` is the first 16 digits of the SHA-256 of a text
unfoldable pub content_hash : (String → String) → Fields → String
content_hash hash fields = hash (normalized fields)

-- `NATURAL_KEY_FIELDS`
abbrev pub KeyFields : Type 0
KeyFields = Dict (List String)

-- the alternatives of the regular expression in `isAllowedNaturalKeyField`; `notes?` matches
-- wherever `note` does
abbrev volatile_words : List String
volatile_words =
    "modified" ∷ "activity" ∷ "created" ∷ "updated" ∷ "timestamp" ∷ "description" ∷ "note"
    ∷ "ownerid" ∷ "recordtype" ∷ "status" ∷ "stage" ∷ "pipeline" ∷ "amount" ∷ "employee" ∷ "count"
    ∷ "isdeleted" ∷ []

abbrev generic_fields : List String
generic_fields = "type" ∷ "industry" ∷ "website" ∷ "annualrevenue" ∷ "revenue" ∷ []

allowed_key : String → Bool
allowed_key key =
    if key == ""
    then false
    else if includes key "external" && ends_with key "id"
    then true
    else not (key == "id" || contains key generic_fields || any (includes key) volatile_words)

unfoldable pub is_allowed_natural_key_field : Host → String → Bool
unfolding allowed_key
is_allowed_natural_key_field host field = allowed_key (host.lower_case (host.alphanumeric field))

unfoldable pub configure_natural_key_fields :
    Host → String → List String → KeyFields → Result (Unit {0}) × KeyFields
configure_natural_key_fields host type fields k =
    if nat_eq (length fields) 0
    then (err (plain "at least one natural-key field is required"), k)
    else if ltb 3 (length fields)
    then (err (plain "natural keys can contain at most three fields"), k)
    else elim (find (λ field. not (is_allowed_natural_key_field host field)) fields) [
      | some unsafe ↦ (err (plain (concat ("unsafe natural-key field: " ∷ unsafe ∷ []))), k)
      | none ↦ (ok tt, insert type (dedupe fields) k)
    ]

unfoldable pub natural_key_fields : String → KeyFields → List String
natural_key_fields type k = get_or (lookup type k) []

unfoldable pub clear_natural_key_fields : String → KeyFields → KeyFields
clear_natural_key_fields type k = delete type k

abbrev normalize_domain : Host → String → String
normalize_domain host value =
    elim (host.hostname
      (if includes value "://" then value else concat ("https://" ∷ value ∷ []))) [
        | some name ↦ host.lower_case (host.strip_www name)
        | none ↦ host.lower_case (host.strip_www (host.trim value))
      ]

unfoldable pub normalize_key_value : Host → String → String → String
normalize_key_value host field value =
    if field == "domain" then normalize_domain host value else host.lower_case (host.trim value)

-- `String(raw)` of a text or a number; anything else is no key
abbrev pub raw_text : Option FieldValue → Option String
raw_text (some (str s)) = some s
raw_text (some (num n)) = some n
raw_text _ = none

-- the criterion of one field, absent where the loop returns
unfoldable pub criterion : Host → Fields → String → Option Criterion
criterion host fields field = bind_option (raw_text (lookup field fields)) λ raw.
    if normalize_key_value host field raw == ""
    then none
    else some (record { field = field; value = normalize_key_value host field raw })

unfoldable pub criteria_of : Host → Fields → List String → Option (List Criterion)
criteria_of host fields [] = some []
criteria_of host fields (field ∷ rest) =
    bind_option (criterion host fields field)
      λ c. map_option (λ cs. c ∷ cs) (criteria_of host fields rest)

abbrev pub key_text : List Criterion → String
key_text criteria =
    join "|" (map (λ (c : Criterion). concat (c.field ∷ ":" ∷ c.value ∷ [])) criteria)

query_of : List Criterion → Option NaturalKeyQuery
query_of [] = none
query_of (first ∷ rest) = some (record {
  field = first.field;
  value = first.value;
  key = key_text (first ∷ rest);
  criteria = first ∷ rest;
})

unfoldable pub natural_key_query : Host → KeyFields → CanonicalRecord → Option NaturalKeyQuery
unfolding query_of
natural_key_query host k record' =
    bind_option (criteria_of host record'.fields (natural_key_fields record'.type k)) query_of

unfoldable pub natural_key : Host → KeyFields → CanonicalRecord → Option String
natural_key host k record' =
    map_option (λ (q : NaturalKeyQuery). q.key) (natural_key_query host k record')

-- `FileIdMapStore`. A lookup gives a copy here, where the file store gives the stored object: a
-- change of a link that a caller makes and does not upsert, since a later step fails, is seen by
-- later lookups there and not here.
pub record Store : Type 0 where
  pub links : Dict Link
  pub source_index : Dict String
  pub natural_index : Dict String

abbrev pub empty_store : Store
empty_store = record { links = []; source_index = []; natural_index = [] }

abbrev pub source_key : SystemId → String → String
source_key system id = concat (system_text system ∷ ":" ∷ id ∷ [])

abbrev pub natural_index_key : String → String → String
natural_index_key type key = concat (type ∷ ":" ∷ key ∷ [])

-- `cid ? this.links.get(cid) : undefined`: an empty id counts as absent
abbrev pub link_of : Option String → Store → Option Link
link_of none s = none
link_of (some cid) s = if cid == "" then none else lookup cid s.links

unfoldable pub by_source : SystemId → String → Store → Option Link
by_source system source_id s = link_of (lookup (source_key system source_id) s.source_index) s

unfoldable pub by_natural_key : String → String → Store → Option Link
by_natural_key type key s = link_of (lookup (natural_index_key type key) s.natural_index) s

-- `if (id) this.sourceIndex.set(...)`
unfoldable pub index_source : SystemId → Option String → String → Dict String → Dict String
index_source system none cid index = index
index_source system (some id) cid index =
    if id == "" then index else insert (source_key system id) cid index

unfoldable pub index_keys : String → List String → String → Dict String → Dict String
index_keys type [] cid index = index
index_keys type (key ∷ rest) cid index =
    index_keys type rest cid (insert (natural_index_key type key) cid index)

unfoldable pub index_link : Link → Store → Store
index_link link s = record {
  links = insert link.canonical_id link s.links;
  source_index =
      index_source hubspot link.ids.hs link.canonical_id
        (index_source salesforce link.ids.sf link.canonical_id s.source_index);
  natural_index =
      index_keys link.type (get_or link.natural_keys []) link.canonical_id s.natural_index;
}

unfoldable pub upsert_link : ℕ → Link → Store → Store
upsert_link now link s = index_link (record link { updated_at = stamp now }) s

unfoldable pub index_natural_key : String → String → String → Store → Store
index_natural_key type key cid s = record s {
  natural_index = insert (natural_index_key type key) cid s.natural_index;
}
