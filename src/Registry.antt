-- ===== src/Registry.antt =====
-- src/core/objectRegistry.ts: the native names of the canonical objects.
pub mod Examples
pub mod Slug
use hubspot_salesforce_conne.Prelude.{
  ℕ, zero, suc, ◌+◌, String, Bool, true, false, not, Option, none, some, List, [], ◌∷◌, ◌==◌,
  if◌then◌else◌, concat, is_some, keep, map_option, bind_option,
}
use hubspot_salesforce_conne.Prelude.Dict.{Dict, lookup, insert, values}
use hubspot_salesforce_conne.Types.{SystemId, salesforce, hubspot, system_text}
use hubspot_salesforce_conne.Failure.{plain}
use hubspot_salesforce_conne.Exec.{Result, ok, err}
use hubspot_salesforce_conne.Mapping.{is_text}

pub record ObjectRegistration : Type 0 where
  pub canonical_object : String
  pub label : String
  pub salesforce_object : Option String
  pub hubspot_object : Option String

abbrev pub Registry : Type 0
Registry = Dict ObjectRegistration

unfoldable pub register_object_mapping : ObjectRegistration → Registry → Registry
register_object_mapping registration registry =
    insert registration.canonical_object registration registry

-- the loop of `configureObjectMappings`
unfoldable pub register_all : List ObjectRegistration → Registry → Registry
unfolding register_object_mapping
register_all [] registry = registry
register_all (registration ∷ rest) registry =
    register_all rest (register_object_mapping registration registry)

unfoldable pub configure_object_mappings : List ObjectRegistration → Registry → Registry
unfolding register_all
configure_object_mappings registrations registry = register_all registrations []

abbrev pub reset_object_registry : Registry → Registry
reset_object_registry registry = []

abbrev pub native_of : SystemId → ObjectRegistration → Option String
native_of salesforce entry = entry.salesforce_object
native_of hubspot entry = entry.hubspot_object

unfoldable pub native_object_name : SystemId → String → Registry → Option String
native_object_name system type registry = bind_option (lookup type registry) (native_of system)

unregistered : SystemId → String → Result String
unregistered system type = err (
    plain (
      concat (
        "no "
        ∷ system_text system
        ∷ " object is registered for canonical object \""
        ∷ type
        ∷ "\""
        ∷ [])))

unfoldable pub require_native_object_name : SystemId → String → Registry → Result String
unfolding native_object_name unregistered
require_native_object_name system type registry = elim (native_object_name system type registry) [
  | none ↦ unregistered system type
  | some native ↦ if native == "" then unregistered system type else ok native
]

unfoldable pub canonical_objects_for : SystemId → String → Registry → List ObjectRegistration
canonical_objects_for system native registry =
    keep (λ entry. is_text (native_of system entry) native) (values registry)

abbrev pub first_object : List ObjectRegistration → Option String
first_object [] = none
first_object (entry ∷ rest) = some entry.canonical_object

unfoldable pub canonical_object_for : SystemId → String → Registry → Option String
unfolding canonical_objects_for
canonical_object_for system native registry =
    first_object (canonical_objects_for system native registry)

unfoldable pub list_canonical_objects : Registry → List ObjectRegistration
list_canonical_objects registry = values registry

unfoldable pub is_registered_canonical_object : String → Registry → Bool
is_registered_canonical_object type registry = is_some (lookup type registry)

-- `number` is `String(n)`, and `words` what trimming, lower case and the two replacements make of
-- a label. The `while` loop, on fuel: `none` means that the fuel ran out.
module _ (number : ℕ → String) (words : String → String) where
  abbrev pub numbered : String → ℕ → String
  numbered base suffix = concat (base ∷ "_" ∷ number suffix ∷ [])

  unfoldable pub next_free : (fuel : ℕ) → String → ℕ → Registry → Option String
  unfolding is_registered_canonical_object
  next_free zero base suffix registry = none
  next_free (suc fuel) base suffix registry =
      let later = next_free fuel base (suffix + 1) registry in
      if is_registered_canonical_object (numbered base suffix) registry
      then later
      else some (numbered base suffix)

  unfoldable pub base_of : String → String
  base_of label = if words label == "" then "object" else words label

  unfoldable pub slugify_canonical_object : (fuel : ℕ) → String → Registry → Option String
  unfolding base_of next_free is_registered_canonical_object
  slugify_canonical_object fuel label registry =
      if not (is_registered_canonical_object (base_of label) registry)
      then some (base_of label)
      else next_free fuel (base_of label) 2 registry
