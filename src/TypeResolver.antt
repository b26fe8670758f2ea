-- ===== src/TypeResolver.antt =====
-- src/engine/typeResolver.ts: the canonical object of a native record, where several canonical
-- objects share the native one. The warnings are left out.
pub mod Examples
pub mod Resolved
use hubspot_salesforce_conne.Prelude.{
  String, Bool, Option, none, some, List, [], ◌∷◌, ◌++◌, map, dedupe, find, get_or, map_option,
  bind_option,
}
use hubspot_salesforce_conne.Prelude.Dict.{lookup}
use hubspot_salesforce_conne.Types.{SystemId, of_system}
use hubspot_salesforce_conne.Exec.{Exec, pure, ◌>>=◌}
use hubspot_salesforce_conne.Host.{Host}
use hubspot_salesforce_conne.Mapping.{Native, Properties}
use hubspot_salesforce_conne.Registry.{ObjectRegistration, Registry, canonical_objects_for}
use hubspot_salesforce_conne.SyncConfig.{SyncConfig, SyncCondition, evaluate_conditions}

-- `conditionsByType`, which is read only at the candidates that it is made of
unfoldable pub conditions_of : SystemId → SyncConfig → String → Option (List SyncCondition)
conditions_of system config type =
    bind_option (lookup type config.objects) λ o. of_system system o.conditions

module _ (system : SystemId) (config : SyncConfig) where
  asked_of : List ObjectRegistration → List String
  unfolding conditions_of
  asked_of [] = []
  asked_of (c ∷ rest) =
      map (λ (condition : SyncCondition). condition.field)
        (get_or (conditions_of system config c.canonical_object) [])
      ++ asked_of rest

  -- the fields that some candidate's conditions are about
  unfoldable pub fields_of : List ObjectRegistration → List String
  unfolding asked_of
  fields_of candidates = dedupe (asked_of candidates)

module _ {W : Type 0} (host : Host) (less : Option Native → Option Native → Bool)
    (read_native_fields : String → String → List String → Exec W (Option Properties))
    (system : SystemId) (native : String) (source_id : String) (config : SyncConfig) where
  unfoldable pub matches : Properties → ObjectRegistration → Bool
  matches raw candidate =
      evaluate_conditions host less (conditions_of system config candidate.canonical_object) raw

  -- the loop over the candidates, once the record's fields are read
  unfoldable pub choose : List ObjectRegistration → Option Properties → Option String
  unfolding matches
  choose candidates none = none
  choose candidates (some raw) =
      map_option (λ (c : ObjectRegistration). c.canonical_object) (find (matches raw) candidates)

  unfoldable pub disambiguate : List ObjectRegistration → List String → Exec W (Option String)
  unfolding choose
  disambiguate candidates [] = pure none
  disambiguate candidates (field ∷ fields) = do
    raw ← read_native_fields native source_id (field ∷ fields)
    pure (choose candidates raw)

  unfoldable pub resolve_among : List ObjectRegistration → Exec W (Option String)
  unfolding disambiguate fields_of
  resolve_among [] = pure none
  resolve_among (c ∷ []) = pure (some c.canonical_object)
  resolve_among (c ∷ d ∷ rest) =
      disambiguate (c ∷ d ∷ rest) (fields_of system config (c ∷ d ∷ rest))

  unfoldable pub resolve_canonical_type : Registry → Exec W (Option String)
  unfolding resolve_among canonical_objects_for
  resolve_canonical_type registry = resolve_among (canonical_objects_for system native registry)
