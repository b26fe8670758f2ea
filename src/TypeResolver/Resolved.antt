-- ===== src/TypeResolver/Resolved.antt =====
-- src/engine/typeResolver.ts: what an answer says of the record.
use hubspot_salesforce_conne.Prelude.{
  String, Bool, true, ◌≡◌, refl, ◌⊎◌, inl, inr, Bool-cases, Option, none, some, List, [], ◌∷◌, map,
  find, arith, map_option, some_inj, false, ◌++◌, All, ap,
}
use mathlib.Core.Path.{subst}
use hubspot_salesforce_conne.Types.{SystemId}
use hubspot_salesforce_conne.Exec.{Exec, ok, bind_ok, pure}
use hubspot_salesforce_conne.Host.{Host}
use hubspot_salesforce_conne.Mapping.{Native, Properties}
use hubspot_salesforce_conne.Registry.{ObjectRegistration, Registry, canonical_objects_for}
use hubspot_salesforce_conne.SyncConfig.{SyncConfig, evaluate_conditions}
use hubspot_salesforce_conne.TypeResolver.{
  conditions_of, fields_of, matches, choose, disambiguate, resolve_among, resolve_canonical_type,
}

abbrev pub types : List ObjectRegistration → List String
types candidates = map (λ (c : ObjectRegistration). c.canonical_object) candidates

-- the first of the candidates, in their order, that meets `g`
abbrev pub IsFirst : (String → Bool) → List ObjectRegistration → String → Type 0
IsFirst g candidates type =
    (before : List String) × (after : List String) × (types candidates ≡ before ++ type ∷ after)
    × All (λ (t : String). g t ≡ false) before
    × (g type ≡ true)

find-IsFirst :
    (f : ObjectRegistration → Bool) (g : String → Bool) (candidates : List ObjectRegistration)
    (type : String)
    → ((c : ObjectRegistration) → f c ≡ g c.canonical_object)
    → map_option (λ (c : ObjectRegistration). c.canonical_object) (find f candidates) ≡ some type
    → IsFirst g candidates type
find-IsFirst f g [] type e h = absurd (ground (arith, h))
find-IsFirst f g (c ∷ rest) type e h = elim (Bool-cases (f c)) [
  | inl yes' ↦
      let same : c.canonical_object ≡ type = some_inj (ground (arith, h, yes')) in
      (
        [],
        types rest,
        ap (λ (t : String). t ∷ types rest) same,
        tt,
        subst (λ t. g t ≡ true) same (ground (arith, e c, yes')),
      )
  | inr no' ↦
      let (before, after, split, none_earlier, satisfied) =
        find-IsFirst f g rest type e (ground (arith, h, no')) in
      (
        c.canonical_object ∷ before,
        after,
        ap (λ (ts : List String). c.canonical_object ∷ ts) split,
        (ground (arith, e c, no'), none_earlier),
        satisfied,
      )
]

module _ {W : Type 0} (host : Host) (less : Option Native → Option Native → Bool)
    (read_native_fields : String → String → List String → Exec W (Option Properties))
    (system : SystemId) (native : String) (source_id : String) (config : SyncConfig) where
  -- how an answer came about
  abbrev pub IsJustified : List ObjectRegistration → String → W → W → Type 0
  IsJustified candidates type w w' =
      ((types candidates ≡ type ∷ []) × (w' ≡ w))
      ⊎ ((raw : Properties) × (read_native_fields native source_id
              (fields_of system config candidates) w
            ≡ (ok (some raw), w'))
          × IsFirst (λ t. evaluate_conditions host less (conditions_of system config t) raw)
              candidates type)

  choose-IsFirst :
      (candidates : List ObjectRegistration) (raw : Option Properties) (type : String)
      → choose host less read_native_fields system native source_id config candidates raw
        ≡ some type
      → (fields : Properties) × (raw ≡ some fields)
        × IsFirst
            (λ t. evaluate_conditions host less (conditions_of system config t) fields)
            candidates
            type
  unfolding choose matches
  choose-IsFirst candidates none type h = absurd (ground (arith, h))
  choose-IsFirst candidates (some raw) type h = (
    raw,
    refl,
    find-IsFirst (matches host less read_native_fields system native source_id config raw)
        (λ t. evaluate_conditions host less (conditions_of system config t) raw) candidates type
        (λ c. refl) h,
  )

  disambiguate-IsJustified :
      (candidates : List ObjectRegistration) (fields : List String) (type : String) (w w' : W)
      → fields_of system config candidates ≡ fields
      → disambiguate host less read_native_fields system native source_id config candidates fields w
        ≡ (ok (some type), w')
      → IsJustified candidates type w w'
  unfolding disambiguate
  disambiguate-IsJustified candidates [] type w w' e h = absurd (ground (arith, h))
  disambiguate-IsJustified candidates (field ∷ fields) type w w' e h =
      let (raw, v, reads, done) =
        bind_ok (read_native_fields native source_id (field ∷ fields))
          (λ raw.
            pure
              (choose host less read_native_fields system native source_id config candidates raw))
          w w' (some type) h in
      let (found, got, first) = choose-IsFirst candidates raw type (ground (arith, done)) in
      inr (found, rw e (ground (arith, reads, got, done)), first)

  resolve_among-IsJustified :
      (candidates : List ObjectRegistration) (type : String) (w w' : W)
      → resolve_among host less read_native_fields system native source_id config candidates w
        ≡ (ok (some type), w')
      → IsJustified candidates type w w'
  unfolding resolve_among
  resolve_among-IsJustified [] type w w' h = absurd (ground (arith, h))
  resolve_among-IsJustified (c ∷ []) type w w' h = inl (ground (arith, h), ground (arith, h))
  resolve_among-IsJustified (c ∷ d ∷ rest) type w w' h =
      disambiguate-IsJustified (c ∷ d ∷ rest) (fields_of system config (c ∷ d ∷ rest)) type w w'
        refl h

  -- When a native record is resolved to a canonical object, either that object is the only one
  -- registered for the record's native object, and no connector was called; or the record's fields
  -- were read, and the object is the first one registered, in the registry's order, whose
  -- structured conditions they satisfy. An object without structured conditions is satisfied by
  -- every record, so one with a raw condition alone is taken and not skipped.
  pub resolve_canonical_type-IsJustified :
      (registry : Registry) (type : String) (w w' : W)
      → resolve_canonical_type host less read_native_fields system native source_id config registry
          w
        ≡ (ok (some type), w')
      → IsJustified (canonical_objects_for system native registry) type w w'
  unfolding resolve_canonical_type
  resolve_canonical_type-IsJustified registry type w w' h =
      resolve_among-IsJustified (canonical_objects_for system native registry) type w w' h
