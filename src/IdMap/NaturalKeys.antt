-- ===== src/IdMap/NaturalKeys.antt =====
-- src/core/idMap.ts: which natural keys can be configured, and when a record has one.
use hubspot_salesforce_conne.Prelude.{
  ◌≤◌, String, Bool, true, false, not, ◌≡◌, ◌↔◌, refl, ◌&&◌, some, List, [], ◌∷◌, map, ◌==◌, arith,
  length, all, find, dedupe, is_some, bind_option, Option-cases, inl, inr, some_inj, ap, ◌∙◌, ◌⊎◌,
  ◌≢◌, sym, nat_eq, All,
}
use mathlib.Core.Path.{ap₂, subst}
use hubspot_salesforce_conne.Prelude.Dict.{insert}
use hubspot_salesforce_conne.Types.{CanonicalRecord, Criterion, NaturalKeyQuery, Fields}
use hubspot_salesforce_conne.Exec.{ok}
use hubspot_salesforce_conne.Host.{Host}
use hubspot_salesforce_conne.IdMap.{
  KeyFields, is_allowed_natural_key_field, configure_natural_key_fields, natural_key_fields,
  criterion, criteria_of, natural_key_query, key_text, query_of,
}

query_criteria :
    (cs : List Criterion) (q : NaturalKeyQuery)
    → query_of cs ≡ some q
    → (q.criteria ≡ cs) × (q.key ≡ key_text q.criteria)
unfolding query_of
query_criteria [] q h = absurd (ground (arith, h))
query_criteria (c ∷ cs) q h = (
  sym (ap (λ (r : NaturalKeyQuery). r.criteria) (some_inj h)),
  subst (λ (r : NaturalKeyQuery). r.key ≡ key_text r.criteria) (some_inj h) refl,
)

module _ (host : Host) where
  find-unsafe :
      (fields : List String)
      → is_some (find (λ field. not (is_allowed_natural_key_field host field)) fields)
        ≡ not (all (is_allowed_natural_key_field host) fields)
  find-unsafe [] = refl
  find-unsafe (field ∷ fields) = ground (arith, find-unsafe fields)

  -- A natural key is accepted exactly if it has one to three fields, each of them an allowed one;
  -- it is then in force, without repetitions, and otherwise the configuration is unchanged.
  pub configure_natural_key_fields_lem :
      (type : String) (fields : List String) (k : KeyFields)
      → (((configure_natural_key_fields host type fields k).0 ≡ ok tt) ↔ (
          (1 ≤ length fields)
          × (length fields ≤ 3)
          × (all (is_allowed_natural_key_field host) fields ≡ true)))
        × ((configure_natural_key_fields host type fields k
              ≡ (ok tt, insert type (dedupe fields) k))
            ⊎ (((configure_natural_key_fields host type fields k).0 ≢ ok tt)
                × ((configure_natural_key_fields host type fields k).1 ≡ k)))
  unfolding configure_natural_key_fields
  configure_natural_key_fields_lem type fields k = (
    (λ h. ground (arith, h, find-unsafe fields), λ h. ground (arith, h, find-unsafe fields)),
    ground (arith, find-unsafe fields),
  )

  is_some-criteria_of :
      (fields : Fields) (names : List String)
      → is_some (criteria_of host fields names)
        ≡ all (λ name. is_some (criterion host fields name)) names
  unfolding criteria_of
  is_some-criteria_of fields [] = refl
  is_some-criteria_of fields (name ∷ names) = ground (arith, is_some-criteria_of fields names)

  criteria-fields :
      (fields : Fields) (names : List String) (cs : List Criterion)
      → criteria_of host fields names ≡ some cs
      → map (λ (c : Criterion). c.field) cs ≡ names
  unfolding criteria_of criterion
  criteria-fields fields [] cs h = ap (map (λ (c : Criterion). c.field)) (sym (some_inj h))
  criteria-fields fields (name ∷ names) cs h = elim (Option-cases (criterion host fields name)) [
    | inl e ↦ absurd (ground (arith, h, e))
    | inr (c, e) ↦ elim (Option-cases (criteria_of host fields names)) [
      | inl f ↦ absurd (ground (arith, h, e, f))
      | inr (rest, f) ↦
          let parts : some (c ∷ rest) ≡ some cs = ground (arith, h, e, f) in
          let named : c.field ≡ name = ground (arith, e) in
          ap (map (λ (c : Criterion). c.field)) (sym (some_inj parts))
          ∙ ap₂ ◌∷◌ named (criteria-fields fields names rest f)
    ]
  ]

  -- whether the configured fields `names` give a key
  abbrev gives_key : Fields → List String → Bool
  gives_key fields names =
      not (nat_eq (length names) 0) && all (λ name. is_some (criterion host fields name)) names

  key_given :
      (fields : Fields) (names : List String)
      → is_some (bind_option (criteria_of host fields names) query_of) ≡ gives_key fields names
  unfolding criteria_of query_of
  key_given fields [] = ground arith
  key_given fields (name ∷ names) = ground (arith, is_some-criteria_of fields names)

  values_given :
      (fields : Fields) (names : List String) (cs : List Criterion)
      → criteria_of host fields names ≡ some cs
      → All (λ (c : Criterion). (c.value == "") ≡ false) cs
  unfolding criteria_of criterion
  values_given fields [] cs h = subst (All _) (some_inj h) tt
  values_given fields (name ∷ names) cs h = elim (Option-cases (criterion host fields name)) [
    | inl e ↦ absurd (ground (arith, h, e))
    | inr (c, e) ↦ elim (Option-cases (criteria_of host fields names)) [
      | inl f ↦ absurd (ground (arith, h, e, f))
      | inr (rest, f) ↦
          let parts : some (c ∷ rest) ≡ some cs = ground (arith, h, e, f) in
          subst (All (λ (c : Criterion). (c.value == "") ≡ false)) (some_inj parts)
            (ground (arith, e), values_given fields names rest f)
    ]
  ]

  -- The natural key of a record has one criterion for each configured field, in their order, none
  -- of them with an empty value, and its text lists the criteria.
  pub natural_key_query_lem :
      (k : KeyFields) (r : CanonicalRecord) (q : NaturalKeyQuery)
      → natural_key_query host k r ≡ some q
      → (map (λ (c : Criterion). c.field) q.criteria ≡ natural_key_fields r.type k)
        × All (λ (c : Criterion). (c.value == "") ≡ false) q.criteria
        × (q.key ≡ key_text q.criteria)
  unfolding natural_key_query
  natural_key_query_lem k r q h =
      elim (Option-cases (criteria_of host r.fields (natural_key_fields r.type k))) [
        | inl e ↦ absurd (ground (arith, h, e))
        | inr (cs, e) ↦
            let made : query_of cs ≡ some q = ground (arith, h, e) in
            let (same, listed) = query_criteria cs q made in
            (
              rw same (criteria-fields r.fields (natural_key_fields r.type k) cs e),
              rw same (values_given r.fields (natural_key_fields r.type k) cs e),
              listed,
            )
      ]

  -- A record has a natural key exactly if one is configured for its type and every field of it
  -- gives a criterion.
  pub is_some-natural_key_query :
      (k : KeyFields) (r : CanonicalRecord)
      → is_some (natural_key_query host k r) ≡ (
          not (nat_eq (length (natural_key_fields r.type k)) 0)
          && all (λ name. is_some (criterion host r.fields name)) (natural_key_fields r.type k))
  unfolding natural_key_query
  is_some-natural_key_query k r = key_given r.fields (natural_key_fields r.type k)
