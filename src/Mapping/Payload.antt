-- ===== src/Mapping/Payload.antt =====
-- src/core/mapping.ts: exactly which fields a translation reads and writes.
use hubspot_salesforce_conne.Prelude.{
  String, true, false, ◌≡◌, refl, ◌&&◌, ◌||◌, List, [], ◌∷◌, map, ◌==◌, eq_iff, arith, contains,
  any, Bool-cases, inl, inr,
}
use hubspot_salesforce_conne.Prelude.Dict.{keys, insert, contains-insert, Distinct}
use hubspot_salesforce_conne.Types.{SystemId, Fields}
use hubspot_salesforce_conne.Host.{Host}
use hubspot_salesforce_conne.Mapping.{
  FieldRule, Tables, Properties, field_rules, to_canonical_loop, to_canonical_fields, read_rule,
  write_rule, from_canonical_loop, from_canonical_fields, is_written, native_fields_loop,
  native_fields,
}

module _ (host : Host) (t : Tables) (system : SystemId) (type : String) where
  keys-from_loop :
      (k : String) (fields : Fields) (rules : List FieldRule) (out : Fields)
      → contains k (keys (from_canonical_loop host t system type fields rules out)) ≡ (
          contains k (keys out)
          || any (λ rule. is_written host t system type fields rule && rule.native == k) rules)
  unfolding from_canonical_loop
  keys-from_loop k fields [] out = ground arith
  keys-from_loop k fields (rule ∷ rules) out =
      elim (Bool-cases (is_written host t system type fields rule)) [
        | inl yes_written ↦ ground (
          arith,
          yes_written,
          keys-from_loop k fields rules
              (insert rule.native (write_rule host t system type fields rule) out),
          contains-insert rule.native k (write_rule host t system type fields rule) out,
        )
        | inr not_written ↦ ground (arith, not_written, keys-from_loop k fields rules out)
      ]

  -- A write payload names exactly the native fields of the rules that are not read-only, are not
  -- dotted and whose canonical field the record has: no other native field is ever written.
  pub keys-from_canonical_fields :
      (k : String) (fields : Fields)
      → contains k (keys (from_canonical_fields host t system type fields))
        ≡ any
            (λ rule. is_written host t system type fields rule && rule.native == k)
            (field_rules system type t)
  unfolding from_canonical_fields
  keys-from_canonical_fields k fields = keys-from_loop k fields (field_rules system type t) []

  keys-to_loop :
      (k : String) (native : Properties) (rules : List FieldRule) (out : Fields)
      → contains k (keys (to_canonical_loop host t system type native rules out))
        ≡ (contains k (keys out) || any (λ (rule : FieldRule). rule.canonical == k) rules)
  unfolding to_canonical_loop
  keys-to_loop k native [] out = ground arith
  keys-to_loop k native (rule ∷ rules) out = ground (
    arith,
    keys-to_loop k native rules
        (insert rule.canonical (read_rule host t system type native rule) out),
    contains-insert rule.canonical k (read_rule host t system type native rule) out,
  )

  -- A canonical record has exactly the canonical fields that the rules name, present in the native
  -- record or not.
  pub keys-to_canonical_fields :
      (k : String) (native : Properties)
      → contains k (keys (to_canonical_fields host t system type native))
        ≡ any (λ (rule : FieldRule). rule.canonical == k) (field_rules system type t)
  unfolding to_canonical_fields
  keys-to_canonical_fields k native = keys-to_loop k native (field_rules system type t) []

-- a query's names, with the case of letters forgotten
abbrev pub lowered : Host → List String → List String
lowered host names = map host.lower_case names

abbrev pub natives : List FieldRule → List String
natives rules = map (λ (rule : FieldRule). rule.native) rules

module _ (host : Host) where
  contains-native_fields_loop :
      (k : String) (seen : List String) (rules : List FieldRule)
      → (contains k seen || contains k (lowered host (native_fields_loop host seen rules)))
        ≡ (contains k seen || contains k (lowered host (natives rules)))
  unfolding native_fields_loop
  contains-native_fields_loop k seen [] = refl
  contains-native_fields_loop k seen (rule ∷ rules) = ground (
    arith,
    contains-native_fields_loop k seen rules,
    contains-native_fields_loop k (host.lower_case rule.native ∷ seen) rules,
    eq_iff (host.lower_case rule.native) k,
  )

  unseen-native_fields_loop :
      (k : String) (seen : List String) (rules : List FieldRule)
      → contains k seen ≡ true
      → contains k (lowered host (native_fields_loop host seen rules)) ≡ false
  unfolding native_fields_loop
  unseen-native_fields_loop k seen [] h = refl
  unseen-native_fields_loop k seen (rule ∷ rules) h = ground (
    arith,
    h,
    unseen-native_fields_loop k seen rules h,
    unseen-native_fields_loop k (host.lower_case rule.native ∷ seen) rules (ground (arith, h)),
    eq_iff (host.lower_case rule.native) k,
  )

  Distinct-native_fields_loop :
      (seen : List String) (rules : List FieldRule)
      → Distinct (lowered host (native_fields_loop host seen rules))
  unfolding native_fields_loop
  Distinct-native_fields_loop seen [] = tt
  Distinct-native_fields_loop seen (rule ∷ rules) =
      let name = host.lower_case rule.native in
      elim (Bool-cases (contains name seen)) [
        | inl there ↦ rw there (Distinct-native_fields_loop seen rules)
        | inr fresh ↦ rw fresh (
          unseen-native_fields_loop name (name ∷ seen) rules (ground (arith, eq_iff name name)),
          Distinct-native_fields_loop (name ∷ seen) rules,
        )
      ]

  -- The fields that a query selects are those of the rules, up to the case of letters, and none
  -- is selected twice, again up to case.
  pub native_fields_lem :
      (system : SystemId) (type : String) (t : Tables) (k : String)
      → (contains k (lowered host (native_fields host system type t))
          ≡ contains k (lowered host (natives (field_rules system type t))))
        × Distinct (lowered host (native_fields host system type t))
  unfolding native_fields
  native_fields_lem system type t k = (
    contains-native_fields_loop k [] (field_rules system type t),
    Distinct-native_fields_loop [] (field_rules system type t),
  )
