-- ===== src/Mapping/Rules.antt =====
-- src/core/mapping.ts: which rules can be configured, and what is stored of them.
use hubspot_salesforce_conne.Prelude.{
  String, Bool, true, false, ◌≡◌, ◌↔◌, refl, not, ◌&&◌, ◌||◌, none, List, [], ◌∷◌, map, ◌==◌,
  eq_iff, arith, if◌then◌else◌, contains, All, is_some,
}
use hubspot_salesforce_conne.Prelude.Dict.{lookup-insert, Distinct}
use hubspot_salesforce_conne.Types.{SystemId, salesforce, hubspot, system_eq}
use hubspot_salesforce_conne.Exec.{ok}
use hubspot_salesforce_conne.Host.{Host}
use hubspot_salesforce_conne.Mapping.{
  FieldRule, Tables, field_rules, check_rules, configure_field_rules,
}

abbrev pub canonicals : List FieldRule → List String
canonicals rules = map (λ (rule : FieldRule). rule.canonical) rules

-- neither name of the rule is blank
abbrev pub is_named : Host → FieldRule → Bool
is_named host rule = not (host.trim rule.canonical == "" || host.trim rule.native == "")

abbrev Unseen : List String → List FieldRule → Type 0
Unseen seen rules = All (λ (rule : FieldRule). contains rule.canonical seen ≡ false) rules

module _ (host : Host) where
  Unseen-cons :
      (k : String) (seen : List String) (rules : List FieldRule)
      → Unseen (k ∷ seen) rules
      → (contains k (canonicals rules) ≡ false) × Unseen seen rules
  Unseen-cons k seen [] h = (refl, tt)
  Unseen-cons k seen (rule ∷ rules) (p, h) =
      let (fresh, rest) = Unseen-cons k seen rules h in
      (
        ground (arith, p, fresh, eq_iff k rule.canonical, eq_iff rule.canonical k),
        (ground (arith, p), rest),
      )

  cons-Unseen :
      (k : String) (seen : List String) (rules : List FieldRule)
      → contains k (canonicals rules) ≡ false
      → Unseen seen rules
      → Unseen (k ∷ seen) rules
  cons-Unseen k seen [] fresh h = tt
  cons-Unseen k seen (rule ∷ rules) fresh (p, h) = (
    ground (arith, p, fresh, eq_iff k rule.canonical, eq_iff rule.canonical k),
    cons-Unseen k seen rules (ground (arith, fresh)) h,
  )

  passes :
      (seen : List String) (rules : List FieldRule)
      → check_rules host seen rules ≡ none
      → All (λ rule. is_named host rule ≡ true) rules
        × Unseen seen rules
        × Distinct (canonicals rules)
  unfolding check_rules
  passes seen [] h = (tt, tt, tt)
  passes seen (rule ∷ rules) h =
      let (named, others, distinct) = passes (rule.canonical ∷ seen) rules (ground (arith, h)) in
      let (fresh, rest) = Unseen-cons rule.canonical seen rules others in
      ((ground (arith, h), named), (ground (arith, h), rest), (fresh, distinct))

  passed :
      (seen : List String) (rules : List FieldRule)
      → All (λ rule. is_named host rule ≡ true) rules
      → Unseen seen rules
      → Distinct (canonicals rules)
      → check_rules host seen rules ≡ none
  unfolding check_rules
  passed seen [] named h d = refl
  passed seen (rule ∷ rules) (n, named) (p, h) (fresh, d) = ground (
    arith,
    n,
    p,
    passed (rule.canonical ∷ seen) rules named (cons-Unseen rule.canonical seen rules fresh h) d,
  )

  all-Unseen : (rules : List FieldRule) → Unseen [] rules
  all-Unseen [] = tt
  all-Unseen (rule ∷ rules) = (refl, all-Unseen rules)

  -- Rules are accepted exactly if no name in them is blank and no canonical field has two rules.
  pub configure_field_rules_lem :
      (system : SystemId) (type : String) (rules : List FieldRule) (t : Tables)
      → ((configure_field_rules host system type rules t).0 ≡ ok tt)
        ↔ (All (λ rule. is_named host rule ≡ true) rules × Distinct (canonicals rules))
  unfolding configure_field_rules
  configure_field_rules_lem system type rules t = (
    λ h. let (named, others, distinct) = passes [] rules (ground (arith, h)) in (named, distinct),
    λ h. ground (arith, passed [] rules h.0 (all-Unseen rules) h.1),
  )

  -- After an attempt to configure the rules of one object on one system, these are the rules in
  -- force there if the attempt was accepted; otherwise, and for every other object and the other
  -- system, the rules are those from before.
  pub field_rules-configure_field_rules :
      (system : SystemId) (type : String) (rules : List FieldRule) (t : Tables) (asked : SystemId)
      (kind : String)
      → field_rules asked kind (configure_field_rules host system type rules t).1 ≡ (
          if not (is_some (check_rules host [] rules)) && system_eq system asked && type == kind
          then rules
          else field_rules asked kind t)
  unfolding field_rules configure_field_rules
  field_rules-configure_field_rules salesforce type rules t salesforce kind =
      ground (arith, lookup-insert type kind rules t.rules.sf)
  field_rules-configure_field_rules salesforce type rules t hubspot kind = ground arith
  field_rules-configure_field_rules hubspot type rules t salesforce kind = ground arith
  field_rules-configure_field_rules hubspot type rules t hubspot kind =
      ground (arith, lookup-insert type kind rules t.rules.hs)
