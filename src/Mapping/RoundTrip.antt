-- ===== src/Mapping/RoundTrip.antt =====
-- src/core/mapping.ts: what the fields of a translation hold, and that a plain field survives the
-- way to the canonical model and back.

use hubspot_salesforce_conne.Prelude.{
  String, Bool, true, false, ◌≡◌, refl, ◌∙◌, ◌&&◌, not, Option, none, some, List, [], ◌∷◌, eq_iff,
  arith, if◌then◌else◌, contains, All, Bool-cases, inl, inr, is_some,
}
use hubspot_salesforce_conne.Prelude.Dict.{lookup, insert, lookup-insert, Distinct}
use hubspot_salesforce_conne.Prelude.Text.{includes}
use hubspot_salesforce_conne.Types.{SystemId, FieldValue, Fields}
use hubspot_salesforce_conne.Host.{Host}
use hubspot_salesforce_conne.Mapping.{
  FieldRule, Tables, field_rules, write_rule, from_canonical_loop, from_canonical_fields,
  is_written,
}
use hubspot_salesforce_conne.Mapping.Payload.{natives}

-- what a payload holds for a rule
abbrev pub written_value :
    Host → Tables → SystemId → String → Fields → FieldRule → Option FieldValue
written_value host t system type fields rule =
    if is_written host t system type fields rule
    then some (write_rule host t system type fields rule)
    else none

module _ (host : Host) (t : Tables) (system : SystemId) (type : String) where
  untouched_write :
      (k : String) (fields : Fields) (rules : List FieldRule) (out : Fields)
      → contains k (natives rules) ≡ false
      → lookup k (from_canonical_loop host t system type fields rules out) ≡ lookup k out
  unfolding from_canonical_loop
  untouched_write k fields [] out h = refl
  untouched_write k fields (rule ∷ rules) out h =
      elim (Bool-cases (is_written host t system type fields rule)) [
        | inl does ↦ ground (
          arith,
          h,
          does,
          untouched_write k fields rules
              (insert rule.native (write_rule host t system type fields rule) out)
              (ground (arith, h)),
          lookup-insert rule.native k (write_rule host t system type fields rule) out,
        )
        | inr skips ↦
            ground (arith, h, skips, untouched_write k fields rules out (ground (arith, h)))
      ]

  absent-next :
      (b : Bool) (k : String) (v : FieldValue) (rules : List FieldRule) (out : Fields)
      → contains k (natives rules) ≡ false
      → All (λ rule. lookup rule.native out ≡ none) rules
      → All (λ rule. lookup rule.native (if b then insert k v out else out) ≡ none) rules
  absent-next false k v rules out h a = a
  absent-next true k v [] out h a = tt
  absent-next true k v (rule ∷ rules) out h (p, a) = (
    ground (
      arith,
      h,
      p,
      lookup-insert k rule.native v out,
      eq_iff k rule.native,
      eq_iff rule.native k,
    ),
    absent-next true k v rules out (ground (arith, h)) a,
  )

  All-written :
      (fields : Fields) (rules : List FieldRule) (out : Fields)
      → Distinct (natives rules)
      → All (λ rule. lookup rule.native out ≡ none) rules
      → All
          (λ rule.
            lookup rule.native (from_canonical_loop host t system type fields rules out)
            ≡ written_value host t system type fields rule)
          rules
  unfolding from_canonical_loop
  All-written fields [] out d a = tt
  All-written fields (rule ∷ rules) out (fresh, d) (p, a) =
      let v = write_rule host t system type fields rule in
      let b = is_written host t system type fields rule in
      (
        untouched_write rule.native fields rules (if b then insert rule.native v out else out) fresh
            ∙ ground (
              arith,
              p,
              Bool-cases b,
              lookup-insert rule.native rule.native v out,
              eq_iff rule.native rule.native,
            ),
        All-written fields rules (if b then insert rule.native v out else out) d
            (absent-next b rule.native v rules out fresh a),
      )

All-absent :
    (rules : List FieldRule)
    → All (λ (rule : FieldRule). lookup {V = FieldValue} rule.native [] ≡ none) rules
unfolding lookup
All-absent [] = tt
All-absent (rule ∷ rules) = (refl, All-absent rules)

-- a rule that carries its value over as it is, in both directions
abbrev pub is_plain : FieldRule → Bool
is_plain rule =
    not rule.read_only
    && not (includes rule.native ".")
    && not (is_some rule.to_canonical)
    && not (is_some rule.from_canonical)

-- Where each canonical and each native field has one rule, the native payload made from a
-- canonical record holds for every rule its transformed value, and nothing for the rules that are
-- not written.
pub from_canonical_fields_lem :
    (host : Host) (t : Tables) (system : SystemId) (type : String) (fields : Fields)
    → Distinct (natives (field_rules system type t))
    → All
        (λ rule.
          lookup rule.native (from_canonical_fields host t system type fields)
          ≡ written_value host t system type fields rule)
        (field_rules system type t)
unfolding from_canonical_fields
from_canonical_fields_lem host t system type fields d =
    All-written host t system type fields (field_rules system type t) [] d
      (All-absent (field_rules system type t))
