-- ===== src/Mapping/Transform.antt =====
-- src/core/mapping.ts: the transforms of single values.
use hubspot_salesforce_conne.Prelude.{
  String, Bool, true, false, not, ◌||◌, Option, none, some, [], ◌∷◌, ◌==◌, if◌then◌else◌, get_or,
  concat, contains, ◌≡◌,
}
use hubspot_salesforce_conne.Prelude.Text.{includes}
use hubspot_salesforce_conne.Types.{FieldValue, str, num, bool, null}
use hubspot_salesforce_conne.Host.{Host}

pub data TransformId : Type 0 where
  identity domain lowercase trim number boolean yes_no true_false iso_date epoch_millis phone :
      TransformId

-- the host name without `www.`, or the text itself if there is none; both in lower case
domain_of : Host → String → Option String → String
domain_of host v none = host.lower_case v
domain_of host v (some name) = host.lower_case (host.strip_www name)

unfoldable pub to_domain : Host → FieldValue → FieldValue
unfolding domain_of
to_domain host (str v) =
    if v == ""
    then str v
    else str (
        domain_of host v
          (host.hostname (if includes v "://" then v else concat ("http://" ∷ v ∷ []))))
to_domain host value = value

-- `Number(value)`, dropped where it is not finite
to_number : Host → FieldValue → FieldValue
to_number host null = null
to_number host (str v) =
    if v == "" then null else elim (host.number (str v)) [ none ↦ null | some n ↦ num n ]
to_number host value = elim (host.number value) [ none ↦ null | some n ↦ num n ]

-- `['true', '1', 'yes'].includes(v.toLowerCase())`
abbrev is_yes : Host → String → Bool
is_yes host v = contains (host.lower_case v) ("true" ∷ "1" ∷ "yes" ∷ [])

to_boolean : Host → FieldValue → FieldValue
to_boolean host (bool b) = bool b
to_boolean host null = null
to_boolean host (str v) = bool (is_yes host v)
to_boolean host (num n) = bool (not (n == "0" || n == "NaN"))

yes_or_no : Host → FieldValue → FieldValue
yes_or_no host (bool b) = str (if b then "yes" else "no")
yes_or_no host (str v) = bool (is_yes host v)
yes_or_no host value = value

true_or_false : Host → FieldValue → FieldValue
true_or_false host (bool b) = str (if b then "true" else "false")
true_or_false host (str v) = bool (host.lower_case v == "true")
true_or_false host value = value

to_iso_date : Host → FieldValue → FieldValue
to_iso_date host (str v) = str (get_or (host.iso_date (str v)) v)
to_iso_date host (num n) = elim (host.iso_date (num n)) [ none ↦ num n | some text ↦ str text ]
to_iso_date host value = value

to_epoch_millis : Host → FieldValue → FieldValue
to_epoch_millis host (num n) = elim (host.iso_date (num n)) [ none ↦ num n | some text ↦ str text ]
to_epoch_millis host (str v) = elim (host.epoch_millis (str v)) [
  | none ↦ str v
  | some millis ↦ num millis
]
to_epoch_millis host value = value

-- a change of texts alone
on_text : (String → String) → FieldValue → FieldValue
on_text f (str v) = str (f v)
on_text f value = value

transform_by : Host → TransformId → FieldValue → FieldValue
unfolding to_domain to_number to_boolean yes_or_no true_or_false to_iso_date to_epoch_millis on_text
transform_by host identity value = value
transform_by host domain value = to_domain host value
transform_by host lowercase value = on_text (λ v. host.lower_case (host.trim v)) value
transform_by host trim value = on_text host.trim value
transform_by host number value = to_number host value
transform_by host boolean value = to_boolean host value
transform_by host yes_no value = yes_or_no host value
transform_by host true_false value = true_or_false host value
transform_by host iso_date value = to_iso_date host value
transform_by host epoch_millis value = to_epoch_millis host value
transform_by host phone value = on_text (λ v. host.dial_characters (host.trim v)) value

unfoldable pub transform : Host → Option TransformId → FieldValue → FieldValue
unfolding transform_by
transform host none value = value
transform host (some id) value = transform_by host id value

-- A boolean survives the way out and back through the two enumerations, whichever of the two
-- spellings of a truth value a system uses.
pub transform-transform :
    (host : Host) (b : Bool)
    → host.lower_case "yes" ≡ "yes"
    → host.lower_case "no" ≡ "no"
    → host.lower_case "true" ≡ "true"
    → host.lower_case "false" ≡ "false"
    → (transform host (some yes_no) (transform host (some yes_no) (bool b)) ≡ bool b)
      × (transform host (some true_false) (transform host (some true_false) (bool b)) ≡ bool b)
      × (transform host (some boolean) (transform host (some yes_no) (bool b)) ≡ bool b)
      × (transform host (some boolean) (transform host (some true_false) (bool b)) ≡ bool b)
unfolding transform
transform-transform host true e1 e2 e3 e4 = (rw e1, rw e3, rw e1, rw e3)
transform-transform host false e1 e2 e3 e4 = (rw e2, rw e4, rw e2, rw e4)
