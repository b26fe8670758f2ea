-- ===== src/Registry/Examples.antt =====
-- src/core/objectRegistry.ts: a registry with two keys of one family, and the theorem at it.
use hubspot_salesforce_conne.Prelude.{
  ℕ, zero, suc, String, Bool, true, false, ◌≡◌, refl, ap, none, some, [], ◌∷◌, length, arith,
}
use hubspot_salesforce_conne.Prelude.Dict.{keys, lookup, insert}
use hubspot_salesforce_conne.Registry.{
  ObjectRegistration, Registry, configure_object_mappings, slugify_canonical_object,
  is_registered_canonical_object, register_all, register_object_mapping, base_of, next_free,
}
use hubspot_salesforce_conne.Registry.Slug.{slugify_canonical_object-is_registered_canonical_object}

-- numbers in unary
tally : ℕ → String
tally zero = ""
tally (suc n) = String.◌∷◌ "i" (tally n)

is_empty_text : String → Bool
is_empty_text String.[] = true
is_empty_text (String.◌∷◌ c s) = false

tally_inj : (m n : ℕ) → tally m ≡ tally n → m ≡ n
unfolding tally is_empty_text
tally_inj zero zero h = refl
tally_inj zero (suc n) h = absurd (let e : true ≡ false = ap is_empty_text h in cc)
tally_inj (suc m) zero h = absurd (let e : false ≡ true = ap is_empty_text h in cc)
tally_inj (suc m) (suc n) h = ap suc (tally_inj m n (ground (arith, h)))

abbrev entry : String → ObjectRegistration
entry key = record {
  canonical_object = key;
  label = "Ticket";
  salesforce_object = some "Case";
  hubspot_object = none;
}

abbrev registry : Registry
unfolding configure_object_mappings register_all register_object_mapping insert
registry = configure_object_mappings (entry "ticket" ∷ entry "ticket_ii" ∷ []) []

abbrev words : String → String
words label = "ticket"

slug_three : slugify_canonical_object tally words 3 "Ticket!" registry ≡ some "ticket_iii"
unfolding slugify_canonical_object is_registered_canonical_object lookup base_of next_free tally
    registry
slug_three = refl

slugify_canonical_object-is_registered_canonical_object_example :
    (key : String) × (slugify_canonical_object tally words
        (suc (length (keys registry)))
        "Ticket!"
        registry
      ≡ some key)
    × (is_registered_canonical_object key registry ≡ false)
slugify_canonical_object-is_registered_canonical_object_example =
    slugify_canonical_object-is_registered_canonical_object tally words tally_inj "Ticket!" registry
