-- ===== src/Registry/Slug.antt =====
-- src/core/objectRegistry.ts: the loop for a free key.
use hubspot_salesforce_conne.Prelude.{
  ℕ, zero, suc, ◌+◌, ◌<◌, ◌≤◌, String, true, false, not, ◌≡◌, ◌≢◌, refl, inl, inr, Bool-cases, some,
  List, [], ◌∷◌, ◌==◌, eq_iff, arith, contains, keep, length, length-keep-le,
}
use hubspot_salesforce_conne.Prelude.Dict.{keys, is_some-lookup}
use Prim.Native.String
use text.Mathlib.TextLemmas.{append_cancel_left, append_cancel_right}
use hubspot_salesforce_conne.Registry.{
  Registry, numbered, next_free, base_of, slugify_canonical_object, is_registered_canonical_object,
}

without : String → List String → List String
without k ks = keep (λ j. not (j == k)) ks

contains-without :
    (k j : String) (ks : List String) → (j ≢ k) → contains j (without k ks) ≡ contains j ks
unfolding without
contains-without k j [] h = refl
contains-without k j (first ∷ ks) h =
    ground (arith, eq_iff first k, eq_iff first j, contains-without k j ks h)

length-without : (k : String) (ks : List String) → length (without k ks) ≤ length ks
unfolding without
length-without k ks = length-keep-le (λ j. not (j == k)) ks

without-shorter :
    (k : String) (ks : List String) → contains k ks ≡ true → length (without k ks) < length ks
unfolding without
without-shorter k [] h = absurd (ground (arith, h))
without-shorter k (first ∷ ks) h = ground (arith, h, length-without k ks, without-shorter k ks)

-- Of the names from one number on, one within the length of a list is not in it.
module _ (name : ℕ → String) (inj : (m n : ℕ) → name m ≡ name n → m ≡ n) where
  absent_among :
      (fuel : ℕ) (ks : List String) (start : ℕ)
      → length ks < fuel
      → (n : ℕ) × (start ≤ n) × (n < start + fuel) × (contains (name n) ks ≡ false)
  absent_among zero ks start h = absurd (ground (arith, h))
  absent_among (suc fuel) ks start h = elim (Bool-cases (contains (name start) ks)) [
    | inr free ↦ (start, omega arith, omega arith, free)
    | inl taken ↦
        let (n, from, to, free) =
          absent_among fuel (without (name start) ks) (start + 1)
            (ground (arith, h, without-shorter (name start) ks taken)) in
        (
          n,
          omega (arith, from),
          omega (arith, to),
          ground (
            arith,
            free,
            contains-without (name start) (name n) ks λ e. omega (arith, inj n start e, from),
          ),
        )
  ]

module _ (number : ℕ → String) (words : String → String)
    (number_inj : (m n : ℕ) → number m ≡ number n → m ≡ n) where
  numbered_inj :
      (base : String) (m n : ℕ)
      → numbered number words base m ≡ numbered number words base n
      → m ≡ n
  numbered_inj base m n h = number_inj m n (
      append_cancel_right (number m) (number n) "" (
        append_cancel_left "_" (String.◌++◌ (number m) "") (String.◌++◌ (number n) "")
          (append_cancel_left base _ _ h)))

  next_free-finds :
      (fuel : ℕ) (base : String) (start n : ℕ) (registry : Registry)
      → start ≤ n
      → n < start + fuel
      → is_registered_canonical_object (numbered number words base n) registry ≡ false
      → (key : String) × (next_free number words fuel base start registry ≡ some key)
        × (is_registered_canonical_object key registry ≡ false)
  unfolding next_free
  next_free-finds zero base start n registry from to free = absurd (omega (arith, from, to))
  next_free-finds (suc fuel) base start n registry from to free =
      elim (Bool-cases
        (is_registered_canonical_object (numbered number words base start) registry)) [
          | inr now ↦ (numbered number words base start, ground (arith, now), now)
          | inl taken ↦
              let (key, e, u) =
                next_free-finds fuel base (start + 1) n registry (ground (arith, from, free, taken))
                  (omega (arith, to)) free in
              (key, ground (arith, taken, e), u)
        ]

  -- Provided that different numbers have different texts, one more round than there are registered
  -- objects is enough for the loop, and the key it gives is not registered.
  pub slugify_canonical_object-is_registered_canonical_object :
      (label : String) (registry : Registry)
      → (key : String) × (slugify_canonical_object number words
            (suc (length (keys registry)))
            label
            registry
          ≡ some key)
        × (is_registered_canonical_object key registry ≡ false)
  unfolding slugify_canonical_object is_registered_canonical_object
  slugify_canonical_object-is_registered_canonical_object label registry =
      elim (Bool-cases (is_registered_canonical_object (base_of number words label) registry)) [
        | inr now ↦ (base_of number words label, ground (arith, now), now)
        | inl taken ↦
            let (n, from, to, free) =
              absent_among (numbered number words (base_of number words label))
                (numbered_inj (base_of number words label)) (suc (length (keys registry)))
                (keys registry) 2 (omega arith) in
            let (key, e, u) =
              next_free-finds (suc (length (keys registry))) (base_of number words label) 2 n
                registry from to
                (ground (
                  arith,
                  free,
                  is_some-lookup (numbered number words (base_of number words label) n) registry,
                )) in
            (key, ground (arith, taken, e), u)
      ]
