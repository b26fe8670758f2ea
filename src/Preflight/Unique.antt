-- ===== src/Preflight/Unique.antt =====
-- src/engine/preflight.ts: what the profile of sampled keys says of them.
use hubspot_salesforce_conne.Prelude.{
  ℕ, suc, ◌+◌, ◌≤◌, String, ◌≡◌, ◌↔◌, refl, Option, none, some, List, [], ◌∷◌, ◌==◌, eq_iff, arith,
  if◌then◌else◌, count_if, ltb, get_or, All, Option-cases, inl, inr,
}
use hubspot_salesforce_conne.Prelude.Dict.{
  Dict, lookup, insert, values, keys, lookup-insert, Distinct, Distinct-insert, All-values,
  All-lookup,
}
use hubspot_salesforce_conne.Types.{CanonicalRecord}
use hubspot_salesforce_conne.Host.{Host}
use hubspot_salesforce_conne.IdMap.{KeyFields}
use hubspot_salesforce_conne.Preflight.Run.{count_keys, keys_of, key_profile}

-- how many of the keys are this one
abbrev pub occurrences : String → List (Option String) → ℕ
occurrences key [] = 0
occurrences key (none ∷ keys) = occurrences key keys
occurrences key (some k ∷ keys) =
    if k == key then suc (occurrences key keys) else occurrences key keys

count_keys_lem :
    (ks : List (Option String)) (counts : Dict ℕ) (missing : ℕ) (key : String)
    → get_or (lookup key (count_keys ks counts missing).0) 0
      ≡ get_or (lookup key counts) 0 + occurrences key ks
unfolding count_keys
count_keys_lem [] counts missing key = omega arith
count_keys_lem (none ∷ ks) counts missing key = count_keys_lem ks counts (missing + 1) key
count_keys_lem (some k ∷ ks) counts missing key = ground (
  arith,
  eq_iff k key,
  count_keys_lem ks (insert k (get_or (lookup k counts) 0 + 1) counts) missing key,
  lookup-insert k key (get_or (lookup k counts) 0 + 1) counts,
)

count_keys-Distinct :
    (ks : List (Option String)) (counts : Dict ℕ) (missing : ℕ)
    → Distinct (keys counts)
    → Distinct (keys (count_keys ks counts missing).0)
unfolding count_keys
count_keys-Distinct [] counts missing h = h
count_keys-Distinct (none ∷ ks) counts missing h = count_keys-Distinct ks counts (missing + 1) h
count_keys-Distinct (some k ∷ ks) counts missing h =
    count_keys-Distinct ks (insert k (get_or (lookup k counts) 0 + 1) counts) missing
      (Distinct-insert k (get_or (lookup k counts) 0 + 1) counts h)

none_above : (ns : List ℕ) → count_if (ltb 1) ns ≡ 0 → All (λ n. n ≤ 1) ns
none_above [] h = tt
none_above (n ∷ ns) h = (ground (arith, h), none_above ns (ground (arith, h)))

above_none : (ns : List ℕ) → All (λ n. n ≤ 1) ns → count_if (ltb 1) ns ≡ 0
above_none [] h = refl
above_none (n ∷ ns) (p, h) = ground (arith, p, above_none ns h)

module _ (host : Host) (k : KeyFields) (records : List CanonicalRecord) where
  -- The profile of some records shows no duplicates exactly if no key is that of two of them.
  pub key_profile_lem :
      ((key_profile host k records).duplicates ≡ 0)
      ↔ ((key : String) → occurrences key (keys_of host k records) ≤ 1)
  unfolding key_profile lookup
  key_profile_lem = (forth, back)
    where
      counts : Dict ℕ
      counts = (count_keys (keys_of host k records) [] 0).0

      forth :
          count_if (ltb 1) (values counts) ≡ 0
          → (key : String) → occurrences key (keys_of host k records) ≤ 1
      forth h key = elim (Option-cases (lookup key counts)) [
        | inl absent ↦ ground (arith, absent, count_keys_lem (keys_of host k records) [] 0 key)
        | inr (n, found) ↦ ground (
          arith,
          found,
          count_keys_lem (keys_of host k records) [] 0 key,
          All-lookup (λ n. n ≤ 1) counts key n (none_above (values counts) h) found,
        )
      ]

      back :
          ((key : String) → occurrences key (keys_of host k records) ≤ 1)
          → count_if (ltb 1) (values counts) ≡ 0
      back h = above_none (values counts) (
          All-values (λ n. n ≤ 1) counts (count_keys-Distinct (keys_of host k records) [] 0 tt)
            λ key n found.
              ground (arith, found, h key, count_keys_lem (keys_of host k records) [] 0 key))
