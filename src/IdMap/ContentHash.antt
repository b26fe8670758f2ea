-- ===== src/IdMap/ContentHash.antt =====
-- src/core/idMap.ts: the content hash sees what the fields are, and not how they are listed.
use hubspot_salesforce_conne.Prelude.{
  String, true, false, ◌≡◌, refl, ap, ◌∙◌, ◌||◌, List, [], ◌∷◌, map, ◌==◌, eq_iff, arith, contains,
  All, join, Bool-cases, inl, inr,
}
use mathlib.Core.Path.{ap₂, subst}
use hubspot_salesforce_conne.Prelude.Dict.{
  lookup, insert, keys, lookup-insert, is_some-lookup, Distinct,
}
use hubspot_salesforce_conne.Prelude.Sort.{insert_sorted, sort_by, IsOrdered, sort_by-IsOrdered}
use hubspot_salesforce_conne.Prelude.Text.{text_le, text_le_total, text_le_trans, text_le_antisym}
use hubspot_salesforce_conne.Types.{FieldValue, Fields, str, null}
use hubspot_salesforce_conne.IdMap.{normalized, content_hash, entry_text}

contains-insert_sorted :
    (k x : String) (xs : List String)
    → contains k (insert_sorted text_le x xs) ≡ (x == k || contains k xs)
unfolding insert_sorted
contains-insert_sorted k x [] = refl
contains-insert_sorted k x (y ∷ ys) = ground (arith, contains-insert_sorted k x ys)

pub contains-sort_by :
    (k : String) (xs : List String) → contains k (sort_by text_le xs) ≡ contains k xs
unfolding sort_by
contains-sort_by k [] = refl
contains-sort_by k (x ∷ xs) =
    ground (arith, contains-insert_sorted k x (sort_by text_le xs), contains-sort_by k xs)

Distinct-insert_sorted :
    (x : String) (xs : List String)
    → contains x xs ≡ false
    → Distinct xs
    → Distinct (insert_sorted text_le x xs)
unfolding insert_sorted
Distinct-insert_sorted x [] fresh d = (refl, tt)
Distinct-insert_sorted x (y ∷ ys) fresh (n, d) = elim (Bool-cases (text_le x y)) [
  | inl first ↦ rw first (fresh, (n, d))
  | inr after ↦ rw after (
    ground (arith, fresh, n, contains-insert_sorted y x ys, eq_iff x y, eq_iff y x),
    Distinct-insert_sorted x ys (ground (arith, fresh)) d,
  )
]

Distinct-sort_by : (xs : List String) → Distinct xs → Distinct (sort_by text_le xs)
unfolding sort_by
Distinct-sort_by [] d = tt
Distinct-sort_by (x ∷ xs) (fresh, d) =
    Distinct-insert_sorted x (sort_by text_le xs) (contains-sort_by x xs ∙ fresh)
      (Distinct-sort_by xs d)

All-contains {κ} :
    (P : String → Type κ) (k : String) (xs : List String) → All P xs → contains k xs ≡ true → P k
All-contains P k [] h there = absurd (ground (arith, there))
All-contains P k (x ∷ xs) (p, h) there = elim (Bool-cases (x == k)) [
  | inl same ↦ subst P ((eq_iff x k).0 same) p
  | inr other ↦ All-contains P k xs h (ground (arith, there, other))
]

-- Two lists in order, without repetitions and with the same texts are equal.
ordered_unique :
    (xs ys : List String)
    → IsOrdered text_le xs
    → IsOrdered text_le ys
    → Distinct xs
    → Distinct ys
    → ((k : String) → contains k xs ≡ contains k ys)
    → xs ≡ ys
ordered_unique [] [] o p d e same = refl
ordered_unique [] (y ∷ ys) o p d e same = absurd (ground (arith, same y, eq_iff y y))
ordered_unique (x ∷ xs) [] o p d e same = absurd (ground (arith, same x, eq_iff x x))
ordered_unique (x ∷ xs) (y ∷ ys) (l, o) (m, p) (n, d) (f, e) same =
    let head : x ≡ y = elim (Bool-cases (x == y)) [
      | inl yes_same ↦ (eq_iff x y).0 yes_same
      | inr differ ↦
          text_le_antisym x y
            (All-contains (λ k. text_le x k ≡ true) y xs l
              (ground (arith, differ, same y, eq_iff y y)))
            (All-contains (λ k. text_le y k ≡ true) x ys m
              (ground (arith, differ, same x, eq_iff x x, eq_iff x y, eq_iff y x)))
    ] in
    ap₂ ◌∷◌ head (
      ordered_unique xs ys o p d e
        (λ k. ground (arith, same k, head, n, f, eq_iff x k, eq_iff y k)))

map-cong :
    (f g : String → String) (xs : List String) → ((k : String) → f k ≡ g k) → map f xs ≡ map g xs
map-cong f g [] h = refl
map-cong f g (x ∷ xs) h = ap₂ ◌∷◌ (h x) (map-cong f g xs h)

sorted_keys :
    (a b : Fields)
    → Distinct (keys a)
    → Distinct (keys b)
    → ((k : String) → lookup k a ≡ lookup k b)
    → sort_by text_le (keys a) ≡ sort_by text_le (keys b)
sorted_keys a b d e same =
    ordered_unique (sort_by text_le (keys a)) (sort_by text_le (keys b))
      (sort_by-IsOrdered text_le text_le_total text_le_trans (keys a))
      (sort_by-IsOrdered text_le text_le_total text_le_trans (keys b)) (Distinct-sort_by (keys a) d)
      (Distinct-sort_by (keys b) e)
      λ k. ground (
        arith,
        contains-sort_by k (keys a),
        contains-sort_by k (keys b),
        is_some-lookup k a,
        is_some-lookup k b,
        same k,
      )

-- The content hash does not depend on the order of the fields: two objects with the same value
-- under each key have the same hash.
pub content_hash-order :
    (hash : String → String) (a b : Fields)
    → Distinct (keys a)
    → Distinct (keys b)
    → ((k : String) → lookup k a ≡ lookup k b)
    → content_hash hash a ≡ content_hash hash b
unfolding content_hash normalized
content_hash-order hash a b d e same =
    ap (λ parts. hash (join "|" parts))
      (ap (map (entry_text a)) (sorted_keys a b d e same)
        ∙ map-cong (entry_text a) (entry_text b) (sort_by text_le (keys b)) (λ k. rw (same k)))

keys-insert :
    (k : String) (v w : FieldValue) (a : Fields) → keys (insert k v a) ≡ keys (insert k w a)
unfolding insert
keys-insert k v w [] = refl
keys-insert k v w ((j, u) ∷ a) = ground (arith, keys-insert k v w a)

-- The content hash does not tell a field that is null from one that is the empty text.
pub content_hash-null :
    (hash : String → String) (k : String) (a : Fields)
    → content_hash hash (insert k null a) ≡ content_hash hash (insert k (str "") a)
unfolding content_hash normalized
content_hash-null hash k a =
    ap (λ parts. hash (join "|" parts))
      (ap (λ ks. map (entry_text (insert k null a)) (sort_by text_le ks))
          (keys-insert k null (str "") a)
        ∙ map-cong (entry_text (insert k null a)) (entry_text (insert k (str "") a))
            (sort_by text_le (keys (insert k (str "") a)))
            (λ j. ground (arith, lookup-insert k j null a, lookup-insert k j (str "") a)))
