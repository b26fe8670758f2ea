-- ===== src/Mock/Pages.antt =====
-- src/connectors/mock/mockConnector.ts: the pages of `list`, read one after another.
use hubspot_salesforce_conne.Prelude.{
  ℕ, zero, suc, ◌+◌, ◌*◌, ◌≤◌, ◌<◌, String, Bool, ◌≡◌, refl, sym, ap, ◌∙◌, Option, none, some, List,
  [], ◌∷◌, ◌++◌, map, take, drop, length, get_or, ltb, arith, map_option, Bool-cases, inl, inr,
}
use hubspot_salesforce_conne.Prelude.Time.{Timestamp}
use hubspot_salesforce_conne.Types.{SystemId, CanonicalRecord}
use hubspot_salesforce_conne.Host.{Host}
use hubspot_salesforce_conne.Mapping.{Native, Tables}
use hubspot_salesforce_conne.SyncConfig.{SyncCondition}
use hubspot_salesforce_conne.Mock.{State, NativeRecord, page_size, canonicalize, listed, list}

module _ {ℓ} {A : Type ℓ} where
  append-take : (n : ℕ) (xs : List A) → take n xs ++ drop n xs ≡ xs
  append-take zero xs = refl
  append-take (suc n) [] = refl
  append-take (suc n) (x ∷ xs) = ap (λ ys. x ∷ ys) (append-take n xs)

  drop_nothing : (n : ℕ) → drop {A = A} n [] ≡ []
  drop_nothing zero = refl
  drop_nothing (suc n) = refl

  drop-drop : (n m : ℕ) (xs : List A) → drop (m + n) xs ≡ drop n (drop m xs)
  drop-drop n zero xs = ap (λ k. drop k xs) (omega arith)
  drop-drop n (suc m) [] = drop_nothing (suc m + n) ∙ sym (drop_nothing n)
  drop-drop n (suc m) (x ∷ xs) =
      ap (λ k. drop k (x ∷ xs)) (let e : suc m + n ≡ suc (m + n) = omega arith in e)
      ∙ drop-drop n m xs

  map-append {κ} :
      {B : Type κ} (f : A → B) (xs ys : List A) → map f (xs ++ ys) ≡ map f xs ++ map f ys
  map-append f [] ys = refl
  map-append f (x ∷ xs) ys = ap (λ zs. f x ∷ zs) (map-append f xs ys)

  append_nothing : (xs : List A) → xs ++ [] ≡ xs
  append_nothing [] = refl
  append_nothing (x ∷ xs) = ap (λ ys. x ∷ ys) (append_nothing xs)

  drop-all : (n : ℕ) (xs : List A) → length xs ≤ n → drop n xs ≡ []
  drop-all zero [] h = refl
  drop-all zero (x ∷ xs) h = absurd (omega (arith, h))
  drop-all (suc n) [] h = refl
  drop-all (suc n) (x ∷ xs) h = drop-all n xs (omega (arith, h))

module _ (host : Host) (tables : Tables) (system : SystemId)
    (less : Option Native → Option Native → Bool) (type : String) (since : Option Timestamp)
    (conditions : Option (List SyncCondition)) (s : State) where
  turn :
      List CanonicalRecord
      → (ℕ → Option (List CanonicalRecord))
      → Option ℕ
      → Option (List CanonicalRecord)
  turn records continue none = some records
  turn records continue (some next) = map_option (λ rest. records ++ rest) (continue next)

  -- the records of a page and of those that follow it; `none` means that the fuel ran out
  unfoldable pub follow : (fuel : ℕ) → Option ℕ → Option (List CanonicalRecord)
  unfolding turn
  follow zero cursor = none
  follow (suc fuel) cursor =
      let page = list host tables system less type cursor since conditions s in
      turn page.records (λ next. follow fuel (some next)) page.next_cursor

  abbrev pub matching : List CanonicalRecord
  matching =
      map (canonicalize host tables system type)
        (listed host tables system less type since conditions s)

  follow-from :
      (fuel : ℕ) (cursor : Option ℕ)
      → length (listed host tables system less type since conditions s)
        < get_or cursor 0 + fuel * page_size
      → 0 < fuel
      → follow fuel cursor
        ≡ some (
            map
              (canonicalize host tables system type)
              (drop (get_or cursor 0) (listed host tables system less type since conditions s)))
  unfolding follow list turn
  follow-from zero cursor h k = absurd (omega (arith, k))
  follow-from (suc fuel) cursor h k =
      elim (Bool-cases (ltb (get_or cursor 0 + page_size) (length records))) [
        | inl more ↦ rw more (
            ap (map_option (λ rest. page ++ rest)) (
              follow-from fuel (some (get_or cursor 0 + page_size)) (ground (arith, h))
                (ground (arith, h, more)))
            ∙ ap some (
                sym (
                  map-append canonical (take page_size from_here)
                    (drop (get_or cursor 0 + page_size) records))
                ∙ ap (map canonical) (
                    ap (λ xs. take page_size from_here ++ xs)
                      (drop-drop page_size (get_or cursor 0) records)
                    ∙ append-take page_size from_here)))
        | inr last ↦ rw last (
            ap (λ xs. some (map canonical xs))
              (sym (append_nothing (take page_size from_here))
                ∙ ap (λ xs. take page_size from_here ++ xs)
                    (sym (drop-all (get_or cursor 0 + page_size) records (ground (arith, last)))
                      ∙ drop-drop page_size (get_or cursor 0) records)
                ∙ append-take page_size from_here))
      ]
    where
      records : List NativeRecord
      records = listed host tables system less type since conditions s

      canonical : NativeRecord → CanonicalRecord
      canonical = canonicalize host tables system type

      from_here : List NativeRecord
      from_here = drop (get_or cursor 0) records

      page : List CanonicalRecord
      page = map canonical (take page_size from_here)

  -- The pages that one reads from the start, following the cursors, hold every record of the type
  -- that the filters let through, once and in order, within as many rounds as there are full pages
  -- and one more.
  pub follow_lem :
      (fuel : ℕ)
      → length (listed host tables system less type since conditions s) < fuel * page_size
      → follow fuel none ≡ some matching
  follow_lem fuel h = follow-from fuel none (omega (arith, h)) (omega (arith, h))
