-- ===== src/Prelude/Sort.antt =====
-- `Array.prototype.sort`: stable, by a comparison that says whether its first argument may stay
-- in front of its second.
use Prim.Native.Nat.{suc}
use mathlib.Core.Path.{◌≡◌, refl}
use mathlib.Core.Bool.{Bool, true, false}
use mathlib.Core.List.{List, [], ◌∷◌}
use native.Mathlib.Omega.{arith}
use hubspot_salesforce_conne.Prelude.Tests.{if◌then◌else◌, Bool-cases}
use hubspot_salesforce_conne.Prelude.Lists.{length, All}
use mathlib.Core.Logic.{inl, inr}

module _ {ℓ} {A : Type ℓ} (le : A → A → Bool) where
  unfoldable pub insert_sorted : A → List A → List A
  insert_sorted x [] = x ∷ []
  insert_sorted x (y ∷ ys) = if le x y then x ∷ y ∷ ys else y ∷ insert_sorted x ys

  unfoldable pub sort_by : List A → List A
  unfolding insert_sorted
  sort_by [] = []
  sort_by (x ∷ xs) = insert_sorted x (sort_by xs)

  pub length-insert_sorted : (x : A) (xs : List A) → length (insert_sorted x xs) ≡ suc (length xs)
  unfolding insert_sorted
  length-insert_sorted x [] = refl
  length-insert_sorted x (y ∷ ys) = ground (arith, length-insert_sorted x ys)

  pub length-sort_by : (xs : List A) → length (sort_by xs) ≡ length xs
  unfolding sort_by
  length-sort_by [] = refl
  length-sort_by (x ∷ xs) = omega (arith, length-insert_sorted x (sort_by xs), length-sort_by xs)

  -- every element stands before those that it may stand before
  abbrev pub IsOrdered : List A → Type 0
  IsOrdered [] = Unit
  IsOrdered (x ∷ xs) = All (λ y. le x y ≡ true) xs × IsOrdered xs

module _ {ℓ κ} {A : Type ℓ} (le : A → A → Bool) (P : A → Type κ) where
  pub All-insert_sorted : (x : A) (xs : List A) → P x → All P xs → All P (insert_sorted le x xs)
  unfolding insert_sorted
  All-insert_sorted x [] p h = (p, tt)
  All-insert_sorted x (y ∷ ys) p (q, h) = elim (Bool-cases (le x y)) [
    | inl e ↦ rw e (p, (q, h))
    | inr e ↦ rw e (q, All-insert_sorted x ys p h)
  ]

  pub All-sort_by : (xs : List A) → All P xs → All P (sort_by le xs)
  unfolding sort_by
  All-sort_by [] h = tt
  All-sort_by (x ∷ xs) (p, h) = All-insert_sorted x (sort_by le xs) p (All-sort_by xs h)

  pub All-unsorted_insert : (x : A) (xs : List A) → All P (insert_sorted le x xs) → P x × All P xs
  unfolding insert_sorted
  All-unsorted_insert x [] h = h
  All-unsorted_insert x (y ∷ ys) h = elim (Bool-cases (le x y)) [
    | inl e ↦ rw (e, insert_sorted) at h
    | inr e ↦
        let (q, rest) =
          let g : P y × All P (insert_sorted le x ys) = rw (e, insert_sorted) at h in g in
        let (p, ps) = All-unsorted_insert x ys rest in (p, (q, ps))
  ]

  pub All-unsorted : (xs : List A) → All P (sort_by le xs) → All P xs
  unfolding sort_by
  All-unsorted [] h = tt
  All-unsorted (x ∷ xs) h =
      let (p, rest) = All-unsorted_insert x (sort_by le xs) h in (p, All-unsorted xs rest)

-- A total and transitive comparison sorts.
module _ {ℓ} {A : Type ℓ} (le : A → A → Bool) (total : (x y : A) → le x y ≡ false → le y x ≡ true)
    (trans : (x y z : A) → le x y ≡ true → le y z ≡ true → le x z ≡ true) where
  All-trans :
      (x y : A) (ys : List A)
      → le x y ≡ true
      → All (λ z. le y z ≡ true) ys
      → All (λ z. le x z ≡ true) ys
  All-trans x y [] h all = tt
  All-trans x y (z ∷ zs) h (p, all) = (trans x y z h p, All-trans x y zs h all)

  pub insert_sorted-IsOrdered :
      (x : A) (xs : List A) → IsOrdered le xs → IsOrdered le (insert_sorted le x xs)
  unfolding insert_sorted
  insert_sorted-IsOrdered x [] h = (tt, tt)
  insert_sorted-IsOrdered x (y ∷ ys) (p, h) = elim (Bool-cases (le x y)) [
    | inl e ↦ rw e ((e, All-trans x y ys e p), (p, h))
    | inr e ↦ rw e (
      All-insert_sorted le (λ z. le y z ≡ true) x ys (total x y e) p,
      insert_sorted-IsOrdered x ys h,
    )
  ]

  pub sort_by-IsOrdered : (xs : List A) → IsOrdered le (sort_by le xs)
  unfolding sort_by
  sort_by-IsOrdered [] = tt
  sort_by-IsOrdered (x ∷ xs) = insert_sorted-IsOrdered x (sort_by le xs) (sort_by-IsOrdered xs)
