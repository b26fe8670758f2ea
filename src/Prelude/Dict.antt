-- ===== src/Prelude/Dict.antt =====
-- JavaScript's `Map` with text keys, and objects used as one: entries in insertion order, where
-- setting a present key keeps its place. (An object lists integer-like keys first; no key of
-- the program is one.)

use Prim.Native.String.{String}
use mathlib.Core.Path.{◌≡◌, refl, subst}
use mathlib.Core.Logic.{inl, inr}
use mathlib.Core.Bool.{true, false}
use mathlib.Core.Option.{Option, none, some}
use mathlib.Core.List.{List, [], ◌∷◌}
use native.Mathlib.Omega.{arith}
use text.Mathlib.Text.{◌==◌}
use text.Mathlib.TextEquality.{eq_iff}
use hubspot_salesforce_conne.Prelude.Tests.{if◌then◌else◌, is_some, map_option, Bool-cases}
use hubspot_salesforce_conne.Prelude.Lists.{contains, All}

abbrev pub Dict {ℓ} : Type ℓ → Type ℓ
Dict V = List (String × V)

module _ {ℓ} {V : Type ℓ} where
  -- `m.get(k)`
  unfoldable pub lookup : String → Dict V → Option V
  lookup k [] = none
  lookup k ((j, v) ∷ rest) = if j == k then some v else lookup k rest

  -- `m.set(k, v)`
  unfoldable pub insert : String → V → Dict V → Dict V
  insert k v [] = (k, v) ∷ []
  insert k v ((j, old) ∷ rest) = if j == k then (k, v) ∷ rest else (j, old) ∷ insert k v rest

  -- `m.delete(k)`
  unfoldable pub delete : String → Dict V → Dict V
  delete k [] = []
  delete k ((j, v) ∷ rest) = if j == k then delete k rest else (j, v) ∷ delete k rest

  -- `Object.keys(m)`, `[...m.values()]`
  abbrev pub keys : Dict V → List String
  keys [] = []
  keys ((j, v) ∷ rest) = j ∷ keys rest

  abbrev pub values : Dict V → List V
  values [] = []
  values ((j, v) ∷ rest) = v ∷ values rest

  pub lookup-insert :
      (k j : String) (v : V) (rest : Dict V)
      → lookup j (insert k v rest) ≡ (if k == j then some v else lookup j rest)
  unfolding lookup insert
  lookup-insert k j v [] = refl
  lookup-insert k j v ((first, old) ∷ rest) =
      ground (arith, eq_iff k j, eq_iff first k, eq_iff first j, lookup-insert k j v rest)

  pub lookup-delete :
      (k j : String) (rest : Dict V)
      → lookup j (delete k rest) ≡ (if k == j then none else lookup j rest)
  unfolding lookup delete
  lookup-delete k j [] = ground arith
  lookup-delete k j ((first, old) ∷ rest) =
      ground (arith, eq_iff k j, eq_iff first k, eq_iff first j, lookup-delete k j rest)

  pub is_some-lookup :
      (k : String) (rest : Dict V) → is_some (lookup k rest) ≡ contains k (keys rest)
  unfolding lookup
  is_some-lookup k [] = refl
  is_some-lookup k ((j, v) ∷ rest) = ground (arith, is_some-lookup k rest)

-- `for (const k of ks) o[k] = v`
module _ {ℓ} {V : Type ℓ} where
  unfoldable pub fill : List String → V → Dict V → Dict V
  fill [] v out = out
  fill (k ∷ ks) v out = fill ks v (insert k v out)

  pub lookup-fill :
      (v : V) (ks : List String) (j : String) (out : Dict V)
      → lookup j (fill ks v out) ≡ (if contains j ks then some v else lookup j out)
  unfolding fill
  lookup-fill v [] j out = refl
  lookup-fill v (k ∷ ks) j out =
      ground (arith, lookup-fill v ks j (insert k v out), lookup-insert k j v out)

-- a change of the object that a `Map` holds at a key; nothing where the key is absent
module _ {ℓ} {V : Type ℓ} where
  unfoldable pub adjust : String → (V → V) → Dict V → Dict V
  adjust k f [] = []
  adjust k f ((j, v) ∷ rest) = if j == k then (j, f v) ∷ rest else (j, v) ∷ adjust k f rest

  pub lookup-adjust :
      (k j : String) (f : V → V) (rest : Dict V)
      → lookup j (adjust k f rest)
        ≡ (if k == j then map_option f (lookup j rest) else lookup j rest)
  unfolding lookup adjust
  lookup-adjust k j f [] = ground arith
  lookup-adjust k j f ((first, old) ∷ rest) =
      ground (arith, eq_iff k j, eq_iff first k, eq_iff first j, lookup-adjust k j f rest)

  pub keys-adjust : (k : String) (f : V → V) (rest : Dict V) → keys (adjust k f rest) ≡ keys rest
  unfolding adjust
  keys-adjust k f [] = refl
  keys-adjust k f ((first, old) ∷ rest) = ground (arith, keys-adjust k f rest)

-- no key twice
abbrev pub Distinct : List String → Type 0
Distinct [] = Unit
Distinct (k ∷ ks) = (contains k ks ≡ false) × Distinct ks

module _ {ℓ} {V : Type ℓ} where
  pub contains-insert :
      (k j : String) (v : V) (rest : Dict V)
      → contains j (keys (insert k v rest)) ≡ (if k == j then true else contains j (keys rest))
  unfolding insert
  contains-insert k j v [] = ground arith
  contains-insert k j v ((first, old) ∷ rest) =
      ground (arith, eq_iff k j, eq_iff first k, eq_iff first j, contains-insert k j v rest)

  pub Distinct-insert :
      (k : String) (v : V) (rest : Dict V)
      → Distinct (keys rest)
      → Distinct (keys (insert k v rest))
  unfolding insert
  Distinct-insert k v [] h = (refl, tt)
  Distinct-insert k v ((first, old) ∷ rest) (n, h) = ground (
    arith,
    eq_iff k first,
    eq_iff first k,
    contains-insert k first v rest,
    Distinct-insert k v rest h,
  )

module _ {ℓ κ} {V : Type ℓ} (P : V → Type κ) where
  pub All-values :
      (rest : Dict V)
      → Distinct (keys rest)
      → ((k : String) (v : V) → lookup k rest ≡ some v → P v)
      → All P (values rest)
  unfolding lookup
  All-values [] d h = tt
  All-values ((k, v) ∷ rest) (n, d) h = (
    h k v (ground (arith, eq_iff k k)),
    All-values rest d λ j old found. h j old (ground (arith, eq_iff k j, is_some-lookup j rest)),
  )

  pub All-lookup :
      (rest : Dict V) (k : String) (v : V) → All P (values rest) → lookup k rest ≡ some v → P v
  unfolding lookup
  All-lookup [] k v h found = cc
  All-lookup ((j, old) ∷ rest) k v (p, h) found = elim (Bool-cases (j == k)) [
    | inl same ↦ subst P (ground arith) p
    | inr other ↦ All-lookup rest k v h (ground arith)
  ]

  pub All-insert :
      (k : String) (v : V) (rest : Dict V)
      → P v
      → All P (values rest)
      → All P (values (insert k v rest))
  unfolding insert
  All-insert k v [] p h = (p, tt)
  All-insert k v ((j, old) ∷ rest) p (q, h) = elim (Bool-cases (j == k)) [
    | inl same ↦ rw same (p, h)
    | inr other ↦ rw other (q, All-insert k v rest p h)
  ]

  pub All-adjust :
      (k : String) (f : V → V) (rest : Dict V)
      → ((v : V) → P v → P (f v))
      → All P (values rest)
      → All P (values (adjust k f rest))
  unfolding adjust
  All-adjust k f [] change h = tt
  All-adjust k f ((j, old) ∷ rest) change (p, h) = elim (Bool-cases (j == k)) [
    | inl same ↦ rw same (change old p, h)
    | inr other ↦ rw other (p, All-adjust k f rest change h)
  ]
