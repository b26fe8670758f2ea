-- ===== src/Exec.antt =====
-- Asynchronous methods that change state and may throw. The state comes back beside the error
-- too: what was done before a throw stays done.

use hubspot_salesforce_conne.Prelude.{◌≡◌, refl, arith, Option, none, some, ◌⊎◌, inl, inr}
use hubspot_salesforce_conne.Failure.{Failure}

pub data Result {ℓ} (A : Type ℓ) : Type ℓ where
  ok : A → Result A
  err : Failure → Result A

abbrev pub Exec : Type 0 → Type 0 → Type 0
Exec S A = S → Result A × S

module _ {S A : Type 0} where
  abbrev pub pure : A → Exec S A
  pure a s = (ok a, s)

  abbrev pub throw : Failure → Exec S A
  throw e s = (err e, s)

  abbrev pub gets : (S → A) → Exec S A
  gets f s = (ok (f s), s)

module _ {S : Type 0} where
  abbrev pub modify : (S → S) → Exec S (Unit {0})
  modify f s = (ok tt, f s)

module _ {S A B : Type 0} where
  abbrev pub and_then : Result A → (A → Exec S B) → Exec S B
  and_then (err failure) next s = (err failure, s)
  and_then (ok value) next s = next value s

  infixl 10 ◌>>=◌ ◌>>◌
  abbrev pub ◌>>=◌ : Exec S A → (A → Exec S B) → Exec S B
  ◌>>=◌ first next s = let (outcome, rest) = first s in and_then outcome next rest

  abbrev pub ◌>>◌ : Exec S A → Exec S B → Exec S B
  first >> second = first >>= λ _. second

module _ {S A B : Type 0} where
  -- what a sequence that succeeds has done
  pub bind_ok :
      (m : Exec S A) (f : A → Exec S B) (s s' : S) (b : B)
      → (m >>= f) s ≡ (ok b, s')
      → (a : A) × (t : S) × (m s ≡ (ok a, t)) × (f a t ≡ (ok b, s'))
  bind_ok m f s s' b h = from (m s) refl h
    where
      from :
          (r : Result A × S)
          → m s ≡ r
          → and_then r.0 f r.1 ≡ (ok b, s')
          → (a : A) × (t : S) × (m s ≡ (ok a, t)) × (f a t ≡ (ok b, s'))
      from (ok a, t) e h = (a, t, e, h)
      from (err e', t) e h = absurd (ground (arith, h))

module _ {S A B : Type 0} (P : S → Type 0) where
  -- what every part of a sequence keeps, the sequence keeps, whether it succeeds or throws
  pub bind_keeps :
      (m : Exec S A) (f : A → Exec S B) (s : S)
      → P (m s).1
      → ((a : A) (t : S) → P t → P (f a t).1)
      → P ((m >>= f) s).1
  bind_keeps m f s h k = from (m s).0 (m s).1 h
    where
      from : (r : Result A) (t : S) → P t → P (and_then r f t).1
      from (ok a) t h = k a t h
      from (err e) t h = h

-- Methods with a loop on fuel: `none` means that the fuel ran out.
abbrev pub Fueled : Type 0 → Type 0 → Type 0
Fueled S A = S → Option (Result A × S)

module _ {S A : Type 0} where
  abbrev pub lift : Exec S A → Fueled S A
  lift m s = some (m s)

module _ {S A B : Type 0} where
  abbrev pub go_on : Option (Result A × S) → (A → Fueled S B) → Option (Result B × S)
  go_on none next = none
  go_on (some (err failure, s)) next = some (err failure, s)
  go_on (some (ok value, s)) next = next value s

  infixl 10 ◌>=>◌
  abbrev pub ◌>=>◌ : Fueled S A → (A → Fueled S B) → Fueled S B
  first >=> second = λ s. go_on (first s) second

  -- how a sequence on fuel that fails has failed
  pub go_on_err :
      (r : Option (Result A × S)) (f : A → Fueled S B) (e : Failure) (s : S)
      → go_on r f ≡ some (err e, s)
      → (r ≡ some (err e, s))
        ⊎ ((a : A) × (t : S) × (r ≡ some (ok a, t)) × (f a t ≡ some (err e, s)))
  go_on_err none f e s h = absurd (ground (arith, h))
  go_on_err (some (err e', t)) f e s h = inl (ground (arith, h))
  go_on_err (some (ok a, t)) f e s h = inr (a, t, refl, h)

  -- what a sequence on fuel that succeeds has done
  pub go_on_ok :
      (r : Option (Result A × S)) (f : A → Fueled S B) (b : B) (s : S)
      → go_on r f ≡ some (ok b, s)
      → (a : A) × (t : S) × (r ≡ some (ok a, t)) × (f a t ≡ some (ok b, s))
  go_on_ok none f b s h = absurd (ground (arith, h))
  go_on_ok (some (err e', t)) f b s h = absurd (ground (arith, h))
  go_on_ok (some (ok a, t)) f b s h = (a, t, refl, h)
