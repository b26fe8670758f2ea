-- ===== src/Queue/Claim/Ids.antt =====
-- src/engine/syncEventStore.ts: the ids that `claim` picks.
use hubspot_salesforce_conne.Prelude.{
  ℕ, zero, suc, String, ◌≡◌, refl, Bool, false, ◌||◌, some, List, [], ◌∷◌, ◌==◌, if◌then◌else◌,
  eq_iff, arith, map_option, contains, take, keep, ◌∙◌,
}
use hubspot_salesforce_conne.Prelude.Dict.{
  Dict, lookup, adjust, keys, values, Distinct, lookup-adjust, is_some-lookup,
}
use hubspot_salesforce_conne.Prelude.Sort.{sort_by, insert_sorted}
use hubspot_salesforce_conne.Queue.{
  Crypto, SyncJob, Store, is_due, older_first, start, start_all, picked,
}
use hubspot_salesforce_conne.Queue.Valid.{IsValid}

abbrev pub ids : List SyncJob → List String
ids [] = []
ids (job ∷ jobs) = job.id ∷ ids jobs

module _ (le : SyncJob → SyncJob → Bool) where
  contains-insert_sorted :
      (k : String) (x : SyncJob) (xs : List SyncJob)
      → contains k (ids (insert_sorted le x xs)) ≡ (x.id == k || contains k (ids xs))
  unfolding insert_sorted
  contains-insert_sorted k x [] = refl
  contains-insert_sorted k x (y ∷ ys) = ground (arith, contains-insert_sorted k x ys)

  contains-sort_by :
      (k : String) (xs : List SyncJob) → contains k (ids (sort_by le xs)) ≡ contains k (ids xs)
  unfolding sort_by
  contains-sort_by k [] = refl
  contains-sort_by k (x ∷ xs) =
      ground (arith, contains-insert_sorted k x (sort_by le xs), contains-sort_by k xs)

  Distinct-insert_sorted :
      (x : SyncJob) (xs : List SyncJob)
      → contains x.id (ids xs) ≡ false
      → Distinct (ids xs)
      → Distinct (ids (insert_sorted le x xs))
  unfolding insert_sorted
  Distinct-insert_sorted x [] n d = (refl, tt)
  Distinct-insert_sorted x (y ∷ ys) n (m, d) = ground (
    arith,
    contains-insert_sorted y.id x ys,
    eq_iff x.id y.id,
    eq_iff y.id x.id,
    Distinct-insert_sorted x ys,
  )

  Distinct-sort_by : (xs : List SyncJob) → Distinct (ids xs) → Distinct (ids (sort_by le xs))
  unfolding sort_by
  Distinct-sort_by [] d = tt
  Distinct-sort_by (x ∷ xs) (n, d) =
      Distinct-insert_sorted x (sort_by le xs) (contains-sort_by x.id xs ∙ n)
        (Distinct-sort_by xs d)

module _ (p : SyncJob → Bool) where
  contains-keep :
      (k : String) (xs : List SyncJob)
      → contains k (ids xs) ≡ false
      → contains k (ids (keep p xs)) ≡ false
  contains-keep k [] h = refl
  contains-keep k (x ∷ xs) h = ground (arith, contains-keep k xs)

  Distinct-keep : (xs : List SyncJob) → Distinct (ids xs) → Distinct (ids (keep p xs))
  Distinct-keep [] d = tt
  Distinct-keep (x ∷ xs) (n, d) = ground (arith, contains-keep x.id xs, Distinct-keep xs d)

contains-take :
    (k : String) (n : ℕ) (xs : List SyncJob)
    → contains k (ids xs) ≡ false
    → contains k (ids (take n xs)) ≡ false
contains-take k zero xs h = refl
contains-take k (suc n) [] h = refl
contains-take k (suc n) (x ∷ xs) h = ground (arith, contains-take k n xs)

Distinct-take : (n : ℕ) (xs : List SyncJob) → Distinct (ids xs) → Distinct (ids (take n xs))
Distinct-take zero xs d = tt
Distinct-take (suc n) [] d = tt
Distinct-take (suc n) (x ∷ xs) (m, d) = (contains-take x.id n xs m, Distinct-take n xs d)

-- the values of a `Map` of jobs have their keys as ids
ids-values :
    (m : Dict SyncJob)
    → Distinct (keys m)
    → ((k : String) (job : SyncJob) → lookup k m ≡ some job → job.id ≡ k)
    → ids (values m) ≡ keys m
unfolding lookup
ids-values [] d h = refl
ids-values ((k, job) ∷ m) (n, d) h = rw (
  h k job (ground (arith, eq_iff k k)),
  ids-values m d λ j w found. h j w (ground (arith, eq_iff k j, is_some-lookup j m)),
)

pub Distinct-picked :
    (c : Crypto) (now limit : ℕ) (s : Store) → IsValid c s → Distinct (ids (picked now limit s))
unfolding picked
Distinct-picked c now limit s valid = Distinct-take limit _ (
    Distinct-sort_by older_first _ (
      Distinct-keep (is_due now) (values s.jobs)
        (rw (ids-values s.jobs valid.distinct valid.keyed) valid.distinct)))

pub lookup-start_all :
    (k : String) (chosen : List SyncJob) (m : Dict SyncJob)
    → Distinct (ids chosen)
    → lookup k (start_all chosen m)
      ≡ (if contains k (ids chosen) then map_option start (lookup k m) else lookup k m)
unfolding start_all
lookup-start_all k [] m d = refl
lookup-start_all k (job ∷ rest) m (n, d) = ground (
  arith,
  lookup-start_all k rest (adjust job.id start m) d,
  lookup-adjust job.id k start m,
  eq_iff job.id k,
)
