-- ===== src/Reconciler/Echo.antt =====
-- src/engine/reconciler.ts: how the changes that the program itself makes are told apart.
use mathlib.Core.Path.{subst}
use hubspot_salesforce_conne.Prelude.{◌≡◌, refl, sym}
use hubspot_salesforce_conne.Prelude.{ℕ, String, true, some}
use hubspot_salesforce_conne.Types.{of_system, CanonicalRecord}
use hubspot_salesforce_conne.Exec.{Result, ok, and_then}
use hubspot_salesforce_conne.IdMap.{Link, content_hash, by_source}
use hubspot_salesforce_conne.Reconciler.Base.{Connectors, Context, State, same_text}
use hubspot_salesforce_conne.Reconciler.Steps.{find_or_create_link}
use hubspot_salesforce_conne.Reconciler.{reconcile, reconcile_linked}

-- the call has succeeded without touching the two systems and the identity map
abbrev pub Suppressed : {W : Type 0} → State W → Result (Unit {0}) × State W → Type 0
Suppressed s r = (r.0 ≡ ok tt) × (r.1.world ≡ s.world) × (r.1.id_map ≡ s.id_map)

module _ {W : Type 0} (v : Connectors W) (c : Context) (now : ℕ) where
  found_link :
      (source : CanonicalRecord) (link : Link) (s : State W)
      → by_source source.meta.source source.meta.source_id s.id_map ≡ some link
      → find_or_create_link v c now source s ≡ (ok link, s)
  unfolding find_or_create_link
  found_link source link s found = rw (found, find_or_create_link)

  echo_linked :
      (first_8 : String → String) (source : CanonicalRecord) (link : Link) (s : State W)
      → same_text
          (of_system source.meta.source link.hashes)
          (some (content_hash c.hash source.fields))
        ≡ true
      → Suppressed s (reconcile_linked v c now first_8 source link s)
  unfolding reconcile_linked
  echo_linked first_8 source link s same = rw same (refl, refl, refl)

  -- A change of a linked record whose content is what the link records for its system is dropped:
  -- no connector is called, and the identity map stays as it is.
  pub reconcile-echo :
      (first_8 : String → String) (source : CanonicalRecord) (link : Link) (s : State W)
      → by_source source.meta.source source.meta.source_id s.id_map ≡ some link
      → same_text
          (of_system source.meta.source link.hashes)
          (some (content_hash c.hash source.fields))
        ≡ true
      → Suppressed s (reconcile v c now first_8 source s)
  unfolding reconcile
  reconcile-echo first_8 source link s found same =
      subst
        (λ (r : Result Link × State W).
          Suppressed s (and_then r.0 (reconcile_linked v c now first_8 source) r.1))
        (sym (found_link source link s found)) (echo_linked first_8 source link s same)
