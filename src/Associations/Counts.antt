-- ===== src/Associations/Counts.antt =====
-- src/engine/associationEngine.ts: what the two counters count.
use hubspot_salesforce_conne.Prelude.{
  ℕ, ◌+◌, String, Bool, ◌≡◌, not, List, [], ◌∷◌, arith, count_if, is_some, Option-cases, inl, inr,
}
use hubspot_salesforce_conne.Types.{SystemId, other}
use hubspot_salesforce_conne.Exec.{ok, bind_ok}
use hubspot_salesforce_conne.IdMap
use hubspot_salesforce_conne.IdMap.{Link, by_source}
use hubspot_salesforce_conne.Associations.{
  ConnectorAssociation, Connectors, State, SyncCounts, end_of, carry, associate_all,
}

-- both ends of the relationship are known in the other system
abbrev pub is_linked : IdMap.Store → SystemId → ConnectorAssociation → Bool
is_linked ids to a = is_some (end_of to (by_source (other to) a.to_id ids))

module _ {W : Type 0} (v : Connectors W) (uuid : String → String) (ids : IdMap.Store)
    (now : ℕ) where
  -- A pass over relationships that ends without a failure counts as synced those whose other end
  -- is linked, and as deferred all others.
  pub associate_all_lem :
      (to : SystemId) (type : String) (from_link : Link) (target_from : String)
      (associations : List ConnectorAssociation) (start counts : SyncCounts) (s s' : State W)
      → associate_all v uuid ids now to type from_link target_from associations start s
        ≡ (ok counts, s')
      → (counts.synced ≡ start.synced + count_if (is_linked ids to) associations)
        × (counts.deferred ≡ start.deferred + count_if (λ a. not (is_linked ids to a)) associations)
  unfolding associate_all
  associate_all_lem to type from_link target_from [] start counts s s' h = ground (arith, h)
  associate_all_lem to type from_link target_from (a ∷ rest) start counts s s' h =
      elim (Option-cases (end_of to (by_source (other to) a.to_id ids))) [
        | inl apart ↦ ground (
          arith,
          apart,
          h,
          associate_all_lem to type from_link target_from rest
              (record start { deferred = start.deferred + 1 }) counts s s'
              (ground (arith, h, apart)),
        )
        | inr (found, e) ↦
            let next : SyncCounts = record start { synced = start.synced + 1 } in
            let (_, t, _, last) =
              bind_ok (carry v uuid ids now to type from_link target_from a found)
                (λ _. associate_all v uuid ids now to type from_link target_from rest next) s s'
                counts (ground (arith, h, e)) in
            ground
              (arith, e, associate_all_lem to type from_link target_from rest next counts t s' last)
      ]
