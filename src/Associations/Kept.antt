-- ===== src/Associations/Kept.antt =====
-- src/engine/associationEngine.ts: what reading and writing relationships keeps, syncing the
-- relationships of a record keeps.
use hubspot_salesforce_conne.Prelude.{ℕ, String, List, [], ◌∷◌, Option-cases, inl, inr, ◌+◌, arith}
use hubspot_salesforce_conne.Prelude.Dict.{insert}
use hubspot_salesforce_conne.Types.{SystemId, CanonicalRecord, other}
use hubspot_salesforce_conne.Exec.{modify, ◌>>=◌, bind_keeps}
use hubspot_salesforce_conne.IdMap
use hubspot_salesforce_conne.IdMap.{Link, by_source}
use hubspot_salesforce_conne.Associations.{
  ConnectorAssociation, Connectors, call, stored_link, State, SyncCounts, end_of, carry,
  associate_all, reported, sync_linked, sync_record,
}

module _ {W : Type 0} (v : Connectors W) (uuid : String → String) (ids : IdMap.Store) (now : ℕ)
    (P : W → Type 0)
    (lists : (system : SystemId) (type id : String) (w : W)
      → P w
      → P (v.list_associations system type id w).1)
    (associates : (system : SystemId) (type id : String) (a : ConnectorAssociation) (w : W)
      → P w
      → P (v.associate system type id a w).1) where
  carry-keeps :
      (to : SystemId) (type : String) (link : Link) (target : String) (a : ConnectorAssociation)
      (found : Link × String) (s : State W)
      → P s.world
      → P (carry v uuid ids now to type link target a found s).1.world
  unfolding carry
  carry-keeps to type link target a (related, target_to) s h =
      bind_keeps (λ (s : State W). P s.world)
        (call v uuid ids now (v.associate to type target (record a { to_id = target_to })))
        (λ (_ : Unit {0}). modify (λ (s : State W).
          let l = stored_link v uuid ids now link related a in
          record s { links = insert l.id l s.links }))
        s (associates to type target (record a { to_id = target_to }) s.world h) (λ _ t k. k)

  associate_all-keeps :
      (to : SystemId) (type : String) (link : Link) (target : String)
      (associations : List ConnectorAssociation) (counts : SyncCounts) (s : State W)
      → P s.world
      → P (associate_all v uuid ids now to type link target associations counts s).1.world
  unfolding associate_all
  associate_all-keeps to type link target [] counts s h = h
  associate_all-keeps to type link target (a ∷ rest) counts s h =
      elim (Option-cases (end_of to (by_source (other to) a.to_id ids))) [
        | inl missing ↦
            rw (missing, associate_all)
              (associate_all-keeps to type link target rest
                (record counts { deferred = counts.deferred + 1 }) s h)
        | inr (found, there) ↦
            rw (there, associate_all)
              (bind_keeps (λ (s : State W). P s.world)
                (carry v uuid ids now to type link target a found)
                (λ (_ : Unit {0}).
                  associate_all v uuid ids now to type link target rest
                    (record counts { synced = counts.synced + 1 }))
                s (carry-keeps to type link target a found s h)
                (λ _ t k.
                  associate_all-keeps to type link target rest
                    (record counts { synced = counts.synced + 1 }) t k))
      ]

  sync_linked-keeps :
      (source : CanonicalRecord) (found : Link × String) (s : State W)
      → P s.world
      → P (sync_linked v uuid ids now source found s).1.world
  unfolding sync_linked reported
  sync_linked-keeps source (link, target) s h =
      let from = source.meta.source in
      let zeros : SyncCounts = record { synced = 0; deferred = 0 } in
      bind_keeps (λ (s : State W). P s.world)
        (call v uuid ids now (v.list_associations from source.type source.meta.source_id))
        (λ associations.
          associate_all v uuid ids now (other from) source.type link target associations zeros
          >>= reported v uuid ids now source.type)
        s (lists from source.type source.meta.source_id s.world h)
        (λ associations t k.
          bind_keeps (λ (s : State W). P s.world)
            (associate_all v uuid ids now (other from) source.type link target associations zeros)
            (reported v uuid ids now source.type) t
            (associate_all-keeps (other from) source.type link target associations zeros t k)
            (λ counts u l. ground arith))

  pub sync_record-keeps :
      (source : CanonicalRecord) (s : State W)
      → P s.world
      → P (sync_record v uuid ids now source s).1.world
  unfolding sync_record
  sync_record-keeps source s h =
      let from = source.meta.source in
      elim (Option-cases (end_of (other from) (by_source from source.meta.source_id ids))) [
        | inl missing ↦ rw (missing, sync_record) h
        | inr (found, there) ↦ rw (there, sync_record) (sync_linked-keeps source found s h)
      ]
