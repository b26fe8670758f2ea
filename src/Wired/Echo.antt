-- ===== src/Wired/Echo.antt =====
-- src/app.ts: the events that the program's own writes cause.
use mathlib.Core.Path.{subst}
use hubspot_salesforce_conne.Prelude.{
  ℕ, String, true, false, ◌≡◌, refl, sym, ◌∙◌, ap, some, Option, ◌==◌, inl, inr, eq_iff,
}
use hubspot_salesforce_conne.Types.{SystemId, CanonicalRecord, other, of_system}
use hubspot_salesforce_conne.Exec.{Result, ok}
use hubspot_salesforce_conne.IdMap.{Link, by_source, content_hash}
use hubspot_salesforce_conne.Queue.{SyncJob}
use hubspot_salesforce_conne.Reconciler
use hubspot_salesforce_conne.Reconciler.Base.{Context, same_text}
use hubspot_salesforce_conne.Reconciler.Echo.{Suppressed, reconcile-echo}
use hubspot_salesforce_conne.Reconciler.Records.{LeavesEcho}
use hubspot_salesforce_conne.Associations
use hubspot_salesforce_conne.Associations.{ConnectorAssociation}
use hubspot_salesforce_conne.Associations.Kept.{sync_record-keeps}
use hubspot_salesforce_conne.Engine
use hubspot_salesforce_conne.Engine.{Texts, Options, is_deleted, process}
use hubspot_salesforce_conne.Engine.World.{process-carries}
use hubspot_salesforce_conne.Wired.{Governance, Wired, services, sync_record, association_state}

module _ {W : Type 0} (v : Reconciler.Base.Connectors W) (a : Associations.Connectors W)
    (g : Governance W) (c : Context) (uuid first_8 : String → String) (t : Texts) (opts : Options)
    (now : ℕ) (P : W → Type 0)
    (reads : (system : SystemId) (type id : String) (w : W) → P w → P (v.read system type id w).1)
    (lists : (system : SystemId) (type id : String) (w : W)
      → P w
      → P (a.list_associations system type id w).1)
    (associates : (system : SystemId) (type id : String) (x : ConnectorAssociation) (w : W)
      → P w
      → P (a.associate system type id x w).1) where
  -- what holds of the two systems, and the identity map as it is
  abbrev Keeps : Wired W → Wired W → Type 0
  Keeps before s = P s.sync.world × (s.sync.id_map ≡ before.sync.id_map)

  sync_record-Keeps :
      (r : CanonicalRecord) (before s : Wired W)
      → Keeps before s
      → Keeps before (sync_record v a g c uuid first_8 now r s).1
  unfolding sync_record
  sync_record-Keeps r before s (h, same) = (
    sync_record-keeps a uuid s.sync.id_map now P lists associates r (association_state s) h,
    same,
  )

  -- Processing an event that the program's own write caused.
  module _ (job : SyncJob) (r : CanonicalRecord) (link : Link) (w : W)
      (s : Engine.State (Wired W)) where
    echoed :
        by_source r.meta.source r.meta.source_id s.world.sync.id_map ≡ some link
        → same_text (of_system r.meta.source link.hashes) (some (content_hash c.hash r.fields))
          ≡ true
        → Suppressed
            (record s.world.sync { world = w })
            (Reconciler.reconcile v c now first_8 r (record s.world.sync { world = w }))
    echoed linked same =
        reconcile-echo v c now first_8 r link (record s.world.sync { world = w }) linked same

    process-echo :
        is_deleted job.event.change_type ≡ false
        → v.read job.event.system job.event.type job.event.source_id s.world.sync.world
          ≡ (ok (some r), w)
        → by_source r.meta.source r.meta.source_id s.world.sync.id_map ≡ some link
        → same_text (of_system r.meta.source link.hashes) (some (content_hash c.hash r.fields))
          ≡ true
        → P s.world.sync.world
        → Keeps s.world (process (services v a g c uuid first_8 now) t opts now job s).world
    process-echo live found linked same before =
        let (done, still, unchanged) = echoed linked same in
        let holds : P w =
          subst (λ (x : Result (Option CanonicalRecord) × W). P x.1) found
            (reads job.event.system job.event.type job.event.source_id s.world.sync.world before) in
        let after = Reconciler.reconcile v c now first_8 r (record s.world.sync { world = w }) in
        process-carries (services v a g c uuid first_8 now) t opts now job (Keeps s.world) r s
          (record s.world { sync = record s.world.sync { world = w } })
          (record s.world { sync = after.1 }) live
          (ap
            (λ (x : Result (Option CanonicalRecord) × W).
              (x.0, record s.world { sync = record s.world.sync { world = x.1 } }))
            found)
          (ap (λ (x : Result (Unit {0})). (x, record s.world { sync = after.1 })) done)
          (before, refl)
          (sync_record-Keeps r s.world (record s.world { sync = after.1 })
            (rw still holds, unchanged))

  -- The program does not answer its own writes. A change was carried over, and the identity map is
  -- as that left it. Then an event about the written record, which is read back with the content
  -- that was written, is processed without another write of a record: whatever reading records and
  -- reading and writing relationships keep of the two systems is kept, and the identity map stays
  -- as it is. (An event about a deletion is another matter.)
  pub process-own_write :
      (earlier : ℕ) (source : CanonicalRecord) (link : Link) (left : Reconciler.Base.State W)
      (e : LeavesEcho v c earlier source link left) (job : SyncJob) (r : CanonicalRecord) (w : W)
      (s : Engine.State (Wired W))
      → s.world.sync.id_map ≡ left.id_map
      → (e.result.target_id == "") ≡ false
      → is_deleted job.event.change_type ≡ false
      → v.read job.event.system job.event.type job.event.source_id s.world.sync.world
        ≡ (ok (some r), w)
      → r.meta.source ≡ other source.meta.source
      → r.meta.source_id ≡ e.result.target_id
      → content_hash c.hash r.fields ≡ content_hash c.hash e.winner.fields
      → P s.world.sync.world
      → P (process (services v a g c uuid first_8 now) t opts now job s).world.sync.world
        × ((process (services v a g c uuid first_8 now) t opts now job s).world.sync.id_map
            ≡ s.world.sync.id_map)
  process-own_write earlier source link left e job r w s map_eq known live found there id content
        before =
      process-echo job r e.stored w s live found linked same before
    where
      linked : by_source r.meta.source r.meta.source_id s.world.sync.id_map ≡ some e.stored
      linked =
          (λ i. by_source (there i) (id i) (map_eq i))
          ∙ elim e.from_target [ inl h ↦ h | inr blank ↦ cc ]

      written : content_hash c.hash e.winner.fields ≡ content_hash c.hash r.fields
      written = sym content

      known_hash : of_system r.meta.source e.stored.hashes ≡ some (content_hash c.hash r.fields)
      known_hash = (λ i. of_system (there i) e.stored.hashes) ∙ e.target_hash ∙ ap some written

      same :
          same_text (of_system r.meta.source e.stored.hashes) (some (content_hash c.hash r.fields))
          ≡ true
      same =
          rw known_hash
            ((eq_iff (content_hash c.hash r.fields) (content_hash c.hash r.fields)).1 refl)
