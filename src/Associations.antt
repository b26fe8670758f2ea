-- ===== src/Associations.antt =====
-- src/engine/associationEngine.ts: relationships of a record, carried over once both ends are linked
-- (`AssociationEngine`, with the in-memory store).
mod Examples
pub mod Counts
pub mod Kept
use hubspot_salesforce_conne.Prelude.{
  ℕ, ◌+◌, String, Bool, true, false, Option, none, some, List, [], ◌∷◌, ◌==◌, if◌then◌else◌, concat,
  nat_eq, get_or, bind_option,
}
use hubspot_salesforce_conne.Prelude.Dict.{Dict, insert}
use hubspot_salesforce_conne.Prelude.Time.{nat_text}
use hubspot_salesforce_conne.Types.{SystemId, other, of_system, CanonicalRecord}
use hubspot_salesforce_conne.Exec.{Exec, ok, pure, modify, ◌>>=◌, ◌>>◌, and_then}
use hubspot_salesforce_conne.Activity
use hubspot_salesforce_conne.Activity.{ActivityLog, ActivityKind}
use hubspot_salesforce_conne.IdMap
use hubspot_salesforce_conne.IdMap.{Link, by_source}

pub record ConnectorAssociation : Type 0 where
  pub to_type : String
  pub kind : String
  pub to_id : String
  pub label : Option String

pub record AssociationLink : Type 0 where
  pub id : String
  pub from_canonical_id : String
  pub to_canonical_id : String
  pub kind : String
  pub label : Option String

pub record Connectors (W : Type 0) : Type 0 where
  pub list_associations : SystemId → String → String → Exec W (List ConnectorAssociation)
  pub associate : SystemId → String → String → ConnectorAssociation → Exec W (Unit {0})

pub record State (W : Type 0) : Type 0 where
  pub world : W
  pub links : Dict AssociationLink
  pub activity : ActivityLog

pub record SyncCounts : Type 0 where
  pub synced : ℕ
  pub deferred : ℕ

-- `link?.ids[to]` where that is not empty, with the link
abbrev pub end_of : SystemId → Option Link → Option (Link × String)
end_of to none = none
end_of to (some link) = elim (of_system to link.ids) [
  | none ↦ none
  | some id ↦ if id == "" then none else some (link, id)
]

-- `ids` is the identity map during the call, and `uuid` the text that `stableAssociationId` makes of the hash
module _ {W : Type 0} (v : Connectors W) (uuid : String → String) (ids : IdMap.Store)
    (now : ℕ) where
  abbrev call : {A : Type 0} → Exec W A → Exec (State W) A
  call m s = let (r, w) = m s.world in (r, record s { world = w })

  abbrev stable_association_id : String → String → String → Option String → String
  stable_association_id from to kind label =
      uuid (concat (from ∷ ":" ∷ to ∷ ":" ∷ kind ∷ ":" ∷ get_or label "" ∷ []))

  stored_link : Link → Link → ConnectorAssociation → AssociationLink
  stored_link from_link related a = record {
    id = stable_association_id from_link.canonical_id related.canonical_id a.kind a.label;
    from_canonical_id = from_link.canonical_id;
    to_canonical_id = related.canonical_id;
    kind = a.kind;
    label = a.label;
  }

  -- a relationship whose other end is linked
  unfoldable pub carry :
      SystemId
      → String
      → Link
      → String
      → ConnectorAssociation
      → Link × String
      → Exec (State W) (Unit {0})
  unfolding stored_link
  carry to type from_link target_from a (related, target_to) = do
    call (v.associate to type target_from (record a { to_id = target_to }))
    modify (λ (s : State W).
        let l = stored_link from_link related a in record s { links = insert l.id l s.links })

  -- the loop, over the relationships that are left
  unfoldable pub associate_all :
      SystemId
      → String
      → Link
      → String
      → List ConnectorAssociation
      → SyncCounts
      → Exec (State W) SyncCounts
  unfolding carry
  associate_all to type from_link target_from [] counts = pure counts
  associate_all to type from_link target_from (a ∷ rest) counts =
      let later = associate_all to type from_link target_from rest in
      elim (end_of to (by_source (other to) a.to_id ids)) [
        | none ↦ later (record counts { deferred = counts.deferred + 1 })
        | some found ↦ carry to type from_link target_from a found >>= λ _.
            later (record counts { synced = counts.synced + 1 })
      ]

  reported : String → SyncCounts → Exec (State W) SyncCounts
  reported type counts s = if nat_eq counts.synced 0 then (ok counts, s) else (
    ok counts,
    record s {
      activity =
          Activity.log now ActivityKind.association
            (concat (
              "Synced "
              ∷ nat_text counts.synced
              ∷ " "
              ∷ type
              ∷ " relationship"
              ∷ (if nat_eq counts.synced 1 then "" else "s")
              ∷ []))
            s.activity;
    },
  )

  -- the record's own link and its id in the other system are known
  unfoldable pub sync_linked : CanonicalRecord → Link × String → Exec (State W) SyncCounts
  unfolding associate_all reported
  sync_linked source (from_link, target_from) = do
    let from = source.meta.source
    associations ← call (v.list_associations from source.type source.meta.source_id)
    counts ←
        associate_all (other from) source.type from_link target_from associations
          (record { synced = 0; deferred = 0 })
    reported source.type counts

  unfoldable pub sync_record : CanonicalRecord → Exec (State W) SyncCounts
  unfolding sync_linked
  sync_record source s =
      let from = source.meta.source in
      elim (end_of (other from) (by_source from source.meta.source_id ids)) [
        | none ↦ (ok (record { synced = 0; deferred = 0 }), s)
        | some found ↦ sync_linked source found s
      ]
