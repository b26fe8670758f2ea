-- ===== src/Reconciler/Preview.antt =====
-- src/engine/reconciler.ts: the preview of a reconciliation (`preview`).
use hubspot_salesforce_conne.Prelude.{◌≡◌, refl, or_else}
use hubspot_salesforce_conne.Prelude.{
  ℕ, String, Bool, true, false, not, ◌&&◌, Option, none, some, List, [], ◌∷◌, ◌==◌, if◌then◌else◌,
  map, length, nat_eq, is_some, map_option, bind_option,
}
use hubspot_salesforce_conne.Types.{other, of_system, FieldValue, CanonicalRecord, NaturalKeyQuery}
use hubspot_salesforce_conne.Plan.{ReconcilePlan, PlannedAction}
use hubspot_salesforce_conne.Exec.{Exec, Result, ok, err, pure, ◌>>=◌, and_then}
use hubspot_salesforce_conne.IdMap.{
  Link, content_hash, natural_key_query, by_source, by_natural_key,
}
use hubspot_salesforce_conne.Reconciler.Base.{Connectors, Context, State, truthy, diff_fields, call}
use hubspot_salesforce_conne.Reconciler.Steps.{ambiguous_plan}

module _ (c : Context) (source : CanonicalRecord) where
  -- the plan of a record with no counterpart
  unfoldable pub create_plan : Option Link → Option NaturalKeyQuery → ReconcilePlan
  create_plan link query = record {
    canonical_id = map_option (λ (l : Link). l.canonical_id) link;
    type = source.type;
    from = source.meta.source;
    to = other source.meta.source;
    source_id = source.meta.source_id;
    target_id = none;
    natural_key = map_option (λ (q : NaturalKeyQuery). q.key) query;
    action = PlannedAction.create;
    field_diff =
        map (λ (e : String × FieldValue). record { field = e.0; source = some e.1; target = none })
          source.fields;
    warnings = elim query [ some _ ↦ [] | none ↦ "record has no configured natural key" ∷ [] ];
  }

  -- whether the counterpart changed since the link recorded it
  unfoldable pub changed_after_sync : Option Link → CanonicalRecord → Bool
  changed_after_sync link target =
      elim (truthy
        (bind_option link (λ (l : Link). of_system (other source.meta.source) l.hashes))) [
          | none ↦ false
          | some hash ↦ not (hash == content_hash c.hash target.fields)
        ]

  unfoldable pub planned_action : Option Link → CanonicalRecord → Bool → PlannedAction
  unfolding changed_after_sync
  planned_action link target matched =
      if nat_eq (length (diff_fields source.fields target.fields)) 0
      then PlannedAction.skip
      else if changed_after_sync link target
      then PlannedAction.conflict
      else if matched
          && not (
              is_some (
                truthy
                  (bind_option link (λ (l : Link). of_system (other source.meta.source) l.ids))))
      then PlannedAction.match
      else PlannedAction.update

  unfoldable pub change_plan :
      Option Link → Option NaturalKeyQuery → Option String → CanonicalRecord → Bool → ReconcilePlan
  unfolding planned_action
  change_plan link query target_id target matched = record {
    canonical_id = map_option (λ (l : Link). l.canonical_id) link;
    type = source.type;
    from = source.meta.source;
    to = other source.meta.source;
    source_id = source.meta.source_id;
    target_id = target_id;
    natural_key = map_option (λ (q : NaturalKeyQuery). q.key) query;
    action = planned_action link target matched;
    field_diff = diff_fields source.fields target.fields;
    warnings = if matched then "existing target record will be linked" ∷ [] else [];
  }

module _ {W : Type 0} (v : Connectors W) (c : Context) (now : ℕ) where
  -- the plan for what the natural key finds
  candidates_plan :
      CanonicalRecord → Option Link → NaturalKeyQuery → List CanonicalRecord → ReconcilePlan
  unfolding create_plan change_plan ambiguous_plan
  candidates_plan source link query [] = create_plan c source link (some query)
  candidates_plan source link query (target ∷ []) =
      change_plan c source link (some query) (some target.meta.source_id) target true
  candidates_plan source link query (target ∷ next ∷ rest) =
      ambiguous_plan v c now (map_option (λ (l : Link). l.canonical_id) link) source query
        (target ∷ next ∷ rest)

  -- the rest of `preview` for a counterpart that was read, or not found
  plan_for :
      CanonicalRecord
      → Option Link
      → Option NaturalKeyQuery
      → Option String
      → Option CanonicalRecord
      → Exec (State W) ReconcilePlan
  unfolding candidates_plan create_plan change_plan
  plan_for source link query target_id (some target) =
      pure (change_plan c source link query target_id target false)
  plan_for source link none target_id none = pure (create_plan c source link none)
  plan_for source link (some q) target_id none = do
    candidates ← call (v.find_by_natural_key (other source.meta.source) source.type q)
    pure (candidates_plan source link q candidates)

  -- the link that `preview` starts from
  linked : CanonicalRecord → Option NaturalKeyQuery → State W → Option Link
  linked source query s =
      or_else (by_source source.meta.source source.meta.source_id s.id_map)
        (bind_option query (λ (q : NaturalKeyQuery). by_natural_key source.type q.key s.id_map))

  counterpart : CanonicalRecord → Option String → Exec (State W) (Option CanonicalRecord)
  counterpart source none = pure none
  counterpart source (some id) = call (v.read (other source.meta.source) source.type id)

  unfoldable pub preview : CanonicalRecord → Exec (State W) ReconcilePlan
  unfolding plan_for linked counterpart
  preview source s =
      let query = natural_key_query c.host c.key_fields source in
      let link = linked source query s in
      let target_id = bind_option link (λ (l : Link). of_system (other source.meta.source) l.ids) in
      (do
        target ← counterpart source (truthy target_id)
        plan_for source link query target_id target)
        s

  -- what a read leaves: only the world may differ
  abbrev pub SameButWorld : State W → State W → Type 0
  SameButWorld a b =
      (a.id_map ≡ b.id_map)
      × (a.activity ≡ b.activity)
      × (a.schema_cache ≡ b.schema_cache)
      × (a.drawn ≡ b.drawn)

  planning-IsRead :
      (source : CanonicalRecord) (link : Option Link) (query : Option NaturalKeyQuery)
      (target_id : Option String) (r : Result (Option CanonicalRecord)) (s : State W)
      → SameButWorld (and_then r (plan_for source link query target_id) s).1 s
  unfolding plan_for
  planning-IsRead source link query target_id (err e) s = (refl, refl, refl, refl)
  planning-IsRead source link query target_id (ok (some t)) s = (refl, refl, refl, refl)
  planning-IsRead source link none target_id (ok none) s = (refl, refl, refl, refl)
  planning-IsRead source link (some q) target_id (ok none) s =
      found (v.find_by_natural_key (other source.meta.source) source.type q s.world)
    where
      found :
          (found : Result (List CanonicalRecord) × W)
          → SameButWorld
              (and_then found.0
                (λ rs. pure (candidates_plan source link q rs))
                (record s { world = found.1 })).1
              s
      found (ok rs, w) = (refl, refl, refl, refl)
      found (err e, w) = (refl, refl, refl, refl)

  previewing-IsRead :
      (source : CanonicalRecord) (link : Option Link) (query : Option NaturalKeyQuery)
      (target_id id : Option String) (s : State W)
      → SameButWorld ((counterpart source id >>= plan_for source link query target_id) s).1 s
  unfolding counterpart
  previewing-IsRead source link query target_id none s =
      planning-IsRead source link query target_id (ok none) s
  previewing-IsRead source link query target_id (some id) s =
      let (r, w) = v.read (other source.meta.source) source.type id s.world in
      planning-IsRead source link query target_id r (record s { world = w })

  -- A preview changes nothing of what the reconciler keeps: neither the identity map nor the
  -- activity log, the schema cache or the ids that are drawn.
  pub preview-reads_only :
      (source : CanonicalRecord) (s : State W) → SameButWorld (preview source s).1 s
  unfolding preview
  preview-reads_only source s = previewing-IsRead source _ _ _ _ s
