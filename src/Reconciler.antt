-- ===== src/Reconciler.antt =====
-- src/engine/reconciler.ts: the one place where a change becomes agreement across the systems
-- (`Reconciler`), over an interface for the connectors. The log of the process is left out.
pub mod Examples
pub mod Diff
pub mod Base
pub mod Steps
pub mod Echo
pub mod Records
pub mod Preview
use hubspot_salesforce_conne.Prelude.{
  ℕ, suc, ◌-◌, String, Bool, true, false, not, ◌&&◌, ◌||◌, Option, none, some, List, [], ◌∷◌, ◌++◌,
  ◌==◌, if◌then◌else◌, concat, contains, dedupe, keep, map, find, length, ltb, nat_eq, get_or,
  is_some, map_option, bind_option,
}
use hubspot_salesforce_conne.Prelude.Dict.{Dict, lookup, insert, keys}
use hubspot_salesforce_conne.Prelude.Sort.{sort_by}
use hubspot_salesforce_conne.Prelude.Text.{includes, text_le}
use hubspot_salesforce_conne.Prelude.Time.{nat_text, stamp}
use hubspot_salesforce_conne.Types.{
  SystemId, salesforce, hubspot, other, system_text, PerSystem, of_system, set_system, FieldValue,
  str, null, value_eq, Fields, CanonicalRecord, Operation, UpsertResult, ChangeEvent,
  NaturalKeyQuery,
}
use hubspot_salesforce_conne.Plan.{ReconcilePlan, PlannedAction, FieldDiff}
use hubspot_salesforce_conne.Failure.{
  Failure, plain, missing_required, ambiguous_key, Patterns, DuplicateValueConflict,
  extract_duplicate_value_conflict,
}
use hubspot_salesforce_conne.Exec.{
  Exec, Result, ok, err, pure, throw, gets, modify, ◌>>=◌, ◌>>◌, and_then,
}
use hubspot_salesforce_conne.Activity
use hubspot_salesforce_conne.Activity.{ActivityLog, ActivityKind}
use hubspot_salesforce_conne.Conflict.{ConflictStrategy, Env, Resolution, resolve}
use hubspot_salesforce_conne.Host.{Host}
use hubspot_salesforce_conne.Mapping.{FieldRule, Tables, field_rules, from_canonical_fields}
use hubspot_salesforce_conne.IdMap
use hubspot_salesforce_conne.IdMap.{
  Link, KeyFields, content_hash, natural_key_query, natural_key_fields, by_source, by_natural_key,
  upsert_link,
}
use hubspot_salesforce_conne.Schema.{SchemaField}
use hubspot_salesforce_conne.Reconciler.Base.{
  ConflictInput, Connectors, Context, State, same_text, same_value, truthy, diff_fields,
  native_to_natural_key_field, call, note, schema_by_name, missing_labels, writable_rules,
  owners_of,
}
use hubspot_salesforce_conne.Reconciler.Steps.{check_required_fields, find_or_create_link}

module _ {W : Type 0} (v : Connectors W) (c : Context) (now : ℕ) where
  abbrev hash_of : Fields → String
  hash_of fields = content_hash c.hash fields

  -- step 3 for a counterpart that was read: the winner
  unfoldable pub winner_over :
      CanonicalRecord → Link → Option CanonicalRecord → Exec (State W) CanonicalRecord
  winner_over source link none = pure source
  winner_over source link (some counterpart) =
      if same_text (some (hash_of counterpart.fields))
        (of_system (other source.meta.source) link.hashes)
      then pure source
      else elim (resolve c.env (some source) (some counterpart) (record {
        strategy = c.strategy;
        source_of_truth = c.source_of_truth;
        field_owners =
            owners_of
              (field_rules salesforce source.type c.tables
                ++ field_rules hubspot source.type c.tables)
              [];
      })) [
        | none ↦ throw (plain "resolve() requires at least one record")
        | some res ↦ (do
          call (
              v.record_conflict (record {
                link_id = link.canonical_id;
                type = source.type;
                source = source;
                target = counterpart;
                strategy = res.reason;
                resolution = res.winner;
              }))
          note now ActivityKind.conflict
              (concat ("Conflict on " ∷ source.type ∷ " resolved via " ∷ res.reason ∷ []))
          pure res.winner)
      ]

  unfoldable pub choose_winner : CanonicalRecord → Link → Exec (State W) CanonicalRecord
  unfolding winner_over
  choose_winner source link =
      let to = other source.meta.source in
      if not (get_or c.read_counterpart true)
      then pure source
      else elim (truthy (of_system to link.ids)) [
        | none ↦ pure source
        | some target_id ↦ (do
          counterpart ← call (v.read to source.type target_id)
          winner_over source link counterpart)
      ]

  -- the `catch` of step 5: the write goes to the record that owns the natural key, or fails
  relink : CanonicalRecord → CanonicalRecord → Option String → Failure → Exec (State W) UpsertResult
  relink source winner target_id e =
      let to = other source.meta.source in
      elim (extract_duplicate_value_conflict c.patterns e) [
        | none ↦ throw e
        | some conflict ↦
            elim (truthy (native_to_natural_key_field c to source.type conflict.property)) [
              | none ↦ throw e
              | some field ↦
                  if same_text (some conflict.conflicting_id) target_id then throw e else (do
                    result ← call (v.upsert to winner (some conflict.conflicting_id))
                    note now ActivityKind.info (
                        concat (
                          source.type
                          ∷ ": re-linked to an existing "
                          ∷ system_text to
                          ∷ " record on matching \""
                          ∷ field
                          ∷ "\" (the previous link was stale)"
                          ∷ []))
                    pure result)
            ]
      ]

  caught :
      CanonicalRecord
      → CanonicalRecord
      → Option String
      → Result UpsertResult × State W
      → Result UpsertResult × State W
  unfolding relink
  caught source winner target_id (ok result, s) = (ok result, s)
  caught source winner target_id (err e, s) = relink source winner target_id e s

  unfoldable pub write_winner :
      CanonicalRecord → CanonicalRecord → Option String → Exec (State W) UpsertResult
  unfolding caught
  write_winner source winner target_id s =
      caught source winner target_id (call (v.upsert (other source.meta.source) winner target_id) s)

  -- The write-back of a merge that differs from the source, and the hash that is recorded for the
  -- source's system. (A winner whose hash differs from the source's is not the source.)
  unfoldable pub write_back : CanonicalRecord → CanonicalRecord → Link → Exec (State W) String
  write_back source winner link =
      let from = source.meta.source in
      if hash_of winner.fields == hash_of source.fields
      then pure (hash_of source.fields)
      else elim (truthy (of_system from link.ids)) [
        | none ↦ pure (hash_of source.fields)
        | some id ↦ (do call (v.upsert from winner (some id)); pure (hash_of winner.fields))
      ]

  -- what `reconcile` records in the link
  unfoldable pub recorded : CanonicalRecord → CanonicalRecord → UpsertResult → String → Link → Link
  recorded source winner result source_hash link =
      let from = source.meta.source in
      let to = other from in
      record link {
        ids =
            set_system from (some source.meta.source_id)
              (set_system to (some result.target_id) link.ids);
        hashes =
            set_system from (some source_hash)
              (set_system to (some (hash_of winner.fields)) link.hashes);
        modified_at =
            set_system from (some source.meta.modified_at)
              (set_system to (some (stamp now)) link.modified_at);
      }

  abbrev operation_text : Operation → String
  operation_text Operation.created = "created"
  operation_text Operation.updated = "updated"
  operation_text Operation.skipped = "skipped"
  operation_text Operation.deleted = "deleted"

  -- the link is stored once the writes are made
  unfoldable pub finish :
      CanonicalRecord → CanonicalRecord → Link → UpsertResult → String → Exec (State W) (Unit {0})
  unfolding recorded
  finish source winner link result source_hash = do
    modify (λ (s : State W). record s {
      id_map = upsert_link now (recorded source winner result source_hash link) s.id_map;
    })
    note now ActivityKind.sync (
        concat (
          system_text source.meta.source
          ∷ " → "
          ∷ system_text (other source.meta.source)
          ∷ ": "
          ∷ source.type
          ∷ " "
          ∷ operation_text result.operation
          ∷ []))

  unfoldable pub agree :
      CanonicalRecord → CanonicalRecord → Link → UpsertResult → Exec (State W) (Unit {0})
  unfolding write_back finish
  agree source winner link result =
      write_back source winner link >>= finish source winner link result

  unfoldable pub deliver : CanonicalRecord → CanonicalRecord → Link → Exec (State W) (Unit {0})
  unfolding write_winner agree
  deliver source winner link =
      write_winner source winner (of_system (other source.meta.source) link.ids)
      >>= agree source winner link

  -- steps 4 and 5 for a winner
  unfoldable pub settle : CanonicalRecord → Link → CanonicalRecord → Exec (State W) (Unit {0})
  unfolding deliver
  settle source link winner =
      check_required_fields v c now (other source.meta.source) winner >>= λ _.
      deliver source winner link

  -- steps 3 to 5 for a source whose change is no echo
  unfoldable pub propagate : CanonicalRecord → Link → Exec (State W) (Unit {0})
  unfolding choose_winner settle
  propagate source link = choose_winner source link >>= settle source link

  -- steps 2 to 5, once the link is known; `first_8` is `link.canonicalId.slice(0, 8)`
  unfoldable pub reconcile_linked :
      (first_8 : String → String) → CanonicalRecord → Link → Exec (State W) (Unit {0})
  unfolding propagate
  reconcile_linked first_8 source link =
      if same_text (of_system source.meta.source link.hashes) (some (hash_of source.fields))
      then note now ActivityKind.echo_suppressed (
          concat (
            "Echo from "
            ∷ system_text source.meta.source
            ∷ " suppressed ("
            ∷ first_8 link.canonical_id
            ∷ ")"
            ∷ []))
      else propagate (record source { canonical_id = link.canonical_id }) link

  unfoldable pub reconcile :
      (first_8 : String → String) → CanonicalRecord → Exec (State W) (Unit {0})
  unfolding reconcile_linked
  reconcile first_8 source = find_or_create_link v c now source >>= reconcile_linked first_8 source

  unfoldable pub propagate_delete : ChangeEvent → Exec (State W) (Unit {0})
  propagate_delete event s =
      let target = other event.system in
      elim (bind_option (by_source event.system event.source_id s.id_map)
        (λ (link : Link). truthy (of_system target link.ids))) [
          | none ↦ (ok tt, s)
          | some target_id ↦
              (do
                call (v.remove target event.type target_id)
                note now ActivityKind.delete (
                    concat (
                      system_text event.system
                      ∷ " → "
                      ∷ system_text target
                      ∷ ": "
                      ∷ event.type
                      ∷ " deleted"
                      ∷ [])))
                s
        ]
