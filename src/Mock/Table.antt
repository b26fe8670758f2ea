-- ===== src/Mock/Table.antt =====
-- src/connectors/mock/mockConnector.ts: any sequence of writes does to the records what it does to a
-- table of values.
use hubspot_salesforce_conne.Prelude.{
  ℕ, String, ◌&&◌, ◌≡◌, refl, ◌∙◌, Option, none, some, List, [], ◌∷◌, ◌==◌, eq_iff, arith,
  if◌then◌else◌, or_else, inl, inr, Bool-cases,
}
use hubspot_salesforce_conne.Prelude.Dict.{lookup, delete, lookup-insert, lookup-delete}
use hubspot_salesforce_conne.Types.{SystemId, FieldValue, CanonicalRecord}
use hubspot_salesforce_conne.Host.{Host}
use hubspot_salesforce_conne.Mapping.{Tables, from_canonical_fields}
use hubspot_salesforce_conne.Mock.{State, bucket, emit, upsert, remove, peek}
use hubspot_salesforce_conne.Mock.Upsert.{peek-upsert}

-- a call that writes: to a record with a known id, or the removal of one
pub data Write : Type 0 where
  put : ℕ → CanonicalRecord → String → Write
  erase : ℕ → String → String → Write

-- the value of a field of a record of a type
abbrev pub Table : Type 0
Table = String → String → String → Option FieldValue

module _ (system : SystemId) where
  peek-remove :
      (now : ℕ) (erased id : String) (s : State) (type other_id field : String)
      → peek type other_id field (remove system now erased id s).1
        ≡ (if erased == type && id == other_id then none else peek type other_id field s)
  unfolding peek remove emit bucket
  peek-remove now erased id s type other_id field =
      let after = delete id (bucket erased s) in
      elim (Bool-cases (erased == type)) [
        | inr different ↦ ground (arith, different, lookup-insert erased type after s.store)
        | inl same ↦ ground (
          arith,
          same,
          eq_iff erased type,
          eq_iff id other_id,
          lookup-insert erased type after s.store,
          lookup-delete id other_id (bucket erased s),
        )
      ]

module _ (host : Host) (tables : Tables) (system : SystemId) (first_8 : String) where
  abbrev pub perform : Write → State → State
  perform (put now r id) s = (upsert host tables system now first_8 r (some id) s).1
  perform (erase now type id) s = (remove system now type id s).1

  abbrev pub perform_all : List Write → State → State
  perform_all [] s = s
  perform_all (w ∷ ws) s = perform_all ws (perform w s)

  -- what a write means for the table
  abbrev pub write : Write → Table → Table
  write (put now r id) table type other_id field =
      if r.type == type && id == other_id
      then or_else (lookup field (from_canonical_fields host tables system r.type r.fields))
          (table type other_id field)
      else table type other_id field
  write (erase now erased id) table type other_id field =
      if erased == type && id == other_id then none else table type other_id field

  abbrev pub write_all : List Write → Table → Table
  write_all [] table = table
  write_all (w ∷ ws) table = write_all ws (write w table)

  abbrev pub table_of : State → Table
  table_of s type id field = peek type id field s

  table_of-perform :
      (w : Write) (s : State) (type id field : String)
      → table_of (perform w s) type id field ≡ write w (table_of s) type id field
  table_of-perform (put now r id) s type other_id field =
      (peek-upsert host tables system now first_8 r id s type other_id field).0
  table_of-perform (erase now erased id) s type other_id field =
      peek-remove system now erased id s type other_id field

  -- The connector refines a table of values: after any sequence of writes under known ids and of
  -- removals, its records have the values that the same writes leave in the table, where a write
  -- overrides the fields that its payload has.
  pub table_of-perform_all :
      (ws : List Write) (s : State) → table_of (perform_all ws s) ≡ write_all ws (table_of s)
  table_of-perform_all [] s = refl
  table_of-perform_all (w ∷ ws) s =
      table_of-perform_all ws (perform w s)
      ∙ (λ i. write_all ws (λ type id field. table_of-perform w s type id field i))
