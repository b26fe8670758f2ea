-- ===== src/Preflight/Run.antt =====
-- src/engine/preflight.ts: the sampled natural keys, and the whole check.
use hubspot_salesforce_conne.Prelude.{
  ℕ, ◌+◌, String, not, Option, none, some, List, [], ◌∷◌, ◌++◌, if◌then◌else◌, any, length, join,
  get_or, count_if, ltb, nat_eq, map_option,
}
use hubspot_salesforce_conne.Prelude.Dict.{Dict, lookup, insert, values}
use hubspot_salesforce_conne.Prelude.Time.{stamp, nat_text}
use hubspot_salesforce_conne.Types.{SystemId, CanonicalRecord, NaturalKeyQuery, other, set_system}
use hubspot_salesforce_conne.Exec.{Exec, Result, ok, err, pure, ◌>>=◌, ◌>>◌}
use hubspot_salesforce_conne.Host.{Host}
use hubspot_salesforce_conne.IdMap.{KeyFields, natural_key_fields, natural_key_query}
use hubspot_salesforce_conne.Mapping.{Tables, field_rules}
use hubspot_salesforce_conne.Schema.{SchemaField}
use hubspot_salesforce_conne.Preflight.{
  PreflightReport, PreflightIssue, error, warning, issue, is_error, by_name, source_issues,
  target_issues, required_issues,
}

pub record KeyProfile : Type 0 where
  pub missing : ℕ
  pub duplicates : ℕ

-- the loop of `keyProfile` on the keys of the records: the counts and how many have no key
unfoldable pub count_keys : List (Option String) → Dict ℕ → ℕ → Dict ℕ × ℕ
count_keys [] counts missing = (counts, missing)
count_keys (none ∷ keys) counts missing = count_keys keys counts (missing + 1)
count_keys (some key ∷ keys) counts missing =
    count_keys keys (insert key (get_or (lookup key counts) 0 + 1) counts) missing

module _ (host : Host) (k : KeyFields) where
  unfoldable pub keys_of : List CanonicalRecord → List (Option String)
  keys_of [] = []
  keys_of (r ∷ rest) =
      map_option (λ (q : NaturalKeyQuery). q.key) (natural_key_query host k r) ∷ keys_of rest

  unfoldable pub key_profile : List CanonicalRecord → KeyProfile
  unfolding count_keys keys_of
  key_profile records =
      let (counts, missing) = count_keys (keys_of records) [] 0 in
      record { missing = missing; duplicates = count_if (ltb 1) (values counts) }

abbrev plural : ℕ → String
plural n = if nat_eq n 1 then "" else "s"

-- What the check calls, over the state `W` that these keep; `save` does nothing without a store of
-- snapshots.
pub record Services (W : Type 0) : Type 0 where
  pub describe : SystemId → String → Exec W (List SchemaField)
  pub list : SystemId → String → Exec W (List CanonicalRecord)
  pub save : SystemId → String → String → List SchemaField → Exec W (Unit {0})

module _ (from : SystemId) (type key : String) (source target : KeyProfile) where
  -- the issues of `profileNaturalKeys` when both samples are read
  unfoldable pub profile_issues : List PreflightIssue
  profile_issues =
      (if ltb 0 source.missing
        then issue warning "NATURAL_KEY_MISSING_VALUES" (some from) key (
            nat_text source.missing
            ∷ " sampled "
            ∷ type
            ∷ " record"
            ∷ plural source.missing
            ∷ " cannot be matched because "
            ∷ key
            ∷ " is empty"
            ∷ [])
          ∷ []
        else [])
      ++ ((if ltb 0 source.duplicates
            then issue warning "SOURCE_NATURAL_KEY_DUPLICATES" (some from) key (
                nat_text source.duplicates
                ∷ " duplicate "
                ∷ key
                ∷ " value"
                ∷ plural source.duplicates
                ∷ " found in the sampled source records"
                ∷ [])
              ∷ []
            else [])
          ++ (if ltb 0 target.duplicates
              then issue error "TARGET_NATURAL_KEY_DUPLICATES" (some (other from)) key (
                  nat_text target.duplicates
                  ∷ " duplicate "
                  ∷ key
                  ∷ " value"
                  ∷ plural target.duplicates
                  ∷ " found in the sampled destination records"
                  ∷ [])
                ∷ []
              else []))

module _ {W : Type 0} (v : Services W) (host : Host) (k : KeyFields) (tables : Tables)
    (schema_hash : List SchemaField → String) (now : ℕ) where
  sampled :
      SystemId → String → String → Result (KeyProfile × KeyProfile) × W → List PreflightIssue × W
  unfolding profile_issues
  sampled from type key (ok (source, target), w) = (profile_issues from type key source target, w)
  sampled from type key (err e, w) = (
    issue warning "NATURAL_KEY_PROFILE_UNAVAILABLE" none key
          ("Could not sample records to validate " ∷ key ∷ " coverage and uniqueness" ∷ [])
        ∷ [],
    w,
  )

  -- reading both samples may fail, and is then reported as an issue
  unfoldable pub profile_natural_keys : SystemId → String → W → List PreflightIssue × W
  unfolding sampled key_profile
  profile_natural_keys from type w = sampled from type (join " + " (natural_key_fields type k)) (
      (do
        source ← v.list from type
        target ← v.list (other from) type
        pure (key_profile host k source, key_profile host k target))
        w)

  -- the issues of the mapping
  unfoldable pub mapping_issues :
      SystemId → String → List SchemaField → List SchemaField → List PreflightIssue
  unfolding source_issues target_issues required_issues by_name
  mapping_issues from type source target =
      let source_map = field_rules from type tables in
      let target_map = field_rules (other from) type tables in
      source_issues from (by_name source []) source_map
      ++ (target_issues (other from) (by_name source []) (by_name target []) source_map target_map
          ++ required_issues (other from) target_map target)

  unfoldable pub report_of :
      SystemId
      → String
      → List SchemaField
      → List SchemaField
      → List PreflightIssue
      → PreflightReport
  report_of from type source target issues = record {
    ok = not (any is_error issues);
    from = from;
    to = other from;
    type = type;
    checked_at = stamp now;
    issues = issues;
    schemas =
        set_system from (some (record { hash = schema_hash source; fields = length source })) (
          set_system (other from)
            (some (record { hash = schema_hash target; fields = length target }))
            (record { sf = none; hs = none }));
  }

  -- what follows once both schemas are described
  unfoldable pub check_schemas :
      SystemId → String → List SchemaField → List SchemaField → Exec W PreflightReport
  unfolding profile_natural_keys mapping_issues report_of
  check_schemas from type source target w =
      let (profiled, w') = profile_natural_keys from type w in
      (v.save from type (schema_hash source) source
          >> (v.save (other from) type (schema_hash target) target
              >> pure (
                  report_of from type source target
                    (mapping_issues from type source target ++ profiled))))
        w'

  unfoldable pub run : SystemId → String → Exec W PreflightReport
  unfolding check_schemas
  run from type = do
    source ← v.describe from type
    target ← v.describe (other from) type
    check_schemas from type source target
