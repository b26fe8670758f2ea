-- ===== src/Preflight/Sound.antt =====
-- src/engine/preflight.ts: what a report that finds no error means.
use hubspot_salesforce_conne.Prelude.{
  ℕ, String, Bool, true, false, not, ◌&&◌, ◌||◌, ◌≡◌, refl, Option, none, some, List, [], ◌∷◌, ◌++◌,
  any, all, any-append, is_some, arith,
}
use hubspot_salesforce_conne.Prelude.Dict.{Dict}
use hubspot_salesforce_conne.Prelude.Text.{includes}
use hubspot_salesforce_conne.Types.{SystemId, other}
use hubspot_salesforce_conne.Exec.{ok, bind_ok, pure, ◌>>=◌, ◌>>◌}
use hubspot_salesforce_conne.Host.{Host}
use hubspot_salesforce_conne.IdMap.{KeyFields}
use hubspot_salesforce_conne.Mapping.{FieldRule, Tables, field_rules}
use hubspot_salesforce_conne.Schema.{SchemaField, is_set}
use hubspot_salesforce_conne.Preflight.{
  PreflightReport, is_error, by_name, in_source, source_issue, source_issues, target_of, source_of,
  missing_issue, read_only_issue, is_converted, mismatch, mismatch_issue, options_issue,
  target_issues, is_mapped, required_issues, compatible,
}
use hubspot_salesforce_conne.Preflight.Run.{
  Services, profile_natural_keys, mapping_issues, report_of, check_schemas, run,
}

-- a field that is read is there, or reached through a relationship
abbrev pub source_passes : SystemId → Dict SchemaField → FieldRule → Bool
source_passes from source rule = in_source from source rule || includes rule.native "."

-- a field that is written is there, or reached through a relationship, and accepts values
abbrev pub is_writable : Option SchemaField → FieldRule → Bool
is_writable none rule = rule.read_only || includes rule.native "."
is_writable (some field) rule = rule.read_only || not (is_set field.read_only)

-- The types belong together, or one of the two rules has transforms in both directions
-- (`converted`), or the target's rule, which is `rule`, names some transform. The source's rule with
-- a transform in one direction alone is an error.
abbrev pub types_fit : Bool → FieldRule → Option SchemaField → Option SchemaField → Bool
types_fit converted rule (some s) (some t) =
    compatible s.type t.type
    || converted
    || is_some rule.to_canonical
    || is_some rule.from_canonical
types_fit converted rule _ _ = true

abbrev pub target_passes :
    SystemId → Dict SchemaField → Dict SchemaField → List FieldRule → FieldRule → Bool
target_passes to source target source_map rule =
    is_writable (target_of to source target source_map rule) rule
    && types_fit (is_converted to source target source_map rule) rule
        (source_of to source target source_map rule) (target_of to source target source_map rule)

abbrev pub field_passes : SystemId → List FieldRule → SchemaField → Bool
field_passes to target_map field =
    not (is_set field.required) || is_set field.read_only || is_mapped to target_map field

module _ (from : SystemId) (source : Dict SchemaField) where
  source_issue_lem :
      (rule : FieldRule)
      → not (any is_error (source_issue from source rule)) ≡ source_passes from source rule
  unfolding source_issue
  source_issue_lem rule = ground arith

  source_issues_lem :
      (rules : List FieldRule)
      → not (any is_error (source_issues from source rules)) ≡ all (source_passes from source) rules
  unfolding source_issues
  source_issues_lem [] = refl
  source_issues_lem (rule ∷ rules) = ground (
    arith,
    any-append is_error (source_issue from source rule) (source_issues from source rules),
    source_issue_lem rule,
    source_issues_lem rules,
  )

module _ (to : SystemId) (source target : Dict SchemaField) (source_map : List FieldRule) where
  writable_lem :
      (rule : FieldRule)
      → not (
          any is_error (missing_issue to source target source_map rule)
          || any is_error (read_only_issue to source target source_map rule))
        ≡ is_writable (target_of to source target source_map rule) rule
  unfolding missing_issue read_only_issue
  writable_lem rule = ground arith

  mismatch_lem :
      (rule : FieldRule) (s t : Option SchemaField)
      → not (any is_error (mismatch to source target source_map rule s t))
        ≡ types_fit (is_converted to source target source_map rule) rule s t
  unfolding mismatch
  mismatch_lem rule none t = refl
  mismatch_lem rule (some s) none = refl
  mismatch_lem rule (some s) (some t) = ground arith

  options_lem :
      (rule : FieldRule) → any is_error (options_issue to source target source_map rule) ≡ false
  unfolding options_issue
  options_lem rule = ground arith

  gathered :
      (m r t rest w f others : Bool)
      → not (m || r) ≡ w
      → not t ≡ f
      → not rest ≡ others
      → not (m || (r || (t || (false || rest)))) ≡ ((w && f) && others)
  gathered true r t rest w f others a b c = ground (arith, a, b, c)
  gathered false true t rest w f others a b c = ground (arith, a, b, c)
  gathered false false t rest w f others a b c = ground (arith, a, b, c)

  target_issues_lem :
      (rules : List FieldRule)
      → not (any is_error (target_issues to source target source_map rules))
        ≡ all (target_passes to source target source_map) rules
  unfolding target_issues mismatch_issue
  target_issues_lem [] = refl
  target_issues_lem (rule ∷ rules) =
      let m = missing_issue to source target source_map rule in
      let r = read_only_issue to source target source_map rule in
      let t = mismatch_issue to source target source_map rule in
      let o = options_issue to source target source_map rule in
      let rest = target_issues to source target source_map rules in
      rw
        (
          any-append is_error m (r ++ (t ++ (o ++ rest))),
          any-append is_error r (t ++ (o ++ rest)),
          any-append is_error t (o ++ rest),
          any-append is_error o rest,
          options_lem rule,
        )
        (gathered (any is_error m) (any is_error r) (any is_error t) (any is_error rest)
          (is_writable (target_of to source target source_map rule) rule)
          (types_fit (is_converted to source target source_map rule) rule
            (source_of to source target source_map rule)
            (target_of to source target source_map rule))
          (all (target_passes to source target source_map) rules) (writable_lem rule)
          (mismatch_lem rule (source_of to source target source_map rule)
            (target_of to source target source_map rule))
          (target_issues_lem rules))

module _ (to : SystemId) (target_map : List FieldRule) where
  required_issues_lem :
      (fields : List SchemaField)
      → not (any is_error (required_issues to target_map fields))
        ≡ all (field_passes to target_map) fields
  unfolding required_issues
  required_issues_lem [] = refl
  required_issues_lem (field ∷ fields) = ground (arith, required_issues_lem fields)

-- the mapping of an object fits both schemas
abbrev pub mapping_passes : Tables → SystemId → String → List SchemaField → List SchemaField → Bool
mapping_passes tables from type source target =
    all (source_passes from (by_name source [])) (field_rules from type tables)
    && (all
          (target_passes (other from) (by_name source []) (by_name target [])
            (field_rules from type tables))
          (field_rules (other from) type tables)
        && all (field_passes (other from) (field_rules (other from) type tables)) target)

module _ {W : Type 0} (v : Services W) (host : Host) (k : KeyFields) (tables : Tables)
    (schema_hash : List SchemaField → String) (now : ℕ) where
  mapping_issues_lem :
      (from : SystemId) (type : String) (source target : List SchemaField)
      → not (any is_error (mapping_issues v host k tables schema_hash now from type source target))
        ≡ mapping_passes tables from type source target
  unfolding mapping_issues
  mapping_issues_lem from type source target =
      let source_map = field_rules from type tables in
      let target_map = field_rules (other from) type tables in
      let a = source_issues from (by_name source []) source_map in
      let b =
        target_issues (other from) (by_name source []) (by_name target []) source_map target_map in
      let c = required_issues (other from) target_map target in
      rw
        (
          any-append is_error a (b ++ c),
          any-append is_error b c,
          ← source_issues_lem from (by_name source []) source_map,
          ← target_issues_lem (other from) (by_name source []) (by_name target []) source_map
              target_map,
          ← required_issues_lem (other from) target_map target,
        )
        (none_of (any is_error a) (any is_error b) (any is_error c))
    where
      none_of : (a b c : Bool) → not (a || (b || c)) ≡ (not a && (not b && not c))
      none_of true b c = refl
      none_of false true c = refl
      none_of false false c = refl

  -- what a report was made from
  abbrev pub IsGrounded : SystemId → String → W → PreflightReport → Type 0
  IsGrounded from type w report =
      (source : List SchemaField) × (target : List SchemaField) × (between : W) × (after : W)
      × (v.describe from type w ≡ (ok source, between))
      × (v.describe (other from) type between ≡ (ok target, after))
      × (report.ok ≡ (
          mapping_passes tables from type source target
          && not (
              any is_error
                (profile_natural_keys v host k tables schema_hash now from type after).0)))

  checked :
      (from : SystemId) (type : String) (source target : List SchemaField) (w w' : W)
      (report : PreflightReport)
      → check_schemas v host k tables schema_hash now from type source target w ≡ (ok report, w')
      → report.ok ≡ (
          mapping_passes tables from type source target
          && not
              (any is_error (profile_natural_keys v host k tables schema_hash now from type w).0))
  unfolding check_schemas report_of
  checked from type source target w w' report h =
      let profiled = (profile_natural_keys v host k tables schema_hash now from type w).0 in
      let mapped = mapping_issues v host k tables schema_hash now from type source target in
      let made =
        report_of v host k tables schema_hash now from type source target (mapped ++ profiled) in
      let (a, t, saved, later) =
        bind_ok (v.save from type (schema_hash source) source)
          (λ _. v.save (other from) type (schema_hash target) target >> pure made)
          (profile_natural_keys v host k tables schema_hash now from type w).1 w' report h in
      let (b, u, saved', done) =
        bind_ok (v.save (other from) type (schema_hash target) target) (λ _. pure made) t w' report
          later in
      ground (
        arith,
        done,
        any-append is_error mapped profiled,
        mapping_issues_lem from type source target,
      )

  -- A report is ok exactly if the mapping fits the two schemas that were read and sampling the
  -- natural keys showed no error. The mapping fits if every source field of a rule is there or
  -- reached through a relationship; every target field of a rule is there or reached through one,
  -- and writable, unless the rule only reads it; the types of source and target belong together, or
  -- the target's rule or the source's has real transforms in both directions, or the target's rule
  -- names some transform (one of the source's rule in one direction alone does not do); and every
  -- required field that can be written has a rule.
  pub run_lem :
      (from : SystemId) (type : String) (w w' : W) (report : PreflightReport)
      → run v host k tables schema_hash now from type w ≡ (ok report, w')
      → IsGrounded from type w report
  unfolding run
  run_lem from type w w' report h =
      let (source, between, first, more) =
        bind_ok (v.describe from type)
          (λ source.
            v.describe (other from) type
            >>= check_schemas v host k tables schema_hash now from type source)
          w w' report h in
      let (target, after, second, done) =
        bind_ok (v.describe (other from) type)
          (check_schemas v host k tables schema_hash now from type source) between w' report more in
      (
        source,
        target,
        between,
        after,
        first,
        second,
        checked from type source target after w' report done,
      )
