-- ===== src/MigrateArgs.antt =====
-- src/cli/migrateArgs.ts: the arguments of the migration's command line.
mod Examples
use hubspot_salesforce_conne.Prelude.{
  ℕ, ◌≡◌, refl, String, Bool, true, false, not, ◌&&◌, Option, none, some, List, [], ◌∷◌, map, ◌==◌,
  if◌then◌else◌, contains, dedupe, keep, get_or, arith,
}
use hubspot_salesforce_conne.Prelude.Text.{split_at}
use hubspot_salesforce_conne.Types.{SystemId, salesforce, hubspot}
use hubspot_salesforce_conne.Failure.{Failure, plain}
use hubspot_salesforce_conne.Exec.{Result, ok, err}

pub record MigrationCliOptions : Type 0 where
  pub from : SystemId
  -- absent where `--types` is
  pub types : Option (List String)
  pub limit : Option ℕ
  pub dry_run : Bool

-- `argv[index + 1]` for the first occurrence of a flag
unfoldable pub flag_value : String → List String → Option String
flag_value flag [] = none
flag_value flag (a ∷ []) = none
flag_value flag (a ∷ b ∷ rest) = if a == flag then some b else flag_value flag (b ∷ rest)

unfoldable pub system_of : String → Option SystemId
system_of text =
    if text == "salesforce"
    then some salesforce
    else if text == "hubspot"
    then some hubspot
    else none

-- The runtime's functions: `s.trim()`, and `Number(s)` where it is an integer above 0.
module _ (trim : String → String) (positive_integer : String → Option ℕ) where
  unfoldable pub listed_types : String → List String
  listed_types text = dedupe (keep (λ value. not (value == "")) (map trim (split_at 44 text)))

  -- `none` is the throw
  parsed_types : Option String → Option (Option (List String))
  unfolding listed_types
  parsed_types none = some none
  parsed_types (some text) = elim (listed_types text) [
    | [] ↦ none
    | type ∷ types ↦ some (some (type ∷ types))
  ]

  parsed_limit : Option String → Option (Option ℕ)
  parsed_limit none = some none
  parsed_limit (some text) = elim (positive_integer text) [ none ↦ none | some n ↦ some (some n) ]

  unfoldable pub parse_migration_args : List String → Result MigrationCliOptions
  unfolding parsed_types parsed_limit
  parse_migration_args argv = elim (system_of (get_or (flag_value "--from" argv) "salesforce")) [
    | none ↦ err (plain "--from must be salesforce or hubspot")
    | some from ↦ elim (parsed_types (flag_value "--types" argv)) [
      | none ↦ err (plain "--types must list at least one object")
      | some types ↦ elim (parsed_limit (flag_value "--limit" argv)) [
        | none ↦ err (plain "--limit must be a positive integer")
        | some limit ↦
            if contains "--confirm" argv && contains "--dry-run" argv
            then err (plain "--confirm and --dry-run cannot be used together")
            else ok (record {
              from = from;
              types = types;
              limit = limit;
              dry_run = not (contains "--confirm" argv);
            })
      ]
    ]
  ]
