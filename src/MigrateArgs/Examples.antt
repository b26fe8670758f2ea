-- ===== src/MigrateArgs/Examples.antt =====
-- src/cli/migrateArgs.ts: a command line.
use hubspot_salesforce_conne.Prelude.{◌≡◌, refl, false, none, some, [], ◌∷◌}
use hubspot_salesforce_conne.Prelude.Text.{split_at}
use hubspot_salesforce_conne.Types.{hubspot}
use hubspot_salesforce_conne.Exec.{ok}
use hubspot_salesforce_conne.MigrateArgs.{
  MigrationCliOptions, flag_value, system_of, listed_types, parse_migration_args,
}

abbrev options : MigrationCliOptions
options = record {
  from = hubspot;
  types = some ("deal" ∷ "contact" ∷ []);
  limit = none;
  dry_run = false;
}

-- the types are listed once each, and `--confirm` permits writes
accepted :
    parse_migration_args
      (λ s. s)
      (λ s. none)
      ("--from" ∷ "hubspot" ∷ "--types" ∷ "deal,,contact,deal" ∷ "--confirm" ∷ [])
    ≡ ok options
unfolding parse_migration_args flag_value system_of listed_types split_at
accepted = refl
