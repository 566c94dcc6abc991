-- ===== src/Db/Migration.antt =====
-- db/migration.go: the registered scripts, and their run.
pub mod Order
use go_cook.Shared.{String, List, [], ◌∷◌, ◌++◌, Result, Action, pure, ◌>>=◌, ◌>>◌}
use go_cook.Db.Sql.{Sql}

-- `MigrationWorker`: its scripts; the client is the interface.
pub record MigrationWorker : Type 0 where
  pub tables : List String

-- `InitMigrationWorker`
unfoldable pub init_migration_worker : MigrationWorker
init_migration_worker = record { tables = [] }

-- The loop of `RegisterMigration`.
unfoldable pub append_all : List String → List String → List String
append_all tables [] = tables
append_all tables (query ∷ rest) = append_all (tables ++ (query ∷ [])) rest

-- `RegisterMigration`
unfoldable pub register_migration : List String → MigrationWorker → MigrationWorker
unfolding append_all
register_migration queries m = record { tables = append_all m.tables queries }

module _ (sql : Sql) where
  open sql use {World}

  -- The loop of `Migration`.
  unfoldable pub run_scripts : List String → Action World (Unit {0})
  run_scripts [] = pure tt
  run_scripts (script ∷ rest) = do sql.exec script []; run_scripts rest

  -- `Migration`
  unfoldable pub migration : MigrationWorker → Action World (Unit {0})
  unfolding run_scripts
  migration m = run_scripts m.tables
