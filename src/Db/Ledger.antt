-- ===== src/Db/Ledger.antt =====
-- What the helpers of db/repository.go and the migrations of db/migration.go leave open.
pub mod Rules
pub mod Balance
use go_cook.Shared.{
  ◌≡◌, refl, ap, ◌∙◌, inl, inr, ℕ, zero, suc, ◌+◌, ◌-◌, String, Bool, true, false, Option, none,
  some, List, [], ◌∷◌, arith, Bool-cases, Error, Result, ok, err, Action, from_result, fail, branch,
  wrapping, new, pure, ◌>>=◌, Result-split, contains, if◌then◌else◌,
}
use go_cook.Shared.Lands.{Lands, Lands-bind, Lands-wrapping}
use go_cook.Shared.Int.{bits64, pos}
use go_cook.Db.Sql.{Sql, Rows}
use go_cook.Db.Repository.{
  unknown, mysql, postgres, check_driver, query_validation, save, save_mysql, save_postgres,
  scan_error, update_query, delete_statement, map_error, err_conn_done, insert_query, find_all,
  find_by_id, update, delete, with_stmt, select_query, scan_rows,
}
use go_cook.Db.Repository.Guards.{
  failure, Helper, saves, finds_all, finds_by_id, updates, run_helper,
}
use go_cook.Db.Repository.Scans.{all_rows, find_all-all_rows}
use go_cook.Db.Repository.Statements.{inserted}
use go_cook.Db.Migration.{MigrationWorker, migration, run_scripts}

-- The number of statements and rows that are open, and how the calls of database/sql change it.
pub record Ledger (sql : Sql) : Type 0 where
  pub open_count : sql.World → ℕ
  pub prepared :
      (query : String) (w : sql.World)
      → Lands
          (λ w'. open_count w' ≡ suc (open_count w))
          (λ w'. open_count w' ≡ open_count w)
          (sql.prepare query w)
  pub closed :
      (stmt : sql.Stmt) (w : sql.World) → open_count (sql.close_stmt stmt w) ≡ open_count w - 1
  pub executed :
      (stmt : sql.Stmt) (values : List sql.Value) (w : sql.World)
      → open_count (sql.stmt_exec stmt values w).1 ≡ open_count w
  pub scanned :
      (stmt : sql.Stmt) (values : List sql.Value) (w : sql.World)
      → open_count (sql.stmt_query_row stmt values w).1 ≡ open_count w
  pub identified :
      (outcome : sql.Outcome) (w : sql.World)
      → open_count (sql.last_insert_id outcome w).1 ≡ open_count w
  pub ran :
      (query : String) (values : List sql.Value) (w : sql.World)
      → open_count (sql.exec query values w).1 ≡ open_count w
  pub queried :
      (query : String) (w : sql.World)
      → Lands
          (λ w'. open_count w' ≡ suc (open_count w))
          (λ w'. open_count w' ≡ open_count w)
          (sql.query query w)
  pub ended :
      (rows : Rows sql.Value) (w : sql.World) → open_count (sql.end_rows rows w) ≡ open_count w - 1
  pub answered :
      (query : String) (values : List sql.Value) (w : sql.World)
      → open_count (sql.query_row query values w).1 ≡ open_count w

-- A call of the package by an application.
pub data Call (sql : Sql) : Type 0 where
  helps : Helper sql → String → Call sql
  deletes : String → ℕ → Call sql
  migrates : MigrationWorker → Call sql

module _ (sql : Sql) where
  open sql use {World, Value, Stmt, Outcome}

  abbrev pub run_call : Call sql → World → Option Error × World
  run_call (helps h query) w = run_helper sql h query w
  run_call (deletes table id) w = failure sql (delete sql table id w)
  run_call (migrates m) w = failure sql (migration sql m w)

  -- 1 for rows of which one does not scan.
  abbrev pub cut_short : List Value → Result (Rows Value) → ℕ
  cut_short zeros (ok rows) = elim (all_rows rows.visited zeros) [ ok _ ↦ 0 | err _ ↦ 1 ]
  cut_short zeros (err e) = 0

  -- 1 for a `FindAll` that meets a row that does not scan.
  abbrev cut_query : Bool → List Value → String → World → ℕ
  cut_query true zeros query w = cut_short zeros (sql.query query w).0
  cut_query false zeros query w = 0

  abbrev pub breaks_off : Call sql → World → ℕ
  breaks_off (helps (finds_all zeros) query) w =
      cut_query (contains query select_query) zeros query w
  breaks_off (helps (saves _) _) w = 0
  breaks_off (helps (finds_by_id _ _) _) w = 0
  breaks_off (helps (updates _) _) w = 0
  breaks_off (deletes _ _) w = 0
  breaks_off (migrates _) w = 0

  -- The world after a sequence of calls, and how many of them break off.
  unfoldable pub run_calls : List (Call sql) → World → World
  run_calls [] w = w
  run_calls (c ∷ rest) w = run_calls rest (run_call c w).1

  unfoldable pub break_offs : List (Call sql) → World → ℕ
  break_offs [] w = 0
  break_offs (c ∷ rest) w = breaks_off c w + break_offs rest (run_call c w).1
