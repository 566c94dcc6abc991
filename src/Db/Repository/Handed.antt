-- ===== src/Db/Repository/Handed.antt =====
-- Which statements the helpers of db/repository.go hand to the database.
use go_cook.Shared.{
  ◌≡◌, ◌⊎◌, inl, inr, String, Bool, true, false, List, ◌∷◌, arith, Bool-cases, ◌&&◌, contains, some,
}
use go_cook.Db.Sql.{Sql, Rows}
use go_cook.Db.Repository.{
  Driver, unknown, mysql, postgres, check_driver, query_validation, save, save_mysql, save_postgres,
  find_all, find_by_id, update, select_query, insert_query, update_query,
}
use go_cook.Db.Repository.Guards.{
  Helper, saves, finds_all, finds_by_id, updates, run_helper, refusal, run_helper-refused,
}

-- The statements that the database was given, the latest first: a text counts where it is prepared,
-- executed or queried, and a prepared statement that runs is not given again.
pub record Log (sql : Sql) : Type 0 where
  pub handed : sql.World → List String
  pub handed-prepare :
      (query : String) (w : sql.World) → handed (sql.prepare query w).1 ≡ query ∷ handed w
  pub handed-exec :
      (query : String) (values : List sql.Value) (w : sql.World)
      → handed (sql.exec query values w).1 ≡ query ∷ handed w
  pub handed-query :
      (query : String) (w : sql.World) → handed (sql.query query w).1 ≡ query ∷ handed w
  pub handed-query_row :
      (query : String) (values : List sql.Value) (w : sql.World)
      → handed (sql.query_row query values w).1 ≡ query ∷ handed w
  pub handed-close_stmt :
      (stmt : sql.Stmt) (w : sql.World) → handed (sql.close_stmt stmt w) ≡ handed w
  pub handed-stmt_exec :
      (stmt : sql.Stmt) (values : List sql.Value) (w : sql.World)
      → handed (sql.stmt_exec stmt values w).1 ≡ handed w
  pub handed-stmt_query_row :
      (stmt : sql.Stmt) (values : List sql.Value) (w : sql.World)
      → handed (sql.stmt_query_row stmt values w).1 ≡ handed w
  pub handed-last_insert_id :
      (outcome : sql.Outcome) (w : sql.World) → handed (sql.last_insert_id outcome w).1 ≡ handed w
  pub handed-end_rows :
      (rows : Rows sql.Value) (w : sql.World) → handed (sql.end_rows rows w) ≡ handed w

abbrev is_known : Driver → Bool
is_known unknown = false
is_known mysql = true
is_known postgres = true

module _ (sql : Sql) (log : Log sql) where
  open sql use {World, Value}
  open log use {
    handed, handed-prepare, handed-exec, handed-query, handed-query_row, handed-close_stmt,
    handed-stmt_exec, handed-stmt_query_row, handed-last_insert_id, handed-end_rows,
  }

  -- The statements that a helper takes: those with its keyword, and to save only those with a
  -- placeholder of a known driver.
  abbrev pub takes : Helper sql → String → Bool
  takes (saves _) query = contains query insert_query && is_known (check_driver query)
  takes (finds_all _) query = contains query select_query
  takes (finds_by_id _ _) query = contains query select_query
  takes (updates _) query = contains query update_query

  taken-handed :
      (h : Helper sql) (query : String) (world : World)
      → takes h query ≡ true
      → handed (run_helper sql h query world).1 ≡ query ∷ handed world
  unfolding save save_mysql save_postgres find_all find_by_id update query_validation
  taken-handed (saves requests) query world t = grind (
    arith, handed-prepare, handed-query_row, handed-close_stmt, handed-stmt_exec,
    handed-last_insert_id,
  )
  taken-handed (finds_all zeros) query world t = grind (arith, handed-query, handed-end_rows)
  taken-handed (finds_by_id id given) query world t =
      grind (arith, handed-prepare, handed-close_stmt, handed-stmt_query_row)
  taken-handed (updates requests) query world t = grind (arith, handed-exec)

  not_taken-refused :
      (h : Helper sql) (query : String) (world : World)
      → takes h query ≡ false
      → run_helper sql h query world ≡ (some (refusal sql h query), world)
  unfolding save
  not_taken-refused (saves requests) query world t =
      ground (arith, run_helper-refused sql (saves requests) query world)
  not_taken-refused (finds_all zeros) query world t =
      run_helper-refused sql (finds_all zeros) query world t
  not_taken-refused (finds_by_id id given) query world t =
      run_helper-refused sql (finds_by_id id given) query world t
  not_taken-refused (updates requests) query world t =
      run_helper-refused sql (updates requests) query world t

  -- A helper gives the database the caller's statement, exactly once and unchanged, whatever then
  -- fails, if the statement has the helper's keyword, and for `Save` a `?` or a `$` too. Otherwise it
  -- gives it nothing: it returns an error and the world is as it was.
  pub run_helper-handed :
      (h : Helper sql) (query : String) (world : World)
      → ((takes h query ≡ true) × (handed (run_helper sql h query world).1 ≡ query ∷ handed world))
        ⊎ ((takes h query ≡ false)
            × (run_helper sql h query world ≡ (some (refusal sql h query), world)))
  run_helper-handed h query world = elim (Bool-cases (takes h query)) [
    | inl t ↦ inl (t, taken-handed h query world t)
    | inr t ↦ inr (t, not_taken-refused h query world t)
  ]
