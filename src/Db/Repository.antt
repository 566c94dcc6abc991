-- ===== src/Db/Repository.antt =====
-- db/repository.go: the generic helpers over `Trigger`.
pub mod Guards
pub mod Scans
pub mod Statements
pub mod Handed
use go_cook.Shared.{
  ℕ, String, Bool, true, false, Option, none, some, List, [], ◌∷◌, ◌++◌, branch, ◌<>◌, contains,
  Error, sentinel, new, wrap, is_error, Result, ok, err, Action, pure, fail, ◌>>=◌, ◌>>◌, wrapping,
  from_result, modify,
}
use go_cook.Shared.Int.{ℤ, pos, bits64}
use go_cook.Shared.Format.{print, sprintf, str, uint64}
use go_cook.Db.Sql.{Sql}

abbrev pub select_query : String
select_query = "SELECT"

abbrev pub insert_query : String
insert_query = "INSERT"

abbrev pub update_query : String
update_query = "UPDATE"

-- `sql.ErrConnDone` and `sql.ErrNoRows`
abbrev pub err_conn_done : Error
err_conn_done = sentinel "sql.ErrConnDone"

abbrev pub err_no_rows : String
err_no_rows = "sql.ErrNoRows"

-- `MySQL = iota + 1` and `PostgreSQL`; `unknown` is 0.
pub data Driver : Type 0 where
  unknown mysql postgres : Driver

-- `QueryValidation`
unfoldable pub query_validation : String → String → Result (Unit {0})
query_validation query command = elim (contains query command) [
  | true ↦ ok tt
  | false ↦ err (new "the query command is not valid")
]

-- `CheckDriverBasedExpression`
unfoldable pub check_driver : String → Driver
check_driver query = elim (contains query "?") [
  | true ↦ mysql
  | false ↦ elim (contains query "$") [ true ↦ postgres | false ↦ unknown ]
]

-- The statement that `Delete` hands to the database.
unfoldable pub delete_statement : String → ℕ → String
delete_statement table id = sprintf "DELETE FROM %s WHERE id = ?" (str table ∷ uint64 id ∷ [])

module _ (sql : Sql) where
  open sql use {World, Value, Stmt}

  -- The body after a successful `PrepareContext`, with the deferred `stmt.Close()`.
  abbrev pub with_stmt : {A : Type 0} → Stmt → Action World A → Action World A
  with_stmt stmt m world = let (x, world') = m world in (x, sql.close_stmt stmt world')

  -- `saveMySQL`: `uint64(id)` keeps the bits of the `int64`
  unfoldable pub save_mysql : String → List Value → Action World ℕ
  save_mysql query requests = do
    from_result (query_validation query insert_query)
    stmt ← sql.prepare query
    with_stmt stmt (do
      outcome ← sql.stmt_exec stmt requests
      id ← sql.last_insert_id outcome
      pure (bits64 id))

  -- `savePostgres`
  unfoldable pub save_postgres : String → List Value → Action World ℕ
  save_postgres query requests = do
    from_result (query_validation query insert_query)
    row ← sql.query_row query requests
    pure (bits64 (sql.to_uint64 row))

  -- `Save`
  unfoldable pub save : String → List Value → Action World ℕ
  unfolding check_driver
  save query requests = elim (check_driver query) [
    | mysql ↦ save_mysql query requests
    | postgres ↦ save_postgres query requests
    | unknown ↦ fail err_conn_done
  ]

  -- The loop of `FindAll`. `buffer` holds the values behind `ptrs`: every `Scan` is given the
  -- pointers to them, with the values that the row before has left, and each round copies what they
  -- hold after it into a new struct.
  unfoldable pub scan_rows :
      List (List Value → Result (List Value))
      → List Value
      → List (List Value)
      → Result (List (List Value))
  scan_rows [] buffer result = ok result
  scan_rows (scan ∷ rest) buffer result = elim (scan buffer) [
    | ok values ↦ scan_rows rest values (result ++ (values ∷ []))
    | err e ↦ err e
  ]

  -- `FindAll`, from the zero values of the fields
  unfoldable pub find_all : String → List Value → Action World (List (List Value))
  find_all query zeros = do
    from_result (query_validation query select_query)
    rows ← sql.query query
    found ← from_result (scan_rows rows.visited zeros [])
    modify (sql.end_rows rows)
    pure found

  -- `Delete`
  unfoldable pub delete : String → ℕ → Action World (Unit {0})
  delete table id = do sql.exec (delete_statement table id) (sql.of_uint64 (pos id) ∷ []); pure tt

  -- The errors of `FindByID` after the scan.
  unfoldable pub scan_error : ℕ → Error → Error
  scan_error id e = elim (is_error e err_no_rows) [
    | true ↦ wrap ("no rows found for ID " <> print id <> ": ") e
    | false ↦ wrap ("failed to scan result for ID " <> print id <> ": ") e
  ]

  abbrev pub map_error : {A : Type 0} → (Error → Error) → Action World A → Action World A
  map_error f m world =
      let (x, world') = m world in elim x [ ok a ↦ (ok a, world') | err e ↦ (err (f e), world') ]

  -- `FindByID`: the flag says that `result` is not nil; the fields it then holds are returned
  unfoldable pub find_by_id : String → ℕ → Bool → Action World (List Value)
  find_by_id query id has_result = do
    wrapping "query validation failed: " (from_result (query_validation query select_query))
    stmt ← wrapping "failed to prepare context: " (sql.prepare query)
    with_stmt stmt (
        branch has_result
          (map_error (scan_error id) (sql.stmt_query_row stmt (sql.of_uint64 (pos id) ∷ [])))
          (fail (new "result argument must be a non-nil pointer")))

  -- `Update`
  unfoldable pub update : String → List Value → Action World (Unit {0})
  update query requests = do
    from_result (query_validation query update_query)
    sql.exec query requests
    pure tt
