-- ===== src/Db/Ledger/Balance.antt =====
-- What is left open after any sequence of calls of db/repository.go and db/migration.go.
use go_cook.Shared.{
  ◌≡◌, refl, ap, ◌∙◌, inl, inr, ℕ, suc, ◌+◌, String, Bool, true, false, List, [], ◌∷◌, arith,
  Bool-cases, Error, Result, ok, err, Action, fail, branch, wrapping, new, pure, ◌>>=◌,
  Result-split, contains,
}
use go_cook.Shared.Lands.{Lands, Lands-wrapping}
use go_cook.Shared.Int.{bits64, pos}
use go_cook.Db.Sql.{Sql, Rows}
use go_cook.Db.Repository.{
  unknown, mysql, postgres, check_driver, query_validation, save, save_mysql, save_postgres,
  scan_error, update_query, delete_statement, map_error, err_conn_done, insert_query, find_all,
  find_by_id, update, delete, with_stmt, select_query,
}
use go_cook.Db.Repository.Guards.{failure, saves, finds_all, finds_by_id, updates}
use go_cook.Db.Repository.Scans.{all_rows, find_all-all_rows}
use go_cook.Db.Repository.Statements.{inserted}
use go_cook.Db.Migration.{migration, run_scripts}
use go_cook.Db.Ledger.{
  Ledger, Call, helps, deletes, migrates, run_call, cut_short, breaks_off, run_calls, break_offs,
}
use go_cook.Db.Ledger.Rules.{
  Counts, Keeps, keeps, kept, checked-Keeps, wrapped_check-Keeps, Keeps-bind, statement-Keeps,
}

module _ (sql : Sql) where
  open sql use {World, Value, Stmt, Outcome}

  -- What `FindByID` does with a prepared statement before it closes it.
  abbrev read_row : ℕ → Bool → Stmt → Action World (List Value)
  read_row id given stmt =
      branch given
        (map_error sql (scan_error sql id) (sql.stmt_query_row stmt (sql.of_uint64 (pos id) ∷ [])))
        (fail (new "result argument must be a non-nil pointer"))

  module _ (ledger : Ledger sql) where
    open ledger use {
      open_count, prepared, closed, executed, scanned, identified, ran, queried, ended, answered,
    }

    inserted-Keeps :
        (requests : List Value) (stmt : Stmt) (n : ℕ) (w : World)
        → Counts sql ledger n w
        → Keeps sql ledger n (inserted sql stmt requests w)
    inserted-Keeps requests stmt n w c =
        Keeps-bind sql ledger n (sql.stmt_exec stmt requests)
          (λ done. sql.last_insert_id done >>= λ id. pure (bits64 id)) w
          (keeps sql ledger n (sql.stmt_exec stmt requests w) (executed stmt requests w ∙ c))
          (λ done w' c'.
            Keeps-bind sql ledger n (sql.last_insert_id done) (λ id. pure (bits64 id)) w'
              (keeps sql ledger n (sql.last_insert_id done w') (identified done w' ∙ c'))
              (λ id w'' c''. c''))

    save_mysql-Keeps :
        (query : String) (requests : List Value) (w : World)
        → Keeps sql ledger (open_count w) (save_mysql sql query requests w)
    unfolding save_mysql
    save_mysql-Keeps query requests w =
        checked-Keeps sql ledger (open_count w) (query_validation query insert_query)
          (sql.prepare query >>= λ stmt. with_stmt sql stmt (inserted sql stmt requests)) w refl
          (statement-Keeps sql ledger (open_count w) (sql.prepare query)
            (λ stmt. inserted sql stmt requests) w (prepared query w) (inserted-Keeps requests))

    mapped-Keeps :
        (n : ℕ) (f : Error → Error) (x : Result (List Value) × World)
        → open_count x.1 ≡ n
        → Keeps sql ledger n (map_error sql f (λ _. x) x.1)
    mapped-Keeps n f (ok a, w) h = h
    mapped-Keeps n f (err e, w) h = h

    read-Keeps :
        (id : ℕ) (given : Bool) (stmt : Stmt) (n : ℕ) (w : World)
        → Counts sql ledger n w
        → Keeps sql ledger n (read_row id given stmt w)
    read-Keeps id true stmt n w c =
        mapped-Keeps n (scan_error sql id) (sql.stmt_query_row stmt (sql.of_uint64 (pos id) ∷ []) w)
          (scanned stmt (sql.of_uint64 (pos id) ∷ []) w ∙ c)
    read-Keeps id false stmt n w c = c

    find_by_id-Keeps :
        (query : String) (id : ℕ) (given : Bool) (w : World)
        → Keeps sql ledger (open_count w) (find_by_id sql query id given w)
    unfolding find_by_id
    find_by_id-Keeps query id given w =
        wrapped_check-Keeps sql ledger (open_count w) "query validation failed: "
          (query_validation query select_query)
          (wrapping "failed to prepare context: " (sql.prepare query) >>= λ stmt.
            with_stmt sql stmt (read_row id given stmt))
          w refl
          (statement-Keeps sql ledger (open_count w)
            (wrapping "failed to prepare context: " (sql.prepare query)) (read_row id given) w
            (Lands-wrapping (Counts sql ledger (suc (open_count w)))
              (Counts sql ledger (open_count w)) "failed to prepare context: " (sql.prepare query) w
              (prepared query w))
            (read-Keeps id given))

    exec-Keeps :
        (query : String) (values : List Value) (w : World)
        → Keeps sql ledger (open_count w) ((sql.exec query values >>= λ _. pure tt) w)
    exec-Keeps query values w =
        Keeps-bind sql ledger (open_count w) (sql.exec query values) (λ _. pure tt) w
          (keeps sql ledger (open_count w) (sql.exec query values w) (ran query values w))
          (λ _ w' c. c)

    save-Keeps :
        (query : String) (requests : List Value) (w : World)
        → Keeps sql ledger (open_count w) (save sql query requests w)
    unfolding save save_postgres
    save-Keeps query requests w =
        elim (check_driver query)
          as (λ d. Keeps sql ledger (open_count w) (
            elim d as (λ _. Action World ℕ) [
              | mysql ↦ save_mysql sql query requests
              | postgres ↦ save_postgres sql query requests
              | unknown ↦ fail err_conn_done
            ]
              w)) [
                | mysql ↦ save_mysql-Keeps query requests w
                | postgres ↦
                    checked-Keeps sql ledger (open_count w) (query_validation query insert_query)
                      (sql.query_row query requests >>= λ row. pure (bits64 (sql.to_uint64 row))) w
                      refl
                      (Keeps-bind sql ledger (open_count w) (sql.query_row query requests)
                        (λ row. pure (bits64 (sql.to_uint64 row))) w
                        (keeps sql ledger (open_count w) (sql.query_row query requests w)
                          (answered query requests w))
                        (λ row w' c. c))
                | unknown ↦ refl
              ]

    visited-open_count :
        (query : String) (zeros : List Value) (w : World) (x : Result (Rows Value) × World)
        → contains query select_query ≡ true
        → sql.query query w ≡ x
        → Lands (Counts sql ledger (suc (open_count w))) (Counts sql ledger (open_count w)) x
        → open_count (find_all sql query zeros w).1 ≡ open_count w + cut_short sql zeros x.0
    unfolding find_all query_validation
    visited-open_count query zeros w (ok rows, w') valid answered' p =
        elim (Result-split (all_rows rows.visited zeros)) [
          | inl (found, h) ↦
              ground
                (arith, find_all-all_rows sql query zeros w w' rows valid answered', ended rows w')
          | inr (e, h) ↦ ground (arith, find_all-all_rows sql query zeros w w' rows valid answered')
        ]
    visited-open_count query zeros w (err e, w') valid failed p = ground arith

    find_all-open_count :
        (query : String) (zeros : List Value) (w : World)
        → open_count (find_all sql query zeros w).1
          ≡ open_count w + breaks_off sql (helps (finds_all zeros) query) w
    unfolding find_all query_validation
    find_all-open_count query zeros w = elim (Bool-cases (contains query select_query)) [
      | inl h ↦
          ground
            (arith, visited-open_count query zeros w (sql.query query w) h refl (queried query w))
      | inr h ↦ ground arith
    ]

    failure-world : {A : Type 0} (x : Result A × World) → (failure sql x).1 ≡ x.1
    failure-world (ok _, w) = refl
    failure-world (err _, w) = refl

    run_scripts-Keeps :
        (scripts : List String) (n : ℕ) (w : World)
        → Counts sql ledger n w
        → Keeps sql ledger n (run_scripts sql scripts w)
    unfolding run_scripts
    run_scripts-Keeps [] n w c = c
    run_scripts-Keeps (script ∷ rest) n w c =
        Keeps-bind sql ledger n (sql.exec script []) (λ _. run_scripts sql rest) w
          (keeps sql ledger n (sql.exec script [] w) (ran script [] w ∙ c))
          (λ _ w' c'. run_scripts-Keeps rest n w' c')

    run_call-open_count :
        (call : Call sql) (w : World)
        → open_count (run_call sql call w).1 ≡ open_count w + breaks_off sql call w
    unfolding update query_validation delete migration
    run_call-open_count (helps (saves requests) query) w =
        kept sql ledger (open_count w) (save sql query requests w) (save-Keeps query requests w)
        ∙ omega arith
    run_call-open_count (helps (finds_all zeros) query) w =
        ap open_count (failure-world (find_all sql query zeros w))
        ∙ find_all-open_count query zeros w
    run_call-open_count (helps (finds_by_id id given) query) w =
        kept sql ledger (open_count w) (find_by_id sql query id given w)
          (find_by_id-Keeps query id given w)
        ∙ omega arith
    run_call-open_count (helps (updates requests) query) w =
        kept sql ledger (open_count w) (update sql query requests w) (
          checked-Keeps sql ledger (open_count w) (query_validation query update_query)
            (sql.exec query requests >>= λ _. pure tt) w refl (exec-Keeps query requests w))
        ∙ omega arith
    run_call-open_count (deletes table id) w =
        kept sql ledger (open_count w) (delete sql table id w)
          (exec-Keeps (delete_statement table id) (sql.of_uint64 (pos id) ∷ []) w)
        ∙ omega arith
    run_call-open_count (migrates m) w =
        kept sql ledger (open_count w) (migration sql m w)
          (run_scripts-Keeps m.tables (open_count w) w refl)
        ∙ omega arith

    -- Calls of the helpers and migrations, in any order and with any failures, leave open what was
    -- open before and the rows of each `FindAll` that met a row that does not scan, and no statement
    -- beside: every other call closes what it opens.
    pub run_calls-open_count :
        (calls : List (Call sql)) (w : World)
        → open_count (run_calls sql calls w) ≡ open_count w + break_offs sql calls w
    unfolding run_calls break_offs
    run_calls-open_count [] w = omega arith
    run_calls-open_count (call ∷ rest) w =
        run_calls-open_count rest (run_call sql call w).1
        ∙ ground (arith, run_call-open_count call w)
