-- ===== src/Db/Tests.antt =====
-- The helpers of db/ on small databases.
use go_cook.Shared.{
  ℕ, suc, ◌+◌, ◌-◌, none, ◌≡◌, ◌⊎◌, refl, String, String-discrete, some, true, false, List, [], ◌∷◌,
  ok, err, new, sentinel, ◌<>◌, contains, if◌then◌else◌,
}
use go_cook.Shared.Int.{pos, negsuc}
use go_cook.Shared.Format.{print}
use go_cook.Db.Sql.{Sql, Rows}
use go_cook.Db.Repository.{
  save_mysql, find_all, save, check_driver, query_validation, delete, scan_rows, find_by_id,
  select_query,
}
use go_cook.Db.Repository.Guards.{
  saves, finds_by_id, finds_all, run_helper, refusal, failure, delete-surplus,
}
use go_cook.Db.Repository.Handed.{Log, takes, run_helper-handed}
use go_cook.Db.Repository.Scans.{all_rows, find_all-all_rows}
use go_cook.Db.Repository.Statements.{Found, find_by_id-Found}
use go_cook.Db.Ledger.{Ledger, Call, helps, deletes, migrates, run_calls, break_offs}
use go_cook.Db.Ledger.Balance.{run_calls-open_count}
use go_cook.Db.Migration.{MigrationWorker, migration, run_scripts}
use go_cook.Db.Migration.Order.{Ends, migration-Ends}
use go_cook.Db.Connect.{DbConfig, Drivers, driver_name, ssl_mode, new_mysql_client}
use go_cook.Db.Connect.Config.{is_accepted, Opening, new_mysql_client-Opening}

-- A database that logs its calls, newest first; it holds two rows, of which the second is merged with
-- what its destination held, and no script "DROP" runs.
abbrev log_db : Sql
log_db = record {
  World = List String;
  Value = String;
  Stmt = String;
  Outcome = Unit {0};
  prepare = λ query log. (ok query, ("prepare " <> query) ∷ log);
  close_stmt = λ stmt log. ("close " <> stmt) ∷ log;
  stmt_exec = λ stmt values log. (ok tt, "exec" ∷ log);
  stmt_query_row = λ stmt values log. (err (sentinel "sql.ErrNoRows"), "scan" ∷ log);
  last_insert_id = λ outcome log. (ok (pos 4), log);
  exec = λ query values log.
      if contains query "DROP" then (err (new "denied"), log) else (ok tt, query ∷ log);
  query = λ query log. (
    ok (record {
      visited = (λ old. ok ("1" ∷ [])) ∷ (λ old. ok ("2" ∷ old)) ∷ [];
      end_error = some (new "connection lost");
    }),
    query ∷ log,
  );
  end_rows = λ rows log. "end" ∷ log;
  query_row = λ query values log. (ok ("5" ∷ []), log);
  of_uint64 = λ z. elim z [ pos n ↦ print n | negsuc n ↦ "" ];
  to_uint64 = λ values. pos 5;
}

-- The database, logging the statements that it is given.
abbrev strict_db : Sql
strict_db = record log_db {
  prepare = λ query log. (ok query, query ∷ log);
  close_stmt = λ stmt log. log;
  stmt_exec = λ stmt values log. (ok tt, log);
  stmt_query_row = λ stmt values log. (err (sentinel "sql.ErrNoRows"), log);
  exec = λ query values log. (ok tt, query ∷ log);
  end_rows = λ rows log. log;
  query_row = λ query values log. (ok ("5" ∷ []), query ∷ log);
}

abbrev statements : Log strict_db
statements = record {
  handed = λ log. log;
  handed-prepare = λ query log. refl;
  handed-exec = λ query values log. refl;
  handed-query = λ query log. refl;
  handed-query_row = λ query values log. refl;
  handed-close_stmt = λ stmt log. refl;
  handed-stmt_exec = λ stmt values log. refl;
  handed-stmt_query_row = λ stmt values log. refl;
  handed-last_insert_id = λ outcome log. refl;
  handed-end_rows = λ rows log. refl;
}

abbrev added : String
added = "INSERT INTO users VALUES ($1)"

run_helper-handed_example :
    ((takes strict_db statements (saves ("7" ∷ [])) added ≡ true)
      × ((run_helper strict_db (saves ("7" ∷ [])) added []).1 ≡ added ∷ []))
    ⊎ ((takes strict_db statements (saves ("7" ∷ [])) added ≡ false)
        × (run_helper strict_db (saves ("7" ∷ [])) added []
            ≡ (some (refusal strict_db (saves ("7" ∷ [])) added), [])))
run_helper-handed_example = run_helper-handed strict_db statements (saves ("7" ∷ [])) added []

delete-surplus_example :
    failure log_db (delete log_db "users" 7 [])
    ≡ failure log_db (
        log_db.exec
          ("DELETE FROM users WHERE id = ?%!(EXTRA uint64=" <> print 7 <> ")")
          ("7" ∷ [])
          [])
unfolding print
delete-surplus_example = delete-surplus log_db "users" 7 []

abbrev lost : Rows String
lost = record {
  visited = (λ old. ok ("1" ∷ [])) ∷ (λ old. ok ("2" ∷ old)) ∷ [];
  end_error = some (new "connection lost");
}

has_select : contains "SELECT id FROM users" select_query ≡ true
unfolding contains
has_select = refl

find_all-all_rows_example :
    find_all log_db "SELECT id FROM users" ("" ∷ []) []
    ≡ (all_rows lost.visited ("" ∷ []), "end" ∷ "SELECT id FROM users" ∷ [])
unfolding all_rows
find_all-all_rows_example =
    find_all-all_rows log_db "SELECT id FROM users" ("" ∷ []) [] ("SELECT id FROM users" ∷ []) lost
      has_select refl

find_by_id-Found_example :
    Found log_db "SELECT id FROM users" 3 true []
      (find_by_id log_db "SELECT id FROM users" 3 true [])
find_by_id-Found_example = find_by_id-Found log_db "SELECT id FROM users" 3 true []

abbrev one_table : MigrationWorker
one_table = record { tables = "CREATE TABLE a" ∷ [] }

migration-Ends_example : Ends log_db one_table.tables [] (migration log_db one_table [])
migration-Ends_example = migration-Ends log_db one_table []

-- Drivers that log their calls; the server does not answer.
abbrev dead : Drivers
dead = record {
  World = List String;
  Conn = String;
  open_db = λ driver source log. (ok driver, ("open " <> driver) ∷ log);
  set_pool = λ conn pool log. "pool" ∷ log;
  ping = λ conn log. (some (new "refused"), "ping" ∷ log);
  close = λ conn log. ("close " <> conn) ∷ log;
}

abbrev config : String → DbConfig
config mode = record {
  db = "postgresql";
  db_user = "u";
  db_pass = "p";
  db_name = "n";
  db_host = "h";
  ssl_mode = mode;
  max_idle_conns = pos 10;
  max_open_conns = pos 8;
  conn_max_life_time = pos 10;
  conn_max_idle_time = pos 8;
}

not_accepted : is_accepted (config "on") ≡ false
unfolding String-discrete
not_accepted = refl

dead-closed :
    new_mysql_client dead (config "") []
    ≡ (err (new "refused"), "close postgres" ∷ "ping" ∷ "pool" ∷ "open postgres" ∷ [])
unfolding new_mysql_client driver_name ssl_mode String-discrete
dead-closed = refl

new_mysql_client-Opening_example :
    Opening dead (config "") [] (new_mysql_client dead (config "") [])
new_mysql_client-Opening_example = new_mysql_client-Opening dead (config "") []

-- A database whose world is the number of its open statements and rows; the second row of its table
-- does not scan.
abbrev tally : Sql
tally = record {
  World = ℕ;
  Value = String;
  Stmt = String;
  Outcome = Unit {0};
  prepare = λ query n. (ok query, suc n);
  close_stmt = λ stmt n. n - 1;
  stmt_exec = λ stmt values n. (ok tt, n);
  stmt_query_row = λ stmt values n. (err (sentinel "sql.ErrNoRows"), n);
  last_insert_id = λ outcome n. (err (new "no id"), n);
  exec = λ query values n. (ok tt, n);
  query = λ query n. (
    ok (record {
      visited = (λ old. ok ("1" ∷ [])) ∷ (λ old. err (new "null")) ∷ [];
      end_error = none;
    }),
    suc n,
  );
  end_rows = λ rows n. n - 1;
  query_row = λ query values n. (ok ("5" ∷ []), n);
  of_uint64 = λ z. elim z [ pos n ↦ print n | negsuc n ↦ "" ];
  to_uint64 = λ values. pos 5;
}

abbrev tally_ledger : Ledger tally
tally_ledger = record {
  open_count = λ n. n;
  prepared = λ query n. refl;
  closed = λ stmt n. refl;
  executed = λ stmt values n. refl;
  scanned = λ stmt values n. refl;
  identified = λ outcome n. refl;
  ran = λ query values n. refl;
  queried = λ query n. refl;
  ended = λ rows n. refl;
  answered = λ query values n. refl;
}

abbrev busy : List (Call tally)
busy =
    migrates one_table
    ∷ helps (saves ("ada" ∷ [])) "INSERT INTO users VALUES (?)"
    ∷ helps (finds_all ("" ∷ [])) "SELECT id FROM users"
    ∷ helps (finds_by_id 3 true) "SELECT id FROM users"
    ∷ deletes "users" 3
    ∷ []

one_broken : break_offs tally busy 0 ≡ 1
unfolding contains break_offs all_rows find_all find_by_id save save_mysql check_driver
    query_validation delete migration run_scripts scan_rows
one_broken = refl

run_calls-open_count_example : run_calls tally busy 0 ≡ 0 + break_offs tally busy 0
run_calls-open_count_example = run_calls-open_count tally tally_ledger busy 0
