-- ===== src/Db/Repository/Guards.antt =====
-- Which statements of db/repository.go reach the database, and as which text.
use text.Mathlib.TextLemmas.{nil-append, cons-append}
use go_cook.Shared.{
  ◌≡◌, refl, sym, ap, ◌∙◌, ℕ, String, Bool, false, Option, none, some, List, [], ◌∷◌, arith, Error,
  new, wrap, Result, ok, err, contains, ◌<>◌,
}
use go_cook.Shared.Int.{pos}
use go_cook.Shared.Format.{sprintf, print}
use go_cook.Db.Sql.{Sql}
use go_cook.Db.Repository.{
  unknown, mysql, postgres, err_conn_done, query_validation, check_driver, save, save_mysql,
  save_postgres, find_all, find_by_id, update, delete_statement, delete, select_query, insert_query,
  update_query,
}

module _ (sql : Sql) where
  open sql use {World, Value}

  -- The helpers that take a statement from the caller, with their other arguments.
  pub data Helper : Type 0 where
    saves : List Value → Helper
    finds_all : List Value → Helper
    finds_by_id : ℕ → Bool → Helper
    updates : List Value → Helper

  abbrev pub keyword : Helper → String
  keyword (saves _) = insert_query
  keyword (finds_all _) = select_query
  keyword (finds_by_id _ _) = select_query
  keyword (updates _) = update_query

  abbrev pub failure : {A : Type 0} → Result A × World → Option Error × World
  failure (ok _, world) = (none, world)
  failure (err e, world) = (some e, world)

  -- The error of a helper, and the world after it.
  abbrev pub run_helper : Helper → String → World → Option Error × World
  run_helper (saves requests) query world = failure (save sql query requests world)
  run_helper (finds_all zeros) query world = failure (find_all sql query zeros world)
  run_helper (finds_by_id id given) query world = failure (find_by_id sql query id given world)
  run_helper (updates requests) query world = failure (update sql query requests world)

  -- The error of a helper that turns a statement down.
  abbrev pub refusal : Helper → String → Error
  refusal (saves _) query = elim (check_driver query) [
    | unknown ↦ err_conn_done
    | mysql ↦ new "the query command is not valid"
    | postgres ↦ new "the query command is not valid"
  ]
  refusal (finds_all _) query = new "the query command is not valid"
  refusal (finds_by_id _ _) query =
      wrap "query validation failed: " (new "the query command is not valid")
  refusal (updates _) query = new "the query command is not valid"

  -- A statement without the keyword of its helper never reaches the database: the helper returns an
  -- error and the world is as it was.
  pub run_helper-refused :
      (h : Helper) (query : String) (world : World)
      → contains query (keyword h) ≡ false
      → run_helper h query world ≡ (some (refusal h query), world)
  unfolding save save_mysql save_postgres find_all find_by_id update query_validation
  run_helper-refused (saves requests) query world h = ground arith
  run_helper-refused (finds_all zeros) query world h = ground arith
  run_helper-refused (finds_by_id id given) query world h = ground arith
  run_helper-refused (updates requests) query world h = ground arith

prefix_with : String → String → String
prefix_with String.[] t = t
prefix_with (String.◌∷◌ c s) t = String.◌∷◌ c (prefix_with s t)

prefix_with-append : (s t : String) → prefix_with s t ≡ (s <> t)
unfolding prefix_with
prefix_with-append String.[] t = sym (nil-append t)
prefix_with-append (String.◌∷◌ c s) t =
    ap (String.◌∷◌ c) (prefix_with-append s t) ∙ sym (cons-append c s t)

surplus : ℕ → String
surplus id = "%!(EXTRA " <> ("uint64=" <> print id) <> ")"

delete_statement-prefix_with :
    (table : String) (id : ℕ)
    → delete_statement table id
      ≡ prefix_with "DELETE FROM " (table <> prefix_with " WHERE id = ?" (surplus id))
unfolding delete_statement sprintf prefix_with surplus
delete_statement-prefix_with table id = refl

delete_statement-surplus :
    (table : String) (id : ℕ)
    → delete_statement table id ≡ (
        "DELETE FROM " <> table <> " WHERE id = ?" <> "%!(EXTRA " <> ("uint64=" <> print id) <> ")")
unfolding surplus
delete_statement-surplus table id =
    rw (delete_statement-prefix_with, prefix_with-append, prefix_with-append) refl

-- `Delete` executes one statement, with the ID as its argument, and ends as that does: the statement
-- for the table, as `fmt.Sprintf` makes it with the ID as an argument too many, whose report stands
-- behind the placeholder where the statement was meant to end.
pub delete-surplus :
    (sql : Sql) (table : String) (id : ℕ) (world : sql.World)
    → failure sql (delete sql table id world)
      ≡ failure sql (
          sql.exec
            ("DELETE FROM "
              <> table
              <> " WHERE id = ?"
              <> "%!(EXTRA "
              <> ("uint64=" <> print id)
              <> ")")
            (sql.of_uint64 (pos id) ∷ [])
            world)
unfolding delete
delete-surplus sql table id world =
    let executed : failure sql (delete sql table id world)
        ≡ failure sql (sql.exec (delete_statement table id) (sql.of_uint64 (pos id) ∷ []) world) =
      ground arith in
    executed
    ∙ ap (λ text. failure sql (sql.exec text (sql.of_uint64 (pos id) ∷ []) world))
        (delete_statement-surplus table id)
