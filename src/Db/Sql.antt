-- ===== src/Db/Sql.antt =====
-- What db/ takes from database/sql, as one interface.
use go_cook.Shared.{String, Option, List, Error, Result}
use go_cook.Shared.Int.{ℤ}

-- The rows of a query: for each that `Next` visits, what `Scan` makes of the values that its
-- destinations hold, which a `Scanner` may merge with the column, and what `Err` reports once `Next`
-- has returned false.
pub record Rows (Value : Type 0) : Type 0 where
  pub visited : List (List Value → Result (List Value))
  pub end_error : Option Error

-- `Trigger` and the types behind it. `Value` is a column or an argument; `Stmt` a prepared
-- statement; `Outcome` an `sql.Result`.
pub record Sql : Type 1 where
  pub World : Type 0
  pub Value : Type 0
  pub Stmt : Type 0
  pub Outcome : Type 0
  pub prepare : String → World → Result Stmt × World
  pub close_stmt : Stmt → World → World
  pub stmt_exec : Stmt → List Value → World → Result Outcome × World
  pub stmt_query_row : Stmt → List Value → World → Result (List Value) × World
  pub last_insert_id : Outcome → World → Result ℤ × World
  pub exec : String → List Value → World → Result Outcome × World
  pub query : String → World → Result (Rows Value) × World
  -- `Next` when it returns false: it closes the rows
  pub end_rows : Rows Value → World → World
  pub query_row : String → List Value → World → Result (List Value) × World
  -- an argument of type `uint64`, and the first column as one
  pub of_uint64 : ℤ → Value
  pub to_uint64 : List Value → ℤ
