-- ===== src/Db/Repository/Statements.antt =====
-- How db/repository.go uses its prepared statements, and the errors of `FindByID`.
use mathlib.Core.Path.{subst}
use go_cook.Shared.{
  ◌≡◌, refl, sym, ap, ◌∙◌, ℕ, String, Bool, true, false, inl, inr, List, [], ◌∷◌, arith, Bool-cases,
  Error, new, wrap, is_error, Result-split, Result, ok, err, contains,
}
use go_cook.Shared.Int.{pos, bits64}
use go_cook.Db.Sql.{Sql}
use go_cook.Db.Repository.{
  query_validation, scan_error, save_mysql, find_by_id, select_query, insert_query, err_no_rows,
}

module _ (sql : Sql) where
  open sql use {World, Value, Stmt, Outcome}

  -- What `saveMySQL` does with a prepared statement before it closes it.
  abbrev pub inserted : Stmt → List Value → World → Result ℕ × World
  inserted stmt requests world =
      let (outcome, world') = sql.stmt_exec stmt requests world in
      elim outcome [
        | err e ↦ (err e, world')
        | ok done ↦
            let (id, world'') = sql.last_insert_id done world' in
            elim id [ ok i ↦ (ok (bits64 i), world'') | err e ↦ (err e, world'') ]
      ]

  -- Once `saveMySQL` has prepared a valid statement, it closes it last whether the statement ran,
  -- failed, or had no ID to report, and answers with the bits of that ID or the error of the step that failed.
  pub save_mysql-closes :
      (query : String) (requests : List Value) (world world' : World) (stmt : Stmt)
      → contains query insert_query ≡ true
      → sql.prepare query world ≡ (ok stmt, world')
      → save_mysql sql query requests world
        ≡ ((inserted stmt requests world').0, sql.close_stmt stmt (inserted stmt requests world').1)
  unfolding save_mysql query_validation
  save_mysql-closes query requests world world' stmt valid prepared = ground arith

  -- What a caller of `FindByID` can tell of a failed scan: no row with this ID, or another failure.
  abbrev pub is_missing : Result (List Value) → Bool
  is_missing (ok _) = false
  is_missing (err e) = is_error e err_no_rows

  scan_error-is_error :
      (id : ℕ) (e : Error) → is_error (scan_error sql id e) err_no_rows ≡ is_error e err_no_rows
  unfolding scan_error is_error
  scan_error-is_error id e = elim (Bool-cases (is_error e err_no_rows)) [
    | inl h ↦ ground arith
    | inr h ↦ ground arith
  ]

  -- For a valid statement that is prepared, `FindByID` into a result that is not nil closes the
  -- statement after the scan, returns the fields as scanned or the scan's error with the ID, and keeps
  -- what `errors.Is` says of `sql.ErrNoRows`: its error is that one exactly when the scan's is.
  pub find_by_id-closes :
      (query : String) (id : ℕ) (world world' world'' : World) (stmt : Stmt)
      (scanned : Result (List Value))
      → contains query select_query ≡ true
      → sql.prepare query world ≡ (ok stmt, world')
      → sql.stmt_query_row stmt (sql.of_uint64 (pos id) ∷ []) world' ≡ (scanned, world'')
      → (find_by_id sql query id true world ≡ (
        elim scanned [ ok fields ↦ ok fields | err e ↦ err (scan_error sql id e) ],
        sql.close_stmt stmt world'',
      ))
        × (is_missing (find_by_id sql query id true world).0 ≡ is_missing scanned)
  unfolding find_by_id query_validation
  find_by_id-closes query id world world' world'' stmt (ok row) valid prepared answered =
      ground arith
  find_by_id-closes query id world world' world'' stmt (err e) valid prepared answered =
      (ground arith, ground (arith, scan_error-is_error id e))

  -- How `FindByID` ends from a world, as its result and the world after it.
  pub data Found (query : String) (id : ℕ) (given : Bool) (world : World)
      : Result (List Value) × World → Type 0 where
    refused :
        contains query select_query ≡ false
        → Found query id given world
            (err (wrap "query validation failed: " (new "the query command is not valid")), world)
    unprepared :
        (e : Error) (world' : World)
        → contains query select_query ≡ true
        → sql.prepare query world ≡ (err e, world')
        → Found query id given world (err (wrap "failed to prepare context: " e), world')
    no_target :
        (stmt : Stmt) (world' : World)
        → contains query select_query ≡ true
        → sql.prepare query world ≡ (ok stmt, world')
        → given ≡ false
        → Found query id given world
            (err (new "result argument must be a non-nil pointer"), sql.close_stmt stmt world')
    scanned :
        (stmt : Stmt) (world' world'' : World) (x y : Result (List Value))
        → contains query select_query ≡ true
        → sql.prepare query world ≡ (ok stmt, world')
        → given ≡ true
        → sql.stmt_query_row stmt (sql.of_uint64 (pos id) ∷ []) world' ≡ (x, world'')
        → y ≡ elim x [ ok fields ↦ ok fields | err e ↦ err (scan_error sql id e) ]
        → is_missing y ≡ is_missing x
        → Found query id given world (y, sql.close_stmt stmt world'')

  prepared-Found :
      (query : String) (id : ℕ) (given : Bool) (world world' : World) (stmt : Stmt)
      → contains query select_query ≡ true
      → sql.prepare query world ≡ (ok stmt, world')
      → Found query id given world (find_by_id sql query id given world)
  unfolding find_by_id query_validation
  prepared-Found query id false world world' stmt valid prepared =
      let ends : find_by_id sql query id false world
          ≡ (err (new "result argument must be a non-nil pointer"), sql.close_stmt stmt world') =
        ground arith in
      subst (Found query id false world) (sym ends) (no_target stmt world' valid prepared refl)
  prepared-Found query id true world world' stmt valid prepared =
      let (x, world'') = sql.stmt_query_row stmt (sql.of_uint64 (pos id) ∷ []) world' in
      let (ends, same) =
        find_by_id-closes query id world world' world'' stmt x valid prepared refl in
      subst (Found query id true world) (sym ends) (
        scanned stmt world' world'' x _ valid prepared refl refl refl
          (ap is_missing (ap (λ z. z.0) (sym ends)) ∙ same))

  -- `FindByID` ends in one of four ways. A statement without SELECT is an error and leaves the world
  -- alone, one that cannot be prepared the error of that. A prepared statement is always closed, last:
  -- where there is no result to fill that is an error, and else the fields are returned as scanned, or
  -- the scan's error with the ID, which is `sql.ErrNoRows` for `errors.Is` exactly when the scan's is.
  pub find_by_id-Found :
      (query : String) (id : ℕ) (given : Bool) (world : World)
      → Found query id given world (find_by_id sql query id given world)
  unfolding find_by_id query_validation
  find_by_id-Found query id given world = elim (Bool-cases (contains query select_query)) [
    | inr invalid ↦
        let ends : find_by_id sql query id given world ≡ (
          err (wrap "query validation failed: " (new "the query command is not valid")),
          world,
        ) =
          ground arith in
        subst (Found query id given world) (sym ends) (refused invalid)
    | inl valid ↦
        let world' = (sql.prepare query world).1 in
        elim (Result-split (sql.prepare query world).0) [
          | inr (e, h) ↦
              let prepared : sql.prepare query world ≡ (err e, world') = ground arith in
              let ends : find_by_id sql query id given world
                  ≡ (err (wrap "failed to prepare context: " e), world') =
                ground arith in
              subst (Found query id given world) (sym ends) (unprepared e world' valid prepared)
          | inl (stmt, h) ↦
              let prepared : sql.prepare query world ≡ (ok stmt, world') = ground arith in
              prepared-Found query id given world world' stmt valid prepared
        ]
  ]
