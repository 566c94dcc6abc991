-- ===== src/Db/Repository/Scans.antt =====
-- The rows of `FindAll` in db/repository.go against the plain sequence of the scans.
use go_cook.Shared.{
  ◌≡◌, refl, sym, ap, String, true, inl, inr, List, [], ◌∷◌, ◌++◌, arith, Result, ok, err,
  Result-split, contains, All,
}
use mathlib.Core.List.{append_assoc, append-nil}
use go_cook.Db.Sql.{Sql, Rows}
use go_cook.Db.Repository.{query_validation, scan_rows, find_all, select_query}

abbrev cons_row : {V : Type 0} → List V → Result (List (List V)) → Result (List (List V))
cons_row row (ok rows) = ok (row ∷ rows)
cons_row row (err e) = err e

-- Every row in order, each scanned into the values of the row before it, the first into `buffer`; or
-- the error of the first scan that fails.
unfoldable pub all_rows :
    {V : Type 0} → List (List V → Result (List V)) → List V → Result (List (List V))
all_rows [] buffer = ok []
all_rows (scan ∷ rest) buffer = elim (scan buffer) [
  | ok row ↦ cons_row row (all_rows rest row)
  | err e ↦ err e
]

abbrev after : {V : Type 0} → List (List V) → Result (List (List V)) → Result (List (List V))
after front (ok rows) = ok (front ++ rows)
after front (err e) = err e

module _ (sql : Sql) where
  open sql use {World, Value}

  scan_rows-after :
      (visited : List (List Value → Result (List Value))) (buffer : List Value)
      (front : List (List Value))
      → scan_rows sql visited buffer front ≡ after front (all_rows visited buffer)
  unfolding scan_rows all_rows
  scan_rows-after [] buffer front = ap ok (sym (append-nil front))
  scan_rows-after (scan ∷ rest) buffer front = elim (Result-split (scan buffer)) [
    | inl (row, g) ↦ elim (Result-split (all_rows rest row)) [
      | inl (rows, h) ↦
          ground (
            arith,
            scan_rows-after rest row (front ++ row ∷ []),
            append_assoc front (row ∷ []) rows,
          )
      | inr (e, h) ↦ ground (arith, scan_rows-after rest row (front ++ row ∷ []))
    ]
    | inr (e, g) ↦ ground arith
  ]

  -- The rows where each scan is given the zero values of the fields, as into a struct of its own.
  abbrev fresh_rows :
      List (List Value → Result (List Value)) → List Value → Result (List (List Value))
  fresh_rows [] zeros = ok []
  fresh_rows (scan ∷ rest) zeros = elim (scan zeros) [
    | ok row ↦ cons_row row (fresh_rows rest zeros)
    | err e ↦ err e
  ]

  -- Scans that overwrite what their destinations held, as those into strings and numbers do.
  abbrev Overwrite : List (List Value → Result (List Value)) → Type 0
  Overwrite = All (λ scan. (a b : List Value) → scan a ≡ scan b)

  -- Where the scans overwrite, no row shows in another.
  all_rows-fresh_rows :
      (visited : List (List Value → Result (List Value))) (buffer zeros : List Value)
      → Overwrite visited
      → all_rows visited buffer ≡ fresh_rows visited zeros
  unfolding all_rows
  all_rows-fresh_rows [] buffer zeros h = refl
  all_rows-fresh_rows (scan ∷ rest) buffer zeros h = elim (Result-split (scan zeros)) [
    | inl (row, g) ↦ ground (arith, h.0 buffer zeros, all_rows-fresh_rows rest row zeros h.1)
    | inr (e, g) ↦ ground (arith, h.0 buffer zeros)
  ]

  -- `FindAll` answers a valid statement with all rows in order, or with the error of the first scan
  -- that fails. The scans share one set of destinations: the first is given the zero values of the
  -- fields, and every other the values of the row before it, which a scan that does not overwrite
  -- them carries into its row. `rows.Err()` is not asked: rows that a failure cut short are returned
  -- as all rows. `Next` closes the rows after the last of them; after a row that does not scan
  -- nothing closes them.
  pub find_all-all_rows :
      (query : String) (zeros : List Value) (world world' : World) (rows : Rows Value)
      → contains query select_query ≡ true
      → sql.query query world ≡ (ok rows, world')
      → find_all sql query zeros world ≡ (
        all_rows rows.visited zeros,
        elim (all_rows rows.visited zeros) [ ok _ ↦ sql.end_rows rows world' | err _ ↦ world' ],
      )
  unfolding find_all query_validation
  find_all-all_rows query zeros world world' rows valid answered =
      elim (Result-split (all_rows rows.visited zeros)) [
        | inl (found, h) ↦ ground (arith, scan_rows-after rows.visited zeros [])
        | inr (e, h) ↦ ground (arith, scan_rows-after rows.visited zeros [])
      ]
