-- ===== src/Db/Migration/Order.antt =====
-- The order in which db/migration.go runs the registered scripts.
use go_cook.Shared.{
  ◌≡◌, refl, sym, ap, ◌∙◌, ◌⊎◌, inl, inr, String, List, [], ◌∷◌, ◌++◌, arith, Error, Result, ok,
  err, Result-split, ◌>>◌,
}
use mathlib.Core.List.{append_assoc, append-nil}
use go_cook.Db.Sql.{Sql}
use go_cook.Db.Migration.{
  MigrationWorker, init_migration_worker, append_all, register_migration, run_scripts, migration,
}

append_all-eq : (front back : List String) → append_all front back ≡ front ++ back
unfolding append_all
append_all-eq front [] = sym (append-nil front)
append_all-eq front (q ∷ rest) =
    append_all-eq (front ++ q ∷ []) rest ∙ append_assoc front (q ∷ []) rest

module _ (sql : Sql) where
  open sql use {World, Value}

  run_scripts-append :
      (front back : List String) (world : World)
      → run_scripts sql (front ++ back) world
        ≡ (run_scripts sql front >> run_scripts sql back) world
  unfolding run_scripts
  run_scripts-append [] back world = refl
  run_scripts-append (q ∷ rest) back world = elim (Result-split (sql.exec q [] world).0) [
    | inl (outcome, h) ↦ ground (arith, run_scripts-append rest back (sql.exec q [] world).1)
    | inr (e, h) ↦ ground arith
  ]

  -- Scripts registered after others run after them, on the world those leave, and only if none of
  -- them failed.
  pub migration-register_migration :
      (m : MigrationWorker) (queries : List String) (world : World)
      → migration sql (register_migration queries m) world
        ≡ (migration sql m >> migration sql (register_migration queries init_migration_worker))
            world
  unfolding migration register_migration init_migration_worker
  migration-register_migration m queries world =
      ap (λ scripts. run_scripts sql scripts world) (append_all-eq m.tables queries)
      ∙ run_scripts-append m.tables queries world
      ∙ ap (λ scripts. (run_scripts sql m.tables >> run_scripts sql scripts) world)
          (sym (append_all-eq [] queries))

  -- Scripts that all succeed, from one world to another.
  pub data Runs : List String → World → World → Type 0 where
    done : {world : World} → Runs [] world world
    next :
        {script : String} {rest : List String} {world world' last : World} {outcome : sql.Outcome}
        → sql.exec script [] world ≡ (ok outcome, world')
        → Runs rest world' last
        → Runs (script ∷ rest) world last

  -- How a list of scripts can end: all ran, or one between those that ran and those that never do
  -- failed.
  abbrev pub Ends : List String → World → Result (Unit {0}) × World → Type 0
  Ends scripts world x =
      ((last : World) × Runs scripts world last × (x ≡ (ok tt, last)))
      ⊎ ((front : List String) × (script : String) × (back : List String) × (before : World)
          × (last : World) × (e : Error) × (scripts ≡ front ++ script ∷ back)
          × Runs front world before
          × (sql.exec script [] before ≡ (err e, last))
          × (x ≡ (err e, last)))

  Ends-next :
      {script : String} {rest : List String} {world world' : World} {outcome : sql.Outcome}
      {x y : Result (Unit {0}) × World}
      → sql.exec script [] world ≡ (ok outcome, world')
      → x ≡ y
      → Ends rest world' y
      → Ends (script ∷ rest) world x
  Ends-next {script} h same (inl (last, ran, eq)) = inl (last, next h ran, same ∙ eq)
  Ends-next {script} h same (inr (front, failing, back, before, last, e, eq, ran, fails, stops)) =
      inr (
        script ∷ front,
        failing,
        back,
        before,
        last,
        e,
        ap (λ scripts. script ∷ scripts) eq,
        next h ran,
        fails,
        same ∙ stops,
      )

  run_scripts-Ends :
      (scripts : List String) (world : World) → Ends scripts world (run_scripts sql scripts world)
  unfolding run_scripts
  run_scripts-Ends [] world = inl (world, done, refl)
  run_scripts-Ends (q ∷ rest) world = elim (Result-split (sql.exec q [] world).0) [
    | inl (outcome, h) ↦
        Ends-next {outcome = outcome} (ground arith) (ground arith)
          (run_scripts-Ends rest (sql.exec q [] world).1)
    | inr (e, h) ↦
        inr ([], q, rest, world, (sql.exec q [] world).1, e, refl, done, ground arith, ground arith)
  ]

  -- `Migration` succeeds only when every script ran in order, and otherwise returns the error of a
  -- script that fails after those before it ran, and runs none of those behind it.
  pub migration-Ends :
      (m : MigrationWorker) (world : World) → Ends m.tables world (migration sql m world)
  unfolding migration
  migration-Ends m world = run_scripts-Ends m.tables world
