-- ===== src/Db/Ledger/Rules.antt =====
-- Rules for calls of db/repository.go that leave open no more than they found.
use go_cook.Shared.{
  ◌≡◌, ℕ, suc, String, arith, Result, ok, err, Action, from_result, wrapping, ◌>>=◌,
}
use go_cook.Shared.Lands.{Lands, Lands-bind}
use go_cook.Db.Sql.{Sql}
use go_cook.Db.Repository.{with_stmt}
use go_cook.Db.Repository.Guards.{failure}
use go_cook.Db.Ledger.{Ledger}

module _ (sql : Sql) where
  open sql use {World, Value, Stmt, Outcome}

  module _ (ledger : Ledger sql) where
    open ledger use {
      open_count, prepared, closed, executed, scanned, identified, ran, queried, ended, answered,
    }

    abbrev pub Counts : ℕ → World → Type 0
    Counts n w = open_count w ≡ n

    -- Nothing more and nothing less is open after the call.
    abbrev pub Keeps : {A : Type 0} → ℕ → Result A × World → Type 0
    Keeps n x = Lands (Counts n) (Counts n) x

    pub keeps : {A : Type 0} (n : ℕ) (x : Result A × World) → open_count x.1 ≡ n → Keeps n x
    keeps n (ok _, w) h = h
    keeps n (err _, w) h = h

    pub kept :
        {A : Type 0} (n : ℕ) (x : Result A × World) → Keeps n x → open_count (failure sql x).1 ≡ n
    kept n (ok _, w) h = h
    kept n (err _, w) h = h

    -- A check in front of a call.
    pub checked-Keeps :
        {A B : Type 0} (n : ℕ) (x : Result A) (k : Action World B) (w : World)
        → Counts n w
        → Keeps n (k w)
        → Keeps n ((from_result x >>= λ _. k) w)
    checked-Keeps n (ok a) k w c h = h
    checked-Keeps n (err e) k w c h = c

    pub wrapped_check-Keeps :
        {A B : Type 0} (n : ℕ) (text : String) (x : Result A) (k : Action World B) (w : World)
        → Counts n w
        → Keeps n (k w)
        → Keeps n ((wrapping text (from_result x) >>= λ _. k) w)
    wrapped_check-Keeps n text (ok a) k w c h = h
    wrapped_check-Keeps n text (err e) k w c h = c

    -- A call in the middle of others.
    pub Keeps-bind :
        {A B : Type 0} (n : ℕ) (m : Action World A) (k : A → Action World B) (w : World)
        → Keeps n (m w)
        → ((a : A) (w' : World) → Counts n w' → Keeps n (k a w'))
        → Keeps n ((m >>= k) w)
    Keeps-bind n m k w h next = Lands-bind (Counts n) (Counts n) (Counts n) m k w h next

    closed-Keeps :
        {A : Type 0} (n : ℕ) (stmt : Stmt) (x : Result A × World)
        → Keeps (suc n) x
        → Keeps n (x.0, sql.close_stmt stmt x.1)
    closed-Keeps n stmt (ok a, w) h = ground (arith, closed stmt w)
    closed-Keeps n stmt (err e, w) h = ground (arith, closed stmt w)

    -- A statement that is prepared, used and closed.
    pub statement-Keeps :
        {A : Type 0} (n : ℕ) (m : Action World Stmt) (k : Stmt → Action World A) (w : World)
        → Lands (Counts (suc n)) (Counts n) (m w)
        → ((stmt : Stmt) (j : ℕ) (w' : World) → Counts j w' → Keeps j (k stmt w'))
        → Keeps n ((m >>= λ stmt. with_stmt sql stmt (k stmt)) w)
    statement-Keeps n m k w p h =
        Lands-bind (Counts (suc n)) (Counts n) (Counts n) m (λ stmt. with_stmt sql stmt (k stmt)) w
          p (λ stmt w' c. closed-Keeps n stmt (k stmt w') (h stmt (suc n) w' c))
