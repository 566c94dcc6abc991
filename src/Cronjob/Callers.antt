-- ===== src/Cronjob/Callers.antt =====
-- Concurrent calls of `Run` and `Stop` of cronjob/scheduler.go, interleaved in any order.
use go_cook.Shared.{◌≡◌, ℕ, suc, true, false, Option, Error, List, ◌∷◌}
use go_cook.Cronjob.{Library, Scheduler, stop}

-- Where a call stands.
pub data Pc : Type 0 where
  run_called : Pc  -- before `s.mu.Lock()`
  run_locked : Pc  -- before `s.cronJob.Start()`
  run_started : Pc  -- before the deferred `s.mu.Unlock()`
  run_returned : Pc  -- with the result nil
  stop_called : Pc
  stop_returned : Option Error → Pc

module _ (lib : Library) where
  -- One step of one call. `Lock` waits while the mutex is locked; `Stop` does not ask for it.
  pub data Move (s : Scheduler lib) : Pc → Scheduler lib → Pc → Type 0 where
    lock : s.locked ≡ false → Move s run_called (record s { locked = true }) run_locked
    start : Move s run_locked (record s { world = lib.start s.cron_job s.world }) run_started
    unlock : Move s run_started (record s { locked = false }) run_returned
    halt : Move s stop_called (stop lib s).1 (stop_returned (stop lib s).0)

  -- A step of one of the calls.
  pub data Step (s : Scheduler lib) : List Pc → Scheduler lib → List Pc → Type 0 where
    here :
        {t : Scheduler lib} {p q : Pc} {rest : List Pc}
        → Move s p t q
        → Step s (p ∷ rest) t (q ∷ rest)
    there :
        {t : Scheduler lib} {p : Pc} {calls later : List Pc}
        → Step s calls t later
        → Step s (p ∷ calls) t (p ∷ later)

  -- A number of steps.
  pub data Steps (s : Scheduler lib) (calls : List Pc) : ℕ → Scheduler lib → List Pc → Type 0 where
    none_yet : Steps s calls 0 s calls
    advance :
        {n : ℕ} {t u : Scheduler lib} {now later : List Pc}
        → Steps s calls n t now
        → Step t now u later
        → Steps s calls (suc n) u later

-- Calls that have not begun, and calls that have ended.
abbrev pub IsFresh : Pc → Type 0
IsFresh run_called = Unit
IsFresh stop_called = Unit
IsFresh _ = ⊥

abbrev pub IsReturned : Pc → Type 0
IsReturned run_returned = Unit
IsReturned (stop_returned _) = Unit
IsReturned _ = ⊥
