-- ===== src/Cronjob/Tests.antt =====
-- The scheduler over a small cron, with two calls of `Run` and one of `Stop`.
use go_cook.Shared.{
  ◌≡◌, ◌⊎◌, refl, ℕ, zero, suc, ◌+◌, String, true, false, Option, none, some, List, [], ◌∷◌, All,
  new, ok, err, Error, ◌==◌, if◌then◌else◌, arith, String-discrete,
}
use go_cook.Cronjob.{Library, Scheduler, new_scheduler, stop}
use go_cook.Cronjob.Callers.{
  Pc, run_called, run_started, stop_called, stop_returned, lock, start, halt, here, there, Steps,
  none_yet, advance, IsReturned,
}
use go_cook.Cronjob.Exclusion.{inside, held, work, total, Proceeds, Steps-exclusive, Steps-return}
use go_cook.Cronjob.Shutdown.{Documented, stop-result}

-- The world counts the jobs that run: a start begins one.
abbrev small : Library
small = record {
  World = ℕ;
  Location = String;
  Cron = String;
  find_location =
      λ name w. if name == "UTC" then (ok name, w) else (err (new "unknown time zone"), w);
  new_cron = λ location w. (location, w);
  start = λ cron w. w + 1;
  stop = λ cron w. (elim w [ zero ↦ some (new "context canceled") | suc _ ↦ none ], w);
  ctx_error = λ w. none;
  prefers_cron = λ w. true;
}

small-cancelled : (w : ℕ) (e : Error) → (small.stop "UTC" w).0 ≡ some e → w ≡ 0
small-cancelled zero e h = refl
small-cancelled (suc w) e h = ground arith

abbrev small-Documented : Documented small
small-Documented = record { running = λ c w. w; cancelled = λ c w e h. small-cancelled w e h }

abbrev idle : Scheduler small
idle = record { cron_job = "UTC"; locked = false; world = 0 }

abbrev busy : Scheduler small
busy = record { cron_job = "UTC"; locked = true; world = 1 }

new_scheduler-idle : new_scheduler small (record { load_location = "UTC" }) 0 ≡ (ok idle, 0)
unfolding new_scheduler String-discrete
new_scheduler-idle = refl

new_scheduler-unknown :
    new_scheduler small (record { load_location = "Mars" }) 0 ≡ (err (new "unknown time zone"), 0)
unfolding new_scheduler String-discrete
new_scheduler-unknown = refl

abbrev three : List Pc
three = run_called ∷ stop_called ∷ run_called ∷ []

-- The first `Run` starts the cron, and `Stop` runs while it still holds the mutex.
overtaken : Steps small idle three 3 busy (run_started ∷ stop_returned none ∷ run_called ∷ [])
unfolding stop
overtaken = advance (advance (advance none_yet (here (lock refl))) (here start)) (there (here halt))

Steps-exclusive_example :
    total inside (run_started ∷ stop_returned none ∷ run_called ∷ []) ≡ held small busy
Steps-exclusive_example =
    Steps-exclusive small idle three refl (tt, (tt, (tt, tt))) 3 busy _ overtaken

Steps-return_example :
    (3 + total work (run_started ∷ stop_returned none ∷ run_called ∷ []) ≡ total work three)
    × (Proceeds small busy (run_started ∷ stop_returned none ∷ run_called ∷ [])
        ⊎ ((total work (run_started ∷ stop_returned none ∷ run_called ∷ []) ≡ 0)
            × All IsReturned (run_started ∷ stop_returned none ∷ run_called ∷ [])
            × (busy.locked ≡ false)))
Steps-return_example = Steps-return small idle three refl (tt, (tt, (tt, tt))) 3 busy _ overtaken

stop-result_example :
    ((stop small busy).1 ≡ busy)
    × ((◌≡◌ {A = ℕ} 1 0) ⊎ ((stop small busy).0 ≡ none))
    × ((((stop small busy).0 ≡ none)
          × ((small.stop "UTC" 1).0 ≡ none)
          × (◌≡◌ {A = Option Error} none none))
        ⊎ ((e : Error) × ((stop small busy).0 ≡ some e)
            × ((((small.stop "UTC" 1).0 ≡ some e) × (◌≡◌ {A = ℕ} 1 0))
                ⊎ (◌≡◌ {A = Option Error} none (some e)))))
stop-result_example = stop-result small small-Documented busy
