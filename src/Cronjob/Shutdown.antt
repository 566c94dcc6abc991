-- ===== src/Cronjob/Shutdown.antt =====
-- What `Stop` of cronjob/scheduler.go tells its caller.
use go_cook.Shared.{◌≡◌, ◌⊎◌, ℕ, none, some, Error, arith, Option-cases, inl, inr}
use go_cook.Cronjob.{Library, Scheduler, stop}

-- What robfig/cron documents of `Stop`: its context is cancelled only once no job is running.
pub record Documented (lib : Library) : Type 0 where
  pub running : lib.Cron → lib.World → ℕ
  pub cancelled :
      (c : lib.Cron) (w : lib.World) (e : Error)
      → (lib.stop c w).0 ≡ some e
      → running c (lib.stop c w).1 ≡ 0

module _ (lib : Library) (doc : Documented lib) where
  open doc use {running, cancelled}

  -- `Stop` stops the cron, and changes nothing else. It never waits: while jobs are running it returns
  -- what the caller's context says, and so nil where that is not done. It returns nil exactly where
  -- the caller's context is not done and that of the cron has not been cancelled yet; and otherwise
  -- the error of the cron's context, where no job is running, or that of the caller's.
  pub stop-result :
      (s : Scheduler lib)
      → let after = (lib.stop s.cron_job s.world).1 in
        let ended = (lib.stop s.cron_job s.world).0 in
        ((stop lib s).1 ≡ record s { world = after })
        × ((running s.cron_job after ≡ 0) ⊎ ((stop lib s).0 ≡ lib.ctx_error after))
        × ((((stop lib s).0 ≡ none) × (ended ≡ none) × (lib.ctx_error after ≡ none))
            ⊎ ((e : Error) × ((stop lib s).0 ≡ some e)
                × (((ended ≡ some e) × (running s.cron_job after ≡ 0))
                    ⊎ (lib.ctx_error after ≡ some e))))
  unfolding stop
  stop-result s = elim (Option-cases (lib.stop s.cron_job s.world).0) [
    | inl live ↦ (
      ground arith,
      inr (ground arith),
      elim (Option-cases (stop lib s).0) [
        | inl e ↦ inl (ground arith)
        | inr (e, q) ↦ inr (e, q, inr (ground arith))
      ],
    )
    | inr (e, over) ↦
        let idle = cancelled s.cron_job s.world e over in
        (
          ground arith,
          inl idle,
          elim (Option-cases (stop lib s).0) [
            | inl q ↦ absurd (ground arith)
            | inr (e', q) ↦ inr (e', q, ground (arith, idle))
          ],
        )
  ]
