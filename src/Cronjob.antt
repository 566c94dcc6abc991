-- ===== src/Cronjob.antt =====
-- The package cronjob: a scheduler around robfig/cron.
pub mod Callers
pub mod Exclusion
pub mod Shutdown
pub mod Tests
use go_cook.Shared.{
  String, Bool, true, false, Option, none, some, Error, Result, ok, err, Action, pure, ◌>>=◌,
}

-- `JobConfig`
pub record JobConfig : Type 0 where
  pub load_location : String

-- What the package calls of robfig/cron, time and context. A goroutine of the cron cancels the context
-- that its `Stop` returns some time after no job runs any more: `stop` gives the error of this context
-- as the `select` behind the call finds it, or `none` where it has not been cancelled by then, be it
-- that jobs run or that the goroutine has not come to it. `cron.New` gets the option `WithSeconds` and
-- the location.
pub record Library : Type 1 where
  pub World : Type 0
  pub Location : Type 0
  pub Cron : Type 0
  pub find_location : String → World → Result Location × World
  pub new_cron : Location → World → Cron × World
  pub start : Cron → World → World
  pub stop : Cron → World → Option Error × World
  -- `ctx.Err()` of the caller's context, and the choice that `select` makes between ready cases
  pub ctx_error : World → Option Error
  pub prefers_cron : World → Bool

module _ (lib : Library) where
  open lib use {World, Cron}

  -- `scheduler`, with what its methods share; the client for Redis is never set
  pub record Scheduler : Type 0 where
    pub cron_job : Cron
    pub locked : Bool  -- `mu`
    pub world : World

  -- `NewScheduler`
  unfoldable pub new_scheduler : JobConfig → World → Result Scheduler × World
  new_scheduler config world =
      let (found, world') = lib.find_location config.load_location world in
      elim found [
        | err e ↦ (err e, world')
        | ok location ↦
            let (cron, world'') = lib.new_cron location world' in
            (ok (record { cron_job = cron; locked = false; world = world'' }), world'')
      ]

  -- `Stop`: the `select` has a default, so it never waits.
  unfoldable pub stop : Scheduler → Option Error × Scheduler
  stop s =
      let (ended, world') = lib.stop s.cron_job s.world in
      let t = record s { world = world' } in
      elim ended [
        | none ↦ (lib.ctx_error world', t)
        | some e ↦ elim (lib.ctx_error world') [
          | none ↦ (some e, t)
          | some e' ↦ elim (lib.prefers_cron world') [ true ↦ (some e, t) | false ↦ (some e', t) ]
        ]
      ]
