-- ===== src/Temporal/Resumable/Tries.antt =====
-- How often a signal-gated step of temporal/resumable.go has its activity tried.
use go_cook.Shared.{◌≡◌, ap, ℕ, zero, suc, ◌<◌, ◌≤◌, ◌+◌, ◌*◌, String, Option, none, some, arith}
use go_cook.Shared.Int.{ℤ, pos_part}
use go_cook.Temporal.Types.{Status, failed, ResumableOptions, ActivityOptions, RetryPolicy}
use go_cook.Temporal.Sdk.{Sdk, Info, Run}
use go_cook.Temporal.Resumable.{
  gate, round, give_up, attempts, run_resumable_activity, step_options, set_info,
}
use go_cook.Temporal.Resumable.Frame.{apply_branch-world}
use go_cook.Temporal.Waits.{
  set_execution_status, wait_for_signal_payload, apply_correction, wait_for_approval, call_activity,
  resumable_options,
}

-- The attempts at activities that the pipeline's calls of `ExecuteActivity` have started. Temporal
-- documents that a call makes no more than the retry policy allows, where that sets a limit, and that
-- a nil function is refused.
pub record Counter (sdk : Sdk) : Type 0 where
  pub tries : sdk.World → ℕ
  pub tries-await_payload :
      (status : Status) (name : String) (w : sdk.World)
      → tries (sdk.await_payload status name w).1 ≡ tries w
  pub tries-await_payload_for :
      (status : Status) (name : String) (t : ℤ) (w : sdk.World)
      → tries (sdk.await_payload_for status name t w).1 ≡ tries w
  pub tries-await_bool :
      (status : Status) (name : String) (w : sdk.World)
      → tries (sdk.await_bool status name w).1 ≡ tries w
  pub tries-await_bool_for :
      (status : Status) (name : String) (t : ℤ) (w : sdk.World)
      → tries (sdk.await_bool_for status name t w).1 ≡ tries w
  pub tries-upsert :
      (name : String) (status : Status) (w : sdk.World)
      → tries (sdk.upsert_search_attributes name status w).1 ≡ tries w
  pub tries-set_query_handler :
      (name : String) (w : sdk.World) → tries (sdk.set_query_handler name w).1 ≡ tries w
  pub tries-register_activity :
      (name : String) (fn : sdk.ActivityFn) (w : sdk.World)
      → tries (sdk.register_activity name fn w) ≡ tries w
  pub tries-no_function :
      (status : Status) (o : Option (ActivityOptions sdk.OtherOptions)) (d : Option sdk.Data)
      (w : sdk.World)
      → tries (sdk.execute_activity status o none d w).world ≡ tries w
  pub tries-policy :
      (status : Status) (o : ActivityOptions sdk.OtherOptions) (policy : RetryPolicy)
      (fn : sdk.ActivityFn) (d : Option sdk.Data) (w : sdk.World)
      → o.retry_policy ≡ some policy
      → 0 < pos_part policy.maximum_attempts
      → tries (sdk.execute_activity status (some o) (some fn) d w).world
        ≤ tries w + pos_part policy.maximum_attempts

module _ (sdk : Sdk) (counter : Counter sdk) where
  open sdk use {ActivityFn, OtherOptions}
  open counter use {
    tries, tries-await_payload, tries-await_payload_for, tries-await_bool, tries-await_bool_for,
    tries-upsert, tries-no_function, tries-policy,
  }

  -- Under these options a call has no more than so many attempts.
  pub data Limited (limit : ℕ)
      : Option (ActivityOptions OtherOptions) → Option ActivityFn → Type 0 where
    no_function : {a : Option (ActivityOptions OtherOptions)} → Limited limit a none
    by_policy :
        {o : ActivityOptions OtherOptions} {fn : Option ActivityFn} (policy : RetryPolicy)
        → o.retry_policy ≡ some policy
        → 0 < pos_part policy.maximum_attempts
        → pos_part policy.maximum_attempts ≤ limit
        → Limited limit (some o) fn

  pub tries-set_execution_status :
      (s : Status) (attribute : String) (r : Run sdk)
      → tries (set_execution_status sdk s attribute r).1.world ≡ tries r.world
  unfolding set_execution_status
  tries-set_execution_status s attribute r = ground (arith, tries-upsert attribute s r.world)

  tries-gate :
      (info : Info sdk) (o : ResumableOptions) (p : Option ℕ) (r : Run sdk)
      → tries (gate sdk info o p r).1.world ≡ tries r.world
  unfolding gate apply_correction set_execution_status wait_for_signal_payload
  tries-gate info o p r = grind (arith, tries-await_payload, tries-await_payload_for, tries-upsert)

  tries-wait_for_approval :
      (name : String) (o : ResumableOptions) (r : Run sdk)
      → tries (wait_for_approval sdk name o r).1.world ≡ tries r.world
  unfolding wait_for_approval set_execution_status
  tries-wait_for_approval name o r =
      grind (arith, tries-await_bool, tries-await_bool_for, tries-upsert)

  tries-execute :
      (limit : ℕ) (status : Status) (a : Option (ActivityOptions OtherOptions))
      (fn : Option ActivityFn) (d : Option sdk.Data) (w : sdk.World)
      → Limited limit a fn
      → tries (sdk.execute_activity status a fn d w).world ≤ tries w + limit
  tries-execute limit status a none d w l = ground (arith, tries-no_function status a d w)
  tries-execute limit status none (some fn) d w l = elim l [ ]
  tries-execute limit status (some o) (some fn) d w (by_policy policy given some_tries few) =
      omega (arith, tries-policy status o policy fn d w given some_tries)

  pub tries-call_activity :
      (limit : ℕ) (a : Option (ActivityOptions OtherOptions)) (info : Info sdk) (p : Option ℕ)
      (r : Run sdk)
      → Limited limit a info.activity_fn
      → tries (call_activity sdk a info p r).1.world ≤ tries r.world + limit
  unfolding call_activity
  tries-call_activity limit a info none r l =
      tries-execute limit r.w.status a info.activity_fn none r.world l
  tries-call_activity limit a info (some q) r l =
      tries-execute limit r.w.status a info.activity_fn (some (r.objects q)) r.world l

  tries-round :
      (limit : ℕ) (info : Info sdk) (o : ResumableOptions)
      (a : Option (ActivityOptions OtherOptions)) (p : Option ℕ) (r : Run sdk)
      → Limited limit a info.activity_fn
      → tries (round sdk info o a p r).1.world ≤ tries r.world + limit
  unfolding round
  tries-round limit info o a p r l =
      ground
        (arith, tries-gate info o p r, tries-call_activity limit a info p (gate sdk info o p r).1 l)

  tries-attempts :
      (limit left : ℕ) (info : Info sdk) (o : ResumableOptions)
      (a : Option (ActivityOptions OtherOptions)) (p : Option ℕ) (r : Run sdk)
      → Limited limit a info.activity_fn
      → tries (attempts sdk left info o a p r).1.world ≤ tries r.world + (left + 1) * limit
  unfolding attempts give_up set_execution_status
  tries-attempts limit zero info o a p r l = ground (
    arith,
    tries-round limit info o a p r l,
    tries-upsert o.status_search_attribute failed (round sdk info o a p r).1.world,
  )
  tries-attempts limit (suc left) info o a p r l = ground (
    arith,
    tries-round limit info o a p r l,
    tries-attempts limit left info o a p (round sdk info o a p r).1 l,
  )

  -- A step has its activity tried no more often than its corrections, and one, times the limit.
  pub tries-run_resumable_activity :
      (limit : ℕ) (k : String) (info : Info sdk) (p : Option ℕ) (r : Run sdk)
      → let o = step_options sdk info in
        Limited limit
          (some (resumable_options sdk (record info { resumable = some o })))
          info.activity_fn
        → tries (run_resumable_activity sdk (k, info) p r).1.world
          ≤ tries r.world + (pos_part o.max_correction_attempts + 1) * limit
  unfolding run_resumable_activity
  tries-run_resumable_activity limit k info p r l =
      let o = step_options sdk info in
      let updated : Info sdk = record info { resumable = some o } in
      let s = set_info sdk k updated r in
      let a = some (resumable_options sdk updated) in
      let left = pos_part o.max_correction_attempts in
      let t = (attempts sdk left updated o a p s).1 in
      let u = (wait_for_approval sdk info.activity_name o t).1 in
      ground (
        arith,
        tries-attempts limit left updated o a p s l,
        tries-wait_for_approval info.activity_name o t,
        ap tries (apply_branch-world sdk updated p t),
        ap tries (apply_branch-world sdk updated p u),
      )
