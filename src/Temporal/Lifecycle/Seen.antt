-- ===== src/Temporal/Lifecycle/Seen.antt =====
-- What an observer sees of the calls that a step of temporal/resumable.go makes.
use go_cook.Shared.{◌≡◌, refl, ℕ, String, Option, none, some, ◌∷◌, arith}
use go_cook.Shared.Int.{ℤ}
use go_cook.Temporal.Types.{
  Status, awaiting_correction, awaiting_approval, failed, rejected, ResumableOptions,
  ActivityOptions,
}
use go_cook.Temporal.Sdk.{Sdk, Info, Run}
use go_cook.Temporal.Resumable.{gate}
use go_cook.Temporal.Resumable.Statuses.{status-set_execution_status}
use go_cook.Temporal.Waits.{
  set_execution_status, wait_for_signal_payload, apply_correction, call_activity, wait_for_approval,
}
use go_cook.Temporal.Lifecycle.{waits, runs, asks, Observer}

module _ (sdk : Sdk) (o : Observer sdk) where
  open sdk use {OtherOptions}
  open o use {
    seen, seen-await_payload, seen-await_payload_for, seen-await_bool, seen-await_bool_for,
    seen-execute_activity, seen-upsert, seen-set_query_handler,
  }

  pub seen-set_execution_status :
      (s : Status) (attribute : String) (r : Run sdk)
      → seen (set_execution_status sdk s attribute r).1.world ≡ seen r.world
  unfolding set_execution_status
  seen-set_execution_status s attribute r = ground (arith, seen-upsert attribute s r.world)

  seen-apply_correction :
      (p : Option ℕ) (payload : String) (r : Run sdk)
      → (apply_correction sdk p payload r).1.world ≡ r.world
  unfolding apply_correction
  seen-apply_correction none payload r = refl
  seen-apply_correction (some p) payload r = refl

  seen-wait :
      (signal : String) (timeout : ℤ) (r : Run sdk)
      → seen (wait_for_signal_payload sdk signal timeout r).1.world
        ≡ (waits, r.w.status) ∷ seen r.world
  unfolding wait_for_signal_payload
  seen-wait signal timeout r = ground (
    arith,
    seen-await_payload r.w.status signal r.world,
    seen-await_payload_for r.w.status signal timeout r.world,
  )

  -- Whatever a round comes to, one wait is seen before the activity.
  pub seen-gate :
      (info : Info sdk) (opts : ResumableOptions) (p : Option ℕ) (r : Run sdk)
      → seen (gate sdk info opts p r).1.world ≡ (waits, awaiting_correction) ∷ seen r.world
  unfolding gate apply_correction set_execution_status wait_for_signal_payload
  seen-gate info opts p r = grind (arith, seen-await_payload, seen-await_payload_for, seen-upsert)

  pub seen-call_activity :
      (a : Option (ActivityOptions OtherOptions)) (info : Info sdk) (p : Option ℕ) (r : Run sdk)
      → seen (call_activity sdk a info p r).1.world ≡ (runs, r.w.status) ∷ seen r.world
  unfolding call_activity
  seen-call_activity a info none r =
      seen-execute_activity r.w.status a info.activity_fn none r.world
  seen-call_activity a info (some q) r =
      seen-execute_activity r.w.status a info.activity_fn (some (r.objects q)) r.world

  -- An answer is awaited exactly once.
  pub seen-wait_for_approval :
      (name : String) (opts : ResumableOptions) (r : Run sdk)
      → seen (wait_for_approval sdk name opts r).1.world ≡ (asks, awaiting_approval) ∷ seen r.world
  unfolding wait_for_approval
  seen-wait_for_approval name opts r =
      let s = (set_execution_status sdk awaiting_approval opts.status_search_attribute r).1 in
      ground (
        arith,
        seen-set_execution_status awaiting_approval opts.status_search_attribute r,
        status-set_execution_status sdk awaiting_approval opts.status_search_attribute r,
        seen-await_bool s.w.status opts.approval_signal s.world,
        seen-await_bool_for s.w.status opts.approval_signal opts.wait_timeout s.world,
        seen-upsert opts.status_search_attribute failed
            (sdk.await_bool_for s.w.status opts.approval_signal opts.wait_timeout s.world).1,
        seen-upsert opts.status_search_attribute rejected
            (sdk.await_bool_for s.w.status opts.approval_signal opts.wait_timeout s.world).1,
        seen-upsert opts.status_search_attribute rejected
            (sdk.await_bool s.w.status opts.approval_signal s.world).1,
      )
