-- ===== src/Temporal/Pipeline/Statuses.antt =====
-- The status with which `Execute` of temporal/workflow.go ends.
use go_cook.Shared.{
  ◌≡◌, ◌⊎◌, inl, inr, ℕ, zero, suc, String, true, Option, none, some, arith, Result, ok, err,
  Option-cases, Result-cases,
}
use go_cook.Temporal.Types.{Status, pending, failed, rejected, completed}
use go_cook.Temporal.Sdk.{Sdk, Info, Run}
use go_cook.Temporal.Registry.{Node, node_at, status_search_attribute}
use go_cook.Temporal.Waits.{set_execution_status, call_activity}
use go_cook.Temporal.Resumable.Statuses.{
  Leaves, apply_branch-w, apply_branch-ok, run_resumable_activity-status, call_activity-w,
}
use go_cook.Temporal.Pipeline.{
  is_open, run_activity, next_node, run_pipeline, start_up, finish, execute,
}

abbrev pub Ended : Status → Type 0
Ended s = (s ≡ failed) ⊎ (s ≡ rejected)

module _ (sdk : Sdk) where
  run_activity-is_open :
      (k : String) (info : Info sdk) (p : Option ℕ) (r : Run sdk)
      → is_open r.w.status ≡ true
      → Leaves
          (λ s. is_open s ≡ true)
          (λ s. Unit)
          (run_activity sdk (k, info) p r).0
          (run_activity sdk (k, info) p r).1.w.status
  unfolding run_activity
  run_activity-is_open k info p r h =
      let s = (call_activity sdk info.activity_options info p r).1 in
      ground (
        arith,
        run_resumable_activity-status sdk k info p r,
        call_activity-w sdk info.activity_options info p r,
        apply_branch-w sdk info p s,
        apply_branch-ok sdk info p s,
      )

  run_pipeline-status :
      (fuel : ℕ) (attribute : String) (n : Option (Node sdk)) (p : Option ℕ) (r s : Run sdk)
      (x : Result (Unit {0}))
      → is_open r.w.status ≡ true
      → run_pipeline sdk fuel attribute n p r ≡ some (x, s)
      → Leaves (λ t. is_open t ≡ true) Ended x s.w.status
  unfolding run_pipeline set_execution_status
  run_pipeline-status fuel attribute none p r s x h e = ground arith
  run_pipeline-status zero attribute (some n) p r s x h e = cc
  run_pipeline-status (suc fuel) attribute (some (k, info)) p r s x h e =
      let t = (run_activity sdk (k, info) p r).1 in
      ground (
        arith,
        run_activity-is_open k info p r h,
        run_pipeline-status fuel attribute (next_node sdk (k, info) p t) p t s x,
      )

  pub start_up-status : (r : Run sdk) → (start_up sdk r).1.w.status ≡ pending
  unfolding start_up
  start_up-status r = ground arith

  finish-status :
      (attribute : String) (x : Result (Unit {0})) (r : Run sdk)
      → Leaves (λ t. is_open t ≡ true) Ended x r.w.status
      → Leaves
          (λ t. t ≡ completed)
          Ended
          (finish sdk attribute (x, r)).0
          (finish sdk attribute (x, r)).1.w.status
  unfolding finish
  finish-status attribute (ok _) r h = ground arith
  finish-status attribute (err e) r h = h

  -- Where `Execute` ends within its fuel: if it returns nil the status is COMPLETED; if it returns
  -- an error the status is FAILED or REJECTED, or it is PENDING and the error is that of the start,
  -- before any activity.
  pub execute-status :
      (fuel : ℕ) (p : Option ℕ) (r s : Run sdk) (x : Result (Unit {0}))
      → execute sdk fuel p r ≡ some (x, s)
      → Leaves
          (λ t. t ≡ completed)
          (λ t. Ended t ⊎ (((start_up sdk r).0 ≡ x) × (t ≡ pending)))
          x
          s.w.status
  unfolding execute
  execute-status fuel p r s x h =
      let attribute = status_search_attribute sdk r.w in
      let n = node_at sdk r.w r.w.first_activity in
      let t = (start_up sdk r).1 in
      elim (Result-cases (start_up sdk r).0) [
        | inr (e, started) ↦ ground (arith, start_up-status r)
        | inl started ↦ elim (Option-cases (run_pipeline sdk fuel attribute n p t)) [
          | inl out ↦ ground arith
          | inr ((y, u), ended) ↦ ground (
            arith,
            start_up-status r,
            run_pipeline-status fuel attribute n p t u y,
            finish-status attribute y u,
          )
        ]
      ]
