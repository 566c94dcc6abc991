-- ===== src/Temporal/Public/Objects.antt =====
-- The objects behind pointers in temporal/resumable.go and temporal/workflow.go: a run changes the
-- one that it is given, and no other.
use native.Mathlib.Decide.{ℕ_discrete}
use go_cook.Shared.{
  ◌≡◌, ◌≢◌, refl, inl, inr, ℕ, zero, suc, String, Option, none, some, List, [], ◌∷◌, arith, Result,
  ok, err, Option-cases,
}
use go_cook.Shared.Int.{ℤ, pos_part}
use go_cook.Temporal.Types.{Status, ResumableOptions, ActivityOptions}
use go_cook.Temporal.Sdk.{Sdk, Info, Run, write}
use go_cook.Temporal.Registry.{Node, node_at, status_search_attribute}
use go_cook.Temporal.Resumable.{
  gate, round, give_up, attempts, run_resumable_activity, step_options, set_info,
}
use go_cook.Temporal.Waits.{
  set_execution_status, wait_for_signal_payload, apply_correction, wait_for_approval,
  resumable_options, branch_loop, apply_branch, call_activity,
}
use go_cook.Temporal.Pipeline.{run_activity, next_node, run_pipeline, start_up, finish, execute}

module _ (sdk : Sdk) where
  open sdk use {OtherOptions, Data}

  module _ (q j : ℕ) (other : j ≢ q) where
    write-objects :
        (f : Data → Data) (r : Run sdk) → (write sdk (some q) f r).objects j ≡ r.objects j
    write-objects f r = elim (ℕ_discrete q j) [
      | yes same ↦ absurd (ground arith)
      | no differ ↦ ground arith
    ]

    call_activity-objects :
        (o : Option (ActivityOptions OtherOptions)) (info : Info sdk) (r : Run sdk)
        → (call_activity sdk o info (some q) r).1.objects j ≡ r.objects j
    unfolding call_activity
    call_activity-objects o info r =
        write-objects
          (sdk.execute_activity r.w.status o info.activity_fn (some (r.objects q)) r.world).write r

    branch_loop-objects :
        (next : List String) (r : Run sdk)
        → (branch_loop sdk (some q) next r).objects j ≡ r.objects j
    unfolding branch_loop
    branch_loop-objects [] r = refl
    branch_loop-objects (next ∷ rest) r =
        ground (arith, branch_loop-objects rest r, write-objects (sdk.set_activity next) r)

    apply_branch-objects :
        (info : Info sdk) (r : Run sdk)
        → (apply_branch sdk info (some q) r).1.objects j ≡ r.objects j
    unfolding apply_branch
    apply_branch-objects info r = ground (arith, branch_loop-objects info.next_activities r)

    set_execution_status-objects :
        (status : Status) (attribute : String) (r : Run sdk)
        → (set_execution_status sdk status attribute r).1.objects j ≡ r.objects j
    unfolding set_execution_status
    set_execution_status-objects status attribute r = ground arith

    apply_correction-objects :
        (payload : String) (r : Run sdk)
        → (apply_correction sdk (some q) payload r).1.objects j ≡ r.objects j
    unfolding apply_correction
    apply_correction-objects payload r = write-objects (λ d. (sdk.unmarshal payload d).1) r

    wait_for_signal_payload-objects :
        (signal : String) (timeout : ℤ) (r : Run sdk)
        → (wait_for_signal_payload sdk signal timeout r).1.objects j ≡ r.objects j
    unfolding wait_for_signal_payload
    wait_for_signal_payload-objects signal timeout r = ground arith

    gate-objects :
        (info : Info sdk) (o : ResumableOptions) (r : Run sdk)
        → (gate sdk info o (some q) r).1.objects j ≡ r.objects j
    unfolding gate
    gate-objects info o r = grind (
      arith, set_execution_status-objects, wait_for_signal_payload-objects,
      apply_correction-objects,
    )

    round-objects :
        (info : Info sdk) (o : ResumableOptions) (a : Option (ActivityOptions OtherOptions))
        (r : Run sdk)
        → (round sdk info o a (some q) r).1.objects j ≡ r.objects j
    unfolding round
    round-objects info o a r =
        ground (
          arith,
          gate-objects info o r,
          call_activity-objects a info (gate sdk info o (some q) r).1,
        )

    attempts-objects :
        (left : ℕ) (info : Info sdk) (o : ResumableOptions)
        (a : Option (ActivityOptions OtherOptions)) (r : Run sdk)
        → (attempts sdk left info o a (some q) r).1.objects j ≡ r.objects j
    unfolding attempts give_up set_execution_status
    attempts-objects zero info o a r = ground (arith, round-objects info o a r)
    attempts-objects (suc left) info o a r = ground (
      arith,
      round-objects info o a r,
      attempts-objects left info o a (round sdk info o a (some q) r).1,
    )

    wait_for_approval-objects :
        (name : String) (o : ResumableOptions) (r : Run sdk)
        → (wait_for_approval sdk name o r).1.objects j ≡ r.objects j
    unfolding wait_for_approval set_execution_status
    wait_for_approval-objects name o r = ground arith

    run_resumable_activity-objects :
        (k : String) (info : Info sdk) (r : Run sdk)
        → (run_resumable_activity sdk (k, info) (some q) r).1.objects j ≡ r.objects j
    unfolding run_resumable_activity
    run_resumable_activity-objects k info r =
        let o = step_options sdk info in
        let updated : Info sdk = record info { resumable = some o } in
        let s = set_info sdk k updated r in
        let a = some (resumable_options sdk updated) in
        let t = (attempts sdk (pos_part o.max_correction_attempts) updated o a (some q) s).1 in
        let u = (wait_for_approval sdk info.activity_name o t).1 in
        ground (
          arith,
          attempts-objects (pos_part o.max_correction_attempts) updated o a s,
          wait_for_approval-objects info.activity_name o t,
          apply_branch-objects updated t,
          apply_branch-objects updated u,
        )

    run_activity-objects :
        (n : Node sdk) (r : Run sdk) → (run_activity sdk n (some q) r).1.objects j ≡ r.objects j
    unfolding run_activity
    run_activity-objects (k, info) r =
        let s = (call_activity sdk info.activity_options info (some q) r).1 in
        ground (
          arith,
          run_resumable_activity-objects k info r,
          call_activity-objects info.activity_options info r,
          apply_branch-objects info s,
        )

    run_pipeline-objects :
        (fuel : ℕ) (attribute : String) (n : Option (Node sdk)) (r s : Run sdk)
        (x : Result (Unit {0}))
        → run_pipeline sdk fuel attribute n (some q) r ≡ some (x, s)
        → s.objects j ≡ r.objects j
    unfolding run_pipeline set_execution_status
    run_pipeline-objects fuel attribute none r s x h = ground arith
    run_pipeline-objects zero attribute (some n) r s x h = cc
    run_pipeline-objects (suc fuel) attribute (some n) r s x h =
        let t = (run_activity sdk n (some q) r).1 in
        ground (
          arith,
          run_activity-objects n r,
          run_pipeline-objects fuel attribute (next_node sdk n (some q) t) t s x,
        )

    start_up-objects : (r : Run sdk) → (start_up sdk r).1.objects j ≡ r.objects j
    unfolding start_up
    start_up-objects r = ground arith

    finish-objects :
        (attribute : String) (x : Result (Unit {0})) (r : Run sdk)
        → (finish sdk attribute (x, r)).1.objects j ≡ r.objects j
    unfolding finish set_execution_status
    finish-objects attribute (ok _) r = ground arith
    finish-objects attribute (err e) r = refl

    -- `Execute` on one object leaves every other as it was.
    pub execute-objects :
        (fuel : ℕ) (r s : Run sdk) (x : Result (Unit {0}))
        → execute sdk fuel (some q) r ≡ some (x, s)
        → s.objects j ≡ r.objects j
    unfolding execute
    execute-objects fuel r s x h =
        let attribute = status_search_attribute sdk r.w in
        let n = node_at sdk r.w r.w.first_activity in
        let t = (start_up sdk r).1 in
        elim (Option-cases (run_pipeline sdk fuel attribute n (some q) t)) [
          | inl out ↦ ground (arith, start_up-objects r)
          | inr ((y, u), ended) ↦ ground (
            arith,
            start_up-objects r,
            run_pipeline-objects fuel attribute n t u y,
            finish-objects attribute y u,
          )
        ]
