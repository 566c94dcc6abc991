-- ===== src/Temporal/Pipeline/Gates.antt =====
-- Workflows whose steps have the options of their registration in temporal/workflow.go.
use go_cook.Shared.{
  ◌≡◌, inl, inr, ◌≢◌, ℕ, zero, suc, String, Option, some, arith, Result, ok, err, String-discrete,
  Option-cases,
}
use go_cook.Shared.Int.{pos_part}
use go_cook.Shared.Dict.{lookup, insert, AllValues, insert-AllValues, lookup-AllValues}
use go_cook.Temporal.Types.{Status, awaiting_approval, rejected}
use go_cook.Temporal.Sdk.{Sdk, Info, Run}
use go_cook.Temporal.Registry.{node_at, status_search_attribute}
use go_cook.Temporal.Registry.Graph.{IsGate, IsWellFormed, status_search_attribute-IsWellFormed}
use go_cook.Temporal.Resumable.{run_resumable_activity, step_options, attempts, set_info}
use go_cook.Temporal.Waits.{set_execution_status, call_activity, resumable_options}
use go_cook.Temporal.Resumable.Statuses.{
  attempts-status, apply_branch-w, apply_branch-ok, call_activity-w,
}
use go_cook.Temporal.Resumable.Options.{step_options-gate}
use go_cook.Temporal.Pipeline.{run_activity, next_node, run_pipeline, start_up, finish, execute}
use go_cook.Temporal.Pipeline.Statuses.{start_up-status}
use go_cook.Temporal.Pipeline.Termination.{
  run_activity-activity, next_node-listed, start_up-activity,
}

module _ (sdk : Sdk) where
  step_options-no_approval :
      (info : Info sdk)
      → IsGate sdk info
      → info.signal_event ≢ ""
      → (step_options sdk info).approval_signal ≡ ""
  step_options-no_approval info g h = ground (arith, step_options-gate sdk info g h)

  abbrev pub Unapproved : Status → Type 0
  Unapproved s = (s ≢ awaiting_approval) × (s ≢ rejected)

  run_resumable_activity-Unapproved :
      (k : String) (info : Info sdk) (p : Option ℕ) (r : Run sdk)
      → IsGate sdk info
      → info.signal_event ≢ ""
      → Unapproved (run_resumable_activity sdk (k, info) p r).1.w.status
  unfolding run_resumable_activity
  run_resumable_activity-Unapproved k info p r g h =
      let o = step_options sdk info in
      let updated : Info sdk = record info { resumable = some o } in
      let s = set_info sdk k updated r in
      let a = some (resumable_options sdk updated) in
      let t = (attempts sdk (pos_part o.max_correction_attempts) updated o a p s).1 in
      ground (
        arith,
        step_options-no_approval info g h,
        attempts-status sdk (pos_part o.max_correction_attempts) updated o a p s,
        apply_branch-w sdk updated p t,
        apply_branch-ok sdk updated p t,
      )

  run_activity-Unapproved :
      (k : String) (info : Info sdk) (p : Option ℕ) (r : Run sdk)
      → IsGate sdk info
      → Unapproved r.w.status
      → Unapproved (run_activity sdk (k, info) p r).1.w.status
  unfolding run_activity
  run_activity-Unapproved k info p r g h =
      let s = (call_activity sdk info.activity_options info p r).1 in
      ground (
        arith,
        run_resumable_activity-Unapproved k info p r g,
        call_activity-w sdk info.activity_options info p r,
        apply_branch-w sdk info p s,
      )

  run_activity-gates :
      (k : String) (info : Info sdk) (p : Option ℕ) (r : Run sdk)
      → IsGate sdk info
      → AllValues (IsGate sdk) r.w.activity
      → AllValues (IsGate sdk) (run_activity sdk (k, info) p r).1.w.activity
  run_activity-gates k info p r g h =
      let updated : Info sdk = record info { resumable = some (step_options sdk info) } in
      elim (String-discrete info.signal_event "") [
        | yes e ↦
            let same : (run_activity sdk (k, info) p r).1.w.activity ≡ r.w.activity =
              ground (arith, run_activity-activity sdk k info p r) in
            rw same h
        | no n ↦
            let filled : (run_activity sdk (k, info) p r).1.w.activity
                ≡ insert k updated r.w.activity =
              ground (arith, run_activity-activity sdk k info p r) in
            rw filled (
              insert-AllValues (IsGate sdk) k updated r.w.activity h
                (step_options-gate sdk info g n))
      ]

  run_pipeline-Unapproved :
      (fuel : ℕ) (attribute : String) (k : String) (info : Info sdk) (p : Option ℕ) (r s : Run sdk)
      (x : Result (Unit {0}))
      → IsGate sdk info
      → AllValues (IsGate sdk) r.w.activity
      → Unapproved r.w.status
      → run_pipeline sdk fuel attribute (some (k, info)) p r ≡ some (x, s)
      → Unapproved s.w.status
  unfolding run_pipeline set_execution_status
  run_pipeline-Unapproved zero attribute k info p r s x g h u e = absurd (cc)
  run_pipeline-Unapproved (suc fuel) attribute k info p r s x g h u e =
      let t = (run_activity sdk (k, info) p r).1 in
      elim (Option-cases (next_node sdk (k, info) p t)) [
        | inl last ↦ ground (arith, run_activity-Unapproved k info p r g u)
        | inr ((next, found), more) ↦
            let (_, there) = next_node-listed sdk k next info found p t more in
            let h' = run_activity-gates k info p r g h in
            ground (
              arith,
              run_activity-Unapproved k info p r g u,
              run_pipeline-Unapproved fuel attribute next found p t s x
                  (lookup-AllValues (IsGate sdk) next found t.w.activity h' there) h',
            )
      ]

  finish-Unapproved :
      (attribute : String) (x : Result (Unit {0})) (r : Run sdk)
      → Unapproved r.w.status
      → Unapproved (finish sdk attribute (x, r)).1.w.status
  unfolding finish set_execution_status
  finish-Unapproved attribute (ok _) r u = ground arith
  finish-Unapproved attribute (err e) r u = u

  ended-Unapproved :
      (fuel : ℕ) (p : Option ℕ) (r s : Run sdk) (x : Result (Unit {0}))
      → IsWellFormed sdk r.w
      → execute sdk fuel p r ≡ some (x, s)
      → Unapproved s.w.status
  unfolding execute
  ended-Unapproved fuel p r s x h e =
      let attribute = status_search_attribute sdk r.w in
      let n = node_at sdk r.w r.w.first_activity in
      let t = (start_up sdk r).1 in
      elim (Option-cases (lookup r.w.first_activity r.w.activity)) [
        | inl missing ↦
            unfold run_pipeline finish set_execution_status in ground (arith, start_up-status sdk r)
        | inr (info, there) ↦ elim (Option-cases (run_pipeline sdk fuel attribute n p t)) [
          | inl out ↦ ground (arith, start_up-status sdk r)
          | inr ((y, u), ended) ↦ ground (
            arith,
            start_up-status sdk r,
            finish-Unapproved attribute y u,
            run_pipeline-Unapproved fuel attribute r.w.first_activity info p t u y
                (lookup-AllValues (IsGate sdk) r.w.first_activity info r.w.activity h.gates there)
                (rw (start_up-activity sdk r) h.gates),
          )
        ]
      ]

  -- Where `Execute` ends within its fuel on a well-formed workflow, as
  -- `AddTransitionActivityWithOptions` alone builds it, the status is neither REJECTED nor
  -- AWAITING_APPROVAL, and in whatever order the map of activities is visited the run has found no
  -- search attribute to keep the status in.
  pub execute-Unapproved :
      (fuel : ℕ) (p : Option ℕ) (r s : Run sdk) (x : Result (Unit {0}))
      → IsWellFormed sdk r.w
      → execute sdk fuel p r ≡ some (x, s)
      → Unapproved s.w.status × (status_search_attribute sdk r.w ≡ "")
  execute-Unapproved fuel p r s x h e =
      (ended-Unapproved fuel p r s x h e, status_search_attribute-IsWellFormed sdk r.w h)
