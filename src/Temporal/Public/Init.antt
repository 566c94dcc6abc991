-- ===== src/Temporal/Public/Init.antt =====
-- `WorkflowInit` and `ExecuteWorkflow` of temporal/public.go together: what the
-- registered query answers.
use go_cook.Shared.{
  ◌≡◌, refl, ap, ◌∙◌, inl, inr, ◌≢◌, ℕ, zero, suc, String, true, Option, none, some, arith, Error,
  Result, ok, err, ◌==◌, if◌then◌else◌, Option-cases,
}
use go_cook.Temporal.Sdk.{Sdk, Run}
use go_cook.Temporal.Registry.{Node, node_at, status_search_attribute}
use go_cook.Temporal.Waits.{set_execution_status, call_activity}
use go_cook.Temporal.Resumable.Statuses.{apply_branch-w, call_activity-w}
use go_cook.Temporal.Resumable.Frame.{run_resumable_activity-OnlyStatus}
use go_cook.Temporal.Pipeline.{run_activity, next_node, run_pipeline, start_up, finish, execute}
use go_cook.Temporal.Public.{execute_workflow, workflow_init, query_answer}
use go_cook.Temporal.Public.Objects.{execute-objects}

module _ (sdk : Sdk) where
  open sdk use {Data}

  run_activity-execution_data :
      (n : Node sdk) (p : Option ℕ) (r : Run sdk)
      → (run_activity sdk n p r).1.w.execution_data ≡ r.w.execution_data
  unfolding run_activity
  run_activity-execution_data (k, info) p r =
      let s = (call_activity sdk info.activity_options info p r).1 in
      ground (
        arith,
        ap (λ w. w.execution_data) (run_resumable_activity-OnlyStatus sdk k info p r),
        call_activity-w sdk info.activity_options info p r,
        apply_branch-w sdk info p s,
      )

  run_pipeline-execution_data :
      (fuel : ℕ) (attribute : String) (n : Option (Node sdk)) (p : Option ℕ) (r s : Run sdk)
      (x : Result (Unit {0}))
      → run_pipeline sdk fuel attribute n p r ≡ some (x, s)
      → s.w.execution_data ≡ r.w.execution_data
  unfolding run_pipeline set_execution_status
  run_pipeline-execution_data fuel attribute none p r s x h = ground arith
  run_pipeline-execution_data zero attribute (some n) p r s x h = cc
  run_pipeline-execution_data (suc fuel) attribute (some n) p r s x h =
      let t = (run_activity sdk n p r).1 in
      ground (
        arith,
        run_activity-execution_data n p r,
        run_pipeline-execution_data fuel attribute (next_node sdk n p t) p t s x,
      )

  start_up-execution_data : (r : Run sdk) → (start_up sdk r).1.w.execution_data ≡ r.w.execution_data
  unfolding start_up
  start_up-execution_data r = ground arith

  finish-execution_data :
      (attribute : String) (x : Result (Unit {0})) (r : Run sdk)
      → (finish sdk attribute (x, r)).1.w.execution_data ≡ r.w.execution_data
  unfolding finish set_execution_status
  finish-execution_data attribute (ok _) r = ground arith
  finish-execution_data attribute (err e) r = refl

  execute-execution_data :
      (fuel : ℕ) (p : Option ℕ) (r s : Run sdk) (x : Result (Unit {0}))
      → execute sdk fuel p r ≡ some (x, s)
      → s.w.execution_data ≡ r.w.execution_data
  unfolding execute
  execute-execution_data fuel p r s x h =
      let attribute = status_search_attribute sdk r.w in
      let n = node_at sdk r.w r.w.first_activity in
      let t = (start_up sdk r).1 in
      elim (Option-cases (run_pipeline sdk fuel attribute n p t)) [
        | inl out ↦ ground (arith, start_up-execution_data r)
        | inr ((y, u), ended) ↦ ground (
          arith,
          start_up-execution_data r,
          run_pipeline-execution_data fuel attribute n p t u y,
          finish-execution_data attribute y u,
        )
      ]

  -- `WorkflowInit` with a workflow execution, a query type and execution data returns the data or
  -- the error of the registration; either way the data are stored, no object is changed, and an empty workflow ID is
  -- filled with the context's.
  workflow_init-stores :
      (own_id query_type : String) (q : ℕ) (r : Run sdk)
      → query_type ≢ ""
      → let (x, s) = workflow_init sdk own_id true query_type (some q) r in
        (x ≡ elim (sdk.set_query_handler query_type r.world).0 [
          | none ↦ ok (some q)
          | some e ↦ err e
        ])
        × (s.w.execution_data ≡ some q)
        × (s.objects ≡ r.objects)
        × (s.w.workflow_id ≡ (if r.w.workflow_id == "" then own_id else r.w.workflow_id))
  unfolding workflow_init
  workflow_init-stores own_id query_type q r h = ground arith

  -- What the registered query answers where the workflow execution holds the object `q`.
  abbrev pub serves : Option (Option Data → Option Error) → ℕ → Run sdk → Result (Option ℕ)
  serves none q s = ok (some q)
  serves (some ready) q s = elim (ready (some (s.objects q))) [
    | none ↦ ok (some q)
    | some e ↦ err e
  ]

  held-serves :
      (ready : Option (Option Data → Option Error)) (q : ℕ) (s : Run sdk)
      → s.w.execution_data ≡ some q
      → query_answer sdk ready s ≡ serves ready q s
  unfolding query_answer
  held-serves none q s held = ground arith
  held-serves (some ready) q s held = ground arith

  -- After `WorkflowInit` with a query type and `ExecuteWorkflow` on the same data, however that
  -- ended within its fuel: `ExecuteWorkflow` has returned the data, or the error of `Execute` on
  -- them; no object but the data has changed, so all that the activities, the corrections and the
  -- branches wrote is in it; and the query answers with this object, or with the error of the
  -- `ready` function, if there is one, on what the object holds by then.
  pub workflow_init-execute_workflow :
      (own_id query_type : String) (q fuel j : ℕ) (ready : Option (Option Data → Option Error))
      (r s : Run sdk) (y : Result ℕ)
      → query_type ≢ ""
      → j ≢ q
      → execute_workflow sdk fuel true
          (some q)
          (workflow_init sdk own_id true query_type (some q) r).1
        ≡ some (y, s)
      → ((x : Result (Unit {0})) × (execute sdk fuel
              (some q)
              (workflow_init sdk own_id true query_type (some q) r).1
            ≡ some (x, s))
          × (y ≡ elim x [ ok _ ↦ ok q | err e ↦ err e ]))
        × (s.objects j ≡ r.objects j)
        × (query_answer sdk ready s ≡ serves ready q s)
  unfolding execute_workflow
  workflow_init-execute_workflow own_id query_type q fuel j ready r s y h other e =
      let t = (workflow_init sdk own_id true query_type (some q) r).1 in
      let (answered, stored, kept, id) = workflow_init-stores own_id query_type q r h in
      elim (Option-cases (execute sdk fuel (some q) t)) [
        | inl out ↦ absurd (ground arith)
        | inr ((x, u), ended) ↦
            let same : u ≡ s = ground arith in
            let held : s.w.execution_data ≡ some q =
              ground (arith, execute-execution_data fuel (some q) t u x ended) in
            let untouched : s.objects j ≡ t.objects j =
              ground (arith, execute-objects sdk q j other fuel t u x ended) in
            (
              (x, ended ∙ ground arith, ground arith),
              untouched ∙ ap (λ f. f j) kept,
              held-serves ready q s held,
            )
      ]
