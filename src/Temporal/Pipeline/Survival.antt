-- ===== src/Temporal/Pipeline/Survival.antt =====
-- Runs of `Execute` of temporal/workflow.go that survive failures of their activities.
use go_cook.Shared.{
  ◌≡◌, inl, inr, ℕ, zero, suc, ◌≤◌, ◌<◌, String, Option, some, arith, Result, ok, Option-cases,
}
use go_cook.Shared.Dict.{Dict, lookup, insert, AllAt, insert-AllAt}
use go_cook.Temporal.Types.{completed}
use go_cook.Temporal.Sdk.{Sdk, Info, Run}
use go_cook.Temporal.Registry.{node_at, status_search_attribute}
use go_cook.Temporal.Registry.Graph.{IsWellFormed, status_search_attribute-IsWellFormed}
use go_cook.Temporal.Resumable.{step_options}
use go_cook.Temporal.Resumable.Options.{step_options-gate}
use go_cook.Temporal.Waits.{set_execution_status, register_status_query}
use go_cook.Temporal.Pipeline.{run_activity, next_node, run_pipeline, start_up, finish, execute}
use go_cook.Temporal.Pipeline.Statuses.{execute-status}
use go_cook.Temporal.Pipeline.Termination.{
  Descends, run_activity-activity, next_node-listed, start_up-activity, execute-total,
}
use go_cook.Temporal.Pipeline.Recovery.{Operator, IsReady, run_activity-succeeds}

module _ (sdk : Sdk) (op : Operator sdk) where
  open op use {faults, handled, faults-handled}

  -- Every entry that a name leads to is ready.
  abbrev pub AllReady : Dict (Info sdk) → Type 0
  AllReady = AllAt (λ _ info. IsReady sdk op info)

  run_activity-IsReady :
      (k : String) (info : Info sdk) (p : Option ℕ) (r : Run sdk)
      → IsReady sdk op info
      → AllReady r.w.activity
      → AllReady (run_activity sdk (k, info) p r).1.w.activity
  run_activity-IsReady k info p r (g, n, f) h =
      let updated : Info sdk = record info { resumable = some (step_options sdk info) } in
      let filled : (run_activity sdk (k, info) p r).1.w.activity ≡ insert k updated r.w.activity =
        ground (arith, run_activity-activity sdk k info p r) in
      rw filled (
        insert-AllAt (λ _ other. IsReady sdk op other) k updated r.w.activity
          (step_options-gate sdk info g n, n, f) h)

  run_pipeline-succeeds :
      (fuel : ℕ) (attribute : String) (k : String) (info : Info sdk) (q : ℕ) (r s : Run sdk)
      (x : Result (Unit {0}))
      → IsReady sdk op info
      → AllReady r.w.activity
      → faults r.world ≤ 5
      → run_pipeline sdk fuel attribute (some (k, info)) (some q) r ≡ some (x, s)
      → x ≡ ok tt
  unfolding run_pipeline
  run_pipeline-succeeds zero attribute k info q r s x g h few e = absurd (cc)
  run_pipeline-succeeds (suc fuel) attribute k info q r s x g h few e =
      let t = (run_activity sdk (k, info) (some q) r).1 in
      elim (Option-cases (next_node sdk (k, info) (some q) t)) [
        | inl last ↦ ground (arith, run_activity-succeeds sdk op k info q r g few)
        | inr ((next, found), more) ↦
            let (_, there) = next_node-listed sdk k next info found (some q) t more in
            let h' = run_activity-IsReady k info (some q) r g h in
            ground (
              arith,
              run_activity-succeeds sdk op k info q r g few,
              run_pipeline-succeeds fuel attribute next found q t s x (h' next found there) h',
            )
      ]

  start_up-succeeds :
      (r : Run sdk)
      → IsWellFormed sdk r.w
      → ((start_up sdk r).0 ≡ ok tt) × (faults (start_up sdk r).1.world ≤ faults r.world)
  unfolding start_up set_execution_status register_status_query
  start_up-succeeds r h =
      grind (arith, handled, faults-handled, status_search_attribute-IsWellFormed sdk r.w h)

  execute-ok :
      (fuel q : ℕ) (r s : Run sdk) (x : Result (Unit {0}))
      → IsWellFormed sdk r.w
      → AllReady r.w.activity
      → faults r.world ≤ 5
      → execute sdk fuel (some q) r ≡ some (x, s)
      → x ≡ ok tt
  unfolding execute
  execute-ok fuel q r s x h ready few e =
      let attribute = status_search_attribute sdk r.w in
      let n = node_at sdk r.w r.w.first_activity in
      let t = (start_up sdk r).1 in
      elim (Option-cases (lookup r.w.first_activity r.w.activity)) [
        | inl missing ↦ unfold run_pipeline finish in ground (arith, start_up-succeeds r h)
        | inr (info, there) ↦ elim (Option-cases (run_pipeline sdk fuel attribute n (some q) t)) [
          | inl out ↦ ground (arith, start_up-succeeds r h)
          | inr ((y, u), ended) ↦
              unfold finish in
              ground (
                arith,
                start_up-succeeds r h,
                run_pipeline-succeeds fuel attribute r.w.first_activity info q t u y
                    (ready r.w.first_activity info there) (rw (start_up-activity sdk r) ready),
              )
        ]
      ]

  -- A well-formed workflow without cycles whose steps all have a function and wait for a signal
  -- completes, if an operator answers every wait with a correction that the execution data accept and
  -- no more than five times in all an activity fails: with as many rounds as the rank of the first
  -- activity, and one, `Execute` returns nil and leaves the status COMPLETED.
  pub execute-completes :
      (rank : String → ℕ) (fuel q : ℕ) (r : Run sdk)
      → IsWellFormed sdk r.w
      → AllReady r.w.activity
      → Descends sdk rank r.w.activity
      → rank r.w.first_activity < fuel
      → faults r.world ≤ 5
      → (s : Run sdk) × (execute sdk fuel (some q) r ≡ some (ok tt, s)) × (s.w.status ≡ completed)
  execute-completes rank fuel q r h ready d enough few =
      elim (Option-cases (execute sdk fuel (some q) r)) [
        | inl out ↦ absurd (ground (arith, execute-total sdk rank 0 fuel (some q) r d enough))
        | inr ((x, s), e) ↦
            let done = execute-ok fuel q r s x h ready few e in
            let e' : execute sdk fuel (some q) r ≡ some (ok tt, s) = ground arith in
            (s, e', execute-status sdk fuel (some q) r s (ok tt) e')
      ]
