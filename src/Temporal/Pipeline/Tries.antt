-- ===== src/Temporal/Pipeline/Tries.antt =====
-- How often `Execute` of temporal/workflow.go has activities tried.
use mathlib.Core.Path.{subst}
use native.Mathlib.Nat.{mul-le-mul_right}
use go_cook.Shared.{
  ◌≡◌, refl, ◌⊎◌, inl, inr, ℕ, zero, suc, ◌<◌, ◌≤◌, ◌+◌, ◌*◌, String, String-discrete, Option, some,
  arith, Result, ok, err, Option-cases,
}
use go_cook.Shared.Dict.{lookup, insert, AllAt, insert-AllAt}
use go_cook.Temporal.Types.{completed, failed}
use go_cook.Temporal.Sdk.{Sdk, Info, Run}
use go_cook.Temporal.Registry.{node_at, status_search_attribute}
use go_cook.Temporal.Resumable.{step_options}
use go_cook.Temporal.Resumable.Options.{step_options-gate}
use go_cook.Temporal.Resumable.Tries.{Counter, no_function, tries-set_execution_status}
use go_cook.Temporal.Waits.{set_execution_status, register_status_query}
use go_cook.Temporal.Pipeline.{
  run_activity, next_node, run_pipeline, start_up, finish, stop_clock, execute,
}
use go_cook.Temporal.Pipeline.Termination.{
  Descends, run_activity-activity, next_node-listed, start_up-activity, run_activity-Descends,
}
use go_cook.Temporal.Pipeline.Limits.{IsLimited, Pays, plain-Limited, gated-Limited, step-tries}

module _ (sdk : Sdk) (counter : Counter sdk) where
  open sdk use {ActivityFn, OtherOptions}
  open counter use {tries, tries-upsert, tries-set_query_handler}

  spend : (cost a b : ℕ) → a < b → a * cost + cost ≤ b * cost
  spend cost a b h = ground (arith, mul-le-mul_right {m = suc a} {n = b} cost h)

  module _ (rank : String → ℕ) (limit : ℕ) where
    run_activity-tries :
        (k : String) (info : Info sdk) (p : Option ℕ) (r : Run sdk)
        → Pays sdk counter rank limit k info
        → let after = tries (run_activity sdk (k, info) p r).1.world in
          (after ≤ tries r.world) ⊎ ((0 < rank k) × (after ≤ tries r.world + 6 * limit))
    run_activity-tries k info p r (g, inl no_fn) = inl (
        ground (
          arith,
          step-tries sdk counter 0 k info p r g (λ n. rw no_fn no_function)
              (λ e. rw no_fn no_function),
        ))
    run_activity-tries k info p r (g, inr (positive, l)) = inr (
      positive,
      step-tries sdk counter limit k info p r g (λ n. gated-Limited sdk counter limit info g n l)
          (λ e.
            plain-Limited sdk counter limit info.activity_options info.activity_fn
              (subst (IsLimited sdk counter limit info.activity_options) e l)),
    )

    run_activity-Pays :
        (k : String) (info : Info sdk) (p : Option ℕ) (r : Run sdk)
        → Pays sdk counter rank limit k info
        → AllAt (Pays sdk counter rank limit) r.w.activity
        → AllAt (Pays sdk counter rank limit) (run_activity sdk (k, info) p r).1.w.activity
    run_activity-Pays k info p r (g, pays) h =
        let updated : Info sdk = record info { resumable = some (step_options sdk info) } in
        elim (String-discrete info.signal_event "") [
          | yes e ↦
              let same : (run_activity sdk (k, info) p r).1.w.activity ≡ r.w.activity =
                ground (arith, run_activity-activity sdk k info p r) in
              rw same h
          | no n ↦
              let filled : (run_activity sdk (k, info) p r).1.w.activity
                  ≡ insert k updated r.w.activity =
                ground (arith, run_activity-activity sdk k info p r) in
              rw filled (
                insert-AllAt (Pays sdk counter rank limit) k updated r.w.activity
                  (step_options-gate sdk info g n, pays) h)
        ]

    run_pipeline-tries :
        (fuel : ℕ) (attribute : String) (k : String) (info : Info sdk) (p : Option ℕ)
        (r s : Run sdk) (x : Result (Unit {0}))
        → lookup k r.w.activity ≡ some info
        → AllAt (Pays sdk counter rank limit) r.w.activity
        → Descends sdk rank r.w.activity
        → run_pipeline sdk fuel attribute (some (k, info)) p r ≡ some (x, s)
        → tries s.world ≤ tries r.world + rank k * (6 * limit)
    unfolding run_pipeline
    run_pipeline-tries zero attribute k info p r s x at h d e = absurd (cc)
    run_pipeline-tries (suc fuel) attribute k info p r s x at h d e =
        let t = (run_activity sdk (k, info) p r).1 in
        let spent = run_activity-tries k info p r (h k info at) in
        elim (Option-cases (next_node sdk (k, info) p t)) [
          | inl last ↦ ground (
            arith,
            spent,
            tries-set_execution_status sdk counter failed attribute t,
            spend (6 * limit) 0 (rank k),
          )
          | inr ((next, found), more) ↦
              let (listed, there) = next_node-listed sdk k next info found p t more in
              let h' = run_activity-Pays k info p r (h k info at) h in
              let d' = run_activity-Descends sdk rank k info p r at d in
              let lower : rank next < rank k = ground (arith, d k next) in
              ground (
                arith,
                spent,
                tries-set_execution_status sdk counter failed attribute t,
                spend (6 * limit) 0 (rank k),
                spend (6 * limit) (rank next) (rank k) lower,
                run_pipeline-tries fuel attribute next found p t s x there h' d',
              )
        ]

    start_up-tries : (r : Run sdk) → tries (start_up sdk r).1.world ≡ tries r.world
    unfolding start_up set_execution_status register_status_query
    start_up-tries r = grind (arith, tries-upsert, tries-set_query_handler)

    finish-tries :
        (attribute : String) (x : Result (Unit {0})) (r : Run sdk)
        → tries (finish sdk attribute (x, r)).1.world ≡ tries r.world
    unfolding finish
    finish-tries attribute (ok _) r =
        ground
          (arith, tries-set_execution_status sdk counter completed attribute (stop_clock sdk r))
    finish-tries attribute (err e) r = refl

    -- Where the entries pay, the rank of the first activity bounds the attempts of a run.
    pub execute-tries :
        (fuel : ℕ) (p : Option ℕ) (r s : Run sdk) (x : Result (Unit {0}))
        → AllAt (Pays sdk counter rank limit) r.w.activity
        → Descends sdk rank r.w.activity
        → execute sdk fuel p r ≡ some (x, s)
        → tries s.world ≤ tries r.world + rank r.w.first_activity * (6 * limit)
    unfolding execute
    execute-tries fuel p r s x h d e =
        let attribute = status_search_attribute sdk r.w in
        let n = node_at sdk r.w r.w.first_activity in
        let t = (start_up sdk r).1 in
        elim (Option-cases (lookup r.w.first_activity r.w.activity)) [
          | inl missing ↦
              unfold run_pipeline in
              ground (arith, start_up-tries r, finish-tries attribute (ok tt) t)
          | inr (info, there) ↦ elim (Option-cases (run_pipeline sdk fuel attribute n p t)) [
            | inl out ↦ ground (arith, start_up-tries r)
            | inr ((y, u), ended) ↦ ground (
              arith,
              start_up-tries r,
              finish-tries attribute y u,
              run_pipeline-tries fuel attribute r.w.first_activity info p t u y
                  (rw (start_up-activity sdk r) there) (rw (start_up-activity sdk r) h)
                  (rw (start_up-activity sdk r) d),
            )
          ]
        ]
