-- ===== src/Temporal/Pipeline/Termination.antt =====
-- The loop of `Execute` in temporal/workflow.go ends on every graph without cycles.
use native.Mathlib.Nat.{suc-add, zero-add}
use go_cook.Shared.{
  sym, ◌∙◌, ◌≡◌, ℕ, zero, suc, ◌<◌, ◌+◌, String, true, Option, none, some, arith, Result, ◌!=◌,
  member, if◌then◌else◌, Option-cases, is_some, inl, inr,
}
use go_cook.Shared.Dict.{Dict, lookup, insert, lookup-insert}
use go_cook.Temporal.Sdk.{Sdk, Info, Run}
use go_cook.Temporal.Registry.{Node, node_at, status_search_attribute}
use go_cook.Temporal.Registry.Lookup.{get_next_activity-eq, names_at}
use go_cook.Temporal.Resumable.{step_options}
use go_cook.Temporal.Waits.{call_activity}
use go_cook.Temporal.Resumable.Statuses.{apply_branch-w, call_activity-w}
use go_cook.Temporal.Resumable.Frame.{run_resumable_activity-activity}
use go_cook.Temporal.Pipeline.{run_activity, next_node, run_pipeline, start_up, execute}

module _ (sdk : Sdk) where
  -- Every activity that a step lists has a lower rank than the step.
  abbrev pub Descends : (String → ℕ) → Dict (Info sdk) → Type 0
  Descends rank activity =
      (k next : String) → member next (names_at sdk k activity) ≡ true → rank next < rank k

  -- Only the options of the step that runs may change in the map.
  pub run_activity-activity :
      (k : String) (info : Info sdk) (p : Option ℕ) (r : Run sdk)
      → (run_activity sdk (k, info) p r).1.w.activity ≡ (
          if info.signal_event != ""
          then insert k (record info { resumable = some (step_options sdk info) }) r.w.activity
          else r.w.activity)
  unfolding run_activity
  run_activity-activity k info p r =
      let s = (call_activity sdk info.activity_options info p r).1 in
      ground (
        arith,
        run_resumable_activity-activity sdk k info p r,
        call_activity-w sdk info.activity_options info p r,
        apply_branch-w sdk info p s,
      )

  names_at-run_activity :
      (k j : String) (info : Info sdk) (p : Option ℕ) (r : Run sdk)
      → lookup k r.w.activity ≡ some info
      → names_at sdk j (run_activity sdk (k, info) p r).1.w.activity ≡ names_at sdk j r.w.activity
  names_at-run_activity k j info p r at =
      let updated : Info sdk = record info { resumable = some (step_options sdk info) } in
      ground (arith, run_activity-activity k info p r, lookup-insert k j updated r.w.activity)

  pub run_activity-Descends :
      (rank : String → ℕ) (k : String) (info : Info sdk) (p : Option ℕ) (r : Run sdk)
      → lookup k r.w.activity ≡ some info
      → Descends rank r.w.activity
      → Descends rank (run_activity sdk (k, info) p r).1.w.activity
  run_activity-Descends rank k info p r at d j next m =
      d j next (rw (names_at-run_activity k j info p r at) at m)

  -- A step that the loop goes to is listed by the step before.
  pub next_node-listed :
      (k next : String) (info found : Info sdk) (p : Option ℕ) (r : Run sdk)
      → next_node sdk (k, info) p r ≡ some (next, found)
      → (member next info.next_activities ≡ true) × (lookup next r.w.activity ≡ some found)
  unfolding next_node
  next_node-listed k next info found none r h = ground arith
  next_node-listed k next info found (some q) r h =
      ground (arith, get_next_activity-eq sdk r.w info (sdk.get_activity (r.objects q)))

  module _ (rank : String → ℕ) (attribute : String) (p : Option ℕ) where
    run_pipeline-total :
        (fuel : ℕ) (k : String) (info : Info sdk) (r : Run sdk)
        → lookup k r.w.activity ≡ some info
        → Descends rank r.w.activity
        → rank k < fuel
        → is_some (run_pipeline sdk fuel attribute (some (k, info)) p r) ≡ true
    unfolding run_pipeline
    run_pipeline-total zero k info r at d h = absurd (omega arith)
    run_pipeline-total (suc fuel) k info r at d h =
        let s = (run_activity sdk (k, info) p r).1 in
        elim (Option-cases (next_node sdk (k, info) p s)) [
          | inl last ↦ ground arith
          | inr ((next, found), more) ↦
              let (listed, there) = next_node-listed k next info found p s more in
              let d' = run_activity-Descends rank k info p r at d in
              ground (arith, run_pipeline-total fuel next found s there d', d k next)
        ]

  pub start_up-activity : (r : Run sdk) → (start_up sdk r).1.w.activity ≡ r.w.activity
  unfolding start_up
  start_up-activity r = ground arith

  run_pipeline-suc :
      (fuel : ℕ) (attribute : String) (n : Option (Node sdk)) (p : Option ℕ) (r : Run sdk)
      (y : Result (Unit {0}) × Run sdk)
      → run_pipeline sdk fuel attribute n p r ≡ some y
      → run_pipeline sdk (suc fuel) attribute n p r ≡ some y
  unfolding run_pipeline
  run_pipeline-suc fuel attribute none p r y h = h
  run_pipeline-suc zero attribute (some n) p r y h = cc
  run_pipeline-suc (suc fuel) attribute (some n) p r y h =
      let s = (run_activity sdk n p r).1 in
      ground (arith, run_pipeline-suc fuel attribute (next_node sdk n p s) p s y)

  execute-suc :
      (fuel : ℕ) (p : Option ℕ) (r : Run sdk) (y : Result (Unit {0}) × Run sdk)
      → execute sdk fuel p r ≡ some y
      → execute sdk (suc fuel) p r ≡ some y
  unfolding execute
  execute-suc fuel p r y h =
      let attribute = status_search_attribute sdk r.w in
      let n = node_at sdk r.w r.w.first_activity in
      let s = (start_up sdk r).1 in
      elim (Option-cases (run_pipeline sdk fuel attribute n p s)) [
        | inl out ↦ ground arith
        | inr (z, ended) ↦ ground (arith, run_pipeline-suc fuel attribute n p s z)
      ]

  execute-add :
      (extra fuel : ℕ) (p : Option ℕ) (r : Run sdk) (y : Result (Unit {0}) × Run sdk)
      → execute sdk fuel p r ≡ some y
      → execute sdk (extra + fuel) p r ≡ some y
  execute-add zero fuel p r y h = rw zero-add h
  execute-add (suc extra) fuel p r y h =
      rw suc-add (execute-suc (extra + fuel) p r y (execute-add extra fuel p r y h))

  execute-is_some :
      (rank : String → ℕ) (fuel : ℕ) (p : Option ℕ) (r : Run sdk)
      → Descends rank r.w.activity
      → rank r.w.first_activity < fuel
      → is_some (execute sdk fuel p r) ≡ true
  unfolding execute
  execute-is_some rank fuel p r d h =
      let attribute = status_search_attribute sdk r.w in
      let s = (start_up sdk r).1 in
      elim (Option-cases (lookup r.w.first_activity r.w.activity)) [
        | inl missing ↦ unfold run_pipeline in ground arith
        | inr (info, there) ↦ ground (
          arith,
          start_up-activity r,
          run_pipeline-total rank attribute p fuel r.w.first_activity info s,
        )
      ]

  -- If the activities can be ranked so that every step lists steps of a lower rank only, then
  -- `Execute` ends: as many rounds as the rank of the first activity, and one, are enough, and more
  -- rounds do not change what it returns.
  pub execute-total :
      (rank : String → ℕ) (extra fuel : ℕ) (p : Option ℕ) (r : Run sdk)
      → Descends rank r.w.activity
      → rank r.w.first_activity < fuel
      → (is_some (execute sdk fuel p r) ≡ true)
        × (execute sdk (extra + fuel) p r ≡ execute sdk fuel p r)
  execute-total rank extra fuel p r d h = elim (Option-cases (execute sdk fuel p r)) [
    | inl out ↦ absurd (ground (arith, execute-is_some rank fuel p r d h))
    | inr (y, e) ↦ (execute-is_some rank fuel p r d h, execute-add extra fuel p r y e ∙ sym e)
  ]
