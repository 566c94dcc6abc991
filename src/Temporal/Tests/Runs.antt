-- ===== src/Temporal/Tests/Runs.antt =====
-- Whole runs of the sample workflow, and the theorems on the pipeline at these runs.
use native.Mathlib.Decide.{ℕ_discrete}
use text.Mathlib.TextEquality.{eq_iff}
use go_cook.Shared.{
  ◌≡◌, ◌⊎◌, refl, String, String-discrete, Option, none, some, true, List, [], ◌∷◌, Result, ok, err,
  new, arith, is_some,
}
use go_cook.Shared.Dict.{lookup, insert}
use go_cook.Temporal.Types.{completed, pending}
use go_cook.Temporal.Sdk.{Info, Run}
use go_cook.Temporal.Registry.{
  new_workflow_execution, add_transition, transition_info, get_next_activity,
  status_search_attribute,
}
use go_cook.Temporal.Resumable.{run_resumable_activity, attempts, gate, round}
use go_cook.Temporal.Waits.{wait_for_signal_payload, apply_correction}
use go_cook.Temporal.Resumable.Statuses.{Leaves}
use go_cook.Temporal.Pipeline.{run_pipeline, run_activity, next_node, execute, start_up, finish}
use go_cook.Temporal.Pipeline.Statuses.{Ended, execute-status}
use go_cook.Temporal.Pipeline.Plans.{Registration, IsForward, execute-register_all}
use go_cook.Temporal.Pipeline.Gates.{Unapproved, execute-Unapproved}
use go_cook.Temporal.Pipeline.Walk.{
  Walk, stops, goes, settled, run_pipeline-Walk, Walk-run_pipeline,
}
use go_cook.Temporal.Tests.Sample.{desk, blank, issue, edited, issue-IsWellFormed}

abbrev or_stuck : Option (Result (Unit {0}) × Run desk) → Result (Unit {0}) × Run desk
or_stuck none = (err (new "out of fuel"), blank)
or_stuck (some x) = x

abbrev ended : Result (Unit {0}) × Run desk
ended = or_stuck (execute desk 3 (some 0) issue)

issue-completed : (ended.0 ≡ ok tt) × (ended.1.w.status ≡ completed)
unfolding execute start_up run_pipeline run_activity next_node finish add_transition
    new_workflow_execution lookup insert String-discrete get_next_activity status_search_attribute
    run_resumable_activity attempts gate round wait_for_signal_payload apply_correction ℕ_discrete
issue-completed = (refl, refl)

issue-ends : execute desk 3 (some 0) issue ≡ some ended
unfolding execute start_up run_pipeline run_activity next_node finish add_transition
    new_workflow_execution lookup insert String-discrete get_next_activity status_search_attribute
    run_resumable_activity attempts gate round wait_for_signal_payload apply_correction ℕ_discrete
issue-ends = refl

execute-status_example :
    Leaves
      (λ t. t ≡ completed)
      (λ t. Ended t ⊎ (((start_up desk issue).0 ≡ ended.0) × (t ≡ pending)))
      ended.0
      ended.1.w.status
execute-status_example = execute-status desk 3 (some 0) issue ended.1 ended.0 issue-ends

execute-Unapproved_example :
    Unapproved desk ended.1.w.status × (status_search_attribute desk issue.w ≡ "")
execute-Unapproved_example =
    execute-Unapproved desk 3 (some 0) issue ended.1 ended.0 issue-IsWellFormed issue-ends

abbrev plan : List (Registration desk)
plan =
    record {
      name = "draft";
      signal = "submit";
      fn = "review";
      options = none;
      next = "review" ∷ [];
    }
    ∷ record {
      name = "review";
      signal = "";
      fn = "publish";
      options = none;
      next = "publish" ∷ "archive" ∷ [];
    }
    ∷ record { name = "publish"; signal = ""; fn = ""; options = none; next = [] }
    ∷ []

plan-IsForward : IsForward desk [] plan
unfolding String-discrete
plan-IsForward = ((refl, tt), ((refl, (refl, tt)), (tt, tt)))

blank-empty : blank.w.activity ≡ []
unfolding new_workflow_execution
blank-empty = refl

execute-register_all_example :
    (is_some (execute desk 4 (some 0) issue) ≡ true)
    × (execute desk 6 (some 0) issue ≡ execute desk 4 (some 0) issue)
execute-register_all_example =
    execute-register_all desk plan 2 4 (some 0) blank plan-IsForward blank-empty (omega arith)

abbrev review : Info desk
review = transition_info desk "review" "" (some "publish") none ("publish" ∷ "archive" ∷ [])

abbrev publish : Info desk
publish = transition_info desk "publish" "" (some "") none []

abbrev walked : Result (Unit {0}) × Run desk
walked = or_stuck (run_pipeline desk 2 "" (some ("review", review)) (some 0) edited)

edited-walks :
    Walk desk (some 0) "review" review edited ("review" ∷ "publish" ∷ []) (ok tt) walked.1
unfolding run_pipeline run_activity next_node add_transition transition_info new_workflow_execution
    lookup insert String-discrete get_next_activity ℕ_discrete
edited-walks =
    goes {next = "publish"} {found = publish} refl
      (refl, ground (arith, eq_iff "publish" ""), refl, refl)
      (stops refl (λ next found g. ground arith))

Walk-run_pipeline_example :
    run_pipeline desk 2 "" (some ("review", review)) (some 0) edited
    ≡ some (ok tt, settled desk "" (ok tt) walked.1)
Walk-run_pipeline_example = Walk-run_pipeline desk "" (some 0) 2 edited-walks (omega arith)

walked-eq : run_pipeline desk 2 "" (some ("review", review)) (some 0) edited ≡ some walked
unfolding run_pipeline run_activity next_node add_transition transition_info new_workflow_execution
    lookup insert String-discrete get_next_activity ℕ_discrete
walked-eq = refl

run_pipeline-Walk_example :
    (names : List String) × (s : Run desk) × Walk desk
      (some 0)
      "review"
      review
      edited
      names
      walked.0
      s
    × (walked.1 ≡ settled desk "" walked.0 s)
run_pipeline-Walk_example =
    run_pipeline-Walk desk "" (some 0) 2 "review" review edited walked.1 walked.0 walked-eq
