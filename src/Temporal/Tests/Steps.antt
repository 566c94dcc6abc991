-- ===== src/Temporal/Tests/Steps.antt =====
-- The registration and single steps of the sample workflow.
use go_cook.Shared.{◌≡◌, refl, ℕ, String-discrete, none, some, [], ◌∷◌, ok}
use go_cook.Shared.Int.{pos}
use go_cook.Shared.Dict.{lookup, insert}
use go_cook.Temporal.Types.{
  awaiting_correction, awaiting_approval, ResumableOptions, zero_resumable,
}
use go_cook.Temporal.Sdk.{Info, Run, other_value, read}
use go_cook.Temporal.Registry.{new_workflow_execution, add_transition, transition_info}
use go_cook.Temporal.Registry.Graph.{IsWellFormed, add_transition-IsWellFormed}
use go_cook.Temporal.Resumable.{gate, step_options}
use go_cook.Temporal.Waits.{
  set_execution_status, wait_for_signal_payload, wait_bool, wait_for_approval,
}
use go_cook.Temporal.Resumable.Rounds.{Fails, Outcome, attempts-Outcome}
use go_cook.Temporal.Resumable.Payloads.{
  correction, verdict, gate-correction, wait_for_approval-verdict,
}
use go_cook.Temporal.Tests.Sample.{desk, opened, reviewed, issue, reviewed-IsWellFormed}

add_transition-IsWellFormed_example : IsWellFormed desk issue.w
add_transition-IsWellFormed_example =
    add_transition-IsWellFormed desk "publish" "" "" none [] reviewed reviewed-IsWellFormed

abbrev draft : Info desk
draft = transition_info desk "draft" "submit" (some "review") none ("review" ∷ [])

draft-there : lookup "draft" issue.w.activity ≡ some draft
unfolding add_transition new_workflow_execution lookup insert String-discrete
draft-there = refl

abbrev gated : ResumableOptions
gated = step_options desk draft

attempts-Outcome_example :
    (n : ℕ) × (s : Run desk) × Fails desk draft gated none (some 0) n issue s
    × Outcome desk draft gated none (some 0) 2 n issue s
attempts-Outcome_example = attempts-Outcome desk draft gated none (some 0) 2 issue

abbrev corrected : Run desk
corrected = record issue { world = record opened { payloads = other_value "review" ∷ [] } }

review-received :
    (wait_for_signal_payload desk draft.signal_event gated.wait_timeout
      (set_execution_status desk awaiting_correction gated.status_search_attribute corrected).1).0
    ≡ ok "review"
unfolding wait_for_signal_payload set_execution_status step_options transition_info String-discrete
review-received = refl

gate-correction_example :
    let (x, s) = gate desk draft gated (some 0) corrected in
    (x, read desk (some 0) s)
    ≡ correction desk draft.activity_name "review" (read desk (some 0) corrected)
gate-correction_example =
    gate-correction desk draft gated (some 0) corrected "review" review-received

abbrev approvable : ResumableOptions
approvable = record zero_resumable { approval_signal = "approve" }

wait_for_approval-verdict_example :
    let (x, s) = wait_for_approval desk "draft" approvable issue in
    (x, s.w.status)
    ≡ verdict desk "draft" "approve"
        (wait_bool desk "approve"
          (pos 0)
          (set_execution_status desk awaiting_approval "" issue).1).0
wait_for_approval-verdict_example = wait_for_approval-verdict desk "draft" approvable issue
