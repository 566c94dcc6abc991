-- ===== src/Temporal/Pipeline.antt =====
-- temporal/workflow.go: `runActivity` and `Execute`.
pub mod Statuses
pub mod Termination
pub mod Plans
pub mod Setup
pub mod Walk
pub mod Gates
pub mod Recovery
pub mod Survival
pub mod Limits
pub mod Tries
pub mod Budget
use go_cook.Shared.{
  ℕ, zero, suc, String, Bool, true, false, Option, none, some, [], ◌∷◌, if◌then◌else◌, branch, ◌==◌,
  ◌!=◌, ◌<>◌, Result, ok, err, ◌>>=◌, ◌>>◌, gets, modify, wrapping,
}
use go_cook.Temporal.Types.{Status, pending, failed, completed, rejected}
use go_cook.Temporal.Sdk.{Sdk, Run, read}
use go_cook.Temporal.Registry.{Node, node_at, get_next_activity, status_search_attribute}
use go_cook.Temporal.Resumable.{run_resumable_activity}
use go_cook.Temporal.Waits.{
  M, set_execution_status, register_status_query, call_activity, apply_branch,
}

-- `w.Status != StatusFailed && w.Status != StatusRejected`
abbrev pub is_open : Status → Bool
is_open failed = false
is_open rejected = false
is_open _ = true

module _ (sdk : Sdk) where
  open sdk use {get_activity}

  -- `runActivity`
  unfoldable pub run_activity : Node sdk → Option ℕ → M sdk (Unit {0})
  unfolding call_activity apply_branch
  run_activity (k, info) p =
      branch (info.signal_event != "") (run_resumable_activity sdk (k, info) p) (
        wrapping ("activity " <> info.activity_name <> " failed: ")
          (call_activity sdk info.activity_options info p)
        >> apply_branch sdk info p)

  -- Sets a status unless the run is failed or rejected, and drops the error.
  abbrev pub settle : Status → String → Run sdk → Run sdk
  settle status attribute r =
      if is_open r.w.status then (set_execution_status sdk status attribute r).1 else r

  -- Where the loop goes after a step that succeeded; `none` leaves it.
  unfoldable pub next_node : Node sdk → Option ℕ → Run sdk → Option (Node sdk)
  next_node (k, info) p r = elim info.next_activities [
    | [] ↦ none
    | _ ∷ _ ↦ elim (read sdk p r) [
      | none ↦ none
      | some d ↦
          if get_activity d == "" then none else get_next_activity sdk r.w info (get_activity d)
    ]
  ]

  -- The `for` loop of `Execute`, with fuel; `none` means that the fuel ran out.
  unfoldable pub run_pipeline :
      ℕ → String → Option (Node sdk) → Option ℕ → Run sdk → Option (Result (Unit {0}) × Run sdk)
  run_pipeline fuel attribute none p r = some (ok tt, r)
  run_pipeline zero attribute (some n) p r = none
  run_pipeline (suc fuel) attribute (some n) p r =
      let (x, s) = run_activity n p r in
      elim x [
        | err e ↦ some (err e, settle failed attribute s)
        | ok _ ↦ run_pipeline fuel attribute (next_node n p s) p s
      ]

  abbrev start_clock : Run sdk → Run sdk
  start_clock r = let w = r.w in record r { w = record w { started_at = sdk.now r.world } }

  abbrev pub stop_clock : Run sdk → Run sdk
  stop_clock r = let w = r.w in record r { w = record w { completed_at = sdk.now r.world } }

  -- What `Execute` does before the loop.
  unfoldable pub start_up : M sdk (Unit {0})
  unfolding set_execution_status register_status_query status_search_attribute
  start_up = do
    modify start_clock
    w ← gets (λ r. r.w)
    set_execution_status sdk pending (status_search_attribute sdk w)
    register_status_query sdk

  -- What `Execute` does when the loop has ended by itself.
  unfoldable pub finish : String → Result (Unit {0}) × Run sdk → Result (Unit {0}) × Run sdk
  unfolding set_execution_status
  finish attribute (ok _, r) = (ok tt, settle completed attribute (stop_clock r))
  finish attribute (err e, r) = (err e, r)

  -- `Execute`
  unfoldable pub execute : ℕ → Option ℕ → Run sdk → Option (Result (Unit {0}) × Run sdk)
  execute fuel p r =
      let attribute = status_search_attribute sdk r.w in
      let first = node_at sdk r.w r.w.first_activity in
      let (x, s) = start_up r in
      elim x [
        | err e ↦ some (err e, s)
        | ok _ ↦ elim (run_pipeline fuel attribute first p s) [
          | none ↦ none
          | some ended ↦ some (finish attribute ended)
        ]
      ]
