-- ===== src/Temporal/Resumable/Frame.antt =====
-- What a signal-gated step of temporal/resumable.go leaves alone: the graph of activities, but for
-- the options of its own entry.
use go_cook.Shared.{◌≡◌, refl, ℕ, zero, suc, String, Option, none, some, List, [], ◌∷◌, arith, ap}
use go_cook.Shared.Int.{pos_part}
use go_cook.Shared.Dict.{insert}
use go_cook.Temporal.Types.{Status, ResumableOptions, ActivityOptions}
use go_cook.Temporal.Sdk.{Sdk, Info, Run}
use go_cook.Temporal.Resumable.{
  gate, round, give_up, attempts, run_resumable_activity, step_options, set_info,
}
use go_cook.Temporal.Waits.{
  set_execution_status, wait_for_signal_payload, apply_correction, wait_for_approval,
  resumable_options, branch_loop, apply_branch,
}
use go_cook.Temporal.Resumable.Statuses.{apply_branch-w, call_activity-w}

module _ (sdk : Sdk) where
  open sdk use {OtherOptions}

  -- The workflow object has changed in its status alone.
  abbrev pub OnlyStatus : Run sdk → Run sdk → Type 0
  OnlyStatus r s = s.w ≡ record (r.w) { status = s.w.status }

  pub set_execution_status-OnlyStatus :
      (s : Status) (attribute : String) (r : Run sdk)
      → OnlyStatus r (set_execution_status sdk s attribute r).1
  unfolding set_execution_status
  set_execution_status-OnlyStatus s attribute r = ground arith

  gate-OnlyStatus :
      (info : Info sdk) (o : ResumableOptions) (p : Option ℕ) (r : Run sdk)
      → OnlyStatus r (gate sdk info o p r).1
  unfolding gate set_execution_status wait_for_signal_payload apply_correction
  gate-OnlyStatus info o none r = ground arith
  gate-OnlyStatus info o (some q) r = ground arith

  round-OnlyStatus :
      (info : Info sdk) (o : ResumableOptions) (a : Option (ActivityOptions OtherOptions))
      (p : Option ℕ) (r : Run sdk)
      → OnlyStatus r (round sdk info o a p r).1
  unfolding round
  round-OnlyStatus info o a p r =
      ground
        (arith, gate-OnlyStatus info o p r, call_activity-w sdk a info p (gate sdk info o p r).1)

  attempts-OnlyStatus :
      (left : ℕ) (info : Info sdk) (o : ResumableOptions)
      (a : Option (ActivityOptions OtherOptions)) (p : Option ℕ) (r : Run sdk)
      → OnlyStatus r (attempts sdk left info o a p r).1
  unfolding attempts give_up
  attempts-OnlyStatus zero info o a p r = ground (arith, round-OnlyStatus info o a p r)
  attempts-OnlyStatus (suc left) info o a p r = ground (
    arith,
    round-OnlyStatus info o a p r,
    attempts-OnlyStatus left info o a p (round sdk info o a p r).1,
  )

  wait_for_approval-OnlyStatus :
      (name : String) (o : ResumableOptions) (r : Run sdk)
      → OnlyStatus r (wait_for_approval sdk name o r).1
  unfolding wait_for_approval
  wait_for_approval-OnlyStatus name o r = ground arith

  -- But for the status, only the options of this step are filled in.
  pub run_resumable_activity-OnlyStatus :
      (k : String) (info : Info sdk) (p : Option ℕ) (r : Run sdk)
      → OnlyStatus
          (set_info sdk k (record info { resumable = some (step_options sdk info) }) r)
          (run_resumable_activity sdk (k, info) p r).1
  unfolding run_resumable_activity
  run_resumable_activity-OnlyStatus k info p r =
      let o = step_options sdk info in
      let updated : Info sdk = record info { resumable = some o } in
      let s = set_info sdk k updated r in
      let a = some (resumable_options sdk updated) in
      let t = (attempts sdk (pos_part o.max_correction_attempts) updated o a p s).1 in
      let u = (wait_for_approval sdk info.activity_name o t).1 in
      ground (
        arith,
        attempts-OnlyStatus (pos_part o.max_correction_attempts) updated o a p s,
        wait_for_approval-OnlyStatus info.activity_name o t,
        apply_branch-w sdk updated p t,
        apply_branch-w sdk updated p u,
      )

  pub run_resumable_activity-activity :
      (k : String) (info : Info sdk) (p : Option ℕ) (r : Run sdk)
      → (run_resumable_activity sdk (k, info) p r).1.w.activity
        ≡ insert k (record info { resumable = some (step_options sdk info) }) r.w.activity
  run_resumable_activity-activity k info p r =
      ap (λ w. w.activity) (run_resumable_activity-OnlyStatus k info p r)

  branch_loop-world :
      (p : Option ℕ) (next : List String) (r : Run sdk) → (branch_loop sdk p next r).world ≡ r.world
  unfolding branch_loop
  branch_loop-world none [] r = refl
  branch_loop-world none (next ∷ rest) r = refl
  branch_loop-world (some q) [] r = refl
  branch_loop-world (some q) (next ∷ rest) r = ground (arith, branch_loop-world (some q) rest r)

  -- A branch changes the execution data alone.
  pub apply_branch-world :
      (info : Info sdk) (p : Option ℕ) (r : Run sdk) → (apply_branch sdk info p r).1.world ≡ r.world
  unfolding apply_branch
  apply_branch-world info none r = refl
  apply_branch-world info (some q) r =
      ground (arith, branch_loop-world (some q) info.next_activities r)
