-- ===== src/Temporal/Resumable/Statuses.antt =====
-- Which status a signal-gated step of temporal/resumable.go leaves behind.
use go_cook.Shared.{
  ◌≡◌, refl, ◌⊎◌, ℕ, zero, suc, String, Option, none, some, arith, List, [], ◌∷◌, Result, ok, err,
}
use go_cook.Shared.Int.{ℤ, pos_part}
use go_cook.Temporal.Types.{
  Status, awaiting_correction, executing, awaiting_approval, failed, rejected, ResumableOptions,
  ActivityOptions,
}
use go_cook.Temporal.Sdk.{Sdk, Info, Run}
use go_cook.Temporal.Resumable.{
  gate, round, give_up, attempts, run_resumable_activity, step_options, set_info,
}
use go_cook.Temporal.Waits.{
  set_execution_status, wait_for_signal_payload, apply_correction, call_activity, wait_for_approval,
  apply_branch, branch_loop, resumable_options,
}

-- After a step: it is under way or approved, or it stopped in one of these states.
abbrev pub Succeeded : Status → Type 0
Succeeded s = (s ≡ executing) ⊎ (s ≡ awaiting_approval)

abbrev pub Leaves :
    {A : Type 0} → (Status → Type 0) → (Status → Type 0) → Result A → Status → Type 0
Leaves P Q (ok _) s = P s
Leaves P Q (err _) s = Q s

module _ (sdk : Sdk) where
  open sdk use {OtherOptions}

  pub status-set_execution_status :
      (s : Status) (attribute : String) (r : Run sdk)
      → (set_execution_status sdk s attribute r).1.w.status ≡ s
  unfolding set_execution_status
  status-set_execution_status s attribute r = ground arith

  pub call_activity-w :
      (o : Option (ActivityOptions OtherOptions)) (info : Info sdk) (p : Option ℕ) (r : Run sdk)
      → (call_activity sdk o info p r).1.w ≡ r.w
  unfolding call_activity
  call_activity-w o info none r = refl
  call_activity-w o info (some p) r = refl

  apply_correction-w :
      (p : Option ℕ) (payload : String) (r : Run sdk) → (apply_correction sdk p payload r).1.w ≡ r.w
  unfolding apply_correction
  apply_correction-w none payload r = refl
  apply_correction-w (some p) payload r = refl

  wait_for_signal_payload-w :
      (signal : String) (timeout : ℤ) (r : Run sdk)
      → (wait_for_signal_payload sdk signal timeout r).1.w ≡ r.w
  unfolding wait_for_signal_payload
  wait_for_signal_payload-w signal timeout r = ground arith

  pub gate-status :
      (info : Info sdk) (o : ResumableOptions) (p : Option ℕ) (r : Run sdk)
      → Leaves
          (λ s. s ≡ executing)
          (λ s. (s ≡ failed) ⊎ (s ≡ awaiting_correction))
          (gate sdk info o p r).0
          (gate sdk info o p r).1.w.status
  unfolding gate set_execution_status wait_for_signal_payload apply_correction
  gate-status info o p r = ground arith

  pub round-status :
      (info : Info sdk) (o : ResumableOptions) (a : Option (ActivityOptions OtherOptions))
      (p : Option ℕ) (r : Run sdk)
      → Leaves
          (λ s. s ≡ executing)
          (λ s. (s ≡ failed) ⊎ (s ≡ awaiting_correction))
          (round sdk info o a p r).0
          (round sdk info o a p r).1.w.status
  unfolding round
  round-status info o a p r =
      ground (arith, gate-status info o p r, call_activity-w a info p (gate sdk info o p r).1)

  pub attempts-status :
      (left : ℕ) (info : Info sdk) (o : ResumableOptions)
      (a : Option (ActivityOptions OtherOptions)) (p : Option ℕ) (r : Run sdk)
      → Leaves
          (λ s. s ≡ executing)
          (λ s. (s ≡ failed) ⊎ (s ≡ awaiting_correction))
          (attempts sdk left info o a p r).0
          (attempts sdk left info o a p r).1.w.status
  unfolding attempts give_up
  attempts-status zero info o a p r = ground (arith, round-status info o a p r)
  attempts-status (suc left) info o a p r =
      ground (
        arith,
        round-status info o a p r,
        attempts-status left info o a p (round sdk info o a p r).1,
      )

  branch_loop-w :
      (p : Option ℕ) (names : List String) (r : Run sdk) → (branch_loop sdk p names r).w ≡ r.w
  unfolding branch_loop
  branch_loop-w p [] r = refl
  branch_loop-w none (next ∷ rest) r = refl
  branch_loop-w (some q) (next ∷ rest) r = ground (arith, branch_loop-w (some q) rest r)

  pub apply_branch-w :
      (info : Info sdk) (p : Option ℕ) (r : Run sdk) → (apply_branch sdk info p r).1.w ≡ r.w
  unfolding apply_branch
  apply_branch-w info none r = refl
  apply_branch-w info (some q) r = ground (arith, branch_loop-w (some q) info.next_activities r)

  pub apply_branch-ok :
      (info : Info sdk) (p : Option ℕ) (r : Run sdk) → (apply_branch sdk info p r).0 ≡ ok tt
  unfolding apply_branch
  apply_branch-ok info none r = refl
  apply_branch-ok info (some q) r = refl

  pub wait_for_approval-status :
      (name : String) (o : ResumableOptions) (r : Run sdk)
      → Leaves
          (λ s. s ≡ awaiting_approval)
          (λ s. (s ≡ awaiting_approval) ⊎ (s ≡ failed) ⊎ (s ≡ rejected))
          (wait_for_approval sdk name o r).0
          (wait_for_approval sdk name o r).1.w.status
  unfolding wait_for_approval
  wait_for_approval-status name o r = ground arith

  -- A step that returns no error is under way or approved; one that fails has failed, was rejected
  -- or still waits.
  pub run_resumable_activity-status :
      (k : String) (info : Info sdk) (p : Option ℕ) (r : Run sdk)
      → Leaves Succeeded
          (λ s. (s ≡ failed) ⊎ (s ≡ rejected) ⊎ (s ≡ awaiting_correction) ⊎ (s ≡ awaiting_approval))
          (run_resumable_activity sdk (k, info) p r).0
          (run_resumable_activity sdk (k, info) p r).1.w.status
  unfolding run_resumable_activity
  run_resumable_activity-status k info p r =
      let o = step_options sdk info in
      let updated : Info sdk = record info { resumable = some o } in
      let s = set_info sdk k updated r in
      let a = some (resumable_options sdk updated) in
      let t = (attempts sdk (pos_part o.max_correction_attempts) updated o a p s).1 in
      let u = (wait_for_approval sdk info.activity_name o t).1 in
      ground (
        arith,
        attempts-status (pos_part o.max_correction_attempts) updated o a p s,
        wait_for_approval-status info.activity_name o t,
        apply_branch-w updated p t,
        apply_branch-w updated p u,
        apply_branch-ok updated p t,
        apply_branch-ok updated p u,
      )
