-- ===== src/Temporal/Resumable.antt =====
-- temporal/resumable.go: the retry loop of a signal-gated step, and the step as a whole.
pub mod Statuses
pub mod Frame
pub mod Rounds
pub mod Payloads
pub mod Options
pub mod Tries
use go_cook.Shared.{
  ℕ, zero, suc, String, Bool, true, false, Option, none, some, List, [], ◌∷◌, branch, if◌then◌else◌,
  ◌==◌, ◌!=◌, ◌&&◌, ◌<>◌, Error, new, wrap, Result, ok, err, to_result, Action, pure, fail, ◌>>=◌,
  ◌>>◌, modify, ignore, wrapping, from_result,
}
use go_cook.Shared.Int.{ℤ, pos, is_positive, is_zero, pos_part}
use go_cook.Shared.Dict.{insert}
use go_cook.Shared.Format.{print, quote}
use go_cook.Temporal.Types.{
  Status, awaiting_correction, executing, awaiting_approval, failed, rejected, ResumableOptions,
  zero_resumable, ActivityOptions, RetryPolicy, zero_retry_policy, default_start_to_close_timeout,
  query_get_status,
}
use go_cook.Temporal.Sdk.{Sdk, Payload, raw_message, bytes, other_value, Info, Run, read, write}
use go_cook.Temporal.Registry.{with_defaults, Node}
use go_cook.Temporal.Waits.{
  M, on_world, on_world_error, put_status, set_execution_status, register_status_query,
  resumable_options, encode_correction, wait_payload, wait_for_signal_payload, apply_correction,
  branch_loop, apply_branch, call_activity, wait_bool, wait_for_approval,
}

module _ (sdk : Sdk) where
  open sdk use {World, Value, OtherOptions, Data}

  -- `waitErr`: the step fails.
  abbrev or_failed : Info sdk → ResumableOptions → M sdk String → M sdk String
  or_failed info o m r =
      let (x, s) = m r in
      elim x [
        | ok v ↦ (ok v, s)
        | err e ↦
            (do
              ignore (set_execution_status sdk failed o.status_search_attribute)
              fail (wrap ("activity " <> info.activity_name <> ": ") e))
              s
      ]

  -- A round up to the activity: wait for the signal, apply its payload.
  unfoldable pub gate : Info sdk → ResumableOptions → Option ℕ → M sdk (Unit {0})
  gate info o p = do
    ignore (set_execution_status sdk awaiting_correction o.status_search_attribute)
    payload ← or_failed info o (wait_for_signal_payload sdk info.signal_event o.wait_timeout)
    branch (payload != "" && payload != "null")
        (wrapping ("activity " <> info.activity_name <> ": apply correction: ")
          (apply_correction sdk p payload))
        (pure tt)
    ignore (set_execution_status sdk executing o.status_search_attribute)

  -- The error of a call as a value, `err := …`.
  abbrev pub catch : M sdk (Unit {0}) → M sdk (Option Error)
  catch m r = let (x, s) = m r in elim x [ ok _ ↦ (ok none, s) | err e ↦ (ok (some e), s) ]

  -- A whole round: the error of the activity, if it fails.
  unfoldable pub round :
      Info sdk
      → ResumableOptions
      → Option (ActivityOptions OtherOptions)
      → Option ℕ
      → M sdk (Option Error)
  unfolding gate call_activity
  round info o options p = do gate info o p; catch (call_activity sdk options info p)

  -- `correctionCount > opts.MaxCorrectionAttempts`
  unfoldable pub give_up : Info sdk → ResumableOptions → Error → M sdk (Unit {0})
  unfolding set_execution_status
  give_up info o e = do
    ignore (set_execution_status sdk failed o.status_search_attribute)
    fail (
        wrap
          ("activity "
            <> info.activity_name
            <> " failed after "
            <> print (pos_part o.max_correction_attempts)
            <> " correction attempts: ")
          e)

  -- The `for` loop. The argument is `opts.MaxCorrectionAttempts - correctionCount`, so the test
  -- after the increment of the counter asks whether it is zero.
  unfoldable pub attempts :
      ℕ
      → Info sdk
      → ResumableOptions
      → Option (ActivityOptions OtherOptions)
      → Option ℕ
      → M sdk (Unit {0})
  attempts zero info o options p = do
    failure ← round info o options p
    elim failure [ none ↦ pure tt | some e ↦ give_up info o e ]
  attempts (suc left) info o options p = do
    failure ← round info o options p
    elim failure [ none ↦ pure tt | some e ↦ attempts left info o options p ]

  -- The options that a step runs with.
  unfoldable pub step_options : Info sdk → ResumableOptions
  unfolding with_defaults
  step_options info =
      let given : ResumableOptions = elim info.resumable [ none ↦ zero_resumable | some o ↦ o ] in
      with_defaults (record given {
        correction_signal =
            if given.correction_signal == "" then info.signal_event else given.correction_signal;
      })

  -- `info.Resumable = &opts`, through the pointer
  abbrev pub set_info : String → Info sdk → Run sdk → Run sdk
  set_info k info r =
      let w = r.w in record r { w = record w { activity = insert k info w.activity } }

  -- `runResumableActivity`
  unfoldable pub run_resumable_activity : Node sdk → Option ℕ → M sdk (Unit {0})
  unfolding step_options resumable_options apply_branch wait_for_approval
  run_resumable_activity (k, info) p =
      let o = step_options info in
      let updated = record info { resumable = some o } in
      do
        modify (set_info k updated)
        attempts (pos_part o.max_correction_attempts) updated o
            (some (resumable_options sdk updated)) p
        branch (o.approval_signal != "") (wait_for_approval sdk info.activity_name o) (pure tt)
        apply_branch sdk updated p
