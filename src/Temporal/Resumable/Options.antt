-- ===== src/Temporal/Resumable/Options.antt =====
-- The options that a signal-gated step of temporal/resumable.go runs with.
use mathlib.Core.Option.{get_or}
use text.Mathlib.TextEquality.{eq_iff}
use go_cook.Shared.{◌≡◌, ◌≢◌, ◌<◌, false, Option, none, some, arith, if◌then◌else◌, ◌==◌}
use go_cook.Shared.Int.{pos_part, is_zero}
use go_cook.Temporal.Types.{
  ActivityOptions, ResumableOptions, RetryPolicy, zero_retry_policy, zero_resumable,
  default_correction_signal,
}
use go_cook.Temporal.Sdk.{Sdk, Info}
use go_cook.Temporal.Registry.{with_defaults}
use go_cook.Temporal.Registry.Graph.{gate_options, IsGate}
use go_cook.Temporal.Resumable.{step_options}
use go_cook.Temporal.Waits.{resumable_options}

-- Options that need no default.
record IsComplete (o : ResumableOptions) : Type 0 where
  pub named : o.correction_signal ≢ ""
  pub correctable : 0 < pos_part o.max_correction_attempts
  pub retried : 0 < pos_part o.activity_retry_attempts

default_named : default_correction_signal ≢ ""
default_named = ground (arith, eq_iff default_correction_signal "")

-- The defaults complete any options, and change nothing that is complete.
with_defaults-IsComplete :
    (o : ResumableOptions)
    → IsComplete (with_defaults o) × (with_defaults (with_defaults o) ≡ with_defaults o)
unfolding with_defaults
with_defaults-IsComplete o = (
  record {
    named = ground (arith, default_named);
    correctable = ground arith;
    retried = ground arith;
  },
  ground (arith, default_named),
)

module _ (sdk : Sdk) where
  -- The retry policy that the caller gave for a step.
  abbrev pub policy_of : Option (ActivityOptions sdk.OtherOptions) → Option RetryPolicy
  policy_of none = none
  policy_of (some o) = o.retry_policy

  -- A signal-gated step runs its activity with a timeout and a retry policy: the caller's if there
  -- is one, and else one that ends after the attempts of the step's options, at least one.
  pub resumable_options-bounded :
      (info : Info sdk)
      → let o = step_options sdk info in
        let a = resumable_options sdk (record info { resumable = some o }) in
        (is_zero a.start_to_close_timeout ≡ false)
        × (a.retry_policy
            ≡ some (
                get_or
                  (policy_of info.activity_options)
                  (record zero_retry_policy { maximum_attempts = o.activity_retry_attempts })))
        × (0 < pos_part o.activity_retry_attempts)
  unfolding resumable_options step_options
  resumable_options-bounded info =
      let given : ResumableOptions = elim info.resumable [ none ↦ zero_resumable | some o ↦ o ] in
      let named : ResumableOptions = record given {
        correction_signal =
            if given.correction_signal == "" then info.signal_event else given.correction_signal;
      } in
      (ground arith, ground arith, (with_defaults-IsComplete named).0.retried)

  -- The options of a step that was registered with a signal are the ones it runs with.
  pub step_options-gate :
      (info : Info sdk)
      → IsGate sdk info
      → info.signal_event ≢ ""
      → some (step_options sdk info) ≡ gate_options info.signal_event
  unfolding step_options with_defaults
  step_options-gate info g h = ground arith
