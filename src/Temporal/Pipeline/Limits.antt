-- ===== src/Temporal/Pipeline/Limits.antt =====
-- How often a step that `Execute` of temporal/workflow.go runs has its activity tried.
use go_cook.Shared.{
  ◌≡◌, refl, ap, ◌⊎◌, inl, inr, ◌≢◌, ℕ, ◌<◌, ◌≤◌, ◌+◌, ◌*◌, String, String-discrete, Option, none,
  some, arith,
}
use go_cook.Shared.Int.{pos, pos_part}
use go_cook.Temporal.Types.{ActivityOptions, RetryPolicy, zero_retry_policy}
use go_cook.Temporal.Sdk.{Sdk, Info, Run}
use go_cook.Temporal.Registry.Graph.{IsGate}
use go_cook.Temporal.Resumable.{step_options}
use go_cook.Temporal.Resumable.Frame.{apply_branch-world}
use go_cook.Temporal.Resumable.Options.{policy_of, step_options-gate, resumable_options-bounded}
use go_cook.Temporal.Resumable.Tries.{
  Counter, Limited, by_policy, tries-call_activity, tries-run_resumable_activity,
}
use go_cook.Temporal.Waits.{call_activity, resumable_options}
use go_cook.Temporal.Pipeline.{run_activity}

module _ (sdk : Sdk) (counter : Counter sdk) where
  open sdk use {ActivityFn, OtherOptions}
  open counter use {tries}

  -- A registration with a retry policy of its own that allows at most so many attempts, or with a
  -- signal, whose options allow three.
  abbrev pub IsLimited : ℕ → Option (ActivityOptions OtherOptions) → String → Type 0
  IsLimited limit options signal =
      ((policy : RetryPolicy) × (policy_of sdk options ≡ some policy)
        × (0 < pos_part policy.maximum_attempts)
        × (pos_part policy.maximum_attempts ≤ limit))
      ⊎ ((policy_of sdk options ≡ none) × (signal ≢ "") × (3 ≤ limit))

  -- An entry that only a rank above zero makes run its activity.
  abbrev pub Pays : (String → ℕ) → ℕ → String → Info sdk → Type 0
  Pays rank limit k info =
      IsGate sdk info
      × ((info.activity_fn ≡ none)
          ⊎ ((0 < rank k) × IsLimited limit info.activity_options info.signal_event))

  -- A step without a signal runs under the options of its registration.
  pub plain-Limited :
      (limit : ℕ) (a : Option (ActivityOptions OtherOptions)) (fn : Option ActivityFn)
      → IsLimited limit a ""
      → Limited sdk counter limit a fn
  plain-Limited limit none fn l = absurd (ground arith)
  plain-Limited limit (some o) fn (inl (policy, given, positive, few)) =
      by_policy policy given positive few
  plain-Limited limit (some o) fn (inr (_, n, _)) = absurd (n refl)

  -- A step with a signal too, but where they have no policy it has three attempts.
  pub gated-Limited :
      (limit : ℕ) (info : Info sdk)
      → IsGate sdk info
      → info.signal_event ≢ ""
      → IsLimited limit info.activity_options info.signal_event
      → Limited sdk counter limit
          (some (resumable_options sdk (record info { resumable = some (step_options sdk info) })))
          info.activity_fn
  gated-Limited limit info g n l =
      let o = step_options sdk info in
      let (_, used, positive) = resumable_options-bounded sdk info in
      elim l [
        | inl (policy, given, some_tries, few) ↦ by_policy policy (ground arith) some_tries few
        | inr (given, _, few) ↦
            let three : o.activity_retry_attempts ≡ pos 3 =
              ground (arith, step_options-gate sdk info g n) in
            by_policy (record zero_retry_policy { maximum_attempts = o.activity_retry_attempts })
              (ground arith) positive (rw three few)
      ]

  -- A step that pays has its activity tried at most six times the limit, and an entry without a
  -- function never.
  pub step-tries :
      (limit : ℕ) (k : String) (info : Info sdk) (p : Option ℕ) (r : Run sdk)
      → IsGate sdk info
      → (info.signal_event ≢ ""
          → Limited sdk counter limit
              (some
                (resumable_options sdk (record info { resumable = some (step_options sdk info) })))
              info.activity_fn)
      → (info.signal_event ≡ "" → Limited sdk counter limit info.activity_options info.activity_fn)
      → tries (run_activity sdk (k, info) p r).1.world ≤ tries r.world + 6 * limit
  unfolding run_activity
  step-tries limit k info p r g gated plain = elim (String-discrete info.signal_event "") [
    | yes e ↦
        let s = (call_activity sdk info.activity_options info p r).1 in
        ground (
          arith,
          tries-call_activity sdk counter limit info.activity_options info p r (plain e),
          ap tries (apply_branch-world sdk info p s),
        )
    | no n ↦
        let five : (step_options sdk info).max_correction_attempts ≡ pos 5 =
          ground (arith, step_options-gate sdk info g n) in
        let bound = tries-run_resumable_activity sdk counter limit k info p r (gated n) in
        ground (arith, rw five at bound)
  ]
