-- ===== src/Temporal/Lifecycle/Order.antt =====
-- In which order the calls of a run of `Execute` of temporal/workflow.go can be seen.
use go_cook.Shared.{◌≡◌, ◌⊎◌, Option, none, some, List, [], ◌∷◌}
use go_cook.Temporal.Types.{pending, executing, awaiting_correction, awaiting_approval}
use go_cook.Temporal.Sdk.{Sdk}
use go_cook.Temporal.Lifecycle.{
  waits, runs, asks, Shown, Phase, begun, parked, received, cleared, ran, asking, answered,
}

-- The calls that may be seen first.
pub data First : Shown → Type 0 where
  first_wait : First (waits, awaiting_correction)
  first_plain : First (runs, pending)

-- Which call may be seen after which.
pub data After : Shown → Shown → Type 0 where
  -- a wait is over: the activity of the step runs
  wait_run : After (waits, awaiting_correction) (runs, executing)
  -- it has run: it is waited for again, or for the next step
  run_wait : After (runs, executing) (waits, awaiting_correction)
  run_ask : After (runs, executing) (asks, awaiting_approval)
  ask_wait : After (asks, awaiting_approval) (waits, awaiting_correction)
  -- activities without a signal
  plain_wait : After (runs, pending) (waits, awaiting_correction)
  plain_plain : After (runs, pending) (runs, pending)
  step_plain : After (runs, executing) (runs, executing)
  ask_plain : After (asks, awaiting_approval) (runs, awaiting_approval)
  approved_wait : After (runs, awaiting_approval) (waits, awaiting_correction)
  approved_plain : After (runs, awaiting_approval) (runs, awaiting_approval)

-- The calls of a run, the latest first.
abbrev pub InOrder : List Shown → Type 0
InOrder [] = Unit
InOrder (a ∷ []) = First a
InOrder (b ∷ a ∷ rest) = After a b × InOrder (a ∷ rest)

latest : List Shown → Option Shown
latest [] = none
latest (a ∷ _) = some a

-- What was seen last of a run that was not seen before: between two steps, and in each phase.
abbrev Unwaited : Option Shown → Type 0
Unwaited a = (a ≡ none) ⊎ (a ≡ some (runs, pending))

abbrev Executed : Option Shown → Type 0
Executed a = a ≡ some (runs, executing)

abbrev Asked : Option Shown → Type 0
Asked a = (a ≡ some (asks, awaiting_approval)) ⊎ (a ≡ some (runs, awaiting_approval))

abbrev IsLatest : Phase → Option Shown → Type 0
IsLatest begun a = Unwaited a
IsLatest ran a = Executed a
IsLatest answered a = Asked a
IsLatest parked a = Unwaited a ⊎ Executed a ⊎ Asked a
IsLatest received a = a ≡ some (waits, awaiting_correction)
IsLatest cleared a = a ≡ some (waits, awaiting_correction)
IsLatest asking a = Executed a
IsLatest _ a = Unit

abbrev Next : Option Shown → Shown → Type 0
Next none b = First b
Next (some a) b = After a b
