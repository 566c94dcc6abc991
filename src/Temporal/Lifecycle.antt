-- ===== src/Temporal/Lifecycle.antt =====
-- What an observer of a workflow of temporal/workflow.go and temporal/resumable.go can see: the
-- calls that park it or run an activity, each with the status that the getStatus query then answers.
pub mod Seen
pub mod Steps
pub mod Activities
pub mod Runs
pub mod Order
use go_cook.Shared.{◌≡◌, ℕ, String, Option, List, ◌∷◌}
use go_cook.Shared.Int.{ℤ}
use go_cook.Temporal.Types.{
  Status, pending, executing, awaiting_correction, awaiting_approval, failed, completed, rejected,
  ActivityOptions,
}
use go_cook.Temporal.Sdk.{Sdk, Run}

-- The workflow waits for the signal of a step, runs an activity, or waits for an approval.
pub data Event : Type 0 where
  waits runs asks : Event

abbrev pub Shown : Type 0
Shown = Event × Status

-- Where a run stands.
pub data Phase : Type 0 where
  begun : Phase  -- no signal-gated step so far
  parked : Phase  -- about to wait for the signal of a step
  received : Phase  -- the wait is over
  cleared : Phase  -- about to run the activity of the step
  ran : Phase  -- its activity has run
  asking : Phase  -- about to wait for an approval
  answered : Phase  -- that wait is over
  broken : Phase
  refused : Phase
  done : Phase

-- What the getStatus query answers.
abbrev pub status_of : Phase → Status
status_of begun = pending
status_of parked = awaiting_correction
status_of received = awaiting_correction
status_of cleared = executing
status_of ran = executing
status_of asking = awaiting_approval
status_of answered = awaiting_approval
status_of broken = failed
status_of refused = rejected
status_of done = completed

-- A run rests between two steps, and after an activity.
pub data Rests : Phase → Type 0 where
  at_begun : Rests begun
  at_ran : Rests ran
  at_answered : Rests answered

-- The moves that an observer cannot see.
pub data Moves : Phase → Phase → Type 0 where
  park : {x : Phase} → Rests x → Moves x parked
  resume : Moves received cleared
  ask : Moves ran asking
  reject : Moves answered refused
  give_up : {x : Phase} → Rests x → Moves x broken
  abort : Moves received broken
  complete : {x : Phase} → Rests x → Moves x done

-- The calls that an observer can see.
pub data Calls : Phase → Event → Phase → Type 0 where
  wait : Calls parked waits received
  run_step : Calls cleared runs ran
  run_plain : {x : Phase} → Rests x → Calls x runs x
  answer : Calls asking asks answered

-- What is seen of a run from its start, after what was seen before; the latest is first.
pub data Trace (before : List Shown) : List Shown → Phase → Type 0 where
  start : Trace before before begun
  move : {seen : List Shown} {x y : Phase} → Trace before seen x → Moves x y → Trace before seen y
  call :
      {seen : List Shown} {x y : Phase} {e : Event}
      → Trace before seen x
      → Calls x e y
      → Trace before ((e, status_of x) ∷ seen) y

-- An observer notes each of the calls with the status that is shown during it, and nothing else.
pub record Observer (sdk : Sdk) : Type 0 where
  pub seen : sdk.World → List Shown
  pub seen-await_payload :
      (status : Status) (name : String) (w : sdk.World)
      → seen (sdk.await_payload status name w).1 ≡ (waits, status) ∷ seen w
  pub seen-await_payload_for :
      (status : Status) (name : String) (t : ℤ) (w : sdk.World)
      → seen (sdk.await_payload_for status name t w).1 ≡ (waits, status) ∷ seen w
  pub seen-await_bool :
      (status : Status) (name : String) (w : sdk.World)
      → seen (sdk.await_bool status name w).1 ≡ (asks, status) ∷ seen w
  pub seen-await_bool_for :
      (status : Status) (name : String) (t : ℤ) (w : sdk.World)
      → seen (sdk.await_bool_for status name t w).1 ≡ (asks, status) ∷ seen w
  pub seen-execute_activity :
      (status : Status) (o : Option (ActivityOptions sdk.OtherOptions)) (fn : Option sdk.ActivityFn)
      (d : Option sdk.Data) (w : sdk.World)
      → seen (sdk.execute_activity status o fn d w).world ≡ (runs, status) ∷ seen w
  pub seen-upsert :
      (name : String) (status : Status) (w : sdk.World)
      → seen (sdk.upsert_search_attributes name status w).1 ≡ seen w
  pub seen-set_query_handler :
      (name : String) (w : sdk.World) → seen (sdk.set_query_handler name w).1 ≡ seen w
