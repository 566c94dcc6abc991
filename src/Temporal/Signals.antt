-- ===== src/Temporal/Signals.antt =====
-- temporal/signals.go, and the methods of `WorkflowExecutionData` in temporal/workflow.go that send
-- signals, wait for them or start a child workflow.
pub mod Handlers
pub mod Order
pub mod Loops
pub mod Waiting
use go_cook.Shared.{
  ℕ, String, Bool, true, false, Option, none, some, List, [], ◌∷◌, map, if◌then◌else◌, ◌<>◌, Error,
  new, Result, ok, err, to_result, Action, pure, fail, ◌>>=◌, ◌>>◌, wrapping,
}
use go_cook.Shared.Int.{ℤ}
use go_cook.Shared.Dict.{Dict, insert}

-- The workflow API of the SDK. `await_with_timeout` waits for a signal and returns whether it
-- came, with its value; `select` waits for the first of several channels.
pub record Workflow : Type 1 where
  pub World : Type 0
  pub Value : Type 0
  pub signal_external : String → String → String → Value → World → Option Error × World
  pub start_child : String → String → World → Result (String × String) × World
  pub child_result : String → World → Result Value × World
  pub receive : String → World → Value × World
  pub await_with_timeout : String → ℤ → World → Result (Option Value) × World
  pub select : List String → World → Option (String × Value) × World
  -- handlers of queries and updates, with the options of the latter, and `workflow.Go`
  pub Handler : Type 0
  pub UpdateOptions : Type 0
  pub set_query_handler : String → Handler → World → Option Error × World
  pub set_update_handler : String → Handler → UpdateOptions → World → Option Error × World
  pub spawn : (World → World) → World → World

module _ (sdk : Workflow) where
  open sdk use {World, Value, Handler, UpdateOptions}

  abbrev signal_external : String → String → String → Value → Action World (Unit {0})
  signal_external id run name arg world =
      let (e, world') = sdk.signal_external id run name arg world in (to_result e, world')

  -- `SignalExternalWorkflow`
  unfoldable pub signal_external_workflow :
      String → String → String → Value → Action World (Unit {0})
  signal_external_workflow id run name arg =
      wrapping "failed to signal external workflow: " (signal_external id run name arg)

  -- `StartChildWorkflow`: the signal's name is also the name of the child's function
  unfoldable pub start_child_workflow : String → String → Value → Action World Value
  start_child_workflow id name request = do
    execution ← wrapping "failed to get child workflow execution: " (sdk.start_child id name)
    wrapping "failed to signal child workflow: "
        (signal_external execution.0 execution.1 name request)
    wrapping "failed to get child workflow result: " (sdk.child_result id)

  -- `GetSignalResult`
  pub get_signal_result : String → Action World Value
  get_signal_result name world = let (v, world') = sdk.receive name world in (ok v, world')

  -- `WaitForSignal`
  unfoldable pub wait_for_signal : String → ℤ → Action World Value
  wait_for_signal name timeout = do
    received ← sdk.await_with_timeout name timeout
    elim received [ some v ↦ pure v | none ↦ fail (new ("signal " <> name <> " timed out")) ]

  -- `WaitForAnySignal`, for the names of the map in one order: the name that was received first,
  -- and what was written into its entry. With no channel to select from the name stays empty.
  unfoldable pub wait_for_any_signal : List String → Action World (String × Option Value)
  wait_for_any_signal names world =
      let (chosen, world') = sdk.select names world in
      elim chosen [ none ↦ (ok ("", none), world') | some (name, v) ↦ (ok (name, some v), world') ]

  -- `SetQueryHandler`
  pub set_query_handler : String → Handler → Action World (Unit {0})
  set_query_handler name handler world =
      let (e, world') = sdk.set_query_handler name handler world in (to_result e, world')

  -- `SetUpdateHandlerWithOptions`
  pub set_update_handler_with_options : String → Handler → UpdateOptions → Action World (Unit {0})
  set_update_handler_with_options name handler options world =
      let (e, world') = sdk.set_update_handler name handler options world in (to_result e, world')

  -- `GetExternalWorkflowResult`: nil, with the result as it was
  pub get_external_workflow_result : String → String → Value → Action World Value
  get_external_workflow_result id run result = pure result

  -- `Goroutine`
  pub goroutine : (World → World) → World → World
  goroutine fn = sdk.spawn fn

  -- A loop that waits for the signals of one name: what it does with each, and the error that is
  -- logged.
  pub record Loop : Type 0 where
    pub signal_name : String
    pub handler : Value → World → Option Error × World

  -- `ListenSignal`: each signal is written into the result before the handler runs.
  unfoldable pub listen_signal : String → (Value → World → World) → (World → World) → Loop
  listen_signal name write handler = record {
    signal_name = name;
    handler = λ v world. (none, handler (write v world));
  }

  -- The loop of `runAsync` by itself, over the signals that come while the workflow runs: each is handed to the handler, whose error is logged.
  unfoldable pub run_async : (Value → World → Option Error × World) → List Value → World → World
  run_async handler [] world = world
  run_async handler (v ∷ later) world = run_async handler later (handler v world).1

  -- `SignalConsumer`: the handlers by signal name, each a loop that `On` has made
  abbrev pub SignalConsumer : Type 0
  SignalConsumer = Dict (List Value → World → World)

  -- `NewSignalConsumer`
  abbrev pub new_signal_consumer : SignalConsumer
  new_signal_consumer = []

  -- `On`
  unfoldable pub on :
      SignalConsumer → String → (Value → World → Option Error × World) → SignalConsumer
  on consumer name handler = insert name (run_async handler) consumer
