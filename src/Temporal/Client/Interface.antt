-- ===== src/Temporal/Client/Interface.antt =====
-- The interface `Temporal` of temporal/interface.go, its implementation by the client of
-- temporal/temporal.go, and the methods of `WorkflowExecutionData` in temporal/workflow.go that pass
-- calls on to it.
use go_cook.Shared.{
  ◌≡◌, String, String-discrete, none, some, List, [], ◌<>◌, if◌then◌else◌, ◌==◌, new, Result, ok,
  Action, pure, fail, ◌>>=◌, wrapping,
}
use go_cook.Shared.Int.{pos}
use go_cook.Temporal.Types.{query_get_status}
use go_cook.Temporal.Client.{
  Server, TemporalConfig, TemporalClient, StartWorkflowOptions, WorkflowDefinition,
  ActivityDefinition, new_temporal_client, start_workflow, register_workflow, register_activity,
  get_workflow_info, signal_workflow, query_workflow, cancel_workflow, get_workflow_result,
  update_workflow, start, stop,
}
use go_cook.Temporal.Client.Queue.{
  first_queue, start_workflow-first_queue, new_temporal_client-first_queue,
}

module _ (server : Server) where
  open server use {World, Value, Fn, Handle, Activity, Stage, Context, Info}

  -- `Temporal`
  pub record Temporal : Type 0 where
    pub register_workflow : WorkflowDefinition Fn → World → World
    pub register_activity : ActivityDefinition Activity → World → World
    pub get_workflow_info : Context → Result Info
    pub start_workflow : StartWorkflowOptions → Fn → List Value → Action World Handle
    pub signal_workflow : String → String → String → Value → Action World (Unit {0})
    pub query_workflow : String → String → String → List Value → Action World Value
    pub cancel_workflow : String → Action World (Unit {0})
    pub get_workflow_result : String → String → Action World Value
    pub update_workflow : String → String → String → Stage → Value → Action World Handle
    pub start : Action World (Unit {0})
    pub stop : World → World

  -- `*temporalClient` as a `Temporal`
  unfoldable pub as_temporal : TemporalClient → Temporal
  as_temporal t = record {
    register_workflow = register_workflow server;
    register_activity = register_activity server;
    get_workflow_info = get_workflow_info server;
    start_workflow = start_workflow server t;
    signal_workflow = signal_workflow server;
    query_workflow = query_workflow server;
    cancel_workflow = cancel_workflow server;
    get_workflow_result = get_workflow_result server;
    update_workflow = update_workflow server;
    start = start server;
    stop = stop server t;
  }

  -- The part of `WorkflowExecutionData` that these methods use.
  pub record Execution : Type 0 where
    pub workflow_id : String
    pub temporal_client : Temporal

  -- `GetWorkflowID` and `SetWorkflowID`
  unfoldable pub get_workflow_id : Execution → String
  get_workflow_id w = w.workflow_id

  unfoldable pub set_workflow_id : String → Execution → Execution
  set_workflow_id id w = record w { workflow_id = id }

  -- `WorkflowExecutionData.StartWorkflow`
  unfoldable pub start_execution :
      Execution → StartWorkflowOptions → Fn → List Value → Action World Handle
  start_execution w opts fn args = w.temporal_client.start_workflow opts fn args

  -- `WorkflowExecutionData.GetWorkflowResult`
  unfoldable pub get_execution_result : Execution → String → String → Action World Value
  get_execution_result w id run = w.temporal_client.get_workflow_result id run

  -- `WorkflowExecutionData.SignalWorkflow`
  unfoldable pub signal_execution :
      Execution → String → String → String → Value → Action World (Unit {0})
  signal_execution w id run name arg = w.temporal_client.signal_workflow id run name arg

  -- `WorkflowExecutionData.RegisterWorkflow`
  unfoldable pub register_execution : Execution → String → Fn → World → World
  register_execution w name fn =
      w.temporal_client.register_workflow (record { name = name; fn = fn })

  -- `WorkflowExecutionData.UpdateWorkflow`
  unfoldable pub update_execution :
      Execution → String → String → String → Stage → Value → Action World Handle
  update_execution w query_name id run stage arg =
      w.temporal_client.update_workflow query_name id run stage arg

  -- `GetWorkflowExecutionData`, for the object's workflow ID
  unfoldable pub get_workflow_execution_data : Execution → String → Action World Value
  get_workflow_execution_data w run =
      wrapping "failed to get workflow execution data: "
        (w.temporal_client.get_workflow_result w.workflow_id run)

  -- `GetWorkflowStatus`
  unfoldable pub get_workflow_status : Execution → String → String → Action World String
  get_workflow_status w id run = do
    raw ← w.temporal_client.query_workflow id run query_get_status []
    elim (server.as_string raw) [
      | some status ↦ pure status
      | none ↦ fail (new ("unexpected status query type " <> server.type_name raw))
    ]

  -- Where a configuration makes a client, the server was dialled at its address and the worker polls
  -- its queue, else "default". A workflow execution over the client starts every workflow on the queue
  -- of the call, else on the one that the worker polls; all other options reach the SDK as given.
  pub start_execution-first_queue :
      (config : TemporalConfig) (t : TemporalClient) (id : String) (opts : StartWorkflowOptions)
      (fn : Fn) (args : List Value) (world later now : World)
      → new_temporal_client server config world ≡ (ok t, later)
      → let dialled =
          server.new_client
            (record {
              host_port = config.host <> ":" <> config.port;
              namespace = config.namespace;
              get_system_info_timeout = pos 15_000_000_000;
            })
            world in
        let polled = first_queue server "" config.task_queue in
        (dialled.0 ≡ none)
        × (later ≡ server.new_worker polled config.worker_options dialled.1)
        × (start_execution
              (record { workflow_id = id; temporal_client = as_temporal t })
              opts
              fn
              args
              now
            ≡ server.start_workflow
                (record {
                  id = opts.workflow_id;
                  task_queue = if opts.task_queue == "" then polled else opts.task_queue;
                  workflow_execution_timeout = opts.workflow_execution_timeout;
                  workflow_run_timeout = opts.workflow_run_timeout;
                  workflow_task_timeout = opts.workflow_task_timeout;
                  retry_policy = opts.retry_policy;
                })
                fn
                args
                now)
  unfolding start_execution as_temporal String-discrete
  start_execution-first_queue config t id opts fn args world later now h =
      let (dialled, polled) = new_temporal_client-first_queue server config t world later h in
      (dialled, polled, start_workflow-first_queue server config t opts fn args world later now h)
