-- ===== src/Temporal/Client.antt =====
-- temporal/temporal.go: the client and worker around the Temporal SDK, and the methods of
-- `WorkflowExecutionData` in temporal/workflow.go that pass calls on to it.
pub mod Queue
pub mod Interface
use go_cook.Shared.{
  ℕ, String, Bool, true, false, Option, none, some, List, [], ◌∷◌, if◌then◌else◌, ◌==◌, ◌!=◌, ◌<>◌,
  Error, new, wrap, Result, ok, err, to_result, Action, pure, fail, ◌>>=◌, ◌>>◌, wrapping,
  from_result,
}
use go_cook.Shared.Int.{ℤ, pos, second}
use go_cook.Temporal.Types.{RetryPolicy, query_get_status}

-- The rates are `float64`: their bit patterns.
pub record WorkerOptions : Type 0 where
  pub max_concurrent_activity_execution_size : ℤ
  pub worker_activities_per_second : ℤ
  pub max_concurrent_local_activity_execution_size : ℤ
  pub worker_local_activities_per_second : ℤ

pub record TemporalConfig : Type 0 where
  pub host : String
  pub port : String
  pub namespace : String
  pub task_queue : String
  pub worker_options : WorkerOptions

-- `StartWorkflowOptions`. The package's `RetryPolicy` has the same fields as the SDK's.
pub record StartWorkflowOptions : Type 0 where
  pub workflow_id : String
  pub task_queue : String
  pub workflow_execution_timeout : ℤ
  pub workflow_run_timeout : ℤ
  pub workflow_task_timeout : ℤ
  pub retry_policy : Option RetryPolicy

-- The fields of the SDK's `client.Options`, and of its `client.StartWorkflowOptions`, that the
-- package sets.
pub record ClientOptions : Type 0 where
  pub host_port : String
  pub namespace : String
  pub get_system_info_timeout : ℤ

pub record StartOptions : Type 0 where
  pub id : String
  pub task_queue : String
  pub workflow_execution_timeout : ℤ
  pub workflow_run_timeout : ℤ
  pub workflow_task_timeout : ℤ
  pub retry_policy : Option RetryPolicy

-- The SDK's client and worker, as far as the package calls them. `Value` is `interface{}`, with the
-- conversion `raw.(string)`; `Fn` is a workflow function, `Handle` a run or an update handle.
pub record Server : Type 1 where
  pub World : Type 0
  pub Value : Type 0
  pub Fn : Type 0
  pub Handle : Type 0
  pub Activity : Type 0
  pub Stage : Type 0
  pub Context : Type 0
  pub Info : Type 0
  pub as_string : Value → Option String
  pub type_name : Value → String
  pub new_client : ClientOptions → World → Option Error × World
  pub new_worker : String → WorkerOptions → World → World
  pub register_workflow : Fn → String → World → World
  pub register_activity : Activity → String → World → World
  pub start_workflow : StartOptions → Fn → List Value → World → Result Handle × World
  pub signal_workflow : String → String → String → Value → World → Option Error × World
  -- a query, and `Get` of its encoded answer
  pub Encoded : Type 0
  pub query_workflow : String → String → String → List Value → World → Result Encoded × World
  pub decode : Encoded → Result Value
  pub cancel_workflow : String → String → World → Option Error × World
  -- the handle of a run, and `Get` of its result
  pub get_workflow : String → String → Handle
  pub run_result : Handle → World → Result Value × World
  -- workflow ID, run ID, the stage to wait for, update name and arguments
  pub update_workflow :
      String → String → Stage → String → List Value → World → Result Handle × World
  pub get_info : Context → Info
  pub start_worker : World → Option Error × World
  pub stop_worker : World → World

-- `WorkflowDefinition` and `ActivityDefinition`
pub record WorkflowDefinition (Fn : Type 0) : Type 0 where
  pub name : String
  pub fn : Fn

pub record ActivityDefinition (Activity : Type 0) : Type 0 where
  pub name : String
  pub fn : Activity

-- `temporalClient`; the worker can be missing only in a value that `NewTemporalClient` did not make.
pub record TemporalClient : Type 0 where
  pub has_worker : Bool
  pub task_queue : String

module _ (server : Server) where
  open server use {World, Value, Encoded, Fn, Handle, Activity, Stage, Context, Info}

  -- `NewTemporalClient`
  unfoldable pub new_temporal_client : TemporalConfig → Action World TemporalClient
  new_temporal_client config world =
      let options : ClientOptions = record {
        host_port = config.host <> ":" <> config.port;
        namespace = config.namespace;
        get_system_info_timeout = pos 15_000_000_000;
      } in
      let (problem, world') = server.new_client options world in
      let queue = if config.task_queue == "" then "default" else config.task_queue in
      elim problem [
        | some e ↦ (err e, world')
        | none ↦ (
          ok (record { has_worker = true; task_queue = queue }),
          server.new_worker queue config.worker_options world',
        )
      ]

  -- The options that `StartWorkflow` hands to the SDK.
  unfoldable pub start_options : TemporalClient → StartWorkflowOptions → StartOptions
  start_options t opts = record {
    id = opts.workflow_id;
    task_queue = if opts.task_queue != "" then opts.task_queue else t.task_queue;
    workflow_execution_timeout = opts.workflow_execution_timeout;
    workflow_run_timeout = opts.workflow_run_timeout;
    workflow_task_timeout = opts.workflow_task_timeout;
    retry_policy = elim opts.retry_policy [
      | none ↦ none
      | some p ↦ some (record {
        initial_interval = p.initial_interval;
        backoff_coefficient = p.backoff_coefficient;
        maximum_interval = p.maximum_interval;
        maximum_attempts = p.maximum_attempts;
      })
    ];
  }

  -- `StartWorkflow`
  unfoldable pub start_workflow :
      TemporalClient → StartWorkflowOptions → Fn → List Value → Action World Handle
  unfolding start_options
  start_workflow t opts fn args = server.start_workflow (start_options t opts) fn args

  -- `RegisterWorkflow`
  unfoldable pub register_workflow : WorkflowDefinition Fn → World → World
  register_workflow d = server.register_workflow d.fn d.name

  -- `RegisterActivity`
  unfoldable pub register_activity : ActivityDefinition Activity → World → World
  register_activity d = server.register_activity d.fn d.name

  -- `GetWorkflowInfo`
  unfoldable pub get_workflow_info : Context → Result Info
  get_workflow_info ctx = ok (server.get_info ctx)

  -- `SignalWorkflow`
  unfoldable pub signal_workflow : String → String → String → Value → Action World (Unit {0})
  signal_workflow id run name arg world =
      let (e, world') = server.signal_workflow id run name arg world in (to_result e, world')

  -- `QueryWorkflow`
  unfoldable pub query_workflow : String → String → String → List Value → Action World Value
  query_workflow id run query_type args = do
    resp ← server.query_workflow id run query_type args
    from_result (server.decode resp)

  -- `CancelWorkflow`: of the current run
  unfoldable pub cancel_workflow : String → Action World (Unit {0})
  cancel_workflow id world =
      let (e, world') = server.cancel_workflow id "" world in (to_result e, world')

  -- `GetWorkflowResult`
  unfoldable pub get_workflow_result : String → String → Action World Value
  get_workflow_result id run = server.run_result (server.get_workflow id run)

  -- `UpdateWorkflow`
  unfoldable pub update_workflow : String → String → String → Stage → Value → Action World Handle
  update_workflow query_name id run stage arg =
      server.update_workflow id run stage query_name (arg ∷ [])

  -- `Start`
  unfoldable pub start : Action World (Unit {0})
  start world = let (e, world') = server.start_worker world in (to_result e, world')

  -- `Stop`
  unfoldable pub stop : TemporalClient → World → World
  stop t world = if t.has_worker then server.stop_worker world else world
