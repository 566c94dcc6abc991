-- ===== src/Temporal/Client/Queue.antt =====
-- Which task queue temporal/temporal.go starts a workflow on.
use go_cook.Shared.{◌≡◌, none, ◌<>◌, String, List, arith, ok, if◌then◌else◌, ◌==◌}
use go_cook.Shared.Int.{pos}
use go_cook.Temporal.Client.{
  Server, TemporalConfig, TemporalClient, StartWorkflowOptions, new_temporal_client, start_workflow,
}

module _ (server : Server) where
  open server use {World, Value, Fn, Handle}

  -- The first name that is not empty, of the call's, the configuration's and "default".
  abbrev pub first_queue : String → String → String
  first_queue call config = if call == "" then if config == "" then "default" else config else call

  -- A client made from a configuration starts every workflow on the queue of the call, else on
  -- that of the configuration, else on "default"; all other options reach the SDK as they were given.
  pub start_workflow-first_queue :
      (config : TemporalConfig) (t : TemporalClient) (opts : StartWorkflowOptions) (fn : Fn)
      (args : List Value) (world later now : World)
      → new_temporal_client server config world ≡ (ok t, later)
      → start_workflow server t opts fn args now
        ≡ server.start_workflow
            (record {
              id = opts.workflow_id;
              task_queue = first_queue opts.task_queue config.task_queue;
              workflow_execution_timeout = opts.workflow_execution_timeout;
              workflow_run_timeout = opts.workflow_run_timeout;
              workflow_task_timeout = opts.workflow_task_timeout;
              retry_policy = opts.retry_policy;
            })
            fn
            args
            now
  unfolding new_temporal_client start_workflow
  start_workflow-first_queue config t opts fn args world later now h = ground arith

  -- Such a client was dialled at the configured address, and its worker polls the queue of the
  -- configuration, else "default".
  pub new_temporal_client-first_queue :
      (config : TemporalConfig) (t : TemporalClient) (world later : World)
      → new_temporal_client server config world ≡ (ok t, later)
      → let dialled =
          server.new_client
            (record {
              host_port = config.host <> ":" <> config.port;
              namespace = config.namespace;
              get_system_info_timeout = pos 15_000_000_000;
            })
            world in
        (dialled.0 ≡ none)
        × (later
            ≡ server.new_worker (first_queue "" config.task_queue) config.worker_options dialled.1)
  unfolding new_temporal_client
  new_temporal_client-first_queue config t world later h = (ground arith, ground arith)
