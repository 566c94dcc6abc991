-- ===== src/Temporal/Tests/Calls.antt =====
-- The functions of temporal/public.go, the client and the signals at small examples.
use native.Mathlib.Decide.{ℕ_discrete}
use text.Mathlib.TextEquality.{eq_iff}
use go_cook.Shared.{
  ◌≡◌, ◌≢◌, refl, ℕ, zero, suc, ◌<◌, String, String-discrete, Option, none, some, true, [], Result,
  ok, err, Error, new, arith, if◌then◌else◌, ◌==◌,
}
use go_cook.Shared.Int.{pos}
use go_cook.Shared.Dict.{lookup, insert}
use go_cook.Temporal.Sdk.{Run}
use go_cook.Temporal.Registry.{
  new_workflow_execution, add_transition, get_next_activity, status_search_attribute,
}
use go_cook.Temporal.Resumable.{run_resumable_activity, attempts, gate, round}
use go_cook.Temporal.Waits.{wait_for_signal_payload, apply_correction}
use go_cook.Temporal.Pipeline.{run_pipeline, run_activity, next_node, execute, start_up, finish}
use go_cook.Temporal.Public.{
  execution_data, QueryEnv, execute_workflow, workflow_init, query_answer, decode_execution_data,
  query_workflow_data,
}
use go_cook.Temporal.Public.Init.{serves, workflow_init-execute_workflow}
use go_cook.Temporal.Public.Decode.{RoundTrips}
use go_cook.Temporal.Public.Query.{Expires, problem, Answers, query_workflow_data-Answers}
use go_cook.Temporal.Client.{
  Server, TemporalConfig, TemporalClient, StartWorkflowOptions, new_temporal_client,
}
use go_cook.Temporal.Client.Queue.{first_queue}
use go_cook.Temporal.Client.Interface.{as_temporal, start_execution, start_execution-first_queue}
use go_cook.Temporal.Tests.Sample.{Desk, desk, blank, issue}

abbrev query_name : String
query_name = "data"

named : query_name ≢ ""
named = ground (arith, eq_iff query_name "")

abbrev served : Result ℕ × Run desk
served =
    elim (execute_workflow desk 3 true (some 0)
      (workflow_init desk "own" true "data" (some 0) issue).1) [
        | none ↦ (err (new "out of fuel"), blank)
        | some x ↦ x
      ]

issue-served :
    execute_workflow desk 3 true (some 0) (workflow_init desk "own" true "data" (some 0) issue).1
    ≡ some (served.0, served.1)
unfolding execute_workflow workflow_init execute start_up run_pipeline run_activity next_node finish
    add_transition new_workflow_execution lookup insert String-discrete get_next_activity
    status_search_attribute run_resumable_activity attempts gate round wait_for_signal_payload
    apply_correction ℕ_discrete
issue-served = refl

-- The data are ready once they hold something.
abbrev not_blank : Option String → Option Error
not_blank none = some (new "no data")
not_blank (some d) = if d == "" then some (new "not ready") else none

workflow_init-execute_workflow_example :
    ((x : Result (Unit {0})) × (execute desk 3
          (some 0)
          (workflow_init desk "own" true "data" (some 0) issue).1
        ≡ some (x, served.1))
      × (served.0 ≡ elim x [ ok _ ↦ ok 0 | err e ↦ err e ]))
    × (served.1.objects 1 ≡ issue.objects 1)
    × (query_answer desk (some not_blank) served.1 ≡ serves desk (some not_blank) 0 served.1)
workflow_init-execute_workflow_example =
    workflow_init-execute_workflow desk "own" "data" 0 3 1 (some not_blank) issue served.1 served.0
      named (ground arith) issue-served

-- Object 1 holds the data "paid", every other "".
abbrev two_objects : Run desk
two_objects = record blank { objects = λ q. elim (ℕ_discrete q 1) [ yes _ ↦ "paid" | no _ ↦ "" ] }

abbrev target : Option ℕ
target = some 0

abbrev fetched : Result ℕ × Run desk
fetched = decode_execution_data desk (execution_data 1) (some 0) two_objects

desk-RoundTrips : RoundTrips desk
desk-RoundTrips d old b h = ground arith

fetched-eq : decode_execution_data desk (execution_data 1) (some 0) two_objects ≡ (ok 0, fetched.1)
unfolding decode_execution_data String-discrete ℕ_discrete
fetched-eq = refl

abbrev tick : Desk → Option Error × Desk
tick d = elim d.time [
  | zero ↦ (some (new "deadline exceeded"), d)
  | suc n ↦ (none, record d { time = n })
]

-- No query is ever answered, and the deadline is `time` seconds away.
abbrev silent : QueryEnv Desk String
silent = record {
  ctx_error = λ d. none;
  query = λ id run query_type d. (err (new "not found"), d);
  wait_second = tick;
}

silent-Expires : Expires silent (λ d. d.time)
silent-Expires = record { query_keeps = λ id run query_type d. omega arith; wait_uses = uses }
  where
    uses : (d : Desk) → (tick d).0 ≡ none → (tick d).1.time < d.time
    uses d h = ground arith

query_workflow_data-Answers_example :
    (y : Result ℕ × Run desk) × (query_workflow_data desk silent 8 true true "data" "id" "" true
        (some 0)
        blank
      ≡ some y)
    × Answers desk silent "id" "" "data" true
        (some 0)
        (λ d. d.time)
        blank
        (problem true true "data" "id")
        y
query_workflow_data-Answers_example =
    query_workflow_data-Answers desk silent "id" "" "data" true (some 0) (λ d. d.time) 8 true true
      blank silent-Expires (omega arith)

-- A server that remembers the queue of the last start.
abbrev cluster : Server
cluster = record {
  World = String;
  Value = String;
  Fn = String;
  Handle = Unit {0};
  Activity = String;
  Stage = Unit {0};
  Context = String;
  Info = String;
  as_string = λ v. some v;
  type_name = λ v. "string";
  new_client = λ options w. (none, w);
  new_worker = λ queue options w. queue;
  register_workflow = λ fn name w. w;
  register_activity = λ fn name w. w;
  start_workflow = λ options fn args w. (ok tt, options.task_queue);
  signal_workflow = λ id run name arg w. (none, w);
  Encoded = String;
  query_workflow = λ id run name args w. (ok name, w);
  decode = λ answer. ok answer;
  cancel_workflow = λ id run w. (none, w);
  get_workflow = λ id run. tt;
  run_result = λ handle w. (ok w, w);
  update_workflow = λ id run stage name args w. (ok tt, w);
  get_info = λ ctx. ctx;
  start_worker = λ w. (none, w);
  stop_worker = λ w. w;
}

abbrev config : TemporalConfig
config = record {
  host = "localhost";
  port = "7233";
  namespace = "default";
  task_queue = "orders";
  worker_options = record {
    max_concurrent_activity_execution_size = pos 10;
    worker_activities_per_second = pos 0;
    max_concurrent_local_activity_execution_size = pos 10;
    worker_local_activities_per_second = pos 0;
  };
}

abbrev client : TemporalClient
client = record { has_worker = true; task_queue = "orders" }

abbrev options : StartWorkflowOptions
options = record {
  workflow_id = "order-1";
  task_queue = "";
  workflow_execution_timeout = pos 0;
  workflow_run_timeout = pos 0;
  workflow_task_timeout = pos 0;
  retry_policy = none;
}

client-made : new_temporal_client cluster config "" ≡ (ok client, "orders")
unfolding new_temporal_client String-discrete
client-made = refl

start_execution-first_queue_example :
    (◌≡◌ {A = Option Error} none none)
    × ("orders" ≡ first_queue cluster "" "orders")
    × (start_execution cluster
          (record { workflow_id = "order-1"; temporal_client = as_temporal cluster client })
          options
          "fn"
          []
          ""
        ≡ (ok tt, if options.task_queue == "" then first_queue cluster "" "orders" else ""))
start_execution-first_queue_example =
    start_execution-first_queue cluster config client "order-1" options "fn" [] "" "orders" ""
      client-made
