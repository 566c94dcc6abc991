-- ===== src/Temporal/Tests/Watched.antt =====
-- An observer of the sample workflow, and the theorems on what is seen of it at a run.
use native.Mathlib.Decide.{ℕ_discrete}
use go_cook.Shared.{◌≡◌, refl, String-discrete, Option, none, some, List, [], ◌∷◌, Result, err, new}
use go_cook.Shared.Dict.{lookup, insert}
use go_cook.Temporal.Types.{executing, awaiting_correction, completed}
use go_cook.Temporal.Sdk.{Sdk, Run}
use go_cook.Temporal.Registry.{
  new_workflow_execution, add_transition, get_next_activity, status_search_attribute,
}
use go_cook.Temporal.Resumable.{run_resumable_activity, attempts, gate, round}
use go_cook.Temporal.Waits.{wait_for_signal_payload, apply_correction}
use go_cook.Temporal.Pipeline.{run_pipeline, run_activity, next_node, execute, start_up, finish}
use go_cook.Temporal.Lifecycle.{waits, runs, asks, Shown, Observer}
use go_cook.Temporal.Lifecycle.Runs.{Ends, execute-Trace}
use go_cook.Temporal.Tests.Sample.{desk, opened}

-- Any SDK, with a list of the calls that were seen beside its world.
abbrev watched : Sdk → Sdk
watched sdk = record {
  World = sdk.World × List Shown;
  ActivityFn = sdk.ActivityFn;
  OtherOptions = sdk.OtherOptions;
  zero_options = sdk.zero_options;
  Data = sdk.Data;
  get_activity = sdk.get_activity;
  set_activity = sdk.set_activity;
  marshal = sdk.marshal;
  unmarshal = sdk.unmarshal;
  Value = sdk.Value;
  json_marshal = sdk.json_marshal;
  type_name = sdk.type_name;
  now = λ w. sdk.now w.0;
  register_activity = λ name fn w. (sdk.register_activity name fn w.0, w.1);
  set_query_handler = λ name w. let (e, v) = sdk.set_query_handler name w.0 in (e, (v, w.1));
  upsert_search_attributes =
      λ name status w. let (e, v) = sdk.upsert_search_attributes name status w.0 in (e, (v, w.1));
  execute_activity = λ status options fn given w.
      let f = sdk.execute_activity status options fn given w.0 in
      record { error = f.error; write = f.write; world = (f.world, (runs, status) ∷ w.1) };
  await_payload = λ status name w.
      let (x, v) = sdk.await_payload status name w.0 in (x, (v, (waits, status) ∷ w.1));
  await_payload_for = λ status name t w.
      let (x, v) = sdk.await_payload_for status name t w.0 in (x, (v, (waits, status) ∷ w.1));
  await_bool = λ status name w.
      let (x, v) = sdk.await_bool status name w.0 in (x, (v, (asks, status) ∷ w.1));
  await_bool_for = λ status name t w.
      let (x, v) = sdk.await_bool_for status name t w.0 in (x, (v, (asks, status) ∷ w.1));
}

abbrev watcher : (sdk : Sdk) → Observer (watched sdk)
watcher sdk = record {
  seen = λ w. w.1;
  seen-await_payload = λ status name w. refl;
  seen-await_payload_for = λ status name t w. refl;
  seen-await_bool = λ status name w. refl;
  seen-await_bool_for = λ status name t w. refl;
  seen-execute_activity = λ status options fn given w. refl;
  seen-upsert = λ name status w. refl;
  seen-set_query_handler = λ name w. refl;
}

abbrev blank : Run (watched desk)
blank = record {
  w = new_workflow_execution (watched desk);
  objects = λ q. "";
  world = (opened, []);
}

abbrev drafted : Run (watched desk)
drafted = add_transition (watched desk) "draft" "submit" "review" none ("review" ∷ []) blank

-- "draft" waits for the signal "submit", fails once, and then "review" runs.
abbrev issue : Run (watched desk)
issue = add_transition (watched desk) "review" "" "publish" none [] drafted

abbrev or_stuck :
    Option (Result (Unit {0}) × Run (watched desk)) → Result (Unit {0}) × Run (watched desk)
or_stuck none = (err (new "out of fuel"), blank)
or_stuck (some x) = x

abbrev ended : Result (Unit {0}) × Run (watched desk)
ended = or_stuck (execute (watched desk) 3 (some 0) issue)

issue-seen :
    (ended.1.w.status ≡ completed)
    × (ended.1.world.1
        ≡ (runs, executing)
          ∷ (runs, executing)
          ∷ (waits, awaiting_correction)
          ∷ (runs, executing)
          ∷ (waits, awaiting_correction)
          ∷ [])
unfolding execute start_up run_pipeline run_activity next_node finish add_transition
    new_workflow_execution lookup insert String-discrete get_next_activity status_search_attribute
    run_resumable_activity attempts gate round wait_for_signal_payload apply_correction ℕ_discrete
issue-seen = (refl, refl)

issue-ends : execute (watched desk) 3 (some 0) issue ≡ some ended
unfolding execute start_up run_pipeline run_activity next_node finish add_transition
    new_workflow_execution lookup insert String-discrete get_next_activity status_search_attribute
    run_resumable_activity attempts gate round wait_for_signal_payload apply_correction ℕ_discrete
issue-ends = refl

execute-Trace_example : Ends (watched desk) (watcher desk) [] ended
unfolding add_transition
execute-Trace_example =
    execute-Trace (watched desk) (watcher desk) 3 (some 0) issue ended.1 ended.0 issue-ends
