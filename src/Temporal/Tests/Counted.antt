-- ===== src/Temporal/Tests/Counted.antt =====
-- A worker that counts the attempts at its activities, and a workflow of two steps on it.
use text.Mathlib.TextEquality.{eq_iff}
use go_cook.Shared.{
  ◌≡◌, ◌≢◌, refl, inl, inr, ℕ, ◌+◌, ◌-◌, ◌*◌, ◌≤◌, ◌<◌, String, String-discrete, Option, none, some,
  List, [], ◌∷◌, ltb, true, if◌then◌else◌, ok, new, Result, arith,
}
use go_cook.Shared.Int.{pos, pos_part}
use go_cook.Temporal.Types.{ActivityOptions, RetryPolicy, zero_retry_policy}
use go_cook.Temporal.Sdk.{Sdk, Future, raw_message, Run}
use go_cook.Temporal.Registry.{new_workflow_execution}
use go_cook.Temporal.Resumable.Tries.{Counter}
use go_cook.Temporal.Pipeline.{execute}
use go_cook.Temporal.Pipeline.Plans.{Registration, register_all, IsForward}
use go_cook.Temporal.Pipeline.Budget.{AllLimited, execute-attempts}

-- The attempts so far, and how many of the next ones fail.
record Bench : Type 0 where
  pub tries : ℕ
  pub failing : ℕ

-- A call without a limit on its attempts, and one with the limit `limit`.
abbrev repeat : String → Bench → Future Bench String
repeat next b = record {
  error = none;
  write = λ x. next;
  world = record { tries = b.tries + b.failing + 1; failing = 0 };
}

abbrev repeat_up_to : ℕ → String → Bench → Future Bench String
repeat_up_to limit next b = if ltb b.failing limit then repeat next b else record {
  error = some (new "unavailable");
  write = λ x. x;
  world = record { tries = b.tries + limit; failing = b.failing - limit };
}

abbrev run_under : Option RetryPolicy → String → Bench → Future Bench String
run_under none next b = repeat next b
run_under (some policy) next b =
    if ltb 0 (pos_part policy.maximum_attempts)
    then repeat_up_to (pos_part policy.maximum_attempts) next b
    else repeat next b

abbrev perform : Option (ActivityOptions (Unit {0})) → Option String → Bench → Future Bench String
perform o none b = record { error = some (new "no function"); write = λ x. x; world = b }
perform none (some next) b = repeat next b
perform (some o) (some next) b = run_under o.retry_policy next b

abbrev bench : Sdk
bench = record {
  World = Bench;
  ActivityFn = String;
  OtherOptions = Unit {0};
  zero_options = tt;
  Data = String;
  get_activity = λ d. d;
  set_activity = λ name d. name;
  marshal = λ d. ok d;
  unmarshal = λ b old. (none, b);
  Value = String;
  json_marshal = λ v. ok v;
  type_name = λ v. "string";
  now = λ b. b.tries;
  register_activity = λ name fn b. b;
  set_query_handler = λ name b. (none, b);
  upsert_search_attributes = λ name status b. (none, b);
  execute_activity = λ status options fn given b. perform options fn b;
  await_payload = λ status name b. (ok (raw_message ""), b);
  await_payload_for = λ status name timeout b. (ok none, b);
  await_bool = λ status name b. (ok true, b);
  await_bool_for = λ status name timeout b. (ok none, b);
}

perform-limited :
    (o : ActivityOptions (Unit {0})) (policy : RetryPolicy) (fn : String) (b : Bench)
    → o.retry_policy ≡ some policy
    → 0 < pos_part policy.maximum_attempts
    → (perform (some o) (some fn) b).world.tries ≤ b.tries + pos_part policy.maximum_attempts
perform-limited o policy fn b given positive = ground arith

abbrev counted : Counter bench
counted = record {
  tries = λ b. b.tries;
  tries-await_payload = λ status name b. refl;
  tries-await_payload_for = λ status name t b. refl;
  tries-await_bool = λ status name b. refl;
  tries-await_bool_for = λ status name t b. refl;
  tries-upsert = λ name status b. refl;
  tries-set_query_handler = λ name b. refl;
  tries-register_activity = λ name fn b. refl;
  tries-no_function = λ status o d b. refl;
  tries-policy =
      λ status o policy fn d b given positive. perform-limited o policy fn b given positive;
}

-- Twenty attempts are to fail, more than the first step makes.
abbrev blank : Run bench
blank = record {
  w = new_workflow_execution bench;
  objects = λ q. "";
  world = record { tries = 0; failing = 20 };
}

abbrev thrice : ActivityOptions (Unit {0})
thrice = record {
  start_to_close_timeout = pos 1;
  retry_policy = some (record zero_retry_policy { maximum_attempts = pos 3 });
  other = tt;
}

abbrev plan : List (Registration bench)
plan =
    record {
      name = "draft";
      signal = "submit";
      fn = "review";
      options = none;
      next = "review" ∷ [];
    }
    ∷ record { name = "review"; signal = ""; fn = ""; options = some thrice; next = [] }
    ∷ []

plan-IsForward : IsForward bench [] plan
unfolding String-discrete
plan-IsForward = ((refl, tt), (tt, tt))

submit_named : ◌≢◌ {A = String} "submit" ""
submit_named = ground (arith, eq_iff "submit" "")

blank-empty : blank.w.activity ≡ []
unfolding new_workflow_execution
blank-empty = refl

plan-AllLimited : AllLimited bench counted 3 plan
plan-AllLimited = (
  inr (refl, submit_named, omega arith),
  (inl (record zero_retry_policy { maximum_attempts = pos 3 }, refl, omega arith, omega arith), tt),
)

execute-attempts_example :
    (x : Result (Unit {0})) × (s : Run bench) × (execute bench 3
        (some 0)
        (register_all bench plan blank)
      ≡ some (x, s))
    × (s.world.tries ≤ 0 + 2 * (6 * 3))
execute-attempts_example =
    execute-attempts bench counted plan 3 3 (some 0) blank plan-IsForward plan-AllLimited
      blank-empty (omega arith)
