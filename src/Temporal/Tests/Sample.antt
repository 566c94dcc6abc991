-- ===== src/Temporal/Tests/Sample.antt =====
-- A worker, and a workflow of three steps as temporal/workflow_test.go builds them.
use go_cook.Shared.{
  ℕ, zero, suc, String, Bool, true, Option, none, some, List, [], ◌∷◌, new, Result, ok, err, ◌==◌,
  if◌then◌else◌,
}
use go_cook.Temporal.Sdk.{Sdk, Payload, raw_message, other_value, Future, Run}
use go_cook.Temporal.Registry.{new_workflow_execution, add_transition}
use go_cook.Temporal.Registry.Graph.{
  IsWellFormed, new_workflow_execution-IsWellFormed, add_transition-IsWellFormed,
}

-- The signals that are still to come, and how often activities are still to fail.
pub record Desk : Type 0 where
  pub time : ℕ
  pub payloads : List (Payload String)
  pub verdicts : List Bool
  pub failures : ℕ

abbrev next_payload : Desk → Option (Payload String) × Desk
next_payload d = elim d.payloads [
  | [] ↦ (none, d)
  | p ∷ rest ↦ (some p, record d { payloads = rest })
]

abbrev next_verdict : Desk → Option Bool × Desk
next_verdict d = elim d.verdicts [
  | [] ↦ (none, d)
  | b ∷ rest ↦ (some b, record d { verdicts = rest })
]

abbrev or_cancelled : {A : Type 0} → Option A × Desk → Result A × Desk
or_cancelled (none, d) = (err (new "cancelled"), d)
or_cancelled (some a, d) = (ok a, d)

abbrev present : {A : Type 0} → Option A × Desk → Result (Option A) × Desk
present (x, d) = (ok x, d)

abbrev perform : Option String → Desk → Future Desk String
perform none d = record { error = some (new "no function"); write = λ x. x; world = d }
perform (some next) d = elim d.failures [
  | zero ↦ record { error = none; write = λ x. next; world = d }
  | suc n ↦ record {
    error = some (new "unavailable");
    write = λ x. x;
    world = record d { failures = n };
  }
]

-- An activity function is the name of the activity that it puts into the execution data, which hold
-- nothing else; "bad" is no JSON.
abbrev pub desk : Sdk
desk = record {
  World = Desk;
  ActivityFn = String;
  OtherOptions = Unit {0};
  zero_options = tt;
  Data = String;
  get_activity = λ d. d;
  set_activity = λ name d. name;
  marshal = λ d. if d == "bad" then err (new "no JSON") else ok d;
  unmarshal = λ b old. if b == "bad" then (some (new "no JSON"), old) else (none, b);
  Value = String;
  json_marshal = λ v. ok v;
  type_name = λ v. "string";
  now = λ d. d.time;
  register_activity = λ name fn d. d;
  set_query_handler = λ name d. (none, d);
  upsert_search_attributes = λ name status d. (none, d);
  execute_activity = λ status options fn given d. perform fn d;
  await_payload = λ status name d. or_cancelled (next_payload d);
  await_payload_for = λ status name timeout d. present (next_payload d);
  await_bool = λ status name d. or_cancelled (next_verdict d);
  await_bool_for = λ status name timeout d. present (next_verdict d);
}

-- Two signals are to come and one activity is to fail.
abbrev pub opened : Desk
opened = record {
  time = 7;
  payloads = raw_message "" ∷ other_value "review" ∷ [];
  verdicts = true ∷ [];
  failures = 1;
}

abbrev pub blank : Run desk
blank = record { w = new_workflow_execution desk; objects = λ q. ""; world = opened }

abbrev pub drafted : Run desk
drafted = add_transition desk "draft" "submit" "review" none ("review" ∷ []) blank

abbrev pub reviewed : Run desk
reviewed = add_transition desk "review" "" "publish" none ("publish" ∷ "archive" ∷ []) drafted

-- "draft" waits for the signal "submit"; then come "review" and "publish".
abbrev pub issue : Run desk
issue = add_transition desk "publish" "" "" none [] reviewed

-- The state after the draft, in which "review" is to run without failures.
abbrev pub edited : Run desk
edited = record issue { objects = λ q. "review"; world = record opened { failures = 0 } }

pub reviewed-IsWellFormed : IsWellFormed desk reviewed.w
reviewed-IsWellFormed =
    add_transition-IsWellFormed desk "review" "" "publish" none ("publish" ∷ "archive" ∷ []) drafted
      (add_transition-IsWellFormed desk "draft" "submit" "review" none ("review" ∷ []) blank
        (new_workflow_execution-IsWellFormed desk))

pub issue-IsWellFormed : IsWellFormed desk issue.w
issue-IsWellFormed =
    add_transition-IsWellFormed desk "publish" "" "" none [] reviewed reviewed-IsWellFormed
