-- ===== src/Temporal/Tests/Recovered.antt =====
-- A workflow of two signal-gated steps whose activities fail twice, and the theorem on its recovery.
use native.Mathlib.Nat.{le_refl}
use go_cook.Shared.{
  ◌≡◌, ◌⊎◌, refl, inl, inr, ℕ, zero, suc, ◌≤◌, ◌<◌, String, String-discrete, Option, none, List,
  String-discrete, some, [], ◌∷◌, ok, Error, new, arith,
}
use go_cook.Temporal.Types.{Status, ActivityOptions, completed}
use go_cook.Temporal.Sdk.{Sdk, raw_message, Run}
use go_cook.Temporal.Registry.{new_workflow_execution, add_transition}
use go_cook.Temporal.Pipeline.{execute}
use go_cook.Temporal.Pipeline.Recovery.{Operator}
use go_cook.Temporal.Pipeline.Plans.{Registration, register_all, IsForward}
use go_cook.Temporal.Pipeline.Setup.{IsClosed, IsSignalled, register_all-completes}
use go_cook.Temporal.Tests.Sample.{Desk, desk}

-- Every wait is answered at once, with an empty payload.
abbrev staffed : Sdk
staffed = record desk { await_payload = λ status name d. (ok (raw_message ""), d) }

staffed-runs :
    (status : Status) (o : Option (ActivityOptions (Unit {0}))) (fn : String) (d : Option String)
    (w : Desk)
    → let f = staffed.execute_activity status o (some fn) d w in
      ((f.error ≡ none) × (f.world.failures ≤ w.failures))
      ⊎ ((e : Error) × (f.error ≡ some e) × (f.world.failures < w.failures))
staffed-runs status o fn d w = go w.failures refl
  where
    go :
        (n : ℕ)
        → w.failures ≡ n
        → let f = staffed.execute_activity status o (some fn) d w in
          ((f.error ≡ none) × (f.world.failures ≤ w.failures))
          ⊎ ((e : Error) × (f.error ≡ some e) × (f.world.failures < w.failures))
    go zero e = inl (ground arith)
    go (suc n) e = inr (new "unavailable", ground arith, ground arith)

empty-accepted : (d : String) → (staffed.unmarshal "" d).0 ≡ none
unfolding String-discrete
empty-accepted d = refl

abbrev staff : Operator staffed
staff = record {
  answer = λ w. "";
  faults = λ w. w.failures;
  answered = λ status name w. refl;
  accepted = λ w d. empty-accepted d;
  faults-await = λ status name w. le_refl w.failures;
  faults-execute = staffed-runs;
  handled = λ name w. refl;
  faults-handled = λ name w. le_refl w.failures;
}

abbrev blank : Run staffed
blank = record {
  w = new_workflow_execution staffed;
  objects = λ q. "";
  world = record { time = 7; payloads = []; verdicts = []; failures = 2 };
}

abbrev plan : List (Registration staffed)
plan =
    record {
      name = "draft";
      signal = "submit";
      fn = "review";
      options = none;
      next = "review" ∷ [];
    }
    ∷ record { name = "review"; signal = "approve"; fn = ""; options = none; next = [] }
    ∷ []

abbrev letter : Run staffed
letter = register_all staffed plan blank

plan-IsForward : IsForward staffed [] plan
unfolding String-discrete
plan-IsForward = ((refl, tt), (tt, tt))

plan-IsClosed : IsClosed staffed plan
unfolding String-discrete
plan-IsClosed = ((refl, tt), (tt, tt))

plan-IsSignalled : IsSignalled staffed plan
unfolding String-discrete
plan-IsSignalled = (refl, (refl, tt))

few-faults : letter.world.failures ≤ 5
unfolding add_transition
few-faults = omega arith

register_all-completes_example :
    (s : Run staffed) × (execute staffed 3 (some 0) letter ≡ some (ok tt, s))
    × (s.w.status ≡ completed)
register_all-completes_example =
    register_all-completes staffed staff plan 3 0 blank refl plan-IsForward plan-IsClosed
      plan-IsSignalled (omega arith) few-faults
