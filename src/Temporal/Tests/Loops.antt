-- ===== src/Temporal/Tests/Loops.antt =====
-- A loop of temporal/signals.go that handles one of two signals, and the theorem on its state.
use mathlib.Core.List.{Memᴰ}
use go_cook.Shared.{
  ◌≡◌, refl, ℕ, suc, String, String-discrete, none, some, List, [], ◌∷◌, ◌++◌, ok, new,
}
use go_cook.Temporal.Signals.{Workflow, Loop, listen_signal}
use go_cook.Temporal.Signals.Loops.{
  Flow, sends, handles, Reach, start, later, of_name, replay, ByLoops, Reach-Delivers,
}

-- A workflow whose world counts the signals that it handles.
abbrev pub flow : Workflow
flow = record {
  World = ℕ;
  Value = ℕ;
  signal_external = λ id run name v w. (none, suc w);
  start_child = λ id name w. (ok (id, "run"), w);
  child_result = λ id w. (ok w, w);
  receive = λ name w. (0, w);
  await_with_timeout = λ name timeout w. (ok none, w);
  select = λ names w. (none, w);
  Handler = String;
  UpdateOptions = Unit {0};
  set_query_handler = λ name handler w. (none, w);
  set_update_handler = λ name handler options w. (none, w);
  spawn = λ fn w. fn w;
}

-- A handler whose error is logged, and a listener beside it.
abbrev paid : Loop flow
paid = record { signal_name = "paid"; handler = λ v w. (some (new "logged"), suc w) }

abbrev loops : List (Loop flow)
loops = paid ∷ listen_signal flow "sent" (λ v w. v) (λ w. suc w) ∷ []

-- Two signals are sent, and the first is handled.
reached : (s : Flow flow) × Reach flow loops 0 s
unfolding String-discrete
reached = (
  _,
  later (later (later start (sends "paid" 4)) (sends "paid" 5))
      (handles paid 4 (5 ∷ []) (Memᴰ.head refl) refl),
)

reached-state :
    (reached.0.world ≡ 1)
    × (reached.0.sent "paid" ≡ 4 ∷ 5 ∷ [])
    × (reached.0.channel "paid" ≡ 5 ∷ [])
unfolding reached String-discrete
reached-state = (refl, refl, refl)

Reach-Delivers_example :
    (reached.0.sent "paid" ≡ of_name flow "paid" reached.0.handled ++ reached.0.channel "paid")
    × ByLoops flow loops reached.0.handled
    × (reached.0.world ≡ replay flow reached.0.handled 0)
Reach-Delivers_example = Reach-Delivers flow loops 0 reached.0 "paid" reached.1
