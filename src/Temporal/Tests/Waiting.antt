-- ===== src/Temporal/Tests/Waiting.antt =====
-- A loop of temporal/signals.go whose handler waits while another signal is sent.
use mathlib.Core.List.{Permᴰ, Memᴰ}
use go_cook.Shared.{◌≡◌, refl, suc, String-discrete, none, [], ◌∷◌}
use go_cook.Temporal.Signals.Waiting.{
  returned, runs_on, Listener, Weave, sends, receives, runs, Runs, start, later,
}
use go_cook.Temporal.Signals.Waiting.Accounts.{InOrder, Accounted, Placed, Runs-Accounted}
use go_cook.Temporal.Signals.Order.{signals_of}
use go_cook.Temporal.Signals.Waiting.Endings.{Goes, Runs-Finished}
use go_cook.Temporal.Tests.Loops.{flow}

abbrev patient : Listener flow
patient = record { signal_name = "paid"; handler = λ v. runs_on (λ w. suc w) (λ w. returned none) }

-- The handler of the first signal has come to its wait when the second is sent.
woven : (s : Weave flow) × Runs flow (patient ∷ []) 0 s
unfolding String-discrete
woven = (
  _,
  later
      (later (later (later start (sends "paid" 4)) (receives [] [] patient 4 [] refl refl))
        (sends "paid" 5))
      (runs [] [] (patient, 4) (λ w. suc w) (λ w. returned none) refl),
)

woven-state :
    (woven.0.world ≡ 1)
    × (woven.0.channel "paid" ≡ 5 ∷ [])
    × (woven.0.running ≡ ((patient, 4), returned none) ∷ [])
unfolding woven String-discrete
woven-state = (refl, refl, refl)

Runs-Accounted_example :
    InOrder flow woven.0 × Accounted flow woven.0 × Placed flow (patient ∷ []) woven.0
Runs-Accounted_example = Runs-Accounted flow (patient ∷ []) 0 woven.0 woven.1

Runs-Finished_example :
    (t : Weave flow) × Goes flow (patient ∷ []) 0 woven.0 [] t
    × Permᴰ t.received t.finished
    × (signals_of (λ m. m.signal_name) "paid" t.received ≡ woven.0.sent "paid")
Runs-Finished_example = Runs-Finished flow (patient ∷ []) 0 patient (Memᴰ.head refl) woven.0 woven.1
