-- ===== src/Temporal/Pipeline/Recovery.antt =====
-- What the corrections of temporal/resumable.go are for: a run of `Execute` survives failures of its
-- activities, where an operator answers every wait.
use go_cook.Shared.{
  ◌≡◌, refl, ◌≢◌, ◌⊎◌, inl, inr, ℕ, zero, suc, ◌≤◌, ◌<◌, String, true, Option, none, some, arith,
  Error, Result, ok, err, Option-cases, is_some,
}
use go_cook.Shared.Int.{pos}
use go_cook.Temporal.Types.{Status, ResumableOptions, ActivityOptions}
use go_cook.Temporal.Sdk.{Sdk, raw_message, Info, Run}
use go_cook.Temporal.Registry.Graph.{IsGate}
use go_cook.Temporal.Resumable.{
  gate, round, attempts, run_resumable_activity, step_options, set_info,
}
use go_cook.Temporal.Resumable.Options.{step_options-gate}
use go_cook.Temporal.Resumable.Statuses.{apply_branch-ok}
use go_cook.Temporal.Resumable.Frame.{apply_branch-world}
use go_cook.Temporal.Waits.{
  set_execution_status, wait_for_signal_payload, apply_correction, call_activity, resumable_options,
}
use go_cook.Temporal.Pipeline.{run_activity}

-- An operator who answers every wait with a correction that the data accept, and activities that fail
-- only so often: each failure uses up one of the faults of the world.
pub record Operator (sdk : Sdk) : Type 0 where
  pub answer : sdk.World → String
  pub faults : sdk.World → ℕ
  pub answered :
      (status : Status) (name : String) (w : sdk.World)
      → (sdk.await_payload status name w).0 ≡ ok (raw_message (answer w))
  pub accepted : (w : sdk.World) (d : sdk.Data) → (sdk.unmarshal (answer w) d).0 ≡ none
  pub faults-await :
      (status : Status) (name : String) (w : sdk.World)
      → faults (sdk.await_payload status name w).1 ≤ faults w
  pub faults-execute :
      (status : Status) (o : Option (ActivityOptions sdk.OtherOptions)) (fn : sdk.ActivityFn)
      (d : Option sdk.Data) (w : sdk.World)
      → let f = sdk.execute_activity status o (some fn) d w in
        ((f.error ≡ none) × (faults f.world ≤ faults w))
        ⊎ ((e : Error) × (f.error ≡ some e) × (faults f.world < faults w))
  pub handled : (name : String) (w : sdk.World) → (sdk.set_query_handler name w).0 ≡ none
  pub faults-handled :
      (name : String) (w : sdk.World) → faults (sdk.set_query_handler name w).1 ≤ faults w

module _ (sdk : Sdk) (op : Operator sdk) where
  open sdk use {OtherOptions}
  open op use {
    answer, faults, answered, accepted, faults-await, faults-execute, handled, faults-handled,
  }

  -- A step that has a function, waits for its signal, and has the options of its registration.
  abbrev pub IsReady : Info sdk → Type 0
  IsReady info = IsGate sdk info × (info.signal_event ≢ "") × (is_some info.activity_fn ≡ true)

  -- Options without a time limit and without a search attribute.
  abbrev IsPatient : ResumableOptions → Type 0
  IsPatient o = (o.wait_timeout ≡ pos 0) × (o.status_search_attribute ≡ "")

  gate-passes :
      (info : Info sdk) (o : ResumableOptions) (q : ℕ) (r : Run sdk)
      → IsPatient o
      → ((gate sdk info o (some q) r).0 ≡ ok tt)
        × (faults (gate sdk info o (some q) r).1.world ≤ faults r.world)
  unfolding gate apply_correction set_execution_status wait_for_signal_payload
  gate-passes info o q r h = grind (arith, answered, accepted, faults-await)

  -- A round comes to its activity, which succeeds or uses up a fault.
  abbrev Plays : Result (Option Error) × Run sdk → Run sdk → Type 0
  Plays y r =
      ((y.0 ≡ ok none) × (faults y.1.world ≤ faults r.world))
      ⊎ ((e : Error) × (y.0 ≡ ok (some e)) × (faults y.1.world < faults r.world))

  call_activity-Plays :
      (info : Info sdk) (a : Option (ActivityOptions OtherOptions)) (q : ℕ) (r : Run sdk)
      → is_some info.activity_fn ≡ true
      → let y = call_activity sdk a info (some q) r in
        ((y.0 ≡ ok tt) × (faults y.1.world ≤ faults r.world))
        ⊎ ((e : Error) × (y.0 ≡ err e) × (faults y.1.world < faults r.world))
  unfolding call_activity
  call_activity-Plays info a q r h = elim (Option-cases info.activity_fn) [
    | inl e ↦ absurd (ground arith)
    | inr (fn, e) ↦ rw e (elim (faults-execute r.w.status a fn (some (r.objects q)) r.world) [
      | inl (f, g) ↦ inl (rw f refl, g)
      | inr (x, f, g) ↦ inr (x, rw f refl, g)
    ])
  ]

  round-Plays :
      (info : Info sdk) (o : ResumableOptions) (a : Option (ActivityOptions OtherOptions)) (q : ℕ)
      (r : Run sdk)
      → IsPatient o
      → is_some info.activity_fn ≡ true
      → Plays (round sdk info o a (some q) r) r
  unfolding round
  round-Plays info o a q r h f =
      let s = (gate sdk info o (some q) r).1 in
      elim (call_activity-Plays info a q s f) [
        | inl (done, g) ↦ inl (ground (arith, gate-passes info o q r h))
        | inr (e, failure, g) ↦
            inr (
              e,
              ground (arith, gate-passes info o q r h),
              ground (arith, gate-passes info o q r h),
            )
      ]

  attempts-succeeds :
      (left : ℕ) (info : Info sdk) (o : ResumableOptions)
      (a : Option (ActivityOptions OtherOptions)) (q : ℕ) (r : Run sdk)
      → IsPatient o
      → is_some info.activity_fn ≡ true
      → faults r.world ≤ left
      → ((attempts sdk left info o a (some q) r).0 ≡ ok tt)
        × (faults (attempts sdk left info o a (some q) r).1.world ≤ faults r.world)
  unfolding attempts
  attempts-succeeds zero info o a q r h f few = elim (round-Plays info o a q r h f) [
    | inl (done, g) ↦ ground arith
    | inr (e, failure, g) ↦ absurd (omega arith)
  ]
  attempts-succeeds (suc left) info o a q r h f few = elim (round-Plays info o a q r h f) [
    | inl (done, g) ↦ ground arith
    | inr (e, failure, g) ↦
        let s = (round sdk info o a (some q) r).1 in
        ground (arith, attempts-succeeds left info o a q s h f)
  ]

  -- A step that is ready succeeds, if no more faults are left than a step may be corrected.
  pub run_activity-succeeds :
      (k : String) (info : Info sdk) (q : ℕ) (r : Run sdk)
      → IsReady info
      → faults r.world ≤ 5
      → ((run_activity sdk (k, info) (some q) r).0 ≡ ok tt)
        × (faults (run_activity sdk (k, info) (some q) r).1.world ≤ faults r.world)
  unfolding run_activity run_resumable_activity
  run_activity-succeeds k info q r (g, h, f) few =
      let o = step_options sdk info in
      let updated : Info sdk = record info { resumable = some o } in
      let s = set_info sdk k updated r in
      let a = some (resumable_options sdk updated) in
      let t = (attempts sdk 5 updated o a (some q) s).1 in
      ground (
        arith,
        step_options-gate sdk info g h,
        attempts-succeeds 5 updated o a q s,
        apply_branch-ok sdk updated (some q) t,
        apply_branch-world sdk updated (some q) t,
      )
