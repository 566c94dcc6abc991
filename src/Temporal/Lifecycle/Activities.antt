-- ===== src/Temporal/Lifecycle/Activities.antt =====
-- The phases through which `runActivity` of temporal/workflow.go goes, whatever the step.
use go_cook.Shared.{
  ◌≡◌, ◌!=◌, ◌>>◌, ◌<>◌, wrapping, ap, ◌∙◌, ◌⊎◌, inl, inr, ℕ, String, Option, some, List, ◌∷◌,
  Result, ok, err, wrap, pure, branch, Bool, true, false,
}
use go_cook.Shared.Int.{pos_part}
use go_cook.Shared.Lands.{Lands, Lands-bind, Lands-weaken}
use go_cook.Temporal.Types.{awaiting_approval, failed, rejected, ResumableOptions}
use go_cook.Temporal.Sdk.{Sdk, Info, Run}
use go_cook.Temporal.Resumable.{attempts, run_resumable_activity, step_options, set_info}
use go_cook.Temporal.Resumable.Statuses.{
  Leaves, apply_branch-w, apply_branch-ok, call_activity-w, wait_for_approval-status,
}
use go_cook.Temporal.Resumable.Frame.{apply_branch-world}
use go_cook.Temporal.Waits.{M, call_activity, wait_for_approval, apply_branch, resumable_options}
use go_cook.Temporal.Pipeline.{run_activity}
use go_cook.Temporal.Lifecycle.{
  runs, asks, Shown, Phase, received, ran, answered, broken, refused, Rests, at_ran, at_answered,
  Trace, move, call, ask, reject, give_up as fall, run_plain, answer, Observer,
}
use go_cook.Temporal.Lifecycle.Steps.{At, reach, Stuck, attempts-At}
use go_cook.Temporal.Lifecycle.Seen.{seen-call_activity, seen-wait_for_approval}

module _ (sdk : Sdk) (o : Observer sdk) (before : List Shown) where
  open sdk use {OtherOptions}
  open o use {seen}

  -- Between two steps.
  abbrev pub Resting : Run sdk → Type 0
  Resting s = (x : Phase) × Rests x × At sdk o before x s

  -- After a step that failed.
  abbrev pub Halted : Run sdk → Type 0
  Halted s =
      Resting s ⊎ At sdk o before received s ⊎ At sdk o before broken s ⊎ At sdk o before refused s

  after_approval :
      {l : List Shown} (y : Result (Unit {0}) × Run sdk)
      → Trace before l ran
      → seen y.1.world ≡ (asks, awaiting_approval) ∷ l
      → Leaves
          (λ s. s ≡ awaiting_approval)
          (λ s. (s ≡ awaiting_approval) ⊎ (s ≡ failed) ⊎ (s ≡ rejected))
          y.0
          y.1.w.status
      → Lands Resting Halted y
  after_approval (ok _, s) t e f =
      (answered, at_answered, reach sdk o before s (call (move t ask) answer) e f)
  after_approval (err _, s) t e (inl f) =
      inl (answered, at_answered, reach sdk o before s (call (move t ask) answer) e f)
  after_approval (err _, s) t e (inr (inl f)) =
      inr
        (inr (inl (reach sdk o before s (move (call (move t ask) answer) (fall at_answered)) e f)))
  after_approval (err _, s) t e (inr (inr f)) =
      inr (inr (inr (reach sdk o before s (move (call (move t ask) answer) reject) e f)))

  approval-At :
      (b : Bool) (name : String) (opts : ResumableOptions) (s : Run sdk)
      → At sdk o before ran s
      → Lands Resting Halted (branch b (wait_for_approval sdk name opts) (pure tt) s)
  approval-At true name opts s h =
      after_approval (wait_for_approval sdk name opts s) h.trace
        (seen-wait_for_approval sdk o name opts s) (wait_for_approval-status sdk name opts s)
  approval-At false name opts s h = (ran, at_ran, h)

  branched : (y : Result (Unit {0}) × Run sdk) → y.0 ≡ ok tt → Resting y.1 → Lands Resting Halted y
  branched (ok _, s) e h = h
  branched (err e, s) q h = absurd (cc)

  apply_branch-At :
      (info : Info sdk) (p : Option ℕ) (s : Run sdk)
      → Resting s
      → Lands Resting Halted (apply_branch sdk info p s)
  apply_branch-At info p s (x, q, h) =
      branched (apply_branch sdk info p s) (apply_branch-ok sdk info p s) (
        x,
        q,
        reach sdk o before (apply_branch sdk info p s).1 h.trace
            (ap seen (apply_branch-world sdk info p s))
            (ap (λ w. w.status) (apply_branch-w sdk info p s) ∙ h.shows),
      )

  either :
      (b : Bool) (m n : M sdk (Unit {0})) (r : Run sdk)
      → Lands Resting Halted (m r)
      → Lands Resting Halted (n r)
      → Lands Resting Halted (branch b m n r)
  either true m n r h k = h
  either false m n r h k = k

  run_resumable_activity-At :
      (k : String) (info : Info sdk) (p : Option ℕ) (r : Run sdk)
      → Resting r
      → Lands Resting Halted (run_resumable_activity sdk (k, info) p r)
  unfolding run_resumable_activity
  run_resumable_activity-At k info p r (x, q, h) =
      let opts = step_options sdk info in
      let updated : Info sdk = record info { resumable = some opts } in
      let a = some (resumable_options sdk updated) in
      Lands-bind (At sdk o before ran) Resting Halted
        (attempts sdk (pos_part opts.max_correction_attempts) updated opts a p)
        (λ _.
          branch (opts.approval_signal != "") (wait_for_approval sdk info.activity_name opts)
            (pure tt)
          >> apply_branch sdk updated p)
        (set_info sdk k updated r)
        (Lands-weaken (At sdk o before ran) (At sdk o before ran) (Stuck sdk o before) Halted
          (attempts sdk (pos_part opts.max_correction_attempts) updated opts a p
            (set_info sdk k updated r))
          (attempts-At sdk o before (pos_part opts.max_correction_attempts) updated opts a p
            (set_info sdk k updated r) q (record { trace = h.trace; shows = h.shows }))
          (λ s c. c) (λ s c. inr (elim c [ inl d ↦ inl d | inr d ↦ inr (inl d) ])))
        (λ _ s c.
          Lands-bind Resting Resting Halted
            (branch (opts.approval_signal != "") (wait_for_approval sdk info.activity_name opts)
              (pure tt))
            (λ _. apply_branch sdk updated p) s
            (approval-At (opts.approval_signal != "") info.activity_name opts s c)
            (λ _ t d. apply_branch-At updated p t d))

  wrapped :
      (text : String) (y : Result (Unit {0}) × Run sdk)
      → Resting y.1
      → Lands {A = Unit {0}} Resting Halted
          (elim y.0 [ ok a ↦ (ok a, y.1) | err e ↦ (err (wrap text e), y.1) ])
  wrapped text (ok _, s) h = h
  wrapped text (err e, s) h = inl h

  run_plain-At :
      (info : Info sdk) (p : Option ℕ) (r : Run sdk)
      → Resting r
      → Resting (call_activity sdk info.activity_options info p r).1
  run_plain-At info p r (x, q, h) = (
    x,
    q,
    reach sdk o before (call_activity sdk info.activity_options info p r).1
        (call h.trace (run_plain q))
        (seen-call_activity sdk o info.activity_options info p r
          ∙ ap (λ t. (runs, t) ∷ seen r.world) h.shows)
        (ap (λ w. w.status) (call_activity-w sdk info.activity_options info p r) ∙ h.shows),
  )

  pub run_activity-At :
      (k : String) (info : Info sdk) (p : Option ℕ) (r : Run sdk)
      → Resting r
      → Lands Resting Halted (run_activity sdk (k, info) p r)
  unfolding run_activity
  run_activity-At k info p r h =
      either (info.signal_event != "") (run_resumable_activity sdk (k, info) p) _ r
        (run_resumable_activity-At k info p r h)
        (Lands-bind Resting Resting Halted
          (wrapping ("activity " <> info.activity_name <> " failed: ")
            (call_activity sdk info.activity_options info p))
          (λ _. apply_branch sdk info p) r
          (wrapped _ (call_activity sdk info.activity_options info p r) (run_plain-At info p r h))
          (λ _ s c. apply_branch-At info p s c))
