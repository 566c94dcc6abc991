-- ===== src/Temporal/Lifecycle/Steps.antt =====
-- The phases through which a step of temporal/resumable.go or temporal/workflow.go goes.
use go_cook.Shared.{
  ◌≡◌, ap, ◌∙◌, ◌⊎◌, inl, inr, ℕ, zero, suc, Option, none, some, List, ◌∷◌, arith, Result, ok, err,
  Error, Action, pure,
}
use go_cook.Shared.Lands.{Lands, Lands-bind}
use go_cook.Temporal.Types.{
  awaiting_correction, executing, failed, ResumableOptions, ActivityOptions,
}
use go_cook.Temporal.Sdk.{Sdk, Info, Run}
use go_cook.Temporal.Resumable.{gate, catch, round, give_up, attempts}
use go_cook.Temporal.Resumable.Statuses.{
  Leaves, call_activity-w, gate-status, status-set_execution_status,
}
use go_cook.Temporal.Waits.{M, call_activity}
use go_cook.Temporal.Lifecycle.{
  waits, runs, Shown, Phase, received, cleared, ran, broken, status_of, Rests, at_ran, Trace, move,
  call, park, resume, give_up as fall, abort, wait, run_step, Observer,
}
use go_cook.Temporal.Lifecycle.Seen.{seen-set_execution_status, seen-gate, seen-call_activity}

module _ (sdk : Sdk) (o : Observer sdk) (before : List Shown) where
  open sdk use {OtherOptions}
  open o use {seen}

  -- Where a run stands: what has been seen of it, and the status that it shows.
  pub record At (x : Phase) (r : Run sdk) : Type 0 where
    pub trace : Trace before (seen r.world) x
    pub shows : r.w.status ≡ status_of x

  pub reach :
      {l : List Shown} {x : Phase} (s : Run sdk)
      → Trace before l x
      → seen s.world ≡ l
      → s.w.status ≡ status_of x
      → At x s
  reach s t e f = record { trace = rw e t; shows = f }

  after_gate :
      {x : Phase} {l : List Shown} (y : Result (Unit {0}) × Run sdk)
      → Rests x
      → Trace before l x
      → seen y.1.world ≡ (waits, awaiting_correction) ∷ l
      → Leaves (λ s. s ≡ executing) (λ s. (s ≡ failed) ⊎ (s ≡ awaiting_correction)) y.0 y.1.w.status
      → Lands (At cleared) (λ s. At received s ⊎ At broken s) y
  after_gate (ok _, s) q t e l = reach s (move (call (move t (park q)) wait) resume) e l
  after_gate (err _, s) q t e (inl f) = inr (reach s (move (call (move t (park q)) wait) abort) e f)
  after_gate (err _, s) q t e (inr f) = inl (reach s (call (move t (park q)) wait) e f)

  gate-At :
      {x : Phase} (info : Info sdk) (opts : ResumableOptions) (p : Option ℕ) (r : Run sdk)
      → Rests x
      → At x r
      → Lands (At cleared) (λ s. At received s ⊎ At broken s) (gate sdk info opts p r)
  gate-At info opts p r q a =
      after_gate (gate sdk info opts p r) q a.trace (seen-gate sdk o info opts p r)
        (gate-status sdk info opts p r)

  pub call-At :
      (info : Info sdk) (a : Option (ActivityOptions OtherOptions)) (p : Option ℕ) (r : Run sdk)
      → At cleared r
      → At ran (call_activity sdk a info p r).1
  call-At info a p r h =
      reach (call_activity sdk a info p r).1 (call h.trace run_step)
        (seen-call_activity sdk o a info p r ∙ ap (λ t. (runs, t) ∷ seen r.world) h.shows)
        (ground (arith, call_activity-w sdk a info p r, h.shows))

  -- A step that did not come to its activity, or gave up.
  abbrev pub Stuck : Run sdk → Type 0
  Stuck s = At received s ⊎ At broken s

  caught :
      (y : Result (Unit {0}) × Run sdk)
      → At ran y.1
      → Lands {A = Option Error}
          (At ran)
          Stuck
          (elim y.0 [ ok _ ↦ (ok none, y.1) | err e ↦ (ok (some e), y.1) ])
  caught (ok _, s) h = h
  caught (err e, s) h = h

  round-At :
      {x : Phase} (info : Info sdk) (opts : ResumableOptions)
      (a : Option (ActivityOptions OtherOptions)) (p : Option ℕ) (r : Run sdk)
      → Rests x
      → At x r
      → Lands (At ran) Stuck (round sdk info opts a p r)
  unfolding round
  round-At info opts a p r q h =
      Lands-bind (At cleared) (At ran) Stuck (gate sdk info opts p)
        (λ _. catch sdk (call_activity sdk a info p)) r (gate-At info opts p r q h)
        (λ _ s c. caught (call_activity sdk a info p s) (call-At info a p s c))

  give_up-At :
      (info : Info sdk) (opts : ResumableOptions) (e : Error) (r : Run sdk)
      → At ran r
      → Lands (At ran) Stuck (give_up sdk info opts e r)
  unfolding give_up
  give_up-At info opts e r h = inr (
      reach _ (move h.trace (fall at_ran))
        (seen-set_execution_status sdk o failed opts.status_search_attribute r)
        (status-set_execution_status sdk failed opts.status_search_attribute r))

  on_failure :
      (k : Error → M sdk (Unit {0})) (failure : Option Error) (s : Run sdk)
      → At ran s
      → ((e : Error) → Lands (At ran) Stuck (k e s))
      → Lands {A = Unit {0}}
          (At ran)
          Stuck
          ((elim failure as (λ _. Action (Run sdk) (Unit {0})) [ none ↦ pure tt | some e ↦ k e ]) s)
  on_failure k none s h next = h
  on_failure k (some e) s h next = next e

  pub attempts-At :
      (left : ℕ) {x : Phase} (info : Info sdk) (opts : ResumableOptions)
      (a : Option (ActivityOptions OtherOptions)) (p : Option ℕ) (r : Run sdk)
      → Rests x
      → At x r
      → Lands (At ran) Stuck (attempts sdk left info opts a p r)
  unfolding attempts
  attempts-At zero info opts a p r q h =
      Lands-bind (At ran) (At ran) Stuck (round sdk info opts a p)
        (λ failure. elim failure [ none ↦ pure tt | some e ↦ give_up sdk info opts e ]) r
        (round-At info opts a p r q h)
        (λ failure s c.
          on_failure (give_up sdk info opts) failure s c (λ e. give_up-At info opts e s c))
  attempts-At (suc left) info opts a p r q h =
      Lands-bind (At ran) (At ran) Stuck (round sdk info opts a p)
        (λ failure. elim failure [ none ↦ pure tt | some e ↦ attempts sdk left info opts a p ]) r
        (round-At info opts a p r q h)
        (λ failure s c.
          on_failure (λ (e : Error). attempts sdk left info opts a p) failure s c
            (λ e. attempts-At left info opts a p s at_ran c))
