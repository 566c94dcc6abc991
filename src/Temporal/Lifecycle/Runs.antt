-- ===== src/Temporal/Lifecycle/Runs.antt =====
-- What an observer sees of a run of `Execute` of temporal/workflow.go.
use go_cook.Shared.{
  true, false, ◌≡◌, refl, sym, ap, ◌∙◌, ◌⊎◌, inl, inr, ℕ, zero, suc, String, Option, none, some,
  List, arith, Result, ok, err, Option-cases, Result-cases,
}
use mathlib.Core.Path.{subst}
use go_cook.Shared.Lands.{Lands}
use go_cook.Temporal.Types.{Status, failed, completed}
use go_cook.Temporal.Sdk.{Sdk, Run}
use go_cook.Temporal.Registry.{Node, node_at, status_search_attribute}
use go_cook.Temporal.Resumable.Statuses.{status-set_execution_status}
use go_cook.Temporal.Waits.{set_execution_status, register_status_query}
use go_cook.Temporal.Pipeline.{
  is_open, stop_clock, run_activity, next_node, run_pipeline, settle, start_up, finish, execute,
}
use go_cook.Temporal.Pipeline.Statuses.{start_up-status}
use go_cook.Temporal.Lifecycle.{
  Shown, Phase, begun, broken, refused, done, status_of, Rests, at_begun, at_ran, at_answered,
  Trace, start, move, give_up, abort, complete, Observer,
}
use go_cook.Temporal.Lifecycle.Seen.{seen-set_execution_status}
use go_cook.Temporal.Lifecycle.Steps.{At, reach}
use go_cook.Temporal.Lifecycle.Activities.{Resting, Halted, run_activity-At}

-- Where `Execute` may leave a run: at the end, or failed or rejected, or at the beginning, with
-- nothing seen since.
abbrev pub LeavesAt : List Shown → List Shown → Result (Unit {0}) → Phase → Type 0
LeavesAt before seen (ok _) x = x ≡ done
LeavesAt before seen (err _) x = (x ≡ broken) ⊎ (x ≡ refused) ⊎ ((x ≡ begun) × (seen ≡ before))

module _ (sdk : Sdk) (o : Observer sdk) (before : List Shown) where
  open o use {seen, seen-upsert, seen-set_query_handler}

  abbrev pub Closed : Run sdk → Type 0
  Closed s = At sdk o before broken s ⊎ At sdk o before refused s

  open-Rests :
      {x : Phase} (s : Run sdk) → Rests x → s.w.status ≡ status_of x → is_open s.w.status ≡ true
  open-Rests s at_begun e = rw e
  open-Rests s at_ran e = rw e
  open-Rests s at_answered e = rw e

  -- A run that is open gets the status, and nothing is seen of that.
  settle-At :
      (status : Status) (attribute : String) {l : List Shown} (y : Phase) (s : Run sdk)
      → is_open s.w.status ≡ true
      → Trace before l y
      → seen s.world ≡ l
      → status_of y ≡ status
      → At sdk o before y (settle sdk status attribute s)
  settle-At status attribute y s open_ t e f = rw open_ (
      reach sdk o before (set_execution_status sdk status attribute s).1 t
        (seen-set_execution_status sdk o status attribute s ∙ e)
        (status-set_execution_status sdk status attribute s ∙ sym f))

  halt-At :
      (attribute : String) (s : Run sdk)
      → Halted sdk o before s
      → Closed (settle sdk failed attribute s)
  halt-At attribute s (inl (x, q, h)) = inl (
      settle-At failed attribute broken s (open-Rests s q h.shows) (move h.trace (give_up q)) refl
        refl)
  halt-At attribute s (inr (inl h)) =
      inl (
        settle-At failed attribute broken s (ground (arith, h.shows)) (move h.trace abort) refl
          refl)
  halt-At attribute s (inr (inr (inl h))) =
      let e : is_open s.w.status ≡ false = ap is_open h.shows in rw e (inl h)
  halt-At attribute s (inr (inr (inr h))) =
      let e : is_open s.w.status ≡ false = ap is_open h.shows in rw e (inr h)

  after_activity :
      (fuel : ℕ) (attribute : String) (p : Option ℕ) (n : Node sdk)
      (y t : Result (Unit {0}) × Run sdk)
      → Lands (Resting sdk o before) (Halted sdk o before) y
      → ((s : Run sdk)
          → Resting sdk o before s
          → run_pipeline sdk fuel attribute (next_node sdk n p s) p s ≡ some t
          → Lands (Resting sdk o before) Closed t)
      → (elim y.0 [
        | err e ↦ some (err e, settle sdk failed attribute y.1)
        | ok _ ↦ run_pipeline sdk fuel attribute (next_node sdk n p y.1) p y.1
      ])
        ≡ some t
      → Lands (Resting sdk o before) Closed t
  after_activity fuel attribute p n (ok _, s) t h next e = next s h e
  after_activity fuel attribute p n (err x, s) t h next e =
      let q : (err x, settle sdk failed attribute s) ≡ t = cc in
      subst (λ u. Lands {A = Unit {0}} (Resting sdk o before) Closed u) q (halt-At attribute s h)

  run_pipeline-At :
      (fuel : ℕ) (attribute : String) (n : Option (Node sdk)) (p : Option ℕ) (r : Run sdk)
      (t : Result (Unit {0}) × Run sdk)
      → Resting sdk o before r
      → run_pipeline sdk fuel attribute n p r ≡ some t
      → Lands (Resting sdk o before) Closed t
  unfolding run_pipeline
  run_pipeline-At fuel attribute none p r t h e =
      let q : (ok tt, r) ≡ t = cc in
      subst (λ u. Lands {A = Unit {0}} (Resting sdk o before) Closed u) q h
  run_pipeline-At zero attribute (some n) p r t h e = absurd (cc)
  run_pipeline-At (suc fuel) attribute (some (k, info)) p r t h e =
      after_activity fuel attribute p (k, info) (run_activity sdk (k, info) p r) t
        (run_activity-At sdk o before k info p r h)
        (λ s c. run_pipeline-At fuel attribute (next_node sdk (k, info) p s) p s t c) e

  -- Where a run of `Execute` ends.
  abbrev pub Ends : Result (Unit {0}) × Run sdk → Type 0
  Ends (x, s) =
      (y : Phase) × Trace before (seen s.world) y
      × (s.w.status ≡ status_of y)
      × LeavesAt before (seen s.world) x y

  finish-At :
      (attribute : String) (y : Result (Unit {0}) × Run sdk)
      → Lands (Resting sdk o before) Closed y
      → Ends (finish sdk attribute y)
  unfolding finish
  finish-At attribute (ok _, s) (x, q, h) =
      let t = stop_clock sdk s in
      let d =
        settle-At completed attribute done t (open-Rests s q h.shows) (move h.trace (complete q))
          refl refl in
      (done, d.trace, d.shows, refl)
  finish-At attribute (err e, s) (inl h) = (broken, h.trace, h.shows, inl refl)
  finish-At attribute (err e, s) (inr h) = (refused, h.trace, h.shows, inr (inl refl))

  seen-start_up : (r : Run sdk) → seen (start_up sdk r).1.world ≡ seen r.world
  unfolding start_up set_execution_status register_status_query
  seen-start_up r = grind (arith, seen-upsert, seen-set_query_handler)

  started-At : (r : Run sdk) → seen r.world ≡ before → At sdk o before begun (start_up sdk r).1
  started-At r e =
      reach sdk o before (start_up sdk r).1 start (seen-start_up r ∙ e) (start_up-status sdk r)

  Ends-eq : {x t : Result (Unit {0}) × Run sdk} → x ≡ t → Ends x → Ends t
  Ends-eq e h = subst Ends e h

module _ (sdk : Sdk) (o : Observer sdk) where
  open o use {seen}

  -- A run of `Execute` that ends within its fuel goes through the phases: what is seen of it, after
  -- what was seen before, is a trace from the phase `begun` to one that shows the status with which
  -- it ends. That is the end of the run if it returns nil; if it returns an error the run is failed or
  -- rejected, or it is PENDING and no wait and no activity of the run has been seen.
  pub execute-Trace :
      (fuel : ℕ) (p : Option ℕ) (r s : Run sdk) (x : Result (Unit {0}))
      → execute sdk fuel p r ≡ some (x, s)
      → Ends sdk o (seen r.world) (x, s)
  unfolding execute
  execute-Trace fuel p r s x h =
      let before = seen r.world in
      let attribute = status_search_attribute sdk r.w in
      let n = node_at sdk r.w r.w.first_activity in
      let t = (start_up sdk r).1 in
      let a = started-At sdk o before r refl in
      elim (Result-cases (start_up sdk r).0) [
        | inr (e, started) ↦
            Ends-eq sdk o before {x = (err e, t)} {t = (x, s)} (ground arith)
              (begun, a.trace, a.shows, inr (inr (refl, seen-start_up sdk o before r)))
        | inl started ↦ elim (Option-cases (run_pipeline sdk fuel attribute n p t)) [
          | inl out ↦ absurd (ground arith)
          | inr (y, ended) ↦
              Ends-eq sdk o before {x = finish sdk attribute y} {t = (x, s)} (ground arith) (
                finish-At sdk o before attribute y
                  (run_pipeline-At sdk o before fuel attribute n p t y (begun, at_begun, a) ended))
        ]
      ]
