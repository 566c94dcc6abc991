-- ===== src/Temporal/Pipeline/Setup.antt =====
-- From the registrations of a workflow to the end of its run by `Execute` of temporal/workflow.go.
use mathlib.Core.Path.{subst}
use go_cook.Shared.{
  ◌≡◌, refl, sym, ap, ◌⊎◌, inl, inr, ℕ, ◌<◌, ◌≤◌, String, true, false, some, List, [], ◌∷◌, arith,
  ok, map, member, member-All, length, All, Bool-cases, Option-cases, ◌==◌,
}
use go_cook.Shared.Dict.{lookup}
use go_cook.Temporal.Types.{completed}
use go_cook.Temporal.Sdk.{Sdk, Info, Run}
use go_cook.Temporal.Registry.{add_transition, transition_info, new_workflow_execution}
use go_cook.Temporal.Registry.Lookup.{lookup-add_transition}
use go_cook.Temporal.Registry.Graph.{
  IsWellFormed, new_workflow_execution-IsWellFormed, add_transition-IsWellFormed,
  transition_info-IsGate,
}
use go_cook.Temporal.Pipeline.{execute}
use go_cook.Temporal.Pipeline.Plans.{
  Registration, register_all, IsForward, rank_of, forward-Descends, rank_of-length,
}
use go_cook.Temporal.Pipeline.Recovery.{Operator, IsReady}
use go_cook.Temporal.Pipeline.Survival.{AllReady, execute-completes}

module _ (sdk : Sdk) where
  abbrev names : List (Registration sdk) → List String
  names = map (λ g. g.name)

  -- Each activity that is listed is registered after the one that lists it.
  abbrev pub IsClosed : List (Registration sdk) → Type 0
  IsClosed [] = Unit {0}
  IsClosed (g ∷ rest) = All (λ next. member next (names rest) ≡ true) g.next × IsClosed rest

  -- Each activity waits for a signal.
  abbrev pub IsSignalled : List (Registration sdk) → Type 0
  IsSignalled = All (λ g. (g.signal == "") ≡ false)

  register_all-IsWellFormed :
      (regs : List (Registration sdk)) (r : Run sdk)
      → IsWellFormed sdk r.w
      → IsWellFormed sdk (register_all sdk regs r).w
  register_all-IsWellFormed [] r h = h
  register_all-IsWellFormed (g ∷ rest) r h =
      register_all-IsWellFormed rest _
        (add_transition-IsWellFormed sdk g.name g.signal g.fn g.options g.next r h)

  module _ (op : Operator sdk) where
    -- Every entry is ready, or its activity is still to be registered.
    abbrev Pending : List String → Run sdk → Type 0
    Pending later r =
        (k : String) (info : Info sdk)
        → lookup k r.w.activity ≡ some info
        → IsReady sdk op info ⊎ (member k later ≡ true)

    made-IsReady :
        (g : Registration sdk)
        → (g.signal == "") ≡ false
        → IsReady sdk op (transition_info sdk g.name g.signal (some g.fn) g.options g.next)
    unfolding transition_info
    made-IsReady g signalled = (
      transition_info-IsGate sdk g.name g.signal (some g.fn) g.options g.next,
      λ e. ground arith,
      refl,
    )

    added-Pending :
        (g : Registration sdk) (later : List String) (r : Run sdk)
        → (g.signal == "") ≡ false
        → All (λ next. member next later ≡ true) g.next
        → Pending (g.name ∷ later) r
        → Pending later (add_transition sdk g.name g.signal g.fn g.options g.next r)
    added-Pending g later r signalled listed pending k info at =
        let made = transition_info sdk g.name g.signal (some g.fn) g.options g.next in
        let found = lookup-add_transition sdk g.name g.signal g.fn g.options g.next r k in
        elim (Bool-cases (g.name == k)) [
          | inl own ↦
              let same : made ≡ info = ground (arith, found) in
              inl (subst (IsReady sdk op) same (made-IsReady g signalled))
          | inr other ↦ elim (Option-cases (lookup k r.w.activity)) [
            | inl missing ↦
                let among : member k g.next ≡ true = ground (arith, found) in
                inr (member-All (λ j. member j later ≡ true) k g.next among listed)
            | inr (old, there) ↦
                let same : old ≡ info = ground (arith, found) in
                elim (pending k old there) [
                  | inl ready ↦ inl (subst (IsReady sdk op) same ready)
                  | inr waits ↦ inr (ground arith)
                ]
          ]
        ]

    register_all-AllReady :
        (regs : List (Registration sdk)) (r : Run sdk)
        → IsClosed regs
        → IsSignalled regs
        → Pending (names regs) r
        → AllReady sdk op (register_all sdk regs r).w.activity
    register_all-AllReady [] r closed signalled pending k info at = elim (pending k info at) [
      | inl ready ↦ ready
      | inr never ↦ absurd (cc)
    ]
    register_all-AllReady (g ∷ rest) r closed signalled pending k info at =
        register_all-AllReady rest _ closed.1 signalled.1
          (added-Pending g (names rest) r signalled.0 closed.0 pending) k info at

    -- A workflow whose activities all wait for a signal and are registered in order, each before
    -- those that it lists and none of those left out, completes, if an operator answers every wait
    -- with a correction that the execution data accept and no more than five times in all an
    -- activity fails: with as many rounds as registrations, and one, `Execute` returns nil and
    -- leaves the status COMPLETED.
    pub register_all-completes :
        (regs : List (Registration sdk)) (fuel q : ℕ) (r : Run sdk)
        → r.w ≡ new_workflow_execution sdk
        → IsForward sdk [] regs
        → IsClosed regs
        → IsSignalled regs
        → length regs < fuel
        → op.faults (register_all sdk regs r).world ≤ 5
        → (s : Run sdk) × (execute sdk fuel (some q) (register_all sdk regs r) ≡ some (ok tt, s))
          × (s.w.status ≡ completed)
    unfolding new_workflow_execution lookup
    register_all-completes regs fuel q r new forward closed signalled enough few =
        let start = register_all sdk regs r in
        let empty : r.w.activity ≡ [] = ap (λ w. w.activity) new in
        execute-completes sdk op (rank_of sdk regs) fuel q start
          (register_all-IsWellFormed regs r
            (subst (IsWellFormed sdk) (sym new) (new_workflow_execution-IsWellFormed sdk)))
          (register_all-AllReady regs r closed signalled (λ k info at. absurd (ground arith)))
          (forward-Descends sdk regs r forward empty)
          (omega (arith, rank_of-length sdk regs start.w.first_activity)) few
