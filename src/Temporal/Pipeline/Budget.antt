-- ===== src/Temporal/Pipeline/Budget.antt =====
-- How often the activities of a workflow are tried, from its registrations on: temporal/workflow.go.
use mathlib.Core.Path.{subst}
use native.Mathlib.Nat.{mul-le-mul_right}
use go_cook.Shared.{
  ◌≡◌, refl, inl, inr, ℕ, ◌<◌, ◌≤◌, ◌+◌, ◌*◌, String, Option, some, List, [], ◌∷◌, arith, Result,
  Option-cases, All, length, String-discrete,
}
use go_cook.Shared.Dict.{lookup, AllAt}
use go_cook.Temporal.Types.{placeholder}
use go_cook.Temporal.Sdk.{Sdk, Run}
use go_cook.Temporal.Registry.{add_transition, transition_info}
use go_cook.Temporal.Registry.Lookup.{lookup-add_transition}
use go_cook.Temporal.Registry.Graph.{transition_info-IsGate}
use go_cook.Temporal.Resumable.Tries.{Counter}
use go_cook.Temporal.Pipeline.{execute}
use go_cook.Temporal.Pipeline.Plans.{
  Registration, register_all, IsForward, rank_of, forward-Descends, rank_of-length,
  rank_of-positive, execute-register_all,
}
use go_cook.Temporal.Pipeline.Limits.{IsLimited, Pays}
use go_cook.Temporal.Pipeline.Tries.{execute-tries}

module _ (sdk : Sdk) (counter : Counter sdk) where
  open counter use {tries, tries-register_activity}

  tries-register_all :
      (regs : List (Registration sdk)) (r : Run sdk)
      → tries (register_all sdk regs r).world ≡ tries r.world
  unfolding add_transition
  tries-register_all [] r = refl
  tries-register_all (g ∷ rest) r = ground (
    arith,
    tries-register_all rest (add_transition sdk g.name g.signal g.fn g.options g.next r),
    tries-register_activity g.name g.fn r.world,
  )

  module _ (rank : String → ℕ) (limit : ℕ) where
    abbrev IsPaid : Registration sdk → Type 0
    IsPaid g = (0 < rank g.name) × IsLimited sdk counter limit g.options g.signal

    made-Pays :
        (g : Registration sdk)
        → IsPaid g
        → Pays sdk counter rank limit g.name
            (transition_info sdk g.name g.signal (some g.fn) g.options g.next)
    unfolding transition_info
    made-Pays g paid =
        (transition_info-IsGate sdk g.name g.signal (some g.fn) g.options g.next, inr paid)

    added-Pays :
        (g : Registration sdk) (r : Run sdk)
        → IsPaid g
        → AllAt (Pays sdk counter rank limit) r.w.activity
        → AllAt
            (Pays sdk counter rank limit)
            (add_transition sdk g.name g.signal g.fn g.options g.next r).w.activity
    added-Pays g r paid h k info at =
        let found = lookup-add_transition sdk g.name g.signal g.fn g.options g.next r k in
        elim (String-discrete g.name k) [
          | yes own ↦
              let made = transition_info sdk g.name g.signal (some g.fn) g.options g.next in
              let same : made ≡ info = ground (arith, found) in
              subst (λ j. Pays sdk counter rank limit j info) own
                (subst (Pays sdk counter rank limit g.name) same (made-Pays g paid))
          | no other ↦ elim (Option-cases (lookup k r.w.activity)) [
            | inl missing ↦
                let same : placeholder ≡ info = ground (arith, found) in
                subst (Pays sdk counter rank limit k) same (ground arith, inl refl)
            | inr (old, there) ↦ h k info (ground (arith, found))
          ]
        ]

    register_all-Pays :
        (regs : List (Registration sdk)) (r : Run sdk)
        → All IsPaid regs
        → AllAt (Pays sdk counter rank limit) r.w.activity
        → AllAt (Pays sdk counter rank limit) (register_all sdk regs r).w.activity
    register_all-Pays [] r paid h = h
    register_all-Pays (g ∷ rest) r paid h =
        register_all-Pays rest _ paid.1 (added-Pays g r paid.0 h)

  -- Each registration has a retry policy that allows at most so many attempts, or no policy but a
  -- signal, whose options allow three.
  abbrev pub AllLimited : ℕ → List (Registration sdk) → Type 0
  AllLimited limit = All (λ g. IsLimited sdk counter limit g.options g.signal)

  AllLimited-IsPaid :
      (rank : String → ℕ) (limit : ℕ) (regs : List (Registration sdk))
      → All (λ g. 0 < rank g.name) regs
      → AllLimited limit regs
      → All (IsPaid rank limit) regs
  AllLimited-IsPaid rank limit [] h l = tt
  AllLimited-IsPaid rank limit (g ∷ rest) h l =
      ((h.0, l.0), AllLimited-IsPaid rank limit rest h.1 l.1)

  -- Where a workflow without activities gets its activities in an order in which each lists only
  -- activities that are registered after it, or never, and each has a retry policy of one to `limit`
  -- attempts, or no policy but a signal, where three is at most `limit`, and where every call of the
  -- SDK returns (a step without a timeout waits until its signal comes): `Execute` ends within as
  -- many rounds as registrations, and one, after at most six times `limit` attempts at activities for
  -- each registration, whatever the activities return and the signals carry.
  pub execute-attempts :
      (regs : List (Registration sdk)) (limit fuel : ℕ) (p : Option ℕ) (r : Run sdk)
      → IsForward sdk [] regs
      → AllLimited limit regs
      → r.w.activity ≡ []
      → length regs < fuel
      → (x : Result (Unit {0})) × (s : Run sdk) × (execute sdk fuel p (register_all sdk regs r)
          ≡ some (x, s))
        × (tries s.world ≤ tries r.world + length regs * (6 * limit))
  unfolding lookup
  execute-attempts regs limit fuel p r forward limited empty enough =
      let start = register_all sdk regs r in
      let rank = rank_of sdk regs in
      let paid = AllLimited-IsPaid rank limit regs (rank_of-positive sdk regs) limited in
      let low = rank_of-length sdk regs start.w.first_activity in
      elim (Option-cases (execute sdk fuel p start)) [
        | inl out ↦
            absurd (ground (arith, execute-register_all sdk regs 0 fuel p r forward empty enough))
        | inr ((x, s), ended) ↦ (
          x,
          s,
          ended,
          omega (
            arith,
            tries-register_all regs r,
            mul-le-mul_right (6 * limit) low,
            execute-tries sdk counter rank limit fuel p start s x
                (register_all-Pays rank limit regs r paid (λ k info at. absurd (ground arith)))
                (forward-Descends sdk regs r forward empty) ended,
          ),
        )
      ]
