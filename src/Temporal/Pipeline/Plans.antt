-- ===== src/Temporal/Pipeline/Plans.antt =====
-- Which registrations of activities make a graph on which `Execute` of temporal/workflow.go ends.
use go_cook.Shared.{
  ◌≡◌, refl, ℕ, suc, ◌<◌, ◌≤◌, ◌+◌, String, true, false, Option, List, [], ◌∷◌, arith, member,
  member-All, All-weaken, Bool-cases, inl, inr, length, All, is_some, if◌then◌else◌, ◌==◌,
}
use go_cook.Shared.Dict.{lookup}
use go_cook.Temporal.Types.{ActivityOptions}
use go_cook.Temporal.Sdk.{Sdk, Run}
use go_cook.Temporal.Registry.{add_transition, transition_info}
use go_cook.Temporal.Registry.Lookup.{lookup-add_transition}
use go_cook.Temporal.Pipeline.{execute}
use go_cook.Temporal.Pipeline.Termination.{Descends, execute-total}

module _ (sdk : Sdk) where
  open sdk use {ActivityFn, OtherOptions}

  -- The arguments of a call of `AddTransitionActivityWithOptions`.
  pub record Registration : Type 0 where
    pub name : String
    pub signal : String
    pub fn : ActivityFn
    pub options : Option (ActivityOptions OtherOptions)
    pub next : List String

  -- The calls of a workflow's setup, one after the other.
  abbrev pub register_all : List Registration → Run sdk → Run sdk
  register_all [] r = r
  register_all (g ∷ rest) r =
      register_all rest (add_transition sdk g.name g.signal g.fn g.options g.next r)

  -- Each activity is registered before those that it lists: it lists neither itself nor one of those
  -- that were registered before it.
  abbrev pub IsForward : List String → List Registration → Type 0
  IsForward seen [] = Unit {0}
  IsForward seen (g ∷ rest) =
      All (λ next. member next (g.name ∷ seen) ≡ false) g.next × IsForward (g.name ∷ seen) rest

  -- The registrations from the first one of a name.
  place : String → List Registration → ℕ
  place name [] = 0
  place name (g ∷ rest) =
      let later = place name rest in if g.name == name then suc (length rest) else later

  place-length : (name : String) (regs : List Registration) → place name regs ≤ length regs
  unfolding place
  place-length name [] = omega arith
  place-length name (g ∷ rest) = ground (arith, place-length name rest)

  module _ (rank : String → ℕ) where
    abbrev Ranked : List Registration → Type 0
    Ranked = All (λ g. All (λ next. rank next < rank g.name) g.next)

    added-Descends :
        (g : Registration) (r : Run sdk)
        → All (λ next. rank next < rank g.name) g.next
        → Descends sdk rank r.w.activity
        → Descends sdk rank (add_transition sdk g.name g.signal g.fn g.options g.next r).w.activity
    unfolding transition_info
    added-Descends g r own d k next m = ground (
      arith,
      lookup-add_transition sdk g.name g.signal g.fn g.options g.next r k,
      member-All (λ j. rank j < rank g.name) next g.next,
      d k next,
    )

    register_all-Descends :
        (regs : List Registration) (r : Run sdk)
        → Ranked regs
        → Descends sdk rank r.w.activity
        → Descends sdk rank (register_all regs r).w.activity
    register_all-Descends [] r h d = d
    register_all-Descends (g ∷ rest) r h d =
        register_all-Descends rest _ h.1 (added-Descends g r h.0 d)

    module _ (g : Registration) (rest : List Registration) (seen : List String)
        (new : (name : String) → member name seen ≡ false → rank name ≡ place name (g ∷ rest))
        (old : (name : String) → member name seen ≡ true → length (g ∷ rest) < rank name) where
      new-later :
          (name : String) → member name (g.name ∷ seen) ≡ false → rank name ≡ place name rest
      unfolding place
      new-later name h = ground (arith, new name)

      old-later : (name : String) → member name (g.name ∷ seen) ≡ true → length rest < rank name
      unfolding place
      old-later name h = elim (Bool-cases (member name seen)) [
        | inl among ↦ ground (arith, old name)
        | inr fresh ↦ ground (arith, new name)
      ]

      own-lower :
          (next : List String)
          → All (λ j. member j (g.name ∷ seen) ≡ false) next
          → All (λ j. rank j < rank g.name) next
      own-lower [] h = tt
      own-lower (j ∷ next) h =
          (ground (arith, new-later j, place-length j rest, old-later g.name), own-lower next h.1)

    -- The place of a name among the registrations is a rank.
    forward-Ranked :
        (regs : List Registration) (seen : List String)
        → IsForward seen regs
        → ((name : String) → member name seen ≡ false → rank name ≡ place name regs)
        → ((name : String) → member name seen ≡ true → length regs < rank name)
        → Ranked regs
    forward-Ranked [] seen f new old = tt
    forward-Ranked (g ∷ rest) seen f new old = (
      own-lower g rest seen new old g.next f.0,
      forward-Ranked rest (g.name ∷ seen) f.1 (new-later g rest seen new old)
          (old-later g rest seen new old),
    )

  -- The rank of a name, by its place.
  pub rank_of : List Registration → String → ℕ
  unfolding place
  rank_of regs name = place name regs

  pub forward-Descends :
      (regs : List Registration) (r : Run sdk)
      → IsForward [] regs
      → r.w.activity ≡ []
      → Descends sdk (rank_of regs) (register_all regs r).w.activity
  unfolding rank_of lookup
  forward-Descends regs r forward empty =
      register_all-Descends (rank_of regs) regs r
        (forward-Ranked (rank_of regs) regs [] forward (λ name h. refl) (λ name h. absurd (cc)))
        (λ k next m. absurd (ground arith))

  pub rank_of-length : (regs : List Registration) (name : String) → rank_of regs name ≤ length regs
  unfolding rank_of
  rank_of-length regs name = place-length name regs

  place-positive : (regs : List Registration) → All (λ g. 0 < place g.name regs) regs
  unfolding place
  place-positive [] = tt
  place-positive (g ∷ rest) = (
    ground arith,
    All-weaken (λ h. 0 < place h.name rest) (λ h. 0 < place h.name (g ∷ rest)) (λ h q. ground arith)
        rest (place-positive rest),
  )

  pub rank_of-positive : (regs : List Registration) → All (λ g. 0 < rank_of regs g.name) regs
  unfolding rank_of
  rank_of-positive regs = place-positive regs

  -- Where a workflow without activities gets its activities in an order in which each lists only
  -- activities that are registered after it, or never, and where every call of the SDK returns,
  -- `Execute` ends, whatever the activities do and wherever the execution data lead: as many rounds as
  -- registrations, and one, are enough, and more do not change what it returns.
  pub execute-register_all :
      (regs : List Registration) (extra fuel : ℕ) (p : Option ℕ) (r : Run sdk)
      → IsForward [] regs
      → r.w.activity ≡ []
      → length regs < fuel
      → (is_some (execute sdk fuel p (register_all regs r)) ≡ true)
        × (execute sdk (extra + fuel) p (register_all regs r)
            ≡ execute sdk fuel p (register_all regs r))
  execute-register_all regs extra fuel p r forward empty enough =
      execute-total sdk (rank_of regs) extra fuel p (register_all regs r)
        (forward-Descends regs r forward empty)
        (omega (arith, rank_of-length regs (register_all regs r).w.first_activity))
