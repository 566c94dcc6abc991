-- ===== src/Temporal/Registry/Lookup.antt =====
-- What `getNextActivity` and the registration loop of temporal/workflow.go find.
use go_cook.Shared.{
  ◌≡◌, refl, String, Bool, true, false, Option, none, some, List, [], ◌∷◌, arith, if◌then◌else◌,
  ◌==◌, member,
}
use go_cook.Shared.Dict.{Dict, lookup, insert, lookup-insert}
use go_cook.Temporal.Types.{placeholder, ActivityOptions}
use go_cook.Temporal.Sdk.{Sdk, Info, WorkflowExecutionData, Run}
use go_cook.Temporal.Registry.{
  node_at, search_next, get_next_activity, add_placeholders, add_transition, transition_info,
}

module _ (sdk : Sdk) where
  open sdk use {ActivityFn, OtherOptions}

  search_next-eq :
      (w : WorkflowExecutionData sdk) (names : List String) (next : String)
      → search_next sdk w names next ≡ (if member next names then node_at sdk w next else none)
  unfolding search_next
  search_next-eq w [] next = refl
  search_next-eq w (name ∷ rest) next = ground (arith, search_next-eq w rest next)

  -- `getNextActivity` finds exactly the names that the step lists.
  pub get_next_activity-eq :
      (w : WorkflowExecutionData sdk) (info : Info sdk) (next : String)
      → get_next_activity sdk w info next
        ≡ (if member next info.next_activities then node_at sdk w next else none)
  unfolding get_next_activity
  get_next_activity-eq w info next = search_next-eq w info.next_activities next

  -- An entry that is there, and else a placeholder where the name is listed.
  abbrev pub or_placeholder : Bool → Option (Info sdk) → Option (Info sdk)
  or_placeholder listed (some info) = some info
  or_placeholder true none = some placeholder
  or_placeholder false none = none

  pub lookup-add_placeholders :
      (names : List String) (activity : Dict (Info sdk)) (j : String)
      → lookup j (add_placeholders sdk names activity)
        ≡ or_placeholder (member j names) (lookup j activity)
  unfolding add_placeholders
  lookup-add_placeholders [] activity j = ground arith
  lookup-add_placeholders (name ∷ rest) activity j = ground (
    arith,
    lookup-add_placeholders rest activity j,
    lookup-add_placeholders rest (insert name placeholder activity) j,
    lookup-insert name j placeholder activity,
  )

  -- After a registration the name leads to the entry it made, every other entry is as it was, and
  -- a listed next activity that had none leads to a placeholder.
  pub lookup-add_transition :
      (name signal : String) (fn : ActivityFn) (options : Option (ActivityOptions OtherOptions))
      (next : List String) (r : Run sdk) (j : String)
      → lookup j (add_transition sdk name signal fn options next r).w.activity ≡ (
          if name == j
          then some (transition_info sdk name signal (some fn) options next)
          else or_placeholder (member j next) (lookup j r.w.activity))
  unfolding add_transition
  lookup-add_transition name signal fn options next r j =
      let info = transition_info sdk name signal (some fn) options next in
      ground (
        arith,
        lookup-add_placeholders next (insert name info r.w.activity) j,
        lookup-insert name j info r.w.activity,
      )

  -- The next activities that the entry of a name lists.
  abbrev pub names_at : String → Dict (Info sdk) → List String
  names_at k activity = elim (lookup k activity) [ none ↦ [] | some info ↦ info.next_activities ]
