-- ===== src/Temporal/Registry/Graph.antt =====
-- The graph that `AddTransitionActivityWithOptions` of temporal/workflow.go builds: no name in it
-- is left without an entry, and only a signal makes a step resumable.
use go_cook.Shared.{
  ◌≡◌, refl, ◌⊎◌, inl, inr, String, true, false, Option, none, some, List, [], ◌∷◌, arith,
  if◌then◌else◌, ◌==◌, member, is_some,
}
use go_cook.Shared.Int.{pos}
use go_cook.Shared.Dict.{Dict, lookup, has, AllValues, insert-AllValues}
use go_cook.Temporal.Types.{ResumableOptions, placeholder, ActivityOptions}
use go_cook.Temporal.Sdk.{Sdk, Info, WorkflowExecutionData, Run}
use go_cook.Temporal.Registry.{
  is_empty, new_workflow_execution, add_placeholders, add_transition, transition_info,
  search_attribute, status_search_attribute, get_next_activity,
}
use go_cook.Temporal.Registry.Lookup.{lookup-add_transition, get_next_activity-eq, names_at}

-- The options that a step has by its signal alone.
abbrev pub gate_options : String → Option ResumableOptions
gate_options signal =
    if signal == ""
    then none
    else some (record {
      correction_signal = signal;
      approval_signal = "";
      max_correction_attempts = pos 5;
      activity_retry_attempts = pos 3;
      status_search_attribute = "";
      wait_timeout = pos 0;
    })

module _ (sdk : Sdk) where
  open sdk use {ActivityFn, OtherOptions}

  abbrev pub IsGate : Info sdk → Type 0
  IsGate info = info.resumable ≡ gate_options info.signal_event

  pub record IsWellFormed (w : WorkflowExecutionData sdk) : Type 0 where
    -- the first activity has an entry as soon as there is one at all
    pub first_known : (w.activity ≡ []) ⊎ (has w.first_activity w.activity ≡ true)
    -- what a step lists has an entry
    pub closed :
        (k next : String)
        → member next (names_at sdk k w.activity) ≡ true
        → has next w.activity ≡ true
    -- the options of a step are those of its signal
    pub gates : AllValues IsGate w.activity

  -- A new workflow execution is well formed.
  pub new_workflow_execution-IsWellFormed : IsWellFormed (new_workflow_execution sdk)
  unfolding new_workflow_execution lookup
  new_workflow_execution-IsWellFormed = record {
    first_known = inl refl;
    closed = λ k next m. absurd (cc);
    gates = tt;
  }

  pub transition_info-IsGate :
      (name signal : String) (fn : Option ActivityFn)
      (options : Option (ActivityOptions OtherOptions)) (next : List String)
      → IsGate (transition_info sdk name signal fn options next)
  unfolding transition_info
  transition_info-IsGate name signal fn options next = ground arith

  add_placeholders-gates :
      (names : List String) (d : Dict (Info sdk))
      → AllValues IsGate d
      → AllValues IsGate (add_placeholders sdk names d)
  unfolding add_placeholders
  add_placeholders-gates [] d h = h
  add_placeholders-gates (name ∷ rest) d h =
      add_placeholders-gates rest _ (ground (arith, insert-AllValues IsGate name placeholder d h))

  module _ (name signal : String) (fn : ActivityFn)
      (options : Option (ActivityOptions OtherOptions)) (next : List String) (r : Run sdk)
      (h : IsWellFormed r.w) where
    added : WorkflowExecutionData sdk
    added = (add_transition sdk name signal fn options next r).w

    has_first : (d : Dict (Info sdk)) (k : String) → has k d ≡ true → is_empty sdk d ≡ false
    unfolding lookup
    has_first [] k e = cc
    has_first (_ ∷ d) k e = refl

    first-added :
        added.first_activity ≡ (if is_empty sdk r.w.activity then name else r.w.first_activity)
    unfolding added add_transition
    first-added = refl

    added-first_known : has added.first_activity added.activity ≡ true
    unfolding added
    added-first_known = elim h.first_known [
      | inl e ↦
          rw (first-added, e)
            (ground (arith, lookup-add_transition sdk name signal fn options next r name))
      | inr k ↦
          rw (first-added, has_first _ _ k)
            (ground
              (arith, lookup-add_transition sdk name signal fn options next r r.w.first_activity))
    ]

    added-closed :
        (k j : String)
        → member j (names_at sdk k added.activity) ≡ true
        → has j added.activity ≡ true
    unfolding added transition_info
    added-closed k j m = ground (
      arith,
      h.closed k j,
      lookup-add_transition sdk name signal fn options next r k,
      lookup-add_transition sdk name signal fn options next r j,
    )

    added-gates : AllValues IsGate added.activity
    unfolding added add_transition
    added-gates = add_placeholders-gates next _ (
        insert-AllValues IsGate name _ _ h.gates
          (transition_info-IsGate name signal (some fn) options next))

    -- Registering an activity keeps the graph well formed, whatever it replaces.
    pub add_transition-IsWellFormed :
        IsWellFormed (add_transition sdk name signal fn options next r).w
    unfolding added
    add_transition-IsWellFormed = record {
      first_known = inr added-first_known;
      closed = added-closed;
      gates = added-gates;
    }

  -- In a well-formed graph `getNextActivity` finds, from a step that has an entry, exactly the
  -- names that the step lists.
  pub get_next_activity_known :
      (w : WorkflowExecutionData sdk) (k next : String) (info : Info sdk)
      → IsWellFormed w
      → lookup k w.activity ≡ some info
      → is_some (get_next_activity sdk w info next) ≡ member next info.next_activities
  get_next_activity_known w k next info h at =
      ground (arith, get_next_activity-eq sdk w info next, h.closed k next)

  search_attribute-gates : (d : Dict (Info sdk)) → AllValues IsGate d → search_attribute sdk d ≡ ""
  unfolding search_attribute
  search_attribute-gates [] h = refl
  search_attribute-gates ((k, info) ∷ d) h = ground (arith, search_attribute-gates d h.1)

  -- No step of a well-formed graph asks for a search attribute, in whatever order the map is
  -- visited.
  pub status_search_attribute-IsWellFormed :
      (w : WorkflowExecutionData sdk) → IsWellFormed w → status_search_attribute sdk w ≡ ""
  unfolding status_search_attribute
  status_search_attribute-IsWellFormed w h = search_attribute-gates w.activity h.gates
