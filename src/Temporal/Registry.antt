-- ===== src/Temporal/Registry.antt =====
-- The graph of activities: `NewWorkflowExecution`, `AddTransitionActivityWithOptions`,
-- `getNextActivity` and `statusSearchAttribute`, with `ResumableOptions.withDefaults`.
pub mod Lookup
pub mod Graph
use go_cook.Shared.{
  String, Bool, true, false, Option, none, some, List, [], ◌∷◌, if◌then◌else◌, ◌==◌, ◌!=◌,
}
use go_cook.Shared.Int.{is_positive}
use go_cook.Shared.Dict.{Dict, lookup, insert, has}
use go_cook.Temporal.Types.{
  unset, ResumableOptions, zero_resumable, default_correction_signal,
  default_max_correction_attempts, default_activity_retry_attempts, ActivityOptions, placeholder,
}
use go_cook.Temporal.Sdk.{Sdk, Info, WorkflowExecutionData, Run}

-- `withDefaults`
unfoldable pub with_defaults : ResumableOptions → ResumableOptions
with_defaults o = record o {
  correction_signal =
      if o.correction_signal == "" then default_correction_signal else o.correction_signal;
  max_correction_attempts =
      if is_positive o.max_correction_attempts
      then o.max_correction_attempts
      else default_max_correction_attempts;
  activity_retry_attempts =
      if is_positive o.activity_retry_attempts
      then o.activity_retry_attempts
      else default_activity_retry_attempts;
}

module _ (sdk : Sdk) where
  open sdk use {ActivityFn, OtherOptions}

  -- `NewWorkflowExecution`
  unfoldable pub new_workflow_execution : WorkflowExecutionData sdk
  new_workflow_execution = record {
    id = 0;
    workflow_id = "";
    run_id = "";
    status = unset;
    execution_data = none;
    query_type = "";
    activity = [];
    first_activity = "";
    started_at = 0;
    completed_at = 0;
  }

  -- The loop that gives unknown next activities a placeholder.
  unfoldable pub add_placeholders : List String → Dict (Info sdk) → Dict (Info sdk)
  add_placeholders [] activity = activity
  add_placeholders (next ∷ rest) activity =
      add_placeholders rest
        (if has next activity then activity else insert next placeholder activity)

  -- The entry that a registration makes.
  unfoldable pub transition_info :
      String
      → String
      → Option ActivityFn
      → Option (ActivityOptions OtherOptions)
      → List String
      → Info sdk
  unfolding with_defaults
  transition_info name signal fn options next = record {
    activity_name = name;
    signal_event = signal;
    activity_fn = fn;
    activity_options = options;
    next_activities = next;
    resumable =
        if signal != ""
        then some (with_defaults (record zero_resumable { correction_signal = signal }))
        else none;
  }

  abbrev pub is_empty : Dict (Info sdk) → Bool
  is_empty [] = true
  is_empty (_ ∷ _) = false

  -- `AddTransitionActivityWithOptions`
  unfoldable pub add_transition :
      String
      → String
      → ActivityFn
      → Option (ActivityOptions OtherOptions)
      → List String
      → Run sdk
      → Run sdk
  unfolding transition_info add_placeholders
  add_transition name signal fn options next r =
      let w = r.w in
      let info = transition_info name signal (some fn) options next in
      record r {
        world = sdk.register_activity name fn r.world;
        w = record w {
          first_activity = if is_empty w.activity then name else w.first_activity;
          activity = add_placeholders next (insert name info w.activity);
        };
      }

  -- A pointer into the map: the key and what it leads to. Entries are allocated one by one, so
  -- the key tells them apart.
  abbrev pub Node : Type 0
  Node = String × Info sdk

  abbrev pub node_at : WorkflowExecutionData sdk → String → Option Node
  node_at w k = elim (lookup k w.activity) [ none ↦ none | some info ↦ some (k, info) ]

  -- The loop of `getNextActivity` over the listed names.
  unfoldable pub search_next : WorkflowExecutionData sdk → List String → String → Option Node
  search_next w [] next = none
  search_next w (info ∷ rest) next =
      if info == next then node_at w info else search_next w rest next

  -- `getNextActivity`
  unfoldable pub get_next_activity : WorkflowExecutionData sdk → Info sdk → String → Option Node
  unfolding search_next
  get_next_activity w curr next = search_next w curr.next_activities next

  -- The search attribute that an entry asks for, if any.
  abbrev pub attribute_of : Info sdk → String
  attribute_of info = elim info.resumable [ none ↦ "" | some o ↦ o.status_search_attribute ]

  -- The loop of `statusSearchAttribute`, in one order of the map.
  unfoldable pub search_attribute : Dict (Info sdk) → String
  search_attribute [] = ""
  search_attribute ((_, info) ∷ rest) =
      if attribute_of info != "" then attribute_of info else search_attribute rest

  -- `statusSearchAttribute`
  unfoldable pub status_search_attribute : WorkflowExecutionData sdk → String
  unfolding search_attribute
  status_search_attribute w = search_attribute w.activity
