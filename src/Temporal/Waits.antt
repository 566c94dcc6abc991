-- ===== src/Temporal/Waits.antt =====
-- temporal/resumable.go, and the call of an activity in temporal/workflow.go: status changes, waits
-- for signals, corrections and approvals, and what the options of a step make of its activity.
use go_cook.Shared.{
  ℕ, String, Bool, true, false, Option, none, some, List, [], ◌∷◌, branch, if◌then◌else◌, ◌==◌,
  ◌<>◌, Error, new, Result, ok, to_result, Action, pure, fail, ◌>>=◌, ◌>>◌, modify, ignore,
  from_result,
}
use go_cook.Shared.Int.{ℤ, pos, is_positive, is_zero}
use go_cook.Shared.Format.{quote}
use go_cook.Temporal.Types.{
  Status, awaiting_approval, failed, rejected, ResumableOptions, ActivityOptions, RetryPolicy,
  zero_retry_policy, default_start_to_close_timeout, query_get_status,
}
use go_cook.Temporal.Sdk.{Sdk, Payload, raw_message, bytes, other_value, Info, Run, read, write}

module _ (sdk : Sdk) where
  open sdk use {World, Value, OtherOptions, Data}

  abbrev pub M : Type 0 → Type 0
  M A = Action (Run sdk) A

  -- A call of the SDK, which sees the world alone.
  abbrev pub on_world : {A : Type 0} → (World → Result A × World) → M A
  on_world f r = let (x, world) = f r.world in (x, record r { world = world })

  abbrev pub on_world_error : (World → Option Error × World) → M (Unit {0})
  on_world_error f r = let (x, world) = f r.world in (to_result x, record r { world = world })

  abbrev pub put_status : Status → Run sdk → Run sdk
  put_status s r = let w = r.w in record r { w = record w { status = s } }

  -- `setExecutionStatus`
  unfoldable pub set_execution_status : Status → String → M (Unit {0})
  set_execution_status status attribute = do
    modify (put_status status)
    branch (attribute == "") (pure tt)
        (on_world_error (sdk.upsert_search_attributes attribute status))

  -- `registerStatusQuery`
  unfoldable pub register_status_query : M (Unit {0})
  register_status_query = on_world_error (sdk.set_query_handler query_get_status)

  -- `resumableActivityContext`: the options that the activity runs under
  unfoldable pub resumable_options : Info sdk → ActivityOptions OtherOptions
  resumable_options info =
      let given : ActivityOptions OtherOptions = elim info.activity_options [
        | none ↦ record {
          start_to_close_timeout = pos 0;
          retry_policy = none;
          other = sdk.zero_options;
        }
        | some o ↦ o
      ] in
      let retries : Option RetryPolicy = elim info.resumable [
        | none ↦ none
        | some o ↦ some (record zero_retry_policy { maximum_attempts = o.activity_retry_attempts })
      ] in
      record given {
        start_to_close_timeout =
            if is_zero given.start_to_close_timeout
            then default_start_to_close_timeout
            else given.start_to_close_timeout;
        retry_policy = elim given.retry_policy [ none ↦ retries | some p ↦ some p ];
      }

  -- `encodeCorrection`
  unfoldable pub encode_correction : Payload Value → Result String
  encode_correction (raw_message v) = ok v
  encode_correction (bytes v) = ok v
  encode_correction (other_value v) = sdk.json_marshal v

  -- The call shows the status that `w` has while it waits.
  abbrev pub wait_payload : String → ℤ → M (Option (Payload Value))
  wait_payload signal timeout r =
      branch (is_positive timeout) (on_world (sdk.await_payload_for r.w.status signal timeout))
        (do p ← on_world (sdk.await_payload r.w.status signal); pure (some p)) r

  -- `waitForSignalPayload`
  unfoldable pub wait_for_signal_payload : String → ℤ → M String
  unfolding encode_correction
  wait_for_signal_payload signal timeout = do
    received ← wait_payload signal timeout
    elim received [
      | none ↦ fail (new "correction signal timed out")
      | some p ↦ from_result (encode_correction p)
    ]

  -- `applyCorrection`
  unfoldable pub apply_correction : Option ℕ → String → M (Unit {0})
  apply_correction none payload r = fail (new "execution data is nil") r
  apply_correction (some p) payload r = (
    to_result (sdk.unmarshal payload (r.objects p)).0,
    write sdk (some p) (λ d. (sdk.unmarshal payload d).1) r,
  )

  -- The loop of `applyBranch` over the listed names.
  unfoldable pub branch_loop : Option ℕ → List String → Run sdk → Run sdk
  branch_loop p [] r = r
  branch_loop p (next ∷ rest) r = elim (read sdk p r) [
    | none ↦ r
    | some d ↦
        if sdk.get_activity d == next
        then write sdk p (sdk.set_activity next) r
        else branch_loop p rest r
  ]

  -- `applyBranch`
  unfoldable pub apply_branch : Info sdk → Option ℕ → M (Unit {0})
  unfolding branch_loop
  apply_branch info p r = elim (read sdk p r) [
    | none ↦ (ok tt, r)
    | some d ↦ (ok tt, if sdk.get_activity d == "" then r else branch_loop p info.next_activities r)
  ]

  -- `workflow.ExecuteActivity` and `future.Get` into the execution data
  unfoldable pub call_activity :
      Option (ActivityOptions OtherOptions) → Info sdk → Option ℕ → M (Unit {0})
  call_activity options info p r =
      let future =
        sdk.execute_activity r.w.status options info.activity_fn (read sdk p r) r.world in
      let done = write sdk p future.write r in
      (to_result future.error, record done { world = future.world })

  abbrev pub wait_bool : String → ℤ → M (Option Bool)
  wait_bool signal timeout r =
      branch (is_positive timeout) (on_world (sdk.await_bool_for r.w.status signal timeout))
        (do b ← on_world (sdk.await_bool r.w.status signal); pure (some b)) r

  -- `waitForApproval`
  unfoldable pub wait_for_approval : String → ResumableOptions → M (Unit {0})
  unfolding set_execution_status
  wait_for_approval name o = do
    ignore (set_execution_status awaiting_approval o.status_search_attribute)
    received ← wait_bool o.approval_signal o.wait_timeout
    elim received [
      | none ↦ do
        ignore (set_execution_status failed o.status_search_attribute)
        fail (
            new (
              "activity "
              <> name
              <> ": approval signal "
              <> quote o.approval_signal
              <> " timed out"))
      | some true ↦ pure tt
      | some false ↦ do
        ignore (set_execution_status rejected o.status_search_attribute)
        fail (new ("activity " <> name <> " rejected by approval signal"))
    ]
