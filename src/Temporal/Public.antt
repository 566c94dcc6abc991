-- ===== src/Temporal/Public.antt =====
-- temporal/public.go: the functions around a workflow execution that applications call.
pub mod Decode
pub mod Query
pub mod Objects
pub mod Init
use mathlib.Core.Logic.{ite}
use native.Mathlib.Decide.{ℕ_discrete}
use go_cook.Shared.{
  ℕ, zero, suc, String, Bool, true, false, Option, none, some, if◌then◌else◌, branch, ◌==◌, ◌<>◌,
  Error, new, Result, ok, err, to_result, pure, fail, ◌>>=◌, ◌>>◌, gets, modify, from_result,
}
use go_cook.Temporal.Sdk.{Sdk, Run, WorkflowExecutionData, read, write}
use go_cook.Temporal.Waits.{M, on_world_error}
use go_cook.Temporal.Pipeline.{execute}

-- What a query returns as `interface{}`: nil, a pointer that implements `ExecutionData`, or another
-- value.
pub data Raw (Value : Type 0) : Type 0 where
  nil : Raw Value
  execution_data : ℕ → Raw Value
  decoded : Value → Raw Value

-- An answer that is an error, or nil, is an error of the round.
abbrev pub answer_of : {Value : Type 0} → Result (Raw Value) → Result (Raw Value)
answer_of (err e) = err e
answer_of (ok nil) = err (new "execution data is nil")
answer_of (ok (execution_data p)) = ok (execution_data p)
answer_of (ok (decoded v)) = ok (decoded v)

-- The client and the context of one `QueryWorkflowData` call: `ctx.Err`, `QueryWorkflow` of the client
-- for a workflow ID, a run ID and a query type, and the wait for a second, with the error of the
-- context if that ends first.
pub record QueryEnv (World Value : Type 0) : Type 0 where
  pub ctx_error : World → Option Error
  pub query : String → String → String → World → Result (Raw Value) × World
  pub wait_second : World → Option Error × World

module _ (sdk : Sdk) where
  open sdk use {World, Value, Data}

  -- `ExecuteWorkflow`; the flag says that `wf` is not nil, and `none` is a loop out of fuel
  unfoldable pub execute_workflow : ℕ → Bool → Option ℕ → Run sdk → Option (Result ℕ × Run sdk)
  execute_workflow fuel false p r = some (err (new "workflow execution is nil"), r)
  execute_workflow fuel true none r = some (err (new "execution data is nil"), r)
  execute_workflow fuel true (some p) r = elim (execute sdk fuel (some p) r) [
    | none ↦ none
    | some (x, s) ↦ elim x [ ok _ ↦ some (ok p, s) | err e ↦ some (err e, s) ]
  ]

  abbrev pub put_workflow_id : String → Run sdk → Run sdk
  put_workflow_id id r = let w = r.w in record r { w = record w { workflow_id = id } }

  -- `GetExecutionData` of the workflow execution
  abbrev pub get_execution_data : WorkflowExecutionData sdk → Option ℕ
  get_execution_data w = w.execution_data

  abbrev pub put_execution_data : Option ℕ → Run sdk → Run sdk
  put_execution_data p r = let w = r.w in record r { w = record w { execution_data = p } }

  -- `if wf.GetWorkflowID() == "" { … }`, where `own_id` is the ID in the workflow's info
  abbrev pub fill_workflow_id : String → Run sdk → Run sdk
  fill_workflow_id own_id r = if r.w.workflow_id == "" then put_workflow_id own_id r else r

  -- `WorkflowInit`
  unfoldable pub workflow_init : String → Bool → String → Option ℕ → M sdk (Option ℕ)
  workflow_init own_id false query_type p = fail (new "workflow execution is nil")
  workflow_init own_id true query_type p =
      branch (query_type == "") (fail (new "query type is empty")) (elim p [
        | none ↦ fail (new "execution data is nil")
        | some q ↦ do
          modify (put_execution_data (some q))
          modify (fill_workflow_id own_id)
          on_world_error sdk (sdk.set_query_handler query_type)
          gets (λ r. get_execution_data r.w)
      ])

  -- What the handler that `WorkflowInit` registers answers: the pointer that `wf` holds by then.
  unfoldable pub query_answer : Option (Option Data → Option Error) → Run sdk → Result (Option ℕ)
  query_answer none r = ok (get_execution_data r.w)
  query_answer (some ready) r = elim (ready (read sdk (get_execution_data r.w) r)) [
    | none ↦ ok (get_execution_data r.w)
    | some e ↦ err e
  ]

  -- `GetWorkflowData`: the first flag says that `wf` holds a workflow execution that is not nil, and
  -- the ID is that of the workflow's context, if there is one.
  unfoldable pub get_workflow_data : Bool → Option String → M sdk (WorkflowExecutionData sdk)
  get_workflow_data false ctx r = (err (new "workflow execution is not available"), r)
  get_workflow_data true ctx r =
      if r.w.workflow_id == ""
      then elim ctx [
        | none ↦ (err (new "workflow context is nil"), r)
        | some id ↦ let s = put_workflow_id id r in (ok s.w, s)
      ]
      else (ok r.w, r)

  -- `dest.Unmarshal(encoded)`, and then `dest`
  abbrev pub unmarshal_into : ℕ → String → M sdk ℕ
  unmarshal_into dest encoded r = elim (sdk.unmarshal encoded (r.objects dest)).0 [
    | none ↦ (ok dest, write sdk (some dest) (λ d. (sdk.unmarshal encoded d).1) r)
    | some e ↦ (err e, write sdk (some dest) (λ d. (sdk.unmarshal encoded d).1) r)
  ]

  -- `decodeExecutionData`; `none` for `dest` is nil
  unfoldable pub decode_execution_data : Raw Value → Option ℕ → M sdk ℕ
  decode_execution_data nil none = fail (new "execution data is <nil>, not ExecutionData")
  decode_execution_data nil (some dest) = do
    encoded ← from_result (ok "null")
    unmarshal_into dest encoded
  decode_execution_data (execution_data p) none = pure p
  decode_execution_data (execution_data p) (some dest) =
      branch (ite (ℕ_discrete dest p) true false) (pure p) (do
        d ← gets (λ r. r.objects p)
        encoded ← from_result (sdk.marshal d)
        unmarshal_into dest encoded)
  decode_execution_data (decoded v) none =
      fail (new ("execution data is " <> sdk.type_name v <> ", not ExecutionData"))
  decode_execution_data (decoded v) (some dest) = do
    encoded ← from_result (sdk.json_marshal v)
    unmarshal_into dest encoded

  module _ (env : QueryEnv World Value) where
    -- The loop of `QueryWorkflowData`, with fuel, for a query of the client; the flag says that the
    -- context has a deadline.
    unfoldable pub query_loop :
        (World → Result (Raw Value) × World)
        → ℕ
        → Bool
        → Option ℕ
        → Run sdk
        → Option (Result ℕ × Run sdk)
    query_loop ask zero bounded dest r = none
    query_loop ask (suc fuel) bounded dest r = elim (env.ctx_error r.world) [
      | some e ↦ some (err e, r)
      | none ↦
          let (answer, world) = ask r.world in
          let s : Run sdk = record r { world = world } in
          let (ended, later) = env.wait_second world in
          let t : Run sdk = record r { world = later } in
          elim (answer_of answer) [
            | ok raw ↦ some (decode_execution_data raw dest s)
            | err e ↦ elim bounded [
              | false ↦ some (err e, s)
              | true ↦ elim ended [
                | none ↦ query_loop ask fuel true dest t
                | some e' ↦ some (err e', t)
              ]
            ]
          ]
    ]

    -- `QueryWorkflowData`; the first two flags say that the context and the client are not nil.
    unfoldable pub query_workflow_data :
        ℕ
        → Bool
        → Bool
        → String
        → String
        → String
        → Bool
        → Option ℕ
        → Run sdk
        → Option (Result ℕ × Run sdk)
    query_workflow_data fuel false client query_type id run bounded dest r =
        some (err (new "context is nil"), r)
    query_workflow_data fuel true false query_type id run bounded dest r =
        some (err (new "temporal client is nil"), r)
    query_workflow_data fuel true true query_type id run bounded dest r =
        let looped = query_loop (env.query id run query_type) fuel bounded dest r in
        if query_type == ""
        then some (err (new "query type is empty"), r)
        else if id == ""
        then some (err (new "workflow id is empty"), r)
        else looped
