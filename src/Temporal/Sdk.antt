-- ===== src/Temporal/Sdk.antt =====
-- What the package takes from go.temporal.io/sdk and from the application, as one interface, and
-- the state on which the methods of `WorkflowExecutionData` work.
use go_cook.Shared.{ℕ, String, Bool, Option, none, some, Error, Result}
use go_cook.Shared.Dict.{Dict}
use go_cook.Shared.Int.{ℤ}
use go_cook.Temporal.Types.{Status, ActivityOptions, ActivityExecutionInfo}
use native.Mathlib.Decide.{ℕ_discrete}
use mathlib.Core.Logic.{ite}

-- What a signal channel delivers into an `interface{}`.
pub data Payload (Value : Type 0) : Type 0 where
  raw_message : String → Payload Value
  bytes : String → Payload Value
  other_value : Value → Payload Value

-- What `future.Get(ctx, data)` does: its error, and how it changes the object that it is given.
pub record Future (World Data : Type 0) : Type 0 where
  pub error : Option Error
  pub write : Data → Data
  pub world : World

-- `World` is everything outside the workflow object. A call that parks the workflow is given the
-- status that the getStatus query answers with meanwhile, since that handler reads `w.Status`.
-- Byte slices hold JSON text, and are texts. The calls are functions: the model is of runs in which
-- every activity returns and every wait ends, a wait without a timeout by a signal that comes.
pub record Sdk : Type 1 where
  pub World : Type 0
  pub ActivityFn : Type 0
  pub OtherOptions : Type 0
  pub zero_options : OtherOptions
  -- the application's `ExecutionData`
  pub Data : Type 0
  pub get_activity : Data → String
  pub set_activity : String → Data → Data
  pub marshal : Data → Result String
  pub unmarshal : String → Data → Option Error × Data
  -- other Go values, `json.Marshal` on them, and their types as `%T` prints them
  pub Value : Type 0
  pub type_name : Value → String
  pub json_marshal : Value → Result String
  -- `time.Now`, the worker's registry and the workflow API
  pub now : World → ℕ
  pub register_activity : String → ActivityFn → World → World
  pub set_query_handler : String → World → Option Error × World
  pub upsert_search_attributes : String → Status → World → Option Error × World
  pub execute_activity :
      Status
      → Option (ActivityOptions OtherOptions)
      → Option ActivityFn
      → Option Data
      → World
      → Future World Data
  -- `workflow.Await` on `ReceiveAsync`, and `AwaitWithTimeout`, where `none` is a timeout
  pub await_payload : Status → String → World → Result (Payload Value) × World
  pub await_payload_for : Status → String → ℤ → World → Result (Option (Payload Value)) × World
  pub await_bool : Status → String → World → Result Bool × World
  pub await_bool_for : Status → String → ℤ → World → Result (Option Bool) × World

module _ (sdk : Sdk) where
  open sdk use {World, ActivityFn, OtherOptions, Data}

  abbrev pub Info : Type 0
  Info = ActivityExecutionInfo ActivityFn OtherOptions

  -- `*ExecutionData`: the objects that pointers lead to, so that two pointers may share one.
  abbrev pub Ref : Type 0
  Ref = ℕ

  -- `temporalClient` and `signalConsumer` belong to the world.
  pub record WorkflowExecutionData : Type 0 where
    pub id : ℕ
    pub workflow_id : String
    pub run_id : String
    pub status : Status
    pub execution_data : Option Ref
    pub query_type : String
    pub activity : Dict Info
    pub first_activity : String
    pub started_at : ℕ
    pub completed_at : ℕ

  pub record Run : Type 0 where
    pub w : WorkflowExecutionData
    pub objects : ℕ → Data
    pub world : World

  -- The object behind a pointer, if the pointer is not nil.
  abbrev pub read : Option ℕ → Run → Option Data
  read none r = none
  read (some p) r = some (r.objects p)

  abbrev pub write : Option ℕ → (Data → Data) → Run → Run
  write none f r = r
  write (some p) f r = record r {
    objects = λ q. ite (ℕ_discrete p q) (f (r.objects p)) (r.objects q);
  }
