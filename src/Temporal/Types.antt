-- ===== src/Temporal/Types.antt =====
-- The data of temporal/workflow.go, temporal/resumable.go and temporal/const.go.
use go_cook.Shared.{String, Option, none, List, []}
use go_cook.Shared.Int.{ℤ, pos}

-- The status constants; `unset` is the zero value of the field.
pub data Status : Type 0 where
  unset pending executing awaiting_correction awaiting_approval failed completed rejected : Status

abbrev pub default_correction_signal : String
default_correction_signal = "retryWithCorrection"

abbrev pub query_get_status : String
query_get_status = "getStatus"

abbrev pub default_max_correction_attempts : ℤ
default_max_correction_attempts = pos 5

abbrev pub default_activity_retry_attempts : ℤ
default_activity_retry_attempts = pos 3

-- 30 * time.Second
abbrev pub default_start_to_close_timeout : ℤ
default_start_to_close_timeout = pos 30_000_000_000

pub record ResumableOptions : Type 0 where
  pub correction_signal : String
  pub approval_signal : String
  pub max_correction_attempts : ℤ  -- int
  pub activity_retry_attempts : ℤ  -- int32
  pub status_search_attribute : String
  pub wait_timeout : ℤ  -- time.Duration

-- `var opts ResumableOptions`
abbrev pub zero_resumable : ResumableOptions
zero_resumable = record {
  correction_signal = "";
  approval_signal = "";
  max_correction_attempts = pos 0;
  activity_retry_attempts = pos 0;
  status_search_attribute = "";
  wait_timeout = pos 0;
}

-- The fields of the SDK's `temporal.RetryPolicy` that the package sets. The coefficient is a
-- `float64`, which is only copied: it stands for its bit pattern.
pub record RetryPolicy : Type 0 where
  pub initial_interval : ℤ
  pub backoff_coefficient : ℤ
  pub maximum_interval : ℤ
  pub maximum_attempts : ℤ  -- int32

abbrev pub zero_retry_policy : RetryPolicy
zero_retry_policy = record {
  initial_interval = pos 0;
  backoff_coefficient = pos 0;
  maximum_interval = pos 0;
  maximum_attempts = pos 0;
}

-- The SDK's `workflow.ActivityOptions`: the two fields that the package reads, and the rest.
pub record ActivityOptions (Other : Type 0) : Type 0 where
  pub start_to_close_timeout : ℤ
  pub retry_policy : Option RetryPolicy
  pub other : Other

-- A step of the pipeline. A nil slice of next activities and an empty one run alike, so both are
-- the empty list; a nil function is `none`.
pub record ActivityExecutionInfo (Fn Other : Type 0) : Type 0 where
  pub activity_name : String
  pub signal_event : String
  pub activity_fn : Option Fn
  pub activity_options : Option (ActivityOptions Other)
  pub next_activities : List String
  pub resumable : Option ResumableOptions

-- `&ActivityExecutionInfo{}`
abbrev pub placeholder : {Fn Other : Type 0} → ActivityExecutionInfo Fn Other
placeholder = record {
  activity_name = "";
  signal_event = "";
  activity_fn = none;
  activity_options = none;
  next_activities = [];
  resumable = none;
}
