-- ===== src/Deliveries.antt =====
-- The deliveries to the operator of api_runs/service.py: their rows, the lifecycle events that they
-- tell of, and the dead letters that replace a delivery that was given up.
pub mod Letters
pub mod Policy
pub mod Publish
pub mod Marks
pub mod Requeue
pub mod Counts
pub mod Calls
pub mod Retries
pub mod Final
pub mod Recovery
pub mod Phases
pub mod Refines
pub mod Listing
pub mod Order
use project_os_core.Base.{ℕ, String, Bool, Option, List}
use project_os_core.Base.Dict.{Dict}
use project_os_core.World.{Context, Value}
use project_os_core.Mission.{ApiRunMode, ApiRunStatus}

pub data OperatorChannelHint : Type 0 where
  runs_live approvals incidents : OperatorChannelHint

pub data OperatorDeliveryStatus : Type 0 where
  pending delivered failed skipped expired : OperatorDeliveryStatus

pub data OperatorDeliveryGuarantee : Type 0 where
  best_effort important must_notify must_persist : OperatorDeliveryGuarantee

pub data RunLifecycleEventKind : Type 0 where
  run_started clarification_required run_completed run_failed run_reviewed : RunLifecycleEventKind
  contract_proposed contract_approved contract_rejected : RunLifecycleEventKind
  budget_alert run_relaunched : RunLifecycleEventKind

pub record RunLifecycleEvent : Type 0 where
  pub lifecycle_event_id : String
  pub run_id : String
  pub run_request_id : String
  pub kind : RunLifecycleEventKind
  pub title : String
  pub summary : String
  pub contract_id : Option String
  pub branch_name : Option String
  pub mode : Option ApiRunMode
  pub channel_hint : OperatorChannelHint
  pub status : Option ApiRunStatus
  pub phase : Option String
  pub blocking_question : Option String
  pub recommended_action : Option String
  pub requires_reapproval : Bool
  pub artifact_path : Option String
  pub metadata : Dict Value
  pub created_at : ℕ

-- an entry of attempt_history
pub record Attempt : Type 0 where
  pub attempt : ℕ
  pub requested_status : OperatorDeliveryStatus
  pub applied_status : OperatorDeliveryStatus
  pub error : Option String
  pub at : ℕ

-- What a key of a delivery's metadata holds: a value, or the list of the attempts.
pub data Field : Type 0 where
  plain : Value → Field
  history : List Attempt → Field

-- The payload has these keys, a version, the surface, and a card that repeats fields of the event.
pub record Payload : Type 0 where
  pub text : String
  pub delivery_guarantee : OperatorDeliveryGuarantee
  pub delivery_priority_rank : ℕ
  pub visible_failure_required : Bool
  pub must_persist : Bool
  pub soft_backlog_limit_exceeded : Bool
  pub event : RunLifecycleEvent
  pub target : Option String
  pub reply_to : Option String
  pub attachments : List String

pub record OperatorDelivery : Type 0 where
  pub delivery_id : String
  pub lifecycle_event_id : String
  pub adapter : String
  pub surface : String
  pub channel_hint : OperatorChannelHint
  pub status : OperatorDeliveryStatus
  pub attempts : ℕ
  pub payload : Payload
  pub last_error : Option String
  pub next_attempt_at : Option ℕ
  pub metadata : Dict Field
  pub created_at : ℕ
  pub updated_at : ℕ

-- a row of dead_letter_records
pub record DeadLetterRecord : Type 0 where
  pub dead_letter_id : String
  pub domain : String
  pub source_entity_kind : String
  pub source_entity_id : String
  pub status : String
  pub error_code : Option String
  pub error_message : Option String
  pub replayable : Bool
  pub recovery_command : Option String
  pub artifact_path : Option String
  pub run_id : Option String
  pub metadata : Dict Value
  pub created_at : ℕ
  pub updated_at : ℕ

-- the settings of execution_policy; a negative one acts as 0
pub record DeliveryPolicy : Type 0 where
  pub operator_delivery_max_attempts : ℕ
  pub operator_delivery_retry_base_seconds : ℕ
  pub operator_delivery_retry_max_seconds : ℕ
  pub operator_delivery_max_pending : ℕ

pub record Deliveries : Type 0 where
  pub context : Context
  pub events : List RunLifecycleEvent
  pub rows : List OperatorDelivery
  pub letters : List DeadLetterRecord

abbrev pub delivery_key : OperatorDelivery → String
delivery_key d = d.delivery_id

abbrev pub event_key : RunLifecycleEvent → String
event_key e = e.lifecycle_event_id
