-- ===== src/Router.antt =====
-- router/service.py and router/policy.py: whether a mission may run, who runs it and on which model.
-- A sum of money is in millionths of a euro.
pub mod Gates
pub mod Routes
pub mod Decision
pub mod Privacy
pub mod Reasons
pub mod Allowed
use project_os_core.Base.{
  ℕ, String, Bool, true, false, Option, none, some, List, [], ◌∷◌, ◌==◌, if◌then◌else◌,
}
use project_os_core.Base.Dict.{Dict}

pub data ActionRiskClass : Type 0 where
  read_only safe_write destructive risk_exceptional : ActionRiskClass

pub data CostClass : Type 0 where
  cheap standard hard exceptional : CostClass

pub data ModelRouteClass : Type 0 where
  fast_tier local_tier api_tier : ModelRouteClass

pub data MissionExecutionClass : Type 0 where
  deterministic assisted supervised blocked : MissionExecutionClass

pub data RuntimeVerdict : Type 0 where
  ready degraded verdict_blocked away_from_target : RuntimeVerdict

pub data CommunicationMode : Type 0 where
  discussion architect builder reviewer guardian incident : CommunicationMode

pub data RunSpeechPolicy : Type 0 where
  silent_until_terminal_state phase_markers_only dialogue_rich : RunSpeechPolicy

-- The keys of an intent's metadata that the router reads, each with the type that its callers write.
pub record IntentMetadata : Type 0 where
  pub exceptional_requested : Bool
  pub multi_worker : Bool
  pub ambiguous_recovery : Bool
  pub founder_approved : Bool
  pub prefer_local_model : Bool
  pub budget_justified : Bool
  pub error_cost : Option String
  pub message_kind : Option String
  pub channel_class : Option String
  pub requested_provider : Option String
  pub requested_model : Option String
  pub requested_model_mode : Option String
  pub sensitivity_class : Option String
  pub approval_id : Option String
  pub daily_spend_estimate : ℕ
  pub monthly_spend_estimate : ℕ
  pub mission_estimate : Option ℕ
  pub paths : List String

pub record MissionIntent : Type 0 where
  pub channel : String
  pub objective : String
  pub target_profile : Option String
  pub requested_worker : Option String
  pub requested_risk_class : Option ActionRiskClass
  pub communication_mode : CommunicationMode
  pub metadata : IntentMetadata

pub record ProfileCapability : Type 0 where
  pub profile_name : String
  pub capability_names : List String
  pub allowed_workers : List String
  pub required_secrets : List String

-- the fields of ExecutionPolicy that the router reads
pub record ExecutionPolicy : Type 0 where
  pub default_model : String
  pub default_reasoning_effort : String
  pub escalation_reasoning_effort : String
  pub exceptional_model : String
  pub daily_soft_limit : ℕ
  pub monthly_limit : ℕ
  pub discord_simple_model : String
  pub discord_simple_reasoning_effort : String
  pub default_run_speech_policy : RunSpeechPolicy
  pub local_model_enabled : Bool
  pub local_model_name : String
  pub local_model_reasoning_effort : String
  pub privacy_guard_enabled : Bool
  pub s3_requires_local_model : Bool

-- What the router asks of its collaborators: the path policy, the secret resolver, the status that the
-- health of the local model's client has, if there is a client, and the estimate of a mission's cost on a model (`estimate_router_usage` with
-- `estimate_usage_cost_eur`).
pub record Collaborators : Type 0 where
  pub policy : ExecutionPolicy
  pub profile_capabilities : Dict ProfileCapability
  pub is_forbidden : String → Bool
  pub is_managed : String → Bool
  pub has_secret : String → Bool
  pub local_model_client : Option String
  pub estimate : MissionIntent → CostClass → Option String → ℕ

abbrev client_status : Option String → String
client_status none = "blocked"
client_status (some status) = status

-- the `status` of _local_model_health_snapshot
unfoldable pub local_model_status : Collaborators → String
local_model_status k =
    if k.policy.local_model_enabled then client_status k.local_model_client else "absent"

abbrev pub local_ready : Collaborators → Bool
local_ready k = local_model_status k == "ready"

pub record BudgetState : Type 0 where
  pub mission_estimate : ℕ
  pub mission_cost_class : CostClass
  pub within_daily_soft : Bool
  pub within_monthly_limit : Bool
  pub route_reason : String

pub record ApprovalGate : Type 0 where
  pub required : Bool
  pub approved : Bool
  pub approval_id : Option String
  pub reason : Option String

pub record ModelRoute : Type 0 where
  pub provider : String
  pub model : Option String
  pub reasoning_effort : Option String
  pub route_class : CostClass
  pub route_tier : ModelRouteClass
  pub allowed : Bool
  pub reason : String

pub record RoutingDecision : Type 0 where
  pub execution_class : MissionExecutionClass
  pub risk_class : ActionRiskClass
  pub allowed : Bool
  pub chosen_worker : Option String
  pub model_route : ModelRoute
  pub approval_gate : ApprovalGate
  pub budget_state : BudgetState
  pub communication_mode : CommunicationMode
  pub speech_policy : RunSpeechPolicy
  pub route_reason : String
  pub blocked_reasons : List String
