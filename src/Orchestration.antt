-- ===== src/Orchestration.antt =====
-- The data of CanonicalMissionGraph of orchestration/graph.py: what the graph of a mission writes, and the
-- parts of a mission run and of a routing decision that it reads. A text column with JSON is the value itself.
pub mod Graph
pub mod Simulate
pub mod Trail
use project_os_core.Base.{ℕ, String, Option, List, [], ◌∷◌}
use project_os_core.Base.Dict.{Dict}
use project_os_core.World.{Context, Value}
use project_os_core.Router.{MissionExecutionClass, ModelRoute, RoutingDecision}

pub data AgentRole : Type 0 where
  operator_concierge : AgentRole
  planner : AgentRole
  memory_curator : AgentRole
  critic : AgentRole
  guardian : AgentRole
  executor_coordinator : AgentRole

abbrev pub role_value : AgentRole → String
role_value operator_concierge = "operator_concierge"
role_value planner = "planner"
role_value memory_curator = "memory_curator"
role_value critic = "critic"
role_value guardian = "guardian"
role_value executor_coordinator = "executor_coordinator"

pub data MissionStatus : Type 0 where
  queued : MissionStatus
  running : MissionStatus
  paused : MissionStatus
  waiting_approval : MissionStatus
  completed : MissionStatus
  failed : MissionStatus

abbrev pub mission_status_value : MissionStatus → String
mission_status_value queued = "queued"
mission_status_value running = "running"
mission_status_value paused = "paused"
mission_status_value waiting_approval = "waiting_approval"
mission_status_value completed = "completed"
mission_status_value failed = "failed"

abbrev pub canonical_role_sequence : List AgentRole
canonical_role_sequence =
    operator_concierge ∷ planner ∷ memory_curator ∷ critic ∷ guardian ∷ executor_coordinator ∷ []

pub record MissionRun : Type 0 where
  pub mission_run_id : String
  pub objective : String
  pub profile_name : Option String
  pub status : MissionStatus

-- a decision with the identifier that its row has
pub record Routed : Type 0 where
  pub decision_id : String
  pub decision : RoutingDecision

pub record GraphState : Type 0 where
  pub graph_state_id : String
  pub mission_run_id : String
  pub objective : String
  pub active_role : AgentRole
  pub status : String
  pub role_sequence : List String
  pub metadata : Dict Value
  pub created_at : ℕ

pub record RoleHandoff : Type 0 where
  pub handoff_id : String
  pub mission_run_id : String
  pub from_role : Option AgentRole
  pub to_role : AgentRole
  pub reason : String
  pub payload : Dict Value
  pub created_at : ℕ

pub record ExecutionCheckpoint : Type 0 where
  pub execution_checkpoint_id : String
  pub mission_run_id : String
  pub role : AgentRole
  pub label : String
  pub payload : Dict Value
  pub created_at : ℕ

pub record RoutingAssignment : Type 0 where
  pub assignment_id : String
  pub mission_run_id : String
  pub decision_id : String
  pub worker_kind : String
  pub execution_class : MissionExecutionClass
  pub model_route : ModelRoute
  pub created_at : ℕ

pub record ExecutionTicket : Type 0 where
  pub ticket_id : String
  pub mission_run_id : String
  pub assignment_id : String
  pub worker_kind : String
  pub action_name : String
  pub payload : Dict Value
  pub policy_verdict : String
  pub status : String
  pub created_at : ℕ

pub record WorkerRequest : Type 0 where
  pub request_id : String
  pub worker_kind : String
  pub action_name : String
  pub payload : Dict Value
  pub created_at : ℕ

pub record WorkerDispatchEnvelope : Type 0 where
  pub dispatch_id : String
  pub ticket : ExecutionTicket
  pub worker_request : WorkerRequest
  pub metadata : Dict Value
  pub created_at : ℕ

-- a row of worker_dispatch_envelopes
pub record DispatchRow : Type 0 where
  pub dispatch_id : String
  pub ticket_id : String
  pub worker_request : WorkerRequest
  pub payload : Dict Value
  pub created_at : ℕ

-- the tables of the graph
pub record MissionGraph : Type 0 where
  pub context : Context
  pub graph_states : List GraphState
  pub handoffs : List RoleHandoff
  pub checkpoints : List ExecutionCheckpoint
  pub assignments : List RoutingAssignment
  pub tickets : List ExecutionTicket
  pub dispatches : List DispatchRow
