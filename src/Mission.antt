-- ===== src/Mission.antt =====
-- mission/chain.py: a chain of API runs, one for each step of a mission, and the interface of the
-- service that runs a step.
pub mod Chains
pub mod Launch
pub mod Advance
pub mod Writes
pub mod Frame
pub mod Sound
pub mod Progress
pub mod Guard
pub mod Steps
use project_os_core.Base.{ℕ, String, Bool, true, false, Option, none, some, List, [], ◌∷◌}
use project_os_core.Base.Dict.{Dict}
use project_os_core.Base.Result.{Result}
use project_os_core.World.{Context, Value}

-- ApiRunMode and ApiRunStatus
pub data ApiRunMode : Type 0 where
  audit design patch_plan generate_patch : ApiRunMode

pub data ApiRunStatus : Type 0 where
  prepared awaiting_go executing clarification_required : ApiRunStatus
  run_completed run_failed run_paused stopped reviewed : ApiRunStatus

abbrev pub mode_value : ApiRunMode → String
mode_value audit = "audit"
mode_value design = "design"
mode_value patch_plan = "patch_plan"
mode_value generate_patch = "generate_patch"

unfoldable pub run_status_value : ApiRunStatus → String
run_status_value prepared = "prepared"
run_status_value awaiting_go = "awaiting_go"
run_status_value executing = "running"
run_status_value clarification_required = "clarification_required"
run_status_value run_completed = "completed"
run_status_value run_failed = "failed"
run_status_value run_paused = "paused"
run_status_value stopped = "stopped"
run_status_value reviewed = "reviewed"

pub data ChainStatus : Type 0 where
  running paused completed failed : ChainStatus

abbrev pub chain_status_value : ChainStatus → String
chain_status_value running = "running"
chain_status_value paused = "paused"
chain_status_value completed = "completed"
chain_status_value failed = "failed"

pub record MissionStep : Type 0 where
  pub step_index : ℕ
  pub mode : ApiRunMode
  pub objective : String
  pub depends_on_previous : Bool
  pub skip_on_previous_failure : Bool

-- The keys that create_chain sets, and under `extra` the keys that its caller and the methods add; no
-- key of `extra` is one of the others.
pub record ChainMetadata : Type 0 where
  pub branch_name : String
  pub target_profile : Option String
  pub skill_tags : List String
  pub source_paths : List String
  pub constraints : List String
  pub acceptance_criteria : List String
  pub template : String
  pub extra : Dict Value

-- A cost is in millionths of a euro: the program rounds costs to six decimals.
pub record MissionChain : Type 0 where
  pub chain_id : String
  pub objective : String
  pub steps : List MissionStep
  pub current_step_index : ℕ
  pub status : ChainStatus
  pub total_cost : ℕ
  pub metadata : ChainMetadata
  pub created_at : ℕ
  pub updated_at : ℕ

-- A row of api_run_results joined with its row of api_run_requests; a JSON object is its text.
pub record StepRun : Type 0 where
  pub run_id : String
  pub status : ApiRunStatus
  pub structured_output : String
  pub estimated_cost : ℕ
  pub created_at : ℕ
  pub mission_chain_id : Option String
  pub mission_step_index : Option ℕ

-- What a step asks of the API runs: the arguments of build_context_pack, and its metadata.
pub record StepRequest : Type 0 where
  pub mode : ApiRunMode
  pub objective : String
  pub branch_name : String
  pub skill_tags : List String
  pub target_profile : Option String
  pub chain_metadata : ChainMetadata
  pub mission_chain_id : String
  pub mission_step_index : ℕ
  pub chain_objective : String
  pub step_objective : String
  pub previous_output : Option String

-- What execute_run returns, by what the chain reads of it.
pub record RunPayload : Type 0 where
  pub run_id : String
  pub run_request_id : String
  pub status : ApiRunStatus
  pub estimated_cost : ℕ
  pub guardian_blocked : Bool
  pub blocking_reason : Option String

-- The methods of ApiRunService that a chain calls, on a state `E` of that service and the shared context.
pub record ApiRuns (E : Type 0) : Type 0 where
  -- build_context_pack, render_prompt and create_run_contract: the contract's id
  pub create_run_contract : StepRequest → Context → E → Result String × (Context × E)
  -- _guardian_pre_spend_check: the reason to block, if the run cannot proceed
  pub guardian_pre_spend_check :
      StepRequest → String → String → Context → E → Option String × (Context × E)
  pub approve_run_contract : String → String → Context → E → Result (Unit {0}) × (Context × E)
  pub execute_run : StepRequest → String → Context → E → Result RunPayload × (Context × E)
  -- the runs, in rowid order
  pub runs : E → List StepRun

pub record Missions (E : Type 0) : Type 0 where
  pub context : Context
  pub chains : List MissionChain
  pub api : E
