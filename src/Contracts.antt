-- ===== src/Contracts.antt =====
-- The run contracts of api_runs/service.py: what the founder decides before a run, and the row that the
-- methods write back only when nobody else has changed it. `build_context_pack` and `render_prompt`, which
-- read the repository, are parameters.
pub mod Writes
pub mod Changes
pub mod Methods
pub mod Decisions
pub mod Conflicts
use project_os_core.Base.{ℕ, String, Bool, Option, List}
use project_os_core.Base.Dict.{Dict}
use project_os_core.Base.Numbers.{ℤ}
use project_os_core.World.{Context, Value}
use project_os_core.Mission.{ApiRunMode}

pub data RunContractStatus : Type 0 where
  prepared approved rejected executed : RunContractStatus

-- an entry of approval_history
pub record Approval : Type 0 where
  pub decision : String
  pub notes : String
  pub timestamp : ℕ
  pub round : ℤ

-- What a key of a contract's metadata holds: a value, or the list of the approvals.
pub data ContractField : Type 0 where
  plain : Value → ContractField
  approvals : List Approval → ContractField

-- the constants of a contract (communication mode, speech policy, language, audience, non-goals) left out
pub record RunContract : Type 0 where
  pub contract_id : String
  pub context_pack_id : String
  pub prompt_template_id : String
  pub mode : ApiRunMode
  pub objective : String
  pub branch_name : String
  pub target_profile : Option String
  pub model : String
  pub reasoning_effort : String
  pub expected_outputs : List String
  pub summary : String
  pub success_criteria : List String
  pub estimated_cost_eur : ℕ
  pub founder_decision : Option String
  pub founder_decision_at : Option ℕ
  pub status : RunContractStatus
  pub metadata : Dict ContractField
  pub created_at : ℕ
  pub updated_at : ℕ

-- what the methods read of a context pack and of a prompt template
pub record ContextPack : Type 0 where
  pub context_pack_id : String
  pub mode : ApiRunMode
  pub objective : String
  pub branch_name : String
  pub target_profile : Option String
  pub skill_tags : List String
  pub source_paths : List String
  pub constraints : List String
  pub acceptance_criteria : List String
  pub metadata : Dict ContractField

pub record MegaPromptTemplate : Type 0 where
  pub prompt_template_id : String
  pub model : String
  pub reasoning_effort : String
  pub output_contract : List String

pub record Contracts : Type 0 where
  pub context : Context
  pub contracts : List RunContract
  pub packs : List ContextPack
  pub templates : List MegaPromptTemplate

abbrev pub contract_key : RunContract → String
contract_key c = c.contract_id

abbrev pub pack_key : ContextPack → String
pack_key p = p.context_pack_id

abbrev pub template_key : MegaPromptTemplate → String
template_key t = t.prompt_template_id
