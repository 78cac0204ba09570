-- ===== src/Runtime.antt =====
-- runtime/store.py: the sessions, the runtime states, the approvals and the evidence of actions.
pub mod Store
pub mod Newest
pub mod Sessions
pub mod Approvals
use project_os_core.Base.{ℕ, String, Bool, Option, List}
use project_os_core.Base.Dict.{Dict}
use project_os_core.World.{Context, Value}
use project_os_core.Router.{RuntimeVerdict}

pub data ApprovalStatus : Type 0 where
  pending approved rejected expired : ApprovalStatus

pub record SessionState : Type 0 where
  pub session_id : String
  pub profile_name : String
  pub owner : String
  pub status : String
  pub metadata : Dict Value
  pub created_at : ℕ
  pub updated_at : ℕ

pub record RuntimeState : Type 0 where
  pub runtime_state_id : String
  pub session_id : String
  pub verdict : RuntimeVerdict
  pub active_profile : Option String
  pub mission_run_id : Option String
  pub status_summary : Option String
  pub blockers : List String
  pub metadata : Dict Value
  pub captured_at : ℕ

pub record ApprovalRecord : Type 0 where
  pub approval_id : String
  pub requested_by : String
  pub risk_tier : String
  pub reason : String
  pub status : ApprovalStatus
  pub mission_run_id : Option String
  pub expires_at : Option ℕ
  pub metadata : Dict Value
  pub created_at : ℕ
  pub updated_at : ℕ

pub record ArtifactPointer : Type 0 where
  pub artifact_id : String
  pub artifact_kind : String
  pub storage_tier : String
  pub path : String
  pub checksum_sha256 : String
  pub size_bytes : ℕ
  pub created_at : ℕ

-- the artifacts of the object are in the table of pointers; the row keeps their count
pub record ActionEvidence : Type 0 where
  pub evidence_id : String
  pub session_id : String
  pub action_name : String
  pub success : Bool
  pub summary : Option String
  pub result_code : Option String
  pub failure_reason : Option String
  pub policy_verdict : Option String
  pub artifact_count : ℕ
  pub pre_state : Dict Value
  pub post_state : Dict Value
  pub metadata : Dict Value
  pub created_at : ℕ

-- a row of artifact_pointers
pub record PointerRow : Type 0 where
  pub owner_type : String
  pub owner_id : String
  pub pointer : ArtifactPointer

pub record RuntimeStore : Type 0 where
  pub context : Context
  pub sessions : List SessionState
  pub runtime_states : List RuntimeState
  pub approvals : List ApprovalRecord
  pub evidences : List ActionEvidence
  pub pointers : List PointerRow

abbrev pub session_key : SessionState → String
session_key s = s.session_id

abbrev pub approval_key : ApprovalRecord → String
approval_key a = a.approval_id
