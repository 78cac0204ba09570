-- ===== src/Tests/RouterRuns.antt =====
-- Routing decisions on concrete intents.
use project_os_core.Base.{◌≡◌, refl, ◌↔◌, true, false, none, some, [], ◌∷◌}
use project_os_core.Base.Text.{lower, strip, is_member}
use project_os_core.Base.Dict.{get}
use project_os_core.Router.{
  local_ready, local_model_status, IntentMetadata, MissionIntent, ExecutionPolicy, Collaborators,
  ready, discussion, destructive, silent_until_terminal_state, standard, BudgetState, ApprovalGate,
}
use project_os_core.Router.Gates.{
  default_profile_capabilities, profile_for, risk_class_of, classify_cost, budget_state,
  choose_worker, approval_gate, is_risky,
}
use project_os_core.Router.Routes.{is_s3, forced_provider, model_route}
use project_os_core.Router.Decision.{
  path_reasons, missing_secrets, first_reasons, all_reasons, conclude, route_intent,
}
use project_os_core.Router.Allowed.{IsClear, route_intent-allowed, route_intent-founder}
use project_os_core.Router.Privacy.{route_intent-private}

abbrev policy : ExecutionPolicy
policy = record {
  default_model = "gpt-5";
  default_reasoning_effort = "medium";
  escalation_reasoning_effort = "high";
  exceptional_model = "gpt-5-pro";
  daily_soft_limit = 5_000_000;
  monthly_limit = 50_000_000;
  discord_simple_model = "claude-sonnet-4-20250514";
  discord_simple_reasoning_effort = "medium";
  default_run_speech_policy = silent_until_terminal_state;
  local_model_enabled = true;
  local_model_name = "local-llm";
  local_model_reasoning_effort = "medium";
  privacy_guard_enabled = true;
  s3_requires_local_model = true;
}

abbrev pub home : Collaborators
home = record {
  policy = policy;
  profile_capabilities = default_profile_capabilities;
  is_forbidden = λ t. false;
  is_managed = λ t. true;
  has_secret = λ n. true;
  local_model_client = some "ready";
  estimate = λ i cost model. 10_000;
}

abbrev metadata : IntentMetadata
metadata = record {
  exceptional_requested = false;
  multi_worker = false;
  ambiguous_recovery = false;
  founder_approved = true;
  prefer_local_model = false;
  budget_justified = false;
  error_cost = none;
  message_kind = none;
  channel_class = none;
  requested_provider = some "local";
  requested_model = none;
  requested_model_mode = none;
  sensitivity_class = some "s3_local";
  approval_id = none;
  daily_spend_estimate = 0;
  monthly_spend_estimate = 0;
  mission_estimate = some 10_000;
  paths = "D:/work" ∷ [];
}

abbrev pub intent : MissionIntent
intent = record {
  channel = "cli";
  objective = "Delete the old site";
  target_profile = some "uefn";
  requested_worker = some "windows";
  requested_risk_class = some destructive;
  communication_mode = discussion;
  metadata = metadata;
}

s3 : is_s3 intent ≡ true
unfolding is_s3 lower strip
s3 = refl

asks_local : forced_provider intent ≡ "local"
unfolding forced_provider lower strip
asks_local = refl

pub allowed : (route_intent home (some ready) intent).allowed ≡ true
unfolding local_model_status route_intent conclude all_reasons first_reasons path_reasons
    missing_secrets profile_for lower strip get default_profile_capabilities risk_class_of
    classify_cost budget_state choose_worker approval_gate model_route is_s3 is_member
allowed = refl

risky : is_risky (route_intent home (some ready) intent).risk_class ≡ true
unfolding route_intent conclude risk_class_of
risky = refl

route_intent-allowed_example :
    ((route_intent home (some ready) intent).allowed ≡ true)
    ↔ IsClear home (some ready) intent (route_intent home (some ready) intent)
route_intent-allowed_example = route_intent-allowed home (some ready) intent

route_intent-founder_example : intent.metadata.founder_approved ≡ true
route_intent-founder_example = route_intent-founder home (some ready) intent risky allowed

route_intent-private_example :
    ((route_intent home (some ready) intent).model_route.provider ≡ "local")
    × ((route_intent home (some ready) intent).allowed ≡ true → local_ready home ≡ true)
route_intent-private_example = route_intent-private home (some ready) intent refl refl s3

abbrev budget : BudgetState
budget = record {
  mission_estimate = 10_000;
  mission_cost_class = standard;
  within_daily_soft = true;
  within_monthly_limit = true;
  route_reason = "within_budget";
}

abbrev gate : ApprovalGate
gate = record { required = true; approved = true; approval_id = none; reason = none }
