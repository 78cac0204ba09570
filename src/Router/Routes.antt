-- ===== src/Router/Routes.antt =====
-- The model route of router/service.py: `_model_route`, `_forced_provider_route`, `_api_model_route`.
use project_os_core.Base.{
  String, Bool, ◌&&◌, ◌||◌, not, true, false, Option, none, some, [], ◌∷◌, ◌==◌, if◌then◌else◌,
}
use project_os_core.Base.Text.{lower, strip, is_member, or_text, or_none}
use project_os_core.Router.{
  local_ready, CostClass, cheap, standard, hard, exceptional, ModelRouteClass, fast_tier,
  local_tier, api_tier, MissionIntent, ExecutionPolicy, Collaborators, BudgetState, ApprovalGate,
  ModelRoute,
}
use project_os_core.Router.Gates.{is_cheap}

-- _sensitivity_class(intent) is S3
unfoldable pub is_s3 : MissionIntent → Bool
is_s3 i = lower (strip (or_text i.metadata.sensitivity_class "")) == "s3_local"

-- metadata.get("requested_provider"), stripped and in lower case
unfoldable pub forced_provider : MissionIntent → String
forced_provider i = lower (strip (or_text i.metadata.requested_provider ""))

abbrev pub openai : String → String → CostClass → Bool → String → ModelRoute
openai model effort cost allowed reason = record {
  provider = "openai";
  model = some model;
  reasoning_effort = some effort;
  route_class = cost;
  route_tier = api_tier;
  allowed = allowed;
  reason = reason;
}

-- the local model when it is ready
abbrev pub local_route : ExecutionPolicy → CostClass → String → ModelRoute
local_route p cost reason = record {
  provider = "local";
  model = some p.local_model_name;
  reasoning_effort = some p.local_model_reasoning_effort;
  route_class = cost;
  route_tier = local_tier;
  allowed = true;
  reason = reason;
}

abbrev when : Bool → String → Option String
when true t = some t
when false t = none

-- the local model when it is not ready
abbrev pub local_refused : ExecutionPolicy → CostClass → String → ModelRoute
local_refused p cost reason = record {
  provider = "local";
  model = when p.local_model_enabled p.local_model_name;
  reasoning_effort = when p.local_model_enabled p.local_model_reasoning_effort;
  route_class = cost;
  route_tier = local_tier;
  allowed = false;
  reason = reason;
}

abbrev pub or_reason : Option String → String → String
or_reason none reason = reason
or_reason (some override) reason = override

abbrev pub exceptional_route : ExecutionPolicy → ApprovalGate → Option String → ModelRoute
exceptional_route p g override =
    if not g.approved || not g.required
    then openai p.exceptional_model "xhigh" exceptional false
        "exceptional_requires_founder_approval"
    else openai p.exceptional_model "xhigh" exceptional true
        (or_reason override "exceptional_approved")

unfoldable pub api_model_route :
    ExecutionPolicy → CostClass → BudgetState → ApprovalGate → Option String → ModelRoute
api_model_route p exceptional b g override = exceptional_route p g override
api_model_route p hard b g override =
    if not b.within_daily_soft
    then openai p.default_model p.default_reasoning_effort standard true
        (or_reason override "downgraded_due_to_daily_budget")
    else openai p.default_model p.escalation_reasoning_effort hard true
        (or_reason override "hard_route")
api_model_route p cheap b g override =
    openai p.default_model p.default_reasoning_effort cheap true
      (or_reason override "standard_route")
api_model_route p standard b g override =
    openai p.default_model p.default_reasoning_effort standard true
      (or_reason override "standard_route")

abbrev anthropic :
    ExecutionPolicy → String → CostClass → ModelRouteClass → Bool → String → ModelRoute
anthropic p model cost tier allowed reason = record {
  provider = "anthropic";
  model = some model;
  reasoning_effort = some p.discord_simple_reasoning_effort;
  route_class = cost;
  route_tier = tier;
  allowed = allowed;
  reason = reason;
}

abbrev anthropic_reason : String → String
anthropic_reason mode =
    if mode == "opus"
    then "operator_forced_opus_route"
    else if mode == "sonnet"
    then "operator_forced_sonnet_route"
    else "operator_forced_anthropic_route"

unfoldable pub forced_provider_route :
    Collaborators → MissionIntent → String → CostClass → BudgetState → ApprovalGate → ModelRoute
forced_provider_route k i provider cost b g =
    let p = k.policy in
    let model =
      or_text (or_none (strip (or_text i.metadata.requested_model ""))) p.discord_simple_model in
    let mode = lower (strip (or_text i.metadata.requested_model_mode "")) in
    if provider == "anthropic"
    then if k.has_secret "ANTHROPIC_API_KEY"
      then anthropic p model cost api_tier true (anthropic_reason mode)
      else anthropic p model cost api_tier false "operator_forced_anthropic_unavailable"
    else if provider == "openai"
    then if k.has_secret "OPENAI_API_KEY"
      then api_model_route p cost b g (some "operator_forced_openai_route")
      else openai p.default_model p.default_reasoning_effort cost false
          "operator_forced_openai_unavailable"
    else if provider == "local"
    then if local_ready k
      then local_route p cost "operator_forced_local_route"
      else local_refused p cost "operator_forced_local_unavailable"
    else api_model_route p cost b g none

-- the routes by cost class, when nothing before them has chosen one
unfoldable pub cost_route :
    ExecutionPolicy → MissionIntent → CostClass → BudgetState → ApprovalGate → ModelRoute
cost_route p i cheap b g = record {
  provider = "project_os";
  model = some "deterministic-fastpath";
  reasoning_effort = some "none";
  route_class = cheap;
  route_tier = fast_tier;
  allowed = true;
  reason = "deterministic_fast_route";
}
cost_route p i exceptional b g = exceptional_route p g none
cost_route p i hard b g =
    if not b.within_daily_soft && not i.metadata.budget_justified
    then openai p.default_model p.default_reasoning_effort standard true
        "downgraded_due_to_daily_budget"
    else openai p.default_model p.escalation_reasoning_effort hard true "hard_route"
cost_route p i standard b g =
    openai p.default_model p.default_reasoning_effort standard true "standard_route"

-- the branches for an intent that the privacy guard does not hold back
unfoldable pub open_route :
    Collaborators → MissionIntent → CostClass → BudgetState → ApprovalGate → ModelRoute
open_route k i cost b g =
    let p = k.policy in
    let provider = forced_provider i in
    if not (provider == "")
    then forced_provider_route k i provider cost b g
    else if i.channel == "discord"
        && is_cheap cost
        && is_member (or_text i.metadata.message_kind "") ("chat" ∷ "status_request" ∷ [])
    then anthropic p p.discord_simple_model cost fast_tier true "discord_simple_route"
    else if i.metadata.prefer_local_model
    then if local_ready k
      then local_route p cost "local_route"
      else api_model_route p cost b g (some "local_unavailable_escalated_to_api")
    else cost_route p i cost b g

unfoldable pub model_route :
    Collaborators → MissionIntent → CostClass → BudgetState → ApprovalGate → ModelRoute
model_route k i cost b g =
    let p = k.policy in
    if p.privacy_guard_enabled && is_s3 i
    then if local_ready k
      then local_route p cost "s3_local_route"
      else if p.s3_requires_local_model
      then local_refused p cost "s3_requires_local_model"
      else api_model_route p cost b g (some "s3_policy_override_api")
    else open_route k i cost b g
