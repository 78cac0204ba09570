-- ===== src/Router/Gates.antt =====
-- The classes and gates of router/service.py: profile, risk, cost, budget, worker and approval.
use Prim.Native.String.{◌++◌ as concat}
use project_os_core.Base.{
  ℕ, ◌+◌, String, Bool, ◌&&◌, ◌||◌, not, true, false, Option, none, some, List, [], ◌∷◌, ◌++◌, leb,
  ◌==◌, if◌then◌else◌,
}
use project_os_core.Base.Text.{lower, strip, contains_any, is_member, or_text, given, or_none}
use project_os_core.Base.Dict.{Dict, get}
use project_os_core.Router.{
  ActionRiskClass, read_only, safe_write, destructive, risk_exceptional, CostClass, cheap, standard,
  hard, exceptional, MissionExecutionClass, deterministic, assisted, supervised, blocked,
  CommunicationMode, discussion, architect, builder, reviewer, guardian, incident, RunSpeechPolicy,
  phase_markers_only, dialogue_rich, MissionIntent, ProfileCapability, ExecutionPolicy,
  Collaborators, BudgetState, ApprovalGate, ModelRoute,
}

-- ";".join
unfoldable pub join_reasons : List String → String
join_reasons [] = ""
join_reasons (r ∷ []) = r
join_reasons (r ∷ s ∷ rs) = concat r (concat ";" (join_reasons (s ∷ rs)))

abbrev profile : String → List String → List String → List String → String × ProfileCapability
profile name capabilities workers secrets = (
  name,
  record {
    profile_name = name;
    capability_names = capabilities;
    allowed_workers = workers;
    required_secrets = secrets;
  },
)

-- router/policy.py
unfoldable pub default_profile_capabilities : Dict ProfileCapability
default_profile_capabilities =
    profile "core" ("planning" ∷ "memory" ∷ "runtime" ∷ []) ("deterministic" ∷ "router" ∷ []) []
    ∷ profile "browser" ("web_navigation" ∷ "form_fill" ∷ "dom_actions" ∷ [])
        ("browser" ∷ "deterministic" ∷ []) ("OPENAI_API_KEY" ∷ [])
    ∷ profile "uefn" ("desktop_windows" ∷ "editor_control" ∷ "screenshot_validation" ∷ [])
        ("windows" ∷ "browser" ∷ "deterministic" ∷ []) ("OPENAI_API_KEY" ∷ [])
    ∷ []

-- (target_profile or "core")
unfoldable pub profile_for : Collaborators → Option String → Option ProfileCapability
profile_for k target = get (lower (strip (or_text target "core"))) k.profile_capabilities

unfoldable pub infer_risk_class : MissionIntent → ActionRiskClass
infer_risk_class i =
    let objective = lower i.objective in
    if contains_any ("delete" ∷ "destroy" ∷ "remove" ∷ "format" ∷ []) objective
    then destructive
    else if contains_any ("publish" ∷ "ship" ∷ "apply" ∷ "write" ∷ "edit" ∷ []) objective
    then safe_write
    else read_only

-- intent.requested_risk_class or the inferred one
unfoldable pub risk_class_of : MissionIntent → Option ActionRiskClass → ActionRiskClass
risk_class_of i none = infer_risk_class i
risk_class_of i (some risk) = risk

abbrev pub is_read_only : ActionRiskClass → Bool
is_read_only read_only = true
is_read_only _ = false

unfoldable pub classify_cost : MissionIntent → ActionRiskClass → CostClass
classify_cost i risk =
    let m = i.metadata in
    if m.exceptional_requested
    then exceptional
    else if m.multi_worker || m.ambiguous_recovery || or_text m.error_cost "" == "high"
    then hard
    else if is_read_only risk && not (given i.requested_worker)
    then cheap
    else standard

-- the model whose prices the estimate takes
abbrev pub estimate_model : ExecutionPolicy → MissionIntent → CostClass → Option String
estimate_model p i exceptional = some p.exceptional_model
estimate_model p i cheap = if i.channel == "discord" then some p.discord_simple_model else none
estimate_model p i standard = some p.default_model
estimate_model p i hard = some p.default_model

abbrev pub or_estimate : Option ℕ → ℕ → ℕ
or_estimate none computed = computed
or_estimate (some n) computed = n

unfoldable pub budget_state : Collaborators → MissionIntent → CostClass → BudgetState
budget_state k i cost =
    let m = i.metadata in
    let estimate =
      or_estimate m.mission_estimate (k.estimate i cost (estimate_model k.policy i cost)) in
    let within_daily = leb (m.daily_spend_estimate + estimate) k.policy.daily_soft_limit in
    let within_monthly = leb (m.monthly_spend_estimate + estimate) k.policy.monthly_limit in
    record {
      mission_estimate = estimate;
      mission_cost_class = cost;
      within_daily_soft = within_daily;
      within_monthly_limit = within_monthly;
      route_reason =
          if within_daily && within_monthly then "within_budget" else "budget_guardrail_triggered";
    }

abbrev worker_of : MissionIntent → Option ProfileCapability → Option String
worker_of i none = none
worker_of i (some p) =
    if contains_any ("browser" ∷ "web" ∷ "mail" ∷ "site" ∷ "form" ∷ []) (lower i.objective)
      && is_member "browser" p.allowed_workers
    then some "browser"
    else if is_member "windows" p.allowed_workers
    then some "windows"
    else if is_member "browser" p.allowed_workers
    then some "browser"
    else if is_member "deterministic" p.allowed_workers
    then some "deterministic"
    else none

unfoldable pub choose_worker : MissionIntent → Option ProfileCapability → Option String
choose_worker i p = if given i.requested_worker then i.requested_worker else worker_of i p

abbrev pub is_risky : ActionRiskClass → Bool
is_risky destructive = true
is_risky risk_exceptional = true
is_risky _ = false

abbrev pub outside_allowlist : Option String → Bool
outside_allowlist none = false
outside_allowlist (some w) =
    not (w == "") && not (is_member w ("deterministic" ∷ "windows" ∷ "browser" ∷ []))

abbrev pub reason_if : Bool → String → List String
reason_if true r = r ∷ []
reason_if false r = []

abbrev pub joined : List String → Option String
joined [] = none
joined (r ∷ rs) = some (join_reasons (r ∷ rs))

unfoldable pub approval_gate :
    MissionIntent → ActionRiskClass → BudgetState → Option String → ApprovalGate
approval_gate i risk b worker =
    let m = i.metadata in
    let needs_approval =
      is_risky risk
      || not b.within_daily_soft
      || outside_allowlist worker
      || m.exceptional_requested in
    record {
      required = needs_approval;
      approved = if needs_approval then m.founder_approved else true;
      approval_id = or_none (or_text m.approval_id "");
      reason = joined (
          reason_if (is_risky risk) "risk_requires_approval"
          ++ reason_if (not b.within_daily_soft) "daily_budget_soft_exceeded"
          ++ reason_if (outside_allowlist worker) "worker_outside_allowlist"
          ++ reason_if m.exceptional_requested "exceptional_route_requested");
    }

unfoldable pub communication_mode_of : MissionIntent → Option String → CommunicationMode
communication_mode_of i worker =
    let kind = or_text i.metadata.message_kind "" in
    if or_text i.metadata.channel_class "" == "incidents"
    then incident
    else if kind == "approval"
    then guardian
    else if is_member kind ("chat" ∷ "status_request" ∷ [])
    then discussion
    else if is_member kind ("idea" ∷ "decision" ∷ "note" ∷ [])
    then architect
    else if given worker || kind == "tasking"
    then builder
    else i.communication_mode

unfoldable pub speech_policy_of : ExecutionPolicy → CommunicationMode → RunSpeechPolicy
speech_policy_of p builder = p.default_run_speech_policy
speech_policy_of p reviewer = p.default_run_speech_policy
speech_policy_of p incident = phase_markers_only
speech_policy_of p _ = dialogue_rich

abbrev pub is_cheap : CostClass → Bool
is_cheap cheap = true
is_cheap _ = false

unfoldable pub execution_class_of :
    ActionRiskClass → ModelRoute → ApprovalGate → Bool → MissionExecutionClass
execution_class_of risk route gate allowed =
    if not allowed
    then blocked
    else if gate.required
    then supervised
    else if is_cheap route.route_class
    then deterministic
    else if is_read_only risk
    then assisted
    else supervised
