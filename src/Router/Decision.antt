-- ===== src/Router/Decision.antt =====
-- The decision of `route_intent` of router/service.py.
use project_os_core.Base.{
  String, Bool, ◌&&◌, ◌||◌, not, true, false, Option, none, some, List, [], ◌∷◌, ◌++◌, is_empty,
  filter, if◌then◌else◌,
}
use project_os_core.Base.Text.{is_member, or_text}
use project_os_core.Router.{
  RuntimeVerdict, ready, MissionIntent, ProfileCapability, Collaborators, BudgetState, ApprovalGate,
  ModelRoute, RoutingDecision,
}
use project_os_core.Router.Gates.{
  join_reasons, profile_for, risk_class_of, classify_cost, budget_state, choose_worker, reason_if,
  approval_gate, communication_mode_of, speech_policy_of, execution_class_of,
}
use project_os_core.Router.Routes.{model_route}

abbrev pub is_ready : Option RuntimeVerdict → Bool
is_ready (some ready) = true
is_ready _ = false

abbrev pub profile_reasons : Option ProfileCapability → List String
profile_reasons none = "profile_missing" ∷ []
profile_reasons (some p) = []

abbrev pub worker_reasons : Option ProfileCapability → Option String → List String
worker_reasons p none = "worker_unresolved" ∷ []
worker_reasons none (some w) = []
worker_reasons (some p) (some w) =
    reason_if (not (is_member w p.allowed_workers)) "worker_not_allowed"

unfoldable pub path_reasons : Collaborators → List String → List String
path_reasons k [] = []
path_reasons k (t ∷ ts) =
    let rest = path_reasons k ts in
    if k.is_forbidden t
    then "forbidden_zone_target" ∷ rest
    else if k.is_managed t
    then rest
    else "path_outside_managed_roots" ∷ rest

abbrev pub secrets_of : Option ProfileCapability → List String
secrets_of none = []
secrets_of (some p) = p.required_secrets

unfoldable pub missing_secrets : Collaborators → List String → List String
missing_secrets k names = filter (λ n. not (k.has_secret n)) names

-- the reasons that are found before the model route is known
unfoldable pub first_reasons :
    Collaborators
    → Option RuntimeVerdict
    → MissionIntent
    → Option ProfileCapability
    → Option String
    → List String
first_reasons k verdict i p worker =
    reason_if (not (is_ready verdict)) "runtime_not_ready"
    ++ (profile_reasons p
        ++ (worker_reasons p worker
            ++ (path_reasons k i.metadata.paths
                ++ reason_if (not (is_empty (missing_secrets k (secrets_of p))))
                    "required_secret_missing")))

-- the reasons of the budget and of the model route, added to the earlier ones
unfoldable pub all_reasons : List String → BudgetState → ModelRoute → List String
all_reasons first b r =
    let reasons = first ++ reason_if (not b.within_monthly_limit) "monthly_budget_exceeded" in
    reasons ++ reason_if (not r.allowed && not (is_member r.reason reasons)) r.reason

-- route_reason of a refused intent
abbrev refusal : List String → Option String → String
refusal [] reason = or_text reason "blocked"
refusal (r ∷ rs) reason = join_reasons (r ∷ rs)

unfoldable pub conclude :
    Collaborators
    → MissionIntent
    → Option String
    → BudgetState
    → ApprovalGate
    → ModelRoute
    → List String
    → RoutingDecision
conclude k i worker b g r reasons =
    let risk = risk_class_of i i.requested_risk_class in
    let allowed = is_empty reasons && (not g.required || g.approved) in
    let mode = communication_mode_of i worker in
    record {
      execution_class = execution_class_of risk r g allowed;
      risk_class = risk;
      allowed = allowed;
      chosen_worker = worker;
      model_route = r;
      approval_gate = g;
      budget_state = b;
      communication_mode = mode;
      speech_policy = speech_policy_of k.policy mode;
      route_reason = if allowed then r.reason else refusal reasons g.reason;
      blocked_reasons = reasons;
    }

-- The decision that route_intent computes, at the verdict of the latest runtime state.
unfoldable pub route_intent :
    Collaborators → Option RuntimeVerdict → MissionIntent → RoutingDecision
route_intent k verdict i =
    let p = profile_for k i.target_profile in
    let risk = risk_class_of i i.requested_risk_class in
    let cost = classify_cost i risk in
    let b = budget_state k i cost in
    let worker = choose_worker i p in
    let g = approval_gate i risk b worker in
    let r = model_route k i cost b g in
    conclude k i worker b g r (all_reasons (first_reasons k verdict i p worker) b r)
