-- ===== src/Router/Allowed.antt =====
-- When the decision of router/service.py lets a mission run.
use project_os_core.Base.{◌≡◌, refl, ◌↔◌, Bool, ◌||◌, not, true, false, Option, arith}
use project_os_core.Router.{
  RuntimeVerdict, MissionIntent, Collaborators, ApprovalGate, ModelRoute, RoutingDecision, blocked,
  ActionRiskClass,
}
use project_os_core.Router.Gates.{
  profile_for, risk_class_of, classify_cost, budget_state, choose_worker, approval_gate, is_risky,
  execution_class_of,
}
use project_os_core.Router.Routes.{model_route}
use project_os_core.Router.Decision.{first_reasons, conclude, route_intent}
use project_os_core.Router.Reasons.{
  IsServed, first_reasons-empty, empty-first_reasons, all_reasons-empty,
}

-- Everything that a mission needs to run.
pub record IsClear (k : Collaborators) (verdict : Option RuntimeVerdict) (i : MissionIntent)
    (d : RoutingDecision) : Type 0 where
  pub served : IsServed k verdict i (profile_for k i.target_profile) d.chosen_worker
  pub budget : d.budget_state.within_monthly_limit ≡ true
  pub model : d.model_route.allowed ≡ true
  pub approval : (not d.approval_gate.required || d.approval_gate.approved) ≡ true

execution_class-blocked :
    (risk : ActionRiskClass) (r : ModelRoute) (g : ApprovalGate) (allowed : Bool)
    → (execution_class_of risk r g allowed ≡ blocked) ↔ (allowed ≡ false)
unfolding execution_class_of
execution_class-blocked risk r g false = ((λ h. refl), (λ h. refl))
execution_class-blocked risk r g true = ((λ h. absurd (ground (arith, h))), (λ h. absurd cc))

module _ (k : Collaborators) (verdict : Option RuntimeVerdict) (i : MissionIntent) where
  -- An intent is allowed exactly when the runtime is ready, its profile exists and lists the chosen worker,
  -- each of its paths is managed and not forbidden, the profile's secrets are there, the month's
  -- budget holds, the model route is allowed, and an approval that is required is given.
  pub route_intent-allowed :
      ((route_intent k verdict i).allowed ≡ true) ↔ IsClear k verdict i (route_intent k verdict i)
  unfolding route_intent conclude
  route_intent-allowed =
      let p = profile_for k i.target_profile in
      let risk = risk_class_of i i.requested_risk_class in
      let cost = classify_cost i risk in
      let b = budget_state k i cost in
      let worker = choose_worker i p in
      let g = approval_gate i risk b worker in
      let r = model_route k i cost b g in
      let first = first_reasons k verdict i p worker in
      (
        (λ h. record {
          served =
              first_reasons-empty k verdict i p worker
                (ground (arith, h, all_reasons-empty first b r));
          budget = ground (arith, h, all_reasons-empty first b r);
          model = ground (arith, h, all_reasons-empty first b r);
          approval = ground (arith, h, all_reasons-empty first b r);
        }),
        (λ h. ground (
          arith,
          h.budget,
          h.model,
          h.approval,
          all_reasons-empty first b r,
          empty-first_reasons k verdict i p worker h.served,
        )),
      )

  -- A destructive or exceptional intent is allowed only with the founder's approval.
  pub route_intent-founder :
      is_risky (route_intent k verdict i).risk_class ≡ true
      → (route_intent k verdict i).allowed ≡ true
      → i.metadata.founder_approved ≡ true
  unfolding route_intent conclude approval_gate
  route_intent-founder risky h = ground (arith, risky, h)

  -- The execution class is blocked exactly when the intent is not allowed.
  pub route_intent-blocked :
      ((route_intent k verdict i).execution_class ≡ blocked)
      ↔ ((route_intent k verdict i).allowed ≡ false)
  unfolding route_intent conclude
  route_intent-blocked =
      execution_class-blocked (route_intent k verdict i).risk_class
        (route_intent k verdict i).model_route (route_intent k verdict i).approval_gate
        (route_intent k verdict i).allowed
