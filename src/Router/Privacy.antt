-- ===== src/Router/Privacy.antt =====
-- The privacy guard of router/service.py: what is for the local model stays on the machine.
use project_os_core.Base.{◌≡◌, sym, ◌∙◌, true, Option, arith}
use project_os_core.Router.{
  local_ready, CostClass, RuntimeVerdict, MissionIntent, Collaborators, BudgetState, ApprovalGate,
}
use project_os_core.Router.Gates.{classify_cost}
use project_os_core.Router.Routes.{
  is_s3, forced_provider, model_route, open_route, forced_provider_route,
}
use project_os_core.Router.Decision.{conclude, route_intent}
use project_os_core.Router.Allowed.{route_intent-allowed}

module _ (k : Collaborators) where
  private_route :
      (i : MissionIntent) (cost : CostClass) (b : BudgetState) (g : ApprovalGate)
      → k.policy.privacy_guard_enabled ≡ true
      → k.policy.s3_requires_local_model ≡ true
      → is_s3 i ≡ true
      → ((model_route k i cost b g).provider ≡ "local")
        × ((model_route k i cost b g).allowed ≡ local_ready k)
  unfolding model_route
  private_route i cost b g guarded local s3 =
      (ground (arith, guarded, local, s3), ground (arith, guarded, local, s3))

  -- With the privacy guard on and the local model required, an intent of the third sensitivity class is
  -- routed to the local provider, whatever provider it asks for, and is allowed only when the local
  -- model is ready.
  pub route_intent-private :
      (verdict : Option RuntimeVerdict) (i : MissionIntent)
      → k.policy.privacy_guard_enabled ≡ true
      → k.policy.s3_requires_local_model ≡ true
      → is_s3 i ≡ true
      → ((route_intent k verdict i).model_route.provider ≡ "local")
        × ((route_intent k verdict i).allowed ≡ true → local_ready k ≡ true)
  route_intent-private verdict i guarded local s3 =
      let d = route_intent k verdict i in
      let held =
        private_route i (classify_cost i d.risk_class) d.budget_state d.approval_gate guarded local
          s3 in
      (
        unfold route_intent conclude in held.0,
        λ h.
            unfold route_intent conclude in
            sym held.1 ∙ ((route_intent-allowed k verdict i).0 h).model,
      )

  -- Without the guard's hold, an intent that asks for the local provider is never sent elsewhere.
  pub open_route-local :
      (i : MissionIntent) (cost : CostClass) (b : BudgetState) (g : ApprovalGate)
      → forced_provider i ≡ "local"
      → ((open_route k i cost b g).provider ≡ "local")
        × ((open_route k i cost b g).allowed ≡ local_ready k)
  unfolding open_route forced_provider_route
  open_route-local i cost b g asked = rw asked (ground arith, ground arith)
