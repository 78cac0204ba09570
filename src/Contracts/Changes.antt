-- ===== src/Contracts/Changes.antt =====
-- What each method of api_runs/service.py makes of the run contract that it loaded.
use project_os_core.Base.{
  ℕ, String, Bool, true, false, ◌||◌, Option, none, some, List, [], ◌∷◌, ◌++◌, ◌==◌, if◌then◌else◌,
}
use project_os_core.Base.Text.{or_text}
use project_os_core.Base.Dict.{Dict, get, put, pop, update}
use project_os_core.Base.Numbers.{ℤ, pos}
use project_os_core.Base.Result.{Result, ok, err, type_error}
use project_os_core.World.{number, integer, int_or_zero, text, flag}
use project_os_core.Costing.{estimate_usage_cost_eur}
use project_os_core.Mission.{ApiRunMode, audit, design, patch_plan, generate_patch}
use project_os_core.Contracts.{
  RunContractStatus, prepared, approved, rejected, executed, RunContract, Approval, ContractField,
  plain, approvals, ContextPack, MegaPromptTemplate,
}

abbrev pub contract_status_value : RunContractStatus → String
contract_status_value prepared = "prepared"
contract_status_value approved = "approved"
contract_status_value rejected = "rejected"
contract_status_value executed = "executed"

abbrev pub is_approved : RunContractStatus → Bool
is_approved approved = true
is_approved _ = false

abbrev hint_input : ApiRunMode → ℕ
hint_input audit = 18_000
hint_input design = 24_000
hint_input patch_plan = 22_000
hint_input generate_patch = 28_000

abbrev hint_output : ApiRunMode → ℕ
hint_output audit = 3000
hint_output design = 4000
hint_output patch_plan = 4500
hint_output generate_patch = 6000

-- int(output * 1.15) in floating point, where 3000 * 1.15 and 6000 * 1.15 lie just below the whole number
abbrev xhigh_output : ApiRunMode → ℕ
xhigh_output audit = 3449
xhigh_output design = 4600
xhigh_output patch_plan = 5175
xhigh_output generate_patch = 6899

-- the model, or the default one when the text is empty; 15 per cent more output when the effort is xhigh
unfoldable pub estimate_cost_hint : String → String → String → ApiRunMode → ℕ
unfolding estimate_usage_cost_eur
estimate_cost_hint default_model model effort mode =
    estimate_usage_cost_eur (some (if model == "" then default_model else model)) (hint_input mode)
      (if effort == "xhigh" then xhigh_output mode else hint_output mode)

-- founder_decision in {"go", "go_avec_correction", "stop"}
abbrev pub is_decision : String → Bool
is_decision d = d == "go" || d == "go_avec_correction" || d == "stop"

abbrev history_of : Option ContractField → List Approval
history_of (some (approvals xs)) = xs
history_of _ = []

-- int(metadata.get(key) or 0), or what `int` raises
abbrev pub count_of : Option ContractField → Result ℤ
count_of none = ok (pos 0)
count_of (some (plain v)) = int_or_zero v
count_of (some (approvals [])) = ok (pos 0)
count_of (some (approvals (a ∷ rest))) =
    err (type_error "int() argument must be a number or a string")

abbrev noted : Option String → Dict ContractField → Dict ContractField
noted none m = m
noted (some notes) m = if notes == "" then m else put "founder_notes" (plain (text notes)) m

abbrev decided_metadata : String → Option String → ℤ → ℕ → Dict ContractField → Dict ContractField
decided_metadata decision notes round now m =
    let kept =
      if decision == "stop"
      then pop "founder_decision_at" m
      else put "founder_decision_at" (plain (number now)) m in
    let cleared = pop "pending_clarification_report_id" (
      put "clarification_pending" (plain (flag false))
        (put "requires_reapproval" (plain (flag false)) kept)) in
    let told : Approval = record {
      decision = decision;
      notes = or_text notes "";
      timestamp = now;
      round = round;
    } in
    noted notes (
      put "approval_history" (approvals (history_of (get "approval_history" cleared) ++ told ∷ []))
        (put "approval_round" (plain (integer round)) cleared))

-- approve_run_contract, with the next round
unfoldable pub decided : String → Option String → ℤ → ℕ → RunContract → RunContract
decided decision notes round now c = record c {
  status = if decision == "stop" then rejected else approved;
  founder_decision = some decision;
  founder_decision_at = if decision == "stop" then none else some now;
  updated_at = now;
  metadata = decided_metadata decision notes round now c.metadata;
}

-- _mark_contract_clarification_pending
unfoldable pub clarified : String → Bool → ℕ → RunContract → RunContract
clarified report requires now c = record c {
  status = prepared;
  founder_decision = none;
  founder_decision_at = none;
  updated_at = now;
  metadata = pop "founder_decision_at" (
      put "last_clarification_report_id" (plain (text report)) (
        put "requires_reapproval" (plain (flag requires)) (
          put "pending_clarification_report_id" (plain (text report))
            (put "clarification_pending" (plain (flag true)) c.metadata))));
}

-- the transaction of execute_run that starts a run
unfoldable pub started : String → ℕ → RunContract → RunContract
started request now c = record c {
  status = executed;
  updated_at = now;
  metadata = put "last_run_request_id" (plain (text request)) c.metadata;
}

-- amend_run_contract, with the pack and the prompt that were rebuilt, and the next count
unfoldable pub amended :
    ContextPack
    → MegaPromptTemplate
    → ℕ
    → String
    → Dict ContractField
    → ℤ
    → ℕ
    → RunContract
    → RunContract
amended p t cost summary metadata count now c =
    let merged = update c.metadata metadata in
    record c {
      context_pack_id = p.context_pack_id;
      prompt_template_id = t.prompt_template_id;
      objective = p.objective;
      branch_name = p.branch_name;
      target_profile = p.target_profile;
      model = t.model;
      reasoning_effort = t.reasoning_effort;
      expected_outputs = t.output_contract;
      estimated_cost_eur = cost;
      summary = summary;
      success_criteria = p.acceptance_criteria;
      status = prepared;
      founder_decision = none;
      founder_decision_at = none;
      updated_at = now;
      metadata = pop "founder_decision_at" (
          pop "pending_clarification_report_id" (
            put "clarification_pending" (plain (flag false)) (
              put "requires_reapproval" (plain (flag true)) (
                put "amended_at" (plain (number now))
                  (put "amendment_count" (plain (integer count)) merged)))));
    }
