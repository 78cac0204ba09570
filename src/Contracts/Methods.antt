-- ===== src/Contracts/Methods.antt =====
-- The methods of api_runs/service.py on run contracts. Each loads the row, changes the copy and writes it
-- back with the time of the change that it loaded. Clock readings of the rebuilt packs are the parameters'.
use Prim.Native.String.{◌++◌ as concat}
use package.text.Mathlib.Text.{starts_with}
use project_os_core.Base.{
  ℕ, suc, String, Bool, Option, none, some, List, [], ◌∷◌, ◌++◌, not, ◌==◌, if◌then◌else◌,
}
use project_os_core.Base.Text.{strip, lower, or_text}
use project_os_core.Base.Dict.{Dict, get, update}
use project_os_core.Base.Numbers.{ℤ, suc_int}
use project_os_core.Base.Table.{fetchone}
use project_os_core.Base.Result.{Result, ok, err, and_then, key_error, value_error, runtime_error}
use project_os_core.World.{Outside, Context, Value, null, text, number, int_or_zero, append}
use project_os_core.Mission.{ApiRunMode, mode_value}
use project_os_core.Contracts.{
  prepared, RunContract, ContractField, plain, ContextPack, MegaPromptTemplate, Contracts,
  contract_key, pack_key, template_key,
}
use project_os_core.Contracts.Writes.{persist_run_contract}
use project_os_core.Contracts.Changes.{
  contract_status_value, is_approved, estimate_cost_hint, is_decision, count_of, decided, clarified,
  started, amended,
}

abbrev or_key_error {ℓ} : {A : Type ℓ} → String → Option A → Result A
or_key_error message none = err (key_error message)
or_key_error message (some a) = ok a

unfoldable pub get_run_contract : String → Contracts → Result RunContract
get_run_contract id s =
    or_key_error (concat "Unknown contract_id: " id) (fetchone contract_key id s.contracts)

unfoldable pub get_context_pack : String → Contracts → Result ContextPack
get_context_pack id s =
    or_key_error (concat "Unknown context_pack_id: " id) (fetchone pack_key id s.packs)

unfoldable pub get_prompt_template : String → Contracts → Result MegaPromptTemplate
get_prompt_template id s =
    or_key_error (concat "Unknown prompt_template_id: " id) (fetchone template_key id s.templates)

-- the arguments of amend_run_contract, and of build_context_pack
pub record Amendment : Type 0 where
  pub objective : Option String
  pub branch_name : Option String
  pub target_profile : Option String
  pub constraints : List String
  pub acceptance_criteria : List String
  pub metadata : Dict ContractField

pub record PackRequest : Type 0 where
  pub mode : ApiRunMode
  pub objective : String
  pub branch_name : String
  pub skill_tags : List String
  pub target_profile : Option String
  pub source_paths : List String
  pub constraints : List String
  pub acceptance_criteria : List String
  pub metadata : Dict ContractField

-- What the methods need of the rest of the service: `format_cost` is the format `.4f` of a cost.
pub record Planner : Type 0 where
  pub default_model : String
  pub current_branch : String
  pub format_cost : ℕ → String
  pub write_runtime_json : String → String → Context → Result String
  pub build_context_pack : PackRequest → Context → Result ContextPack × Context
  pub render_prompt : ContextPack → Context → Result MegaPromptTemplate × Context

-- _normalize_branch_name
unfoldable pub normalize_branch_name : Planner → String → Result String
normalize_branch_name k name =
    let candidate = if name == "" then k.current_branch else name in
    if starts_with candidate "codex/project-os-"
    then ok candidate
    else err (value_error "API runs must target a codex/project-os-* branch")

unfoldable pub build_contract_summary : Planner → ContextPack → MegaPromptTemplate → ℕ → String
build_contract_summary k p t cost = concat "Run " (
    concat (mode_value p.mode) (
      concat " sur " (
        concat p.branch_name (
          concat ". L'API travaillera en silence sur " (
            concat t.model (
              concat " (" (
                concat t.reasoning_effort
                  (concat ") avec un cout estime de " (concat (k.format_cost cost) " EUR.")))))))))

abbrev or_list : List String → List String → List String
or_list [] ys = ys
or_list (x ∷ xs) ys = x ∷ xs

abbrev or_given : Option String → Option String → Option String
or_given none y = y
or_given (some x) y = some x

-- x or y
abbrev or_truthy : Option String → Option String → Option String
or_truthy none y = y
or_truthy (some x) y = if x == "" then y else some x

module _ (o : Outside) (k : Planner) where
  abbrev journal : String → Dict Value → Contracts → Contracts
  journal event payload s = record s { context = append o event "api_runs" payload s.context }

  -- datetime.now
  abbrev now : Contracts → ℕ
  now s = o.wall s.context.readings

  abbrev after_now : Contracts → Contracts
  after_now s = let c = s.context in record s { context = record c { readings = suc c.readings } }

  -- a look-up, which may raise before anything is changed
  abbrev pub with_result :
      {A B : Type 0}
      → Result A
      → (A → Contracts → Result B × Contracts)
      → Contracts
      → Result B × Contracts
  with_result (err e) f s = (err e, s)
  with_result (ok a) f s = f a s

  abbrev persist : Option ℕ → RunContract → Contracts → Result RunContract × Contracts
  persist expected c s = persist_run_contract k.write_runtime_json expected c s

  unfoldable pub new_contract :
      Option String → Dict ContractField → ContextPack → MegaPromptTemplate → Context → RunContract
  unfolding estimate_cost_hint build_contract_summary
  new_contract target metadata p t c =
      let cost = estimate_cost_hint k.default_model t.model t.reasoning_effort p.mode in
      record {
        contract_id = o.fresh "run_contract" c.identifiers;
        context_pack_id = p.context_pack_id;
        prompt_template_id = t.prompt_template_id;
        mode = p.mode;
        objective = p.objective;
        branch_name = p.branch_name;
        target_profile = or_truthy target p.target_profile;
        model = t.model;
        reasoning_effort = t.reasoning_effort;
        expected_outputs = t.output_contract;
        summary = build_contract_summary k p t cost;
        success_criteria = p.acceptance_criteria;
        estimated_cost_eur = cost;
        founder_decision = none;
        founder_decision_at = none;
        status = prepared;
        metadata = metadata;
        created_at = o.wall c.readings;
        updated_at = o.wall (suc c.readings);
      }

  abbrev used_for_contract : Contracts → Contracts
  used_for_contract s =
      let c = s.context in
      record s {
        context = record c { readings = suc (suc c.readings); identifiers = suc c.identifiers };
      }

  abbrev told_created : RunContract → Contracts → Result RunContract × Contracts
  told_created c s = (
    ok c,
    journal "api_run_contract_created"
        (("contract_id", text c.contract_id)
          ∷ ("mode", text (mode_value c.mode))
          ∷ ("branch_name", text c.branch_name)
          ∷ ("estimated_cost_eur", number c.estimated_cost_eur)
          ∷ [])
        s,
  )

  abbrev pub create_of :
      Option String
      → Dict ContractField
      → ContextPack
      → MegaPromptTemplate
      → Contracts
      → Result RunContract × Contracts
  create_of target metadata p t s =
      and_then (persist none (new_contract target metadata p t s.context) (used_for_contract s))
        told_created

  unfoldable pub create_run_contract :
      String
      → String
      → Option String
      → Dict ContractField
      → Contracts
      → Result RunContract × Contracts
  unfolding get_context_pack get_prompt_template new_contract append
  create_run_contract pack template target metadata s =
      with_result (get_context_pack pack s)
        (λ p. with_result (get_prompt_template template s) (create_of target metadata p)) s

  abbrev told_updated : RunContract → Contracts → Result RunContract × Contracts
  told_updated c s = (
    ok c,
    journal "api_run_contract_updated"
        (("contract_id", text c.contract_id)
          ∷ ("status", text (contract_status_value c.status))
          ∷ ("founder_decision", text (or_text c.founder_decision ""))
          ∷ [])
        s,
  )

  -- approve_run_contract once the round is read
  abbrev pub approve_counted :
      String → Option String → RunContract → ℕ → ℤ → Contracts → Result RunContract × Contracts
  approve_counted normalized notes c at round s =
      and_then (persist (some c.updated_at) (decided normalized notes (suc_int round) at c) s)
        told_updated

  -- approve_run_contract once the contract is loaded
  unfoldable pub approve_loaded :
      String → Option String → RunContract → Contracts → Result RunContract × Contracts
  unfolding strip lower decided append int_or_zero
  approve_loaded founder_decision notes c s =
      let normalized = lower (strip founder_decision) in
      if not (is_decision normalized)
      then (err (value_error "founder_decision must be go, go_avec_correction, or stop"), s)
      else with_result (count_of (get "approval_round" c.metadata))
          (approve_counted normalized notes c (now s)) (after_now s)

  unfoldable pub approve_run_contract :
      String → String → Option String → Contracts → Result RunContract × Contracts
  unfolding get_run_contract approve_loaded
  approve_run_contract id founder_decision notes s =
      with_result (get_run_contract id s) (approve_loaded founder_decision notes) s

  -- the arguments of build_context_pack for an amendment
  abbrev pub amended_request : Amendment → RunContract → ContextPack → String → PackRequest
  amended_request a c p branch = record {
    mode = c.mode;
    objective = strip (or_text a.objective c.objective);
    branch_name = branch;
    skill_tags = p.skill_tags;
    target_profile = or_given a.target_profile c.target_profile;
    source_paths = p.source_paths;
    constraints = or_list a.constraints p.constraints;
    acceptance_criteria = or_list a.acceptance_criteria p.acceptance_criteria;
    metadata = update p.metadata a.metadata;
  }

  -- the pack and the prompt are stored as they are built
  abbrev pub built : Result ContextPack × Context → Contracts → Result ContextPack × Contracts
  built (err e, c) s = (err e, record s { context = c })
  built (ok p, c) s = (ok p, record s { context = c; packs = s.packs ++ p ∷ [] })

  abbrev pub rendered :
      Result MegaPromptTemplate × Context → Contracts → Result MegaPromptTemplate × Contracts
  rendered (err e, c) s = (err e, record s { context = c })
  rendered (ok t, c) s = (ok t, record s { context = c; templates = s.templates ++ t ∷ [] })

  -- what a key holds, which the amendment has just set to a number
  abbrev scalar : Option ContractField → Value
  scalar (some (plain v)) = v
  scalar _ = null

  abbrev told_amended : RunContract → Contracts → Result RunContract × Contracts
  told_amended c s = (
    ok c,
    journal "api_run_contract_amended"
        (("contract_id", text c.contract_id)
          ∷ ("mode", text (mode_value c.mode))
          ∷ ("branch_name", text c.branch_name)
          ∷ ("amendment_count", scalar (get "amendment_count" c.metadata))
          ∷ [])
        s,
  )

  -- amend_run_contract once the count is read
  abbrev pub amend_counted :
      Amendment
      → RunContract
      → ContextPack
      → MegaPromptTemplate
      → ℕ
      → String
      → ℕ
      → ℤ
      → Contracts
      → Result RunContract × Contracts
  amend_counted a c p t cost summary at count s =
      and_then
        (persist (some c.updated_at) (amended p t cost summary a.metadata (suc_int count) at c) s)
        told_amended

  abbrev pub amend_built :
      Amendment
      → RunContract
      → ContextPack
      → MegaPromptTemplate
      → Contracts
      → Result RunContract × Contracts
  amend_built a c p t s =
      let cost = estimate_cost_hint k.default_model t.model t.reasoning_effort c.mode in
      let summary = build_contract_summary k p t cost in
      with_result (count_of (get "amendment_count" (update c.metadata a.metadata)))
        (amend_counted a c p t cost summary (now s)) (after_now s)

  -- amend_run_contract from the new pack, from the branch, and from the old pack
  abbrev pub amend_with :
      Amendment → RunContract → ContextPack → Contracts → Result RunContract × Contracts
  amend_with a c q s = and_then (rendered (k.render_prompt q s.context) s) (amend_built a c q)

  abbrev pub amend_on :
      Amendment → RunContract → ContextPack → String → Contracts → Result RunContract × Contracts
  amend_on a c p branch s =
      and_then (built (k.build_context_pack (amended_request a c p branch) s.context) s)
        (amend_with a c)

  abbrev pub amend_from :
      Amendment → RunContract → ContextPack → Contracts → Result RunContract × Contracts
  amend_from a c p s =
      with_result (normalize_branch_name k (or_text a.branch_name c.branch_name)) (amend_on a c p) s

  -- amend_run_contract once the contract is loaded
  unfoldable pub amend_loaded : Amendment → RunContract → Contracts → Result RunContract × Contracts
  unfolding get_context_pack normalize_branch_name estimate_cost_hint build_contract_summary amended
      append strip int_or_zero
  amend_loaded a c s = with_result (get_context_pack c.context_pack_id s) (amend_from a c) s

  unfoldable pub amend_run_contract :
      String → Amendment → Contracts → Result RunContract × Contracts
  unfolding get_run_contract amend_loaded
  amend_run_contract id a s = with_result (get_run_contract id s) (amend_loaded a) s

  -- _mark_contract_clarification_pending, with the report's identifier and whether it asks for an approval
  unfoldable pub mark_contract_clarification_pending :
      String → Bool → Option ℕ → RunContract → Contracts → Result RunContract × Contracts
  unfolding clarified
  mark_contract_clarification_pending report requires expected c s =
      persist expected (clarified report requires (now s) c) (after_now s)

  -- What execute_run does to its contract: the guard, and the write of the transaction that starts the run,
  -- for the request of this identifier.
  unfoldable pub start_loaded : String → RunContract → Contracts → Result RunContract × Contracts
  unfolding started
  start_loaded request c s =
      if is_approved c.status
      then persist (some c.updated_at) (started request (now s) c) (after_now s)
      else (err (runtime_error "Le contrat de run doit etre approuve avant l'execution."), s)

  unfoldable pub start_contract : String → String → Contracts → Result RunContract × Contracts
  unfolding get_run_contract start_loaded
  start_contract id request s = with_result (get_run_contract id s) (start_loaded request) s
