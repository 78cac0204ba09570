-- ===== src/Mission/Chains.antt =====
-- The table `mission_chains`: the creation of a chain, its reading, and the one method that writes it.
use Prim.Native.String.{◌++◌ as concat}
use project_os_core.Base.{
  ℕ, suc, zero, ◌+◌, String, Bool, ◌&&◌, ◌||◌, true, false, Option, none, some, List, [], ◌∷◌,
  filter, length, leb, ltb, eqb, ◌==◌, if◌then◌else◌, is_empty,
}
use project_os_core.Base.Dict.{Dict}
use project_os_core.Base.Text.{strip}
use project_os_core.Base.Sort.{sort_by}
use project_os_core.Base.Table.{fetchone, upsert}
use project_os_core.Base.Result.{Result, ok, err, key_error, value_error}
use project_os_core.World.{Outside, Value, text, number, append}
use project_os_core.Mission.{
  ApiRunMode, audit, design, patch_plan, generate_patch, ChainStatus, running, paused, failed,
  chain_status_value, MissionStep, ChainMetadata, MissionChain, StepRun, ApiRuns, Missions,
}

abbrev pub chain_key : MissionChain → String
chain_key c = c.chain_id

abbrev template_step : ℕ → ApiRunMode → String → MissionStep
template_step i mode objective = record {
  step_index = i;
  mode = mode;
  objective = objective;
  depends_on_previous = true;
  skip_on_previous_failure = false;
}

-- STANDARD_CHAINS.get(name)
unfoldable pub standard_chain : String → Option (List MissionStep)
standard_chain name =
    if name == "full_refactor"
    then some (
        template_step 0 audit "Audit complet du module cible"
        ∷ template_step 1 design "Plan de refactoring base sur l'audit"
        ∷ template_step 2 patch_plan "Patch plan detaille"
        ∷ template_step 3 generate_patch "Generation du patch"
        ∷ [])
    else if name == "audit_then_patch"
    then some (
        template_step 0 audit "Audit du code existant"
        ∷ template_step 1 generate_patch "Patch base sur l'audit"
        ∷ [])
    else if name == "design_only"
    then some (template_step 0 audit "Audit rapide" ∷ template_step 1 design "Design complet" ∷ [])
    else none

-- [MissionStep(step_index=index, …) for index, step in enumerate(steps)], counted from i
unfoldable pub number_steps : ℕ → List MissionStep → List MissionStep
number_steps i [] = []
number_steps i (x ∷ xs) = record x { step_index = i } ∷ number_steps (suc i) xs

abbrev template_steps : String → Option (List MissionStep) → Result (List MissionStep)
template_steps name none = err (key_error (concat "Unknown mission chain template: " name))
template_steps name (some steps) = ok (number_steps 0 steps)

abbrev named_steps : Option String → Result (List MissionStep)
named_steps none = err (value_error "chain_template or steps is required")
named_steps (some name) =
    if name == ""
    then err (value_error "chain_template or steps is required")
    else template_steps name (standard_chain name)

-- an empty list of steps is as none
unfoldable pub resolve_steps : Option String → List MissionStep → Result (List MissionStep)
resolve_steps template [] = named_steps template
resolve_steps template (x ∷ xs) = ok (number_steps 0 (x ∷ xs))

-- the arguments of create_chain
pub record NewChain : Type 0 where
  pub objective : String
  pub branch_name : String
  pub chain_template : Option String
  pub steps : List MissionStep
  pub target_profile : Option String
  pub skill_tags : List String
  pub source_paths : List String
  pub constraints : List String
  pub acceptance_criteria : List String
  pub metadata : Dict Value

abbrev or_tags : List String → List String
or_tags [] = "mission_chain" ∷ []
or_tags (x ∷ xs) = x ∷ xs

abbrev or_custom : Option String → String
or_custom none = "custom"
or_custom (some name) = if name == "" then "custom" else name

unfoldable pub new_chain : String → ℕ → ℕ → List MissionStep → NewChain → MissionChain
new_chain id created updated steps n = record {
  chain_id = id;
  objective = strip n.objective;
  steps = steps;
  current_step_index = 0;
  status = running;
  total_cost = 0;
  metadata = record {
    branch_name = n.branch_name;
    target_profile = n.target_profile;
    skill_tags = or_tags n.skill_tags;
    source_paths = n.source_paths;
    constraints = n.constraints;
    acceptance_criteria = n.acceptance_criteria;
    template = or_custom n.chain_template;
    extra = n.metadata;
  };
  created_at = created;
  updated_at = updated;
}

-- ON CONFLICT(chain_id) DO UPDATE, with `created_at` immutable
abbrev pub keep_created : MissionChain → MissionChain → MissionChain
keep_created old new = record new { created_at = old.created_at }

-- _persist_chain
unfoldable pub persist_chain : MissionChain → List MissionChain → List MissionChain
persist_chain c rows = upsert chain_key keep_created c rows

-- the arguments of _update_chain
pub record ChainFields : Type 0 where
  pub current_step_index : Option ℕ
  pub status : Option ChainStatus
  pub total_cost : Option ℕ
  pub metadata : Option ChainMetadata

abbrev pub or_old {ℓ} : {A : Type ℓ} → Option A → A → A
or_old none old = old
or_old (some new) old = new

unfoldable pub updated_chain : ℕ → ChainFields → MissionChain → MissionChain
updated_chain now f c = record c {
  current_step_index = or_old f.current_step_index c.current_step_index;
  status = or_old f.status c.status;
  total_cost = or_old f.total_cost c.total_cost;
  metadata = or_old f.metadata c.metadata;
  updated_at = now;
}

-- {**metadata, key: value}
abbrev pub put_extra : String → Value → ChainMetadata → ChainMetadata
put_extra k v m = record m { extra = project_os_core.Base.Dict.put k v m.extra }

abbrev found_chain : String → Option MissionChain → Result MissionChain
found_chain id none = err (key_error (concat "Unknown mission chain: " id))
found_chain id (some c) = ok c

abbrev newest_first : MissionChain → MissionChain → Bool
newest_first a b = leb b.updated_at a.updated_at

-- if status: WHERE status = ?
abbrev has_status : Option String → MissionChain → Bool
has_status none c = true
has_status (some wanted) c = wanted == "" || chain_status_value c.status == wanted

abbrev same_text : String → Option String → Bool
same_text id none = false
same_text id (some other) = other == id

abbrev same_number : ℕ → Option ℕ → Bool
same_number i none = false
same_number i (some j) = eqb i j

abbrev oldest_first : StepRun → StepRun → Bool
oldest_first a b = leb a.created_at b.created_at

unfoldable pub sum_costs : String → List StepRun → ℕ
sum_costs id [] = 0
sum_costs id (r ∷ rs) =
    let rest = sum_costs id rs in
    if same_text id r.mission_chain_id then r.estimated_cost + rest else rest

module _ {E : Type 0} (o : Outside) (api_runs : ApiRuns E) where
  unfoldable pub chain_status : String → Missions E → Result MissionChain
  chain_status id s = found_chain id (fetchone chain_key id s.chains)

  unfoldable pub list_chains : Option String → Missions E → List MissionChain
  list_chains status s = sort_by newest_first (filter (has_status status) s.chains)

  -- _get_runs_for_step
  unfoldable pub get_runs_for_step : String → ℕ → E → List StepRun
  get_runs_for_step id i e = sort_by oldest_first (
      filter (λ r. same_text id r.mission_chain_id && same_number i r.mission_step_index)
        (api_runs.runs e))

  -- _compute_total_cost_eur
  unfoldable pub compute_total_cost : String → E → ℕ
  compute_total_cost id e = sum_costs id (api_runs.runs e)

  -- _update_chain
  unfoldable pub update_chain : MissionChain → ChainFields → Missions E → MissionChain × Missions E
  update_chain c f s =
      let updated = updated_chain (o.wall s.context.readings) f c in
      (
        updated,
        record s {
          context = record s.context { readings = suc s.context.readings };
          chains = persist_chain updated s.chains;
        },
      )

  -- journal.append with the service as its source
  abbrev pub journal : String → Dict Value → Missions E → Missions E
  journal event payload s = record s { context = append o event "mission_chain" payload s.context }

  -- a status with the cost of all runs
  abbrev pub stop_fields : ChainStatus → Option ChainMetadata → String → E → ChainFields
  stop_fields status metadata id e = record {
    current_step_index = none;
    status = some status;
    total_cost = some (compute_total_cost id e);
    metadata = metadata;
  }

  abbrev pub fail_found :
      String → String → Result MissionChain → Missions E → Result MissionChain × Missions E
  fail_found id reason (err e) s = (err e, s)
  fail_found id reason (ok c) s =
      let (done, s') =
        update_chain c
          (stop_fields failed (some (put_extra "failure_reason" (text reason) c.metadata)) id s.api)
          s in
      (
        ok done,
        journal "mission_chain_failed" (("chain_id", text id) ∷ ("reason", text reason) ∷ []) s',
      )

  unfoldable pub fail_chain : String → String → Missions E → Result MissionChain × Missions E
  fail_chain id reason s = fail_found id reason (chain_status id s) s

  abbrev pub pause_found :
      String → Result MissionChain → Missions E → Result MissionChain × Missions E
  pause_found id (err e) s = (err e, s)
  pause_found id (ok c) s =
      let (done, s') = update_chain c (stop_fields paused (none) id s.api) s in
      (
        ok done,
        journal "mission_chain_paused"
            (("chain_id", text id) ∷ ("current_step_index", number done.current_step_index) ∷ [])
            s',
      )

  unfoldable pub pause_chain : String → Missions E → Result MissionChain × Missions E
  pause_chain id s = pause_found id (chain_status id s) s

  abbrev pub create_resolved :
      NewChain → Result (List MissionStep) → Missions E → Result MissionChain × Missions E
  create_resolved n (err e) s = (err e, s)
  create_resolved n (ok steps) s =
      let c = s.context in
      let chain =
        new_chain (o.fresh "mission_chain" c.identifiers) (o.wall c.readings)
          (o.wall (suc c.readings)) steps n in
      (
        ok chain,
        journal "mission_chain_created"
            (("chain_id", text chain.chain_id)
              ∷ ("objective", text chain.objective)
              ∷ ("branch_name", text n.branch_name)
              ∷ ("step_count", number (length steps))
              ∷ ("template", text chain.metadata.template)
              ∷ [])
            (record s {
              context = record c { readings = c.readings + 2; identifiers = suc c.identifiers };
              chains = persist_chain chain s.chains;
            }),
      )

  unfoldable pub create_chain : NewChain → Missions E → Result MissionChain × Missions E
  create_chain n s = create_resolved n (resolve_steps n.chain_template n.steps) s
