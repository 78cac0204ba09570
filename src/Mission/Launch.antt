-- ===== src/Mission/Launch.antt =====
-- `_launch_step` of mission/chain.py.
use Prim.Native.String.{◌++◌ as concat}
use project_os_core.Base.{
  ℕ, suc, String, Bool, ◌&&◌, true, false, Option, none, some, List, [], ◌∷◌, ◌++◌, ◌==◌,
  if◌then◌else◌,
}
use project_os_core.Base.Text.{is_member, decimal}
use project_os_core.Base.Result.{Result, ok, err, value_error, and_then}
use project_os_core.World.{Outside, Context, text, number, optional_text}
use project_os_core.Mission.{
  ApiRunMode, mode_value, ApiRunStatus, clarification_required, run_status_value, paused,
  chain_status_value, MissionStep, MissionChain, StepRequest, RunPayload, ApiRuns, Missions,
}
use project_os_core.Mission.Chains.{
  ChainFields, stop_fields, put_extra, chain_status, compute_total_cost, update_chain, journal,
  pause_chain,
}

-- what _launch_step returns: the keys that a branch does not set are none, or false
pub record Launched : Type 0 where
  pub chain_id : String
  pub step_index : ℕ
  pub mode : ApiRunMode
  pub contract_id : String
  pub run_id : Option String
  pub run_request_id : Option String
  pub status : ApiRunStatus
  pub estimated_cost : Option ℕ
  pub guardian_blocked : Bool
  pub blocking_reason : Option String

abbrev or_tags : List String → List String
or_tags [] = "mission_chain" ∷ []
or_tags (x ∷ xs) = x ∷ xs

-- if step.mode.value not in base_skill_tags: append
abbrev with_tag : String → List String → List String
with_tag tag tags = if is_member tag tags then tags else tags ++ tag ∷ []

-- str(target_profile or "") or None
abbrev or_no_text : Option String → Option String
or_no_text none = none
or_no_text (some t) = if t == "" then none else some t

unfoldable pub step_request : MissionChain → MissionStep → Option String → StepRequest
step_request c x previous = record {
  mode = x.mode;
  objective = concat x.objective (concat ". Mission objective: " c.objective);
  branch_name = c.metadata.branch_name;
  skill_tags = with_tag (mode_value x.mode) (or_tags c.metadata.skill_tags);
  target_profile = or_no_text c.metadata.target_profile;
  chain_metadata = c.metadata;
  mission_chain_id = c.chain_id;
  mission_step_index = x.step_index;
  chain_objective = c.objective;
  step_objective = x.objective;
  previous_output = previous;
}

abbrev pub is_clarification : ApiRunStatus → Bool
is_clarification clarification_required = true
is_clarification _ = false

-- f"Auto-approved from mission chain {chain.chain_id} step {step.step_index}."
abbrev pub approval_notes : MissionChain → MissionStep → String
approval_notes c x =
    concat "Auto-approved from mission chain "
      (concat c.chain_id (concat " step " (concat (decimal x.step_index) ".")))

-- what a call of the API runs leaves: its context and its state
abbrev pub after_call {ℓ} :
    {E : Type 0} {A : Type ℓ} → Missions E → A × (Context × E) → A × Missions E
after_call s (a, (c, e)) = (a, record s { context = c; api = e })

module _ {E : Type 0} (o : Outside) (api_runs : ApiRuns E) where
  -- _update_chain with the cost alone
  abbrev pub cost_only : String → E → ChainFields
  cost_only id e = record {
    current_step_index = none;
    status = none;
    total_cost = some (compute_total_cost o api_runs id e);
    metadata = none;
  }

  -- the branch `if not can_proceed`
  unfoldable pub block_step :
      MissionChain → MissionStep → String → String → Missions E → Result Launched × Missions E
  block_step c x contract reason s =
      let (done, s') =
        update_chain o api_runs c
          (stop_fields o api_runs paused
            (some (
              put_extra "guardian_blocked_step_index" (number x.step_index)
                (put_extra "guardian_blocking_reason" (text reason) c.metadata)))
            c.chain_id s.api)
          s in
      (
        ok (record {
          chain_id = c.chain_id;
          step_index = x.step_index;
          mode = x.mode;
          contract_id = contract;
          run_id = none;
          run_request_id = none;
          status = clarification_required;
          estimated_cost = none;
          guardian_blocked = true;
          blocking_reason = some reason;
        }),
        journal o api_runs "mission_chain_guardian_blocked"
            (("chain_id", text c.chain_id)
              ∷ ("step_index", number x.step_index)
              ∷ ("blocking_reason", text reason)
              ∷ ("status", text (chain_status_value done.status))
              ∷ ("contract_id", text contract)
              ∷ [])
            s',
      )

  abbrev pub record_block :
      MissionChain
      → MissionStep
      → RunPayload
      → Result MissionChain × Missions E
      → Result (Unit {0}) × Missions E
  record_block c x r (err e, s) = (err e, s)
  record_block c x r (ok done, s) = (
    ok tt,
    journal o api_runs "mission_chain_guardian_blocked"
        (("chain_id", text c.chain_id)
          ∷ ("step_index", number x.step_index)
          ∷ ("blocking_reason", optional_text r.blocking_reason)
          ∷ ("status", text (chain_status_value done.status))
          ∷ [])
        s,
  )

  -- the chain is paused when the guardian has stopped the run
  unfoldable pub pause_if_blocked :
      MissionChain → MissionStep → RunPayload → Missions E → Result (Unit {0}) × Missions E
  pause_if_blocked c x r s =
      if is_clarification r.status && r.guardian_blocked
      then record_block c x r (pause_chain o api_runs c.chain_id s)
      else (ok tt, s)

  unfoldable pub record_launch :
      MissionChain
      → MissionStep
      → String
      → RunPayload
      → Result MissionChain
      → Missions E
      → Result Launched × Missions E
  record_launch c x contract r (err e) s = (err e, s)
  record_launch c x contract r (ok row) s =
      let (done, s') = update_chain o api_runs row (cost_only c.chain_id s.api) s in
      (
        ok (record {
          chain_id = c.chain_id;
          step_index = x.step_index;
          mode = x.mode;
          contract_id = contract;
          run_id = some r.run_id;
          run_request_id = some r.run_request_id;
          status = r.status;
          estimated_cost = some r.estimated_cost;
          guardian_blocked = false;
          blocking_reason = none;
        }),
        journal o api_runs "mission_chain_step_launched"
            (("chain_id", text c.chain_id)
              ∷ ("step_index", number x.step_index)
              ∷ ("mode", text (mode_value x.mode))
              ∷ ("run_id", text r.run_id)
              ∷ ("status", text (run_status_value r.status))
              ∷ [])
            s',
      )

  -- what follows execute_run; the chain is read again before its cost is written
  unfoldable pub after_run :
      MissionChain → MissionStep → String → RunPayload → Missions E → Result Launched × Missions E
  unfolding pause_if_blocked record_launch
  after_run c x contract r s =
      and_then (pause_if_blocked c x r s)
        (λ _ s'. record_launch c x contract r (chain_status o api_runs c.chain_id s') s')

  -- the branch after a check that lets the run proceed
  unfoldable pub run_step :
      MissionChain → MissionStep → StepRequest → String → Missions E → Result Launched × Missions E
  unfolding after_run
  run_step c x q contract s =
      and_then
        (after_call s (api_runs.approve_run_contract contract (approval_notes c x) s.context s.api))
        (λ _ s1.
          and_then (after_call s1 (api_runs.execute_run q contract s1.context s1.api))
            (λ r s2. after_run c x contract r s2))

  unfoldable pub guard_step :
      MissionChain
      → MissionStep
      → StepRequest
      → String
      → Option String × Missions E
      → Result Launched × Missions E
  unfolding block_step run_step
  guard_step c x q contract (some reason, s) = block_step c x contract reason s
  guard_step c x q contract (none, s) = run_step c x q contract s

  -- the provisional request takes an identifier
  unfoldable pub check_step :
      MissionChain → MissionStep → StepRequest → String → Missions E → Result Launched × Missions E
  unfolding guard_step
  check_step c x q contract s =
      let context = record s.context { identifiers = suc s.context.identifiers } in
      guard_step c x q contract (
        after_call s (
          api_runs.guardian_pre_spend_check q contract (o.fresh "run_request" s.context.identifiers)
            context s.api))

  unfoldable pub launch_step :
      MissionChain → MissionStep → Option String → Missions E → Result Launched × Missions E
  unfolding check_step
  launch_step c x previous s =
      let q = step_request c x previous in
      if c.metadata.branch_name == ""
      then (err (value_error "mission chain requires branch_name metadata to launch a step"), s)
      else and_then (after_call s (api_runs.create_run_contract q s.context s.api))
          (λ contract s'. check_step c x q contract s')
