-- ===== src/Mission/Advance.antt =====
-- `advance_chain` of mission/chain.py.
use Prim.Native.String.{◌++◌ as concat}
use project_os_core.Base.{
  ℕ, suc, String, Bool, true, false, Option, none, some, [], ◌∷◌, get_elem?, get_last?,
}
use project_os_core.Base.Text.{decimal}
use project_os_core.Base.Result.{Result, ok, err, index_error}
use project_os_core.World.{Outside, text, number}
use project_os_core.Mission.{
  ApiRunStatus, run_completed, run_failed, reviewed, ChainStatus, running, paused, completed,
  MissionStep, ChainMetadata, MissionChain, StepRun, ApiRuns, Missions,
}
use project_os_core.Mission.Chains.{
  ChainFields, stop_fields, put_extra, chain_status, get_runs_for_step, compute_total_cost,
  update_chain, journal, fail_chain,
}
use project_os_core.Mission.Launch.{Launched, launch_step}

pub data Action : Type 0 where
  no_action launched guardian_blocked wait : Action

-- what advance_chain returns: the keys that a branch does not set are none
pub record Advanced : Type 0 where
  pub status : ChainStatus
  pub action : Action
  pub chain_id : String
  pub step : Option MissionStep
  pub previous_output : Option String
  pub skipped_failed_step_index : Option ℕ
  pub payload : Option Launched
  pub total_cost : Option ℕ
  pub reason : Option String

abbrev pub answer : ChainStatus → Action → MissionChain → Advanced
answer status action c = record {
  status = status;
  action = action;
  chain_id = c.chain_id;
  step = none;
  previous_output = none;
  skipped_failed_step_index = none;
  payload = none;
  total_cost = none;
  reason = none;
}

abbrev pub launch_status : Bool → ChainStatus
launch_status true = paused
launch_status false = running

abbrev pub launch_action : Bool → Action
launch_action true = guardian_blocked
launch_action false = launched

-- the answer to a launch: paused if launched.get("guardian_blocked"), running if not
abbrev pub launch_answer :
    MissionChain → MissionStep → Option String → Option ℕ → Launched → Advanced
launch_answer c x previous skipped l =
    record (answer (launch_status l.guardian_blocked) (launch_action l.guardian_blocked) c) {
      step = some x;
      previous_output = previous;
      skipped_failed_step_index = skipped;
      payload = some l;
    }

abbrev pub answered {ℓ κ} : {A : Type ℓ} {B S : Type κ} → (A → B) → Result A × S → Result B × S
answered f (ok a, s) = (ok (f a), s)
answered f (err e, s) = (err e, s)

module _ {E : Type 0} (o : Outside) (api_runs : ApiRuns E) where
  abbrev pub move_fields : MissionChain → Option ChainMetadata → E → ChainFields
  move_fields c metadata e = record {
    current_step_index = some (suc c.current_step_index);
    status = none;
    total_cost = some (compute_total_cost o api_runs c.chain_id e);
    metadata = metadata;
  }

  abbrev pub move_to : MissionChain → Option ChainMetadata → Missions E → MissionChain × Missions E
  move_to c metadata s = update_chain o api_runs c (move_fields c metadata s.api) s

  -- the branch for the first run of a step
  unfoldable pub start_step : MissionChain → MissionStep → Missions E → Result Advanced × Missions E
  start_step c x s = answered (launch_answer c x none none) (launch_step o api_runs c x none s)

  -- the branches for a completed or reviewed run
  unfoldable pub succeed_step :
      MissionChain → StepRun → Option MissionStep → Missions E → Result Advanced × Missions E
  succeed_step c r none s =
      let (done, s') =
        update_chain o api_runs c (stop_fields o api_runs completed none c.chain_id s.api) s in
      (
        ok (record (answer completed no_action c) { total_cost = some done.total_cost }),
        journal o api_runs "mission_chain_completed"
            (("chain_id", text c.chain_id) ∷ ("total_cost_eur", number done.total_cost) ∷ []) s',
      )
  succeed_step c r (some x) s =
      let (moved, s') = move_to c none s in
      answered (launch_answer c x (some r.structured_output) none)
        (launch_step o api_runs moved x (some r.structured_output) s')

  -- f"step_{index}_failed"
  abbrev pub step_failure : MissionChain → String
  step_failure c = concat "step_" (concat (decimal c.current_step_index) "_failed")

  abbrev pub fail_answer : MissionChain → MissionChain → Advanced
  fail_answer c done = record (answer done.status no_action c) { reason = some "step_failed" }

  unfoldable pub fail_step : MissionChain → Missions E → Result Advanced × Missions E
  fail_step c s = answered (fail_answer c) (fail_chain o api_runs c.chain_id (step_failure c) s)

  abbrev pub skip_metadata : MissionChain → ChainMetadata
  skip_metadata c =
      put_extra "skip_reason" (text "previous_step_failed")
        (put_extra "last_skipped_step_index" (number c.current_step_index) c.metadata)

  unfoldable pub skip_step :
      MissionChain → StepRun → MissionStep → Missions E → Result Advanced × Missions E
  skip_step c r x s =
      let (moved, s') = move_to c (some (skip_metadata c)) s in
      answered (launch_answer c x none (some c.current_step_index))
        (launch_step o api_runs moved x (some r.structured_output) s')

  abbrev pub skip_or_fail :
      Bool → MissionChain → StepRun → MissionStep → Missions E → Result Advanced × Missions E
  skip_or_fail true c r x s = skip_step c r x s
  skip_or_fail false c r x s = fail_step c s

  -- the branches for a failed run
  unfoldable pub after_failure :
      MissionChain → StepRun → Option MissionStep → Missions E → Result Advanced × Missions E
  after_failure c r none s = fail_step c s
  after_failure c r (some x) s = skip_or_fail x.skip_on_previous_failure c r x s

  abbrev pub on_status :
      ApiRunStatus
      → MissionChain
      → StepRun
      → Option MissionStep
      → Missions E
      → Result Advanced × Missions E
  on_status run_completed c r next s = succeed_step c r next s
  on_status reviewed c r next s = succeed_step c r next s
  on_status run_failed c r next s = after_failure c r next s
  on_status _ c r next s = (ok (answer running wait c), s)

  -- the branches on the last run of the step
  abbrev pub on_last :
      MissionChain → MissionStep → Option StepRun → Missions E → Result Advanced × Missions E
  on_last c x none s = start_step c x s
  on_last c x (some r) s = on_status r.status c r (get_elem? c.steps (suc c.current_step_index)) s

  -- chain.steps[chain.current_step_index]
  abbrev pub on_step : MissionChain → Option MissionStep → Missions E → Result Advanced × Missions E
  on_step c none s = (err (index_error "list index out of range"), s)
  on_step c (some x) s =
      on_last c x (get_last? (get_runs_for_step o api_runs c.chain_id c.current_step_index s.api)) s

  abbrev pub on_chain : ChainStatus → MissionChain → Missions E → Result Advanced × Missions E
  on_chain running c s = on_step c (get_elem? c.steps c.current_step_index) s
  on_chain status c s = (ok (answer status no_action c), s)

  abbrev pub advance_found : Result MissionChain → Missions E → Result Advanced × Missions E
  advance_found (err e) s = (err e, s)
  advance_found (ok c) s = on_chain c.status c s

  unfoldable pub advance_chain : String → Missions E → Result Advanced × Missions E
  advance_chain id s = advance_found (chain_status o api_runs id s) s
