-- ===== src/Tests/MissionRuns.antt =====
-- Mission chains on concrete inputs, with API runs that complete at once.
use project_os_core.Base.{
  ◌≡◌, refl, ℕ, ◌<◌, true, false, none, some, List, [], ◌∷◌, ◌++◌, All, arith, String, length,
}
use project_os_core.Base.Sort.{sort_by}
use project_os_core.Base.Table.{fetchone}
use project_os_core.Base.Result.{ok}
use project_os_core.Mission.{
  audit, run_completed, run_failed, clarification_required, running, paused, completed, failed,
  MissionStep, MissionChain, StepRun, RunPayload, ApiRuns, Missions,
}
use project_os_core.Mission.Chains.{
  chain_key, NewChain, number_steps, resolve_steps, get_runs_for_step,
}
use project_os_core.Mission.Launch.{Launched, after_run}
use project_os_core.Mission.Advance.{Advanced, advance_chain}
use project_os_core.Mission.Steps.{Numbered, IsSound, resolve_steps-Numbered}
use project_os_core.Mission.Sound.{advance_chain-AllSound}
use project_os_core.Mission.Frame.{Follows, advance_chain-Follows}
use project_os_core.Mission.Progress.{IsAt, IsStopped, advance_chain-completes, advance_chain-fails}
use project_os_core.Mission.Guard.{after_run-unreported}
use project_os_core.Tests.Samples.{outside, context}

abbrev run_of : String → ℕ → StepRun
run_of id i = record {
  run_id = "run";
  status = run_completed;
  structured_output = "{}";
  estimated_cost = 40_000;
  created_at = 9;
  mission_chain_id = some id;
  mission_step_index = some i;
}

abbrev api : ApiRuns (List StepRun)
api = record {
  create_run_contract = λ q c e. (ok "contract", (c, e));
  guardian_pre_spend_check = λ q contract request c e. (none, (c, e));
  approve_run_contract = λ contract notes c e. (ok tt, (c, e));
  execute_run = λ q contract c e. (
    ok (record {
      run_id = "run";
      run_request_id = "request";
      status = run_completed;
      estimated_cost = 40_000;
      guardian_blocked = false;
      blocking_reason = none;
    }),
    (c, e ++ run_of q.mission_chain_id q.mission_step_index ∷ []),
  );
  runs = λ e. e;
}

abbrev only_step : MissionStep
only_step = record {
  step_index = 0;
  mode = audit;
  objective = "Audit";
  depends_on_previous = true;
  skip_on_previous_failure = false;
}

abbrev chain : MissionChain
chain = record {
  chain_id = "chain_1";
  objective = "Tidy up";
  steps = only_step ∷ [];
  current_step_index = 0;
  status = running;
  total_cost = 0;
  metadata = record {
    branch_name = "main";
    target_profile = none;
    skill_tags = [];
    source_paths = [];
    constraints = [];
    acceptance_criteria = [];
    template = "custom";
    extra = [];
  };
  created_at = 1;
  updated_at = 1;
}

abbrev service : List StepRun → Missions (List StepRun)
service runs = record { context = context; chains = chain ∷ []; api = runs }

abbrev failed_run : StepRun
failed_run = record (run_of "chain_1" 0) { status = run_failed }

resolve_steps-Numbered_example :
    (0 < length (number_steps 0 (only_step ∷ only_step ∷ [])))
    × Numbered 0 (number_steps 0 (only_step ∷ only_step ∷ []))
unfolding resolve_steps
resolve_steps-Numbered_example =
    resolve_steps-Numbered none (only_step ∷ only_step ∷ [])
      (number_steps 0 (only_step ∷ only_step ∷ [])) refl

All-IsSound : All IsSound (service []).chains
unfolding Numbered
All-IsSound = (record { in_range = omega arith; numbered = (refl, tt) }, tt)

abbrev refactor : NewChain
refactor = record {
  objective = " Tidy up ";
  branch_name = "main";
  chain_template = some "full_refactor";
  steps = [];
  target_profile = none;
  skill_tags = [];
  source_paths = [];
  constraints = [];
  acceptance_criteria = [];
  metadata = [];
}

advance_chain-AllSound_example :
    All IsSound (advance_chain outside api "chain_1" (service [])).1.chains
advance_chain-AllSound_example =
    advance_chain-AllSound outside api "chain_1" (service []) All-IsSound

stored : (runs : List StepRun) → fetchone chain_key "chain_1" (service runs).chains ≡ some chain
unfolding fetchone
stored runs = refl

advance_chain-Follows_example :
    (r : MissionChain) × (fetchone chain_key "chain_1"
        (advance_chain outside api "chain_1" (service [])).1.chains
      ≡ some r)
    × Follows outside api (service []) chain r
advance_chain-Follows_example =
    advance_chain-Follows outside api "chain_1" (service []) chain (stored [])

-- a step that has a run already
at_step :
    (r : StepRun)
    → r.mission_chain_id ≡ some "chain_1"
    → r.mission_step_index ≡ some 0
    → IsAt outside api (service (r ∷ [])) chain only_step r
unfolding get_runs_for_step sort_by
at_step r same_chain same_index = record {
  found = stored (r ∷ []);
  is_running = refl;
  step = refl;
  last = rw (same_chain, same_index) refl;
}

advance_chain-completes_example :
    let s = service (run_of "chain_1" 0 ∷ []) in
    let s' = (advance_chain outside api "chain_1" s).1 in
    IsStopped outside api "chain_1" completed s s'
    × ((a : Advanced) × ((advance_chain outside api "chain_1" s).0 ≡ ok a) × (a.status ≡ completed))
advance_chain-completes_example =
    advance_chain-completes outside api (service (run_of "chain_1" 0 ∷ [])) chain only_step
      (run_of "chain_1" 0) (at_step (run_of "chain_1" 0) refl refl) refl refl

advance_chain-fails_example :
    let s = service (failed_run ∷ []) in
    let s' = (advance_chain outside api "chain_1" s).1 in
    IsStopped outside api "chain_1" failed s s'
    × ((a : Advanced) × ((advance_chain outside api "chain_1" s).0 ≡ ok a) × (a.status ≡ failed))
advance_chain-fails_example =
    advance_chain-fails outside api (service (failed_run ∷ [])) chain only_step failed_run
      (at_step failed_run refl refl) refl (λ y e. absurd cc)

abbrev stopped_chain : MissionChain
stopped_chain = record chain { status = paused }

stored_stopped : fetchone chain_key "chain_1" (stopped_chain ∷ []) ≡ some stopped_chain
unfolding fetchone
stored_stopped = refl

abbrev blocked_run : RunPayload
blocked_run = record {
  run_id = "run";
  run_request_id = "request";
  status = clarification_required;
  estimated_cost = 0;
  guardian_blocked = true;
  blocking_reason = some "budget";
}

after_run-unreported_example :
    ((l : Launched) × ((after_run outside api chain only_step "contract" blocked_run (service [])).0
        ≡ ok l)
      × (l.guardian_blocked ≡ false))
    × IsStopped outside api "chain_1" paused
        (service [])
        (after_run outside api chain only_step "contract" blocked_run (service [])).1
after_run-unreported_example =
    after_run-unreported outside api (service []) chain only_step "contract" blocked_run (stored [])
      refl refl
