-- ===== src/Mission/Writes/Starts.antt =====
-- The launch of a step keeps what every write of its chain keeps.
use project_os_core.Base.{
  String, Bool, ◌≡◌, refl, true, false, inl, inr, Option, none, some, List, Bool-cases, ◌==◌,
  if◌then◌else◌,
}
use project_os_core.Base.Result.{Result, ok, err}
use project_os_core.World.{Outside, append}
use project_os_core.Mission.{MissionStep, MissionChain, RunPayload, StepRequest, ApiRuns, Missions}
use project_os_core.Mission.Chains.{chain_status, pause_chain}
use project_os_core.Mission.Launch.{
  approval_notes, after_call, block_step, record_block, pause_if_blocked, record_launch, after_run,
  run_step, guard_step, check_step, launch_step, step_request,
}
use project_os_core.Mission.Writes.{IsKept, then_kept, update_kept, status_kept, pause_chain_kept}

module _ {E : Type 0} (o : Outside) (api_runs : ApiRuns E) {id : String}
    {Q : List MissionChain → Type 0} {P : MissionChain → Type 0} (k : IsKept id Q P) where
  block_step_kept :
      (c : MissionChain) (x : MissionStep) (contract reason : String) (s : Missions E)
      → P c
      → Q s.chains
      → Q (block_step o api_runs c x contract reason s).1.chains
  unfolding block_step append
  block_step_kept c x contract reason s p h = update_kept o api_runs k c _ s refl p h

  record_block_kept :
      (c : MissionChain) (x : MissionStep) (r : RunPayload) (m : Result MissionChain × Missions E)
      → Q m.1.chains
      → Q (record_block o api_runs c x r m).1.chains
  unfolding append
  record_block_kept c x r (err e, s) h = h
  record_block_kept c x r (ok done, s) h = h

  pause_if_blocked_kept :
      (c : MissionChain) (x : MissionStep) (r : RunPayload) (s : Missions E)
      → c.chain_id ≡ id
      → Q s.chains
      → Q (pause_if_blocked o api_runs c x r s).1.chains
  unfolding pause_if_blocked
  pause_if_blocked_kept c x r s same h = pick _ (
      record_block_kept c x r (pause_chain o api_runs c.chain_id s)
        (pause_chain_kept o api_runs k c.chain_id s same h))
    where
      pick :
          (b : Bool)
          → Q (record_block o api_runs c x r (pause_chain o api_runs c.chain_id s)).1.chains
          → Q
              (if b
                then record_block o api_runs c x r (pause_chain o api_runs c.chain_id s)
                else (ok tt, s)).1.chains
      pick true g = g
      pick false g = h

  record_launch_kept :
      (c : MissionChain) (x : MissionStep) (contract : String) (r : RunPayload)
      (m : Result MissionChain) (s : Missions E)
      → ((row : MissionChain) → m ≡ ok row → P row)
      → Q s.chains
      → Q (record_launch o api_runs c x contract r m s).1.chains
  unfolding record_launch append
  record_launch_kept c x contract r (err e) s p h = h
  record_launch_kept c x contract r (ok row) s p h =
      update_kept o api_runs k row _ s refl (p row refl) h

  after_run_kept :
      (c : MissionChain) (x : MissionStep) (contract : String) (r : RunPayload) (s : Missions E)
      → c.chain_id ≡ id
      → Q s.chains
      → Q (after_run o api_runs c x contract r s).1.chains
  unfolding after_run
  after_run_kept c x contract r s same h =
      then_kept o api_runs k (pause_if_blocked o api_runs c x r s) _
        (pause_if_blocked_kept c x r s same h)
        (λ _ s' h'.
          record_launch_kept c x contract r (chain_status o api_runs c.chain_id s') s'
            (λ row. status_kept o api_runs k c.chain_id s' row same h') h')

  run_step_kept :
      (c : MissionChain) (x : MissionStep) (q : StepRequest) (contract : String) (s : Missions E)
      → c.chain_id ≡ id
      → Q s.chains
      → Q (run_step o api_runs c x q contract s).1.chains
  unfolding run_step
  run_step_kept c x q contract s same h =
      then_kept o api_runs k
        (after_call s (api_runs.approve_run_contract contract (approval_notes c x) s.context s.api))
        _ h
        (λ _ s1 h1.
          then_kept o api_runs k (after_call s1 (api_runs.execute_run q contract s1.context s1.api))
            _ h1 (λ r s2 h2. after_run_kept c x contract r s2 same h2))

  guard_step_kept :
      (c : MissionChain) (x : MissionStep) (q : StepRequest) (contract : String)
      (m : Option String × Missions E)
      → P c
      → Q m.1.chains
      → Q (guard_step o api_runs c x q contract m).1.chains
  unfolding guard_step
  guard_step_kept c x q contract (some reason, s) p h = block_step_kept c x contract reason s p h
  guard_step_kept c x q contract (none, s) p h = run_step_kept c x q contract s (k.named c p) h

  check_step_kept :
      (c : MissionChain) (x : MissionStep) (q : StepRequest) (contract : String) (s : Missions E)
      → P c
      → Q s.chains
      → Q (check_step o api_runs c x q contract s).1.chains
  unfolding check_step
  check_step_kept c x q contract s p h = guard_step_kept c x q contract _ p h

  pub launch_step_kept :
      (c : MissionChain) (x : MissionStep) (previous : Option String) (s : Missions E)
      → P c
      → Q s.chains
      → Q (launch_step o api_runs c x previous s).1.chains
  unfolding launch_step
  launch_step_kept c x previous s p h = elim (Bool-cases (c.metadata.branch_name == "")) [
    | inl missing ↦ rw missing h
    | inr named ↦ rw named (
        then_kept o api_runs k
          (after_call s (api_runs.create_run_contract (step_request c x previous) s.context s.api))
          (check_step o api_runs c x (step_request c x previous)) h
          (λ contract s' h'. check_step_kept c x (step_request c x previous) contract s' p h'))
  ]
