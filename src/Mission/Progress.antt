-- ===== src/Mission/Progress.antt =====
-- What `advance_chain` of mission/chain.py does on each branch of a chain's status and last run.
use project_os_core.Base.{
  suc, String, ◌≡◌, ◌≢◌, refl, true, false, Option, none, some, get_elem?, get_last?,
}
use project_os_core.Base.Table.{fetchone}
use project_os_core.Base.Result.{Result, ok, err}
use project_os_core.Base.Dict.{Dict}
use project_os_core.World.{Outside, Value}
use project_os_core.Mission.{
  ApiRunStatus, run_completed, run_failed, reviewed, prepared, awaiting_go, executing,
  clarification_required, run_paused, stopped, ChainStatus, running, paused, completed, failed,
  MissionStep, ChainMetadata, MissionChain, StepRun, ApiRuns, Missions,
}
use project_os_core.Mission.Chains.{
  chain_key, updated_chain, chain_status, get_runs_for_step, compute_total_cost, sum_costs,
  update_chain, stop_fields, journal, fail_chain,
}
use project_os_core.Mission.Advance.{
  Advanced, answer, no_action, succeed_step, fail_step, fail_answer, answered, step_failure,
  after_failure, on_status, on_chain, advance_chain,
}
use project_os_core.Mission.Writes.Moves.{is_done}
use project_os_core.Mission.Frame.{update_chain-stored}

module _ {E : Type 0} (o : Outside) (api_runs : ApiRuns E) where
  idle_status :
      (x : ChainStatus) (c : MissionChain) (s : Missions E)
      → x ≢ running
      → on_chain o api_runs x c s ≡ (ok (answer x no_action c), s)
  idle_status running c s h = absurd (h refl)
  idle_status paused c s h = refl
  idle_status completed c s h = refl
  idle_status failed c s h = refl

  -- An advance of a stored chain that is not running changes nothing at all, and answers its
  -- status.
  pub advance_chain-idle :
      (id : String) (s : Missions E) (c : MissionChain)
      → fetchone chain_key id s.chains ≡ some c
      → c.status ≢ running
      → advance_chain o api_runs id s ≡ (ok (answer c.status no_action c), s)
  unfolding advance_chain chain_status
  advance_chain-idle id s c found h = rw found (idle_status c.status c s h)

  -- What the store holds of a chain that a call has stopped.
  pub record IsStopped (id : String) (status : ChainStatus) (s s' : Missions E) : Type 0 where
    pub row : MissionChain
    pub stored : fetchone chain_key id s'.chains ≡ some row
    pub stopped_as : row.status ≡ status
    pub costs : row.total_cost ≡ sum_costs id (api_runs.runs s.api)
    pub same_api : s'.api ≡ s.api

  pub update_chain-IsStopped :
      (c : MissionChain) (status : ChainStatus) (metadata : Option ChainMetadata) (s : Missions E)
      → fetchone chain_key c.chain_id s.chains ≡ some c
      → IsStopped c.chain_id status s
          (update_chain o api_runs c (stop_fields o api_runs status metadata c.chain_id s.api) s).1
  update_chain-IsStopped c status metadata s found = record {
    row = (update_chain o api_runs c (stop_fields o api_runs status metadata c.chain_id s.api) s).0;
    stored =
        update_chain-stored o api_runs c (stop_fields o api_runs status metadata c.chain_id s.api) s
          found;
    stopped_as = unfold update_chain updated_chain in refl;
    costs = unfold update_chain updated_chain compute_total_cost in refl;
    same_api = unfold update_chain in refl;
  }

  -- A journal entry changes nothing of this.
  pub journal-IsStopped :
      (id : String) (status : ChainStatus) (event : String) (payload : Dict Value)
      (s s' : Missions E)
      → IsStopped id status s s'
      → IsStopped id status s (journal o api_runs event payload s')
  journal-IsStopped id status event payload s s' h = record {
    row = h.row;
    stored = h.stored;
    stopped_as = h.stopped_as;
    costs = h.costs;
    same_api = h.same_api;
  }

  done_status :
      (x : ApiRunStatus) (c : MissionChain) (r : StepRun) (next : Option MissionStep)
      (s : Missions E)
      → is_done x ≡ true
      → on_status o api_runs x c r next s ≡ succeed_step o api_runs c r next s
  done_status run_completed c r next s h = refl
  done_status reviewed c r next s h = refl
  done_status run_failed c r next s h = absurd cc
  done_status prepared c r next s h = absurd cc
  done_status awaiting_go c r next s h = absurd cc
  done_status executing c r next s h = absurd cc
  done_status clarification_required c r next s h = absurd cc
  done_status run_paused c r next s h = absurd cc
  done_status stopped c r next s h = absurd cc

  answered-state : {A B : Type 0} (f : A → B) (m : Result A × Missions E) → (answered f m).1 ≡ m.1
  answered-state f (ok a, s) = refl
  answered-state f (err e, s) = refl

  answered-ok :
      {A B : Type 0} (f : A → B) (m : Result A × Missions E) (P : B → Type 0) (a : A)
      → m.0 ≡ ok a
      → P (f a)
      → (b : B) × ((answered f m).0 ≡ ok b) × P b
  answered-ok f (m, s) P a e p = rw e (f a, refl, p)

  failed_status :
      (x : ApiRunStatus) (c : MissionChain) (r : StepRun) (next : Option MissionStep)
      (s : Missions E)
      → x ≡ run_failed
      → on_status o api_runs x c r next s ≡ after_failure o api_runs c r next s
  failed_status x c r next s h = rw h refl

  pub chain_status-ok :
      (id : String) (s : Missions E) (c : MissionChain)
      → fetchone chain_key id s.chains ≡ some c
      → chain_status o api_runs id s ≡ ok c
  unfolding chain_status
  chain_status-ok id s c found = rw found refl

  module _ (s : Missions E) (c : MissionChain) (x : MissionStep) (r : StepRun) where
    -- The chain c is running, and r is the last run of the step x on which it stands.
    pub record IsAt : Type 0 where
      pub found : fetchone chain_key c.chain_id s.chains ≡ some c
      pub is_running : c.status ≡ running
      pub step : get_elem? c.steps c.current_step_index ≡ some x
      pub last :
          get_last? (get_runs_for_step o api_runs c.chain_id c.current_step_index s.api) ≡ some r

    advance_chain-at :
        IsAt
        → advance_chain o api_runs c.chain_id s
          ≡ on_status o api_runs r.status c r (get_elem? c.steps (suc c.current_step_index)) s
    unfolding advance_chain chain_status
    advance_chain-at h = rw (h.found, h.is_running, h.step, h.last) refl

    failure_fails :
        (next : Option MissionStep)
        → ((y : MissionStep) → next ≡ some y → y.skip_on_previous_failure ≡ false)
        → after_failure o api_runs c r next s ≡ fail_step o api_runs c s
    unfolding after_failure
    failure_fails none h = refl
    failure_fails (some y) h = rw (h y refl) refl

    -- When a running chain stands on its last step, and the last run of that step is
    -- completed or reviewed, an advance stores the chain as completed, with the sum of what
    -- all its runs have cost; it answers that status and starts no run.
    pub advance_chain-completes :
        IsAt
        → get_elem? c.steps (suc c.current_step_index) ≡ none
        → is_done r.status ≡ true
        → IsStopped c.chain_id completed s (advance_chain o api_runs c.chain_id s).1
          × ((a : Advanced) × ((advance_chain o api_runs c.chain_id s).0 ≡ ok a)
              × (a.status ≡ completed))
    unfolding succeed_step
    advance_chain-completes h last done =
        rw (advance_chain-at h, last, done_status r.status c r none s done)
          (
            journal-IsStopped c.chain_id completed "mission_chain_completed" _ s _
                (update_chain-IsStopped c completed none s h.found),
            (_, refl, refl),
          )

    fail_chain-IsStopped :
        (reason : String)
        → fetchone chain_key c.chain_id s.chains ≡ some c
        → (d : MissionChain) × ((fail_chain o api_runs c.chain_id reason s).0 ≡ ok d)
          × (d.status ≡ failed)
          × IsStopped c.chain_id failed s (fail_chain o api_runs c.chain_id reason s).1
    unfolding fail_chain chain_status
    fail_chain-IsStopped reason found = rw found (
      _,
      refl,
      (unfold update_chain updated_chain in refl),
      journal-IsStopped c.chain_id failed "mission_chain_failed" _ s _
          (update_chain-IsStopped c failed _ s found),
    )

    -- When the last run of the step of a running chain has failed, and there is no next step
    -- or the next one is not to be run after a failure, an advance stores the chain as
    -- failed, with the sum of what all its runs have cost; it answers that status and starts
    -- no run.
    pub advance_chain-fails :
        IsAt
        → r.status ≡ run_failed
        → ((y : MissionStep)
            → get_elem? c.steps (suc c.current_step_index) ≡ some y
            → y.skip_on_previous_failure ≡ false)
        → IsStopped c.chain_id failed s (advance_chain o api_runs c.chain_id s).1
          × ((a : Advanced) × ((advance_chain o api_runs c.chain_id s).0 ≡ ok a)
              × (a.status ≡ failed))
    unfolding fail_step
    advance_chain-fails h wrong no_skip =
        let (d, out, status, halted) = fail_chain-IsStopped (step_failure o api_runs c) h.found in
        rw
          (
            advance_chain-at h,
            failed_status r.status c r (get_elem? c.steps (suc c.current_step_index)) s wrong,
            failure_fails (get_elem? c.steps (suc c.current_step_index)) no_skip,
          )
          (
            rw
                (answered-state (fail_answer o api_runs c)
                  (fail_chain o api_runs c.chain_id (step_failure o api_runs c) s))
                halted,
            answered-ok (fail_answer o api_runs c)
                (fail_chain o api_runs c.chain_id (step_failure o api_runs c) s)
                (λ a. a.status ≡ failed) d out status,
          )
