-- ===== src/Mission/Writes/Moves.antt =====
-- An advance keeps what every write of its chain keeps, and what its move to the next step does.
use project_os_core.Base.{
  suc, String, Bool, ◌≡◌, refl, true, false, inl, inr, Option, none, some, List, get_elem?,
  get_last?,
}
use project_os_core.Base.Table.{fetchone}
use project_os_core.Base.Result.{Result-cases}
use project_os_core.World.{Outside, append}
use project_os_core.Mission.{
  ApiRunStatus, prepared, awaiting_go, executing, clarification_required, run_paused, stopped,
  run_completed, run_failed, reviewed, ChainStatus, running, paused, completed, failed, MissionStep,
  ChainMetadata, MissionChain, StepRun, ApiRuns, Missions,
}
use project_os_core.Mission.Chains.{
  chain_key, updated_chain, chain_status, get_runs_for_step, update_chain, fail_chain,
}
use project_os_core.Mission.Launch.{launch_step}
use project_os_core.Mission.Advance.{
  start_step, succeed_step, fail_step, skip_step, move_fields, move_to, skip_metadata, skip_or_fail,
  after_failure, on_status, on_last, on_step, on_chain, advance_chain,
}
use project_os_core.Mission.Writes.{
  IsKept, chain_status-found, answered_kept, update_kept, fail_chain_kept,
}
use project_os_core.Mission.Writes.Starts.{launch_step_kept}

-- The statuses of a last run after which the chain goes on to the step x.
abbrev pub is_done : ApiRunStatus → Bool
is_done run_completed = true
is_done reviewed = true
is_done _ = false

abbrev pub may_move : ApiRunStatus → MissionStep → Bool
may_move run_failed x = x.skip_on_previous_failure
may_move status x = is_done status

module _ {E : Type 0} (o : Outside) (api_runs : ApiRuns E) where
  -- The move of `c` to its next step x, which its last run in the state s lets it make.
  unfoldable pub IsMove : Missions E → MissionChain → MissionStep → Type 0
  IsMove s c x =
      (get_elem? c.steps (suc c.current_step_index) ≡ some x)
      × ((r : StepRun) × (get_last?
              (get_runs_for_step o api_runs c.chain_id c.current_step_index s.api)
            ≡ some r)
          × (may_move r.status x ≡ true))

module _ {E : Type 0} (o : Outside) (api_runs : ApiRuns E) {id : String}
    {Q : List MissionChain → Type 0} {P : MissionChain → Type 0} (k : IsKept id Q P)
    (s : Missions E) where
  module _ (c : MissionChain) (p : P c) (h : Q s.chains)
      (moves : (x : MissionStep) (metadata : Option ChainMetadata)
        → IsMove o api_runs s c x
        → P (
            updated_chain
              (o.wall s.context.readings)
              (move_fields o api_runs c metadata s.api)
              c)) where
    moved_kept :
        (x : MissionStep) (previous : Option String) (metadata : Option ChainMetadata)
        → IsMove o api_runs s c x
        → Q
            (launch_step o api_runs
              (move_to o api_runs c metadata s).0
              x
              previous
              (move_to o api_runs c metadata s).1).1.chains
    unfolding update_chain
    moved_kept x previous metadata m =
        let (moved, s') = move_to o api_runs c metadata s in
        let q = moves x metadata m in
        launch_step_kept o api_runs k moved x previous s' q (k.write moved s.chains q h)

    success_kept :
        (r : StepRun) (next : Option MissionStep)
        → ((x : MissionStep) → next ≡ some x → IsMove o api_runs s c x)
        → Q (succeed_step o api_runs c r next s).1.chains
    unfolding succeed_step append
    success_kept r none m = update_kept o api_runs k c _ s refl p h
    success_kept r (some x) m =
        answered_kept o api_runs k _ _ (moved_kept x (some r.structured_output) none (m x refl))

    fail_step_kept : Q (fail_step o api_runs c s).1.chains
    unfolding fail_step
    fail_step_kept =
        answered_kept o api_runs k _ (fail_chain o api_runs c.chain_id _ s)
          (fail_chain_kept o api_runs k c.chain_id _ s (k.named c p) h)

    skip_or_fail_kept :
        (b : Bool) (r : StepRun) (x : MissionStep)
        → (b ≡ true → IsMove o api_runs s c x)
        → Q (skip_or_fail o api_runs b c r x s).1.chains
    unfolding skip_step
    skip_or_fail_kept true r x m =
        answered_kept o api_runs k _ _
          (moved_kept x (some r.structured_output) (some (skip_metadata o api_runs c)) (m refl))
    skip_or_fail_kept false r x m = fail_step_kept

    failure_kept :
        (r : StepRun) (next : Option MissionStep)
        → ((x : MissionStep)
            → next ≡ some x
            → x.skip_on_previous_failure ≡ true
            → IsMove o api_runs s c x)
        → Q (after_failure o api_runs c r next s).1.chains
    unfolding after_failure
    failure_kept r none m = fail_step_kept
    failure_kept r (some x) m = skip_or_fail_kept x.skip_on_previous_failure r x (m x refl)

    on_status_kept :
        (status : ApiRunStatus) (r : StepRun) (next : Option MissionStep)
        → ((x : MissionStep) → next ≡ some x → may_move status x ≡ true → IsMove o api_runs s c x)
        → Q (on_status o api_runs status c r next s).1.chains
    on_status_kept run_completed r next m = success_kept r next (λ x e. m x e refl)
    on_status_kept reviewed r next m = success_kept r next (λ x e. m x e refl)
    on_status_kept run_failed r next m = failure_kept r next m
    on_status_kept prepared r next m = h
    on_status_kept awaiting_go r next m = h
    on_status_kept executing r next m = h
    on_status_kept clarification_required r next m = h
    on_status_kept run_paused r next m = h
    on_status_kept stopped r next m = h

    on_last_kept :
        (x : MissionStep) (last : Option StepRun)
        → get_last? (get_runs_for_step o api_runs c.chain_id c.current_step_index s.api) ≡ last
        → Q (on_last o api_runs c x last s).1.chains
    unfolding start_step IsMove
    on_last_kept x none e =
        answered_kept o api_runs k _ _ (launch_step_kept o api_runs k c x none s p h)
    on_last_kept x (some r) e =
        on_status_kept r.status r (get_elem? c.steps (suc c.current_step_index))
          (λ y at may. (at, (r, e, may)))

    on_step_kept : (x : Option MissionStep) → Q (on_step o api_runs c x s).1.chains
    on_step_kept none = h
    on_step_kept (some x) =
        on_last_kept x
          (get_last? (get_runs_for_step o api_runs c.chain_id c.current_step_index s.api)) refl

    on_chain_kept : (status : ChainStatus) → Q (on_chain o api_runs status c s).1.chains
    on_chain_kept running = on_step_kept (get_elem? c.steps c.current_step_index)
    on_chain_kept paused = h
    on_chain_kept completed = h
    on_chain_kept failed = h

  -- Advancing keeps what every write of the chain keeps, moves to the next step included.
  pub advance_chain_kept :
      ((c : MissionChain) (x : MissionStep) (metadata : Option ChainMetadata)
        → fetchone chain_key id s.chains ≡ some c
        → IsMove o api_runs s c x
        → P (updated_chain (o.wall s.context.readings) (move_fields o api_runs c metadata s.api) c))
      → Q s.chains
      → Q (advance_chain o api_runs id s).1.chains
  unfolding advance_chain
  advance_chain_kept moves h = elim (Result-cases (chain_status o api_runs id s)) [
    | inl (c, found) ↦
        let row = chain_status-found o api_runs id s c found in
        rw found (
          on_chain_kept c (k.read s.chains c h row) h (λ x metadata. moves c x metadata row)
            c.status)
    | inr (e, raised) ↦ rw raised h
  ]
