-- ===== src/Mission/Writes.antt =====
-- A property of the table that every method of a chain keeps, shown once for all of them.
pub mod Starts
pub mod Moves
use mathlib.Core.Path.{subst}
use project_os_core.Base.{
  ℕ, suc, String, Bool, ◌≡◌, refl, true, false, inl, inr, Option, none, some, List, arith,
  Bool-cases, Option-cases, get_elem?, get_last?, ◌==◌, if◌then◌else◌,
}
use project_os_core.Base.Table.{fetchone}
use project_os_core.Base.Result.{Result, ok, err, and_then, Result-cases}
use project_os_core.World.{Outside, append}
use project_os_core.Mission.{
  ApiRunStatus, prepared, awaiting_go, executing, clarification_required, run_paused, stopped,
  run_completed, run_failed, reviewed, ChainStatus, running, paused, completed, failed, MissionStep,
  ChainMetadata, MissionChain, StepRun, RunPayload, StepRequest, ApiRuns, Missions,
}
use project_os_core.Mission.Chains.{
  chain_key, persist_chain, ChainFields, updated_chain, chain_status, get_runs_for_step,
  update_chain, fail_found, fail_chain, pause_found, pause_chain,
}
use project_os_core.Mission.Launch.{
  approval_notes, after_call, block_step, record_block, pause_if_blocked, record_launch, after_run,
  run_step, guard_step, check_step, launch_step, step_request,
}
use project_os_core.Mission.Advance.{
  answered, start_step, succeed_step, fail_step, skip_step, move_fields, move_to, skip_metadata,
  skip_or_fail, after_failure, on_status, on_last, on_step, on_chain, advance_chain,
}

-- What is shown of the table (`Q`) and of the chain in hand (`P`).
pub record IsKept (id : String) (Q : List MissionChain → Type 0) (P : MissionChain → Type 0)
    : Type 0 where
  pub write :
      (c : MissionChain) (rows : List MissionChain) → P c → Q rows → Q (persist_chain c rows)
  pub read :
      (rows : List MissionChain) (c : MissionChain)
      → Q rows
      → fetchone chain_key id rows ≡ some c
      → P c
  pub update :
      (now : ℕ) (f : ChainFields) (c : MissionChain)
      → f.current_step_index ≡ none
      → P c
      → P (updated_chain now f c)
  pub named : (c : MissionChain) → P c → c.chain_id ≡ id

module _ {E : Type 0} (o : Outside) (api_runs : ApiRuns E) where
  pub chain_status-found :
      (id : String) (s : Missions E) (c : MissionChain)
      → chain_status o api_runs id s ≡ ok c
      → fetchone chain_key id s.chains ≡ some c
  unfolding chain_status
  chain_status-found id s c h = elim (Option-cases (fetchone chain_key id s.chains)) [
    | inl missing ↦ absurd (ground (arith, h, missing))
    | inr (d, found) ↦ ground (arith, h, found)
  ]

module _ {E : Type 0} (o : Outside) (api_runs : ApiRuns E) {id : String}
    {Q : List MissionChain → Type 0} {P : MissionChain → Type 0} (k : IsKept id Q P) where
  -- what follows a method that keeps Q
  pub then_kept :
      {A B : Type 0} (m : Result A × Missions E) (f : A → Missions E → Result B × Missions E)
      → Q m.1.chains
      → ((a : A) (s : Missions E) → Q s.chains → Q (f a s).1.chains)
      → Q (and_then m f).1.chains
  then_kept (ok a, s) f h g = g a s h
  then_kept (err e, s) f h g = h

  pub answered_kept :
      {A B : Type 0} (f : A → B) (m : Result A × Missions E)
      → Q m.1.chains
      → Q (answered f m).1.chains
  answered_kept f (ok a, s) h = h
  answered_kept f (err e, s) h = h

  pub update_kept :
      (c : MissionChain) (f : ChainFields) (s : Missions E)
      → f.current_step_index ≡ none
      → P c
      → Q s.chains
      → Q (update_chain o api_runs c f s).1.chains
  unfolding update_chain
  update_kept c f s still p h =
      let now = o.wall s.context.readings in
      k.write (updated_chain now f c) s.chains (k.update now f c still p) h

  pub status_kept :
      (j : String) (s : Missions E) (c : MissionChain)
      → j ≡ id
      → Q s.chains
      → chain_status o api_runs j s ≡ ok c
      → P c
  status_kept j s c same h e = k.read s.chains c h (
      chain_status-found o api_runs id s c (subst (λ i. chain_status o api_runs i s ≡ ok c) same e))

  fail_found_kept :
      (j reason : String) (r : Result MissionChain) (s : Missions E)
      → ((c : MissionChain) → r ≡ ok c → P c)
      → Q s.chains
      → Q (fail_found o api_runs j reason r s).1.chains
  unfolding append
  fail_found_kept j reason (err e) s p h = h
  fail_found_kept j reason (ok c) s p h = update_kept c _ s refl (p c refl) h

  pub fail_chain_kept :
      (j reason : String) (s : Missions E)
      → j ≡ id
      → Q s.chains
      → Q (fail_chain o api_runs j reason s).1.chains
  unfolding fail_chain
  fail_chain_kept j reason s same h =
      fail_found_kept j reason (chain_status o api_runs j s) s (λ c. status_kept j s c same h) h

  pause_found_kept :
      (j : String) (r : Result MissionChain) (s : Missions E)
      → ((c : MissionChain) → r ≡ ok c → P c)
      → Q s.chains
      → Q (pause_found o api_runs j r s).1.chains
  unfolding append
  pause_found_kept j (err e) s p h = h
  pause_found_kept j (ok c) s p h = update_kept c _ s refl (p c refl) h

  pub pause_chain_kept :
      (j : String) (s : Missions E) → j ≡ id → Q s.chains → Q (pause_chain o api_runs j s).1.chains
  unfolding pause_chain
  pause_chain_kept j s same h =
      pause_found_kept j (chain_status o api_runs j s) s (λ c. status_kept j s c same h) h
