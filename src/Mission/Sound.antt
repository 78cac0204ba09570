-- ===== src/Mission/Sound.antt =====
-- The invariant of mission/chain.py's table: the index of every chain stands on one of its steps.
use project_os_core.Base.{suc, String, ◌≡◌, refl, inl, inr, All, get_elem?-lt}
use project_os_core.Base.Table.{fetchone-key, fetchone-All, All-upsert}
use project_os_core.Base.Result.{Result-cases}
use project_os_core.World.{Outside, append}
use project_os_core.Mission.{ApiRuns, Missions}
use project_os_core.Mission.Chains.{
  chain_key, keep_created, persist_chain, updated_chain, NewChain, new_chain, resolve_steps,
  create_chain, fail_chain, pause_chain,
}
use project_os_core.Mission.Advance.{advance_chain}
use project_os_core.Mission.Steps.{IsSound, resolve_steps-Numbered}
use project_os_core.Mission.Writes.{IsKept, fail_chain_kept, pause_chain_kept}
use project_os_core.Mission.Writes.Moves.{IsMove, advance_chain_kept}

IsSound-kept : (id : String) → IsKept id (All IsSound) (λ c. (c.chain_id ≡ id) × IsSound c)
unfolding persist_chain updated_chain
IsSound-kept id = record {
  write = λ c rows p h.
      All-upsert chain_key IsSound keep_created c rows p.1
        (λ r. record { in_range = p.1.in_range; numbered = p.1.numbered }) h;
  read = λ rows c h found.
      (fetchone-key chain_key id rows c found, fetchone-All chain_key IsSound id rows h found);
  update = λ now f c still p.
      (p.0, record { in_range = rw still p.1.in_range; numbered = p.1.numbered });
  named = λ c p. p.0;
}

module _ {E : Type 0} (o : Outside) (api_runs : ApiRuns E) where
  -- When every stored chain is sound, that is, its steps are numbered by their positions and
  -- its index is that of a step, each still is after a call of `create_chain`, one that is
  -- refused included.
  pub create_chain-AllSound :
      (n : NewChain) (s : Missions E)
      → All IsSound s.chains
      → All IsSound (create_chain o api_runs n s).1.chains
  unfolding create_chain persist_chain new_chain append
  create_chain-AllSound n s h = elim (Result-cases (resolve_steps n.chain_template n.steps)) [
    | inl (steps, resolved) ↦
        let numbered = resolve_steps-Numbered n.chain_template n.steps steps resolved in
        rw resolved (
          All-upsert chain_key IsSound keep_created _ s.chains
            (record { in_range = numbered.0; numbered = numbered.1 })
            (λ r. record { in_range = numbered.0; numbered = numbered.1 }) h)
    | inr (e, refused) ↦ rw refused h
  ]

  -- When every stored chain is sound, that is, its steps are numbered by their positions and
  -- its index is that of a step, each still is after `advance_chain`, whatever the runs of the
  -- steps have become.
  pub advance_chain-AllSound :
      (id : String) (s : Missions E)
      → All IsSound s.chains
      → All IsSound (advance_chain o api_runs id s).1.chains
  unfolding updated_chain IsMove
  advance_chain-AllSound id s h =
      advance_chain_kept o api_runs (IsSound-kept id) s
        (λ c x metadata found m. (
          fetchone-key chain_key id s.chains c found,
          record {
            in_range = get_elem?-lt c.steps (suc c.current_step_index) x m.0;
            numbered = (fetchone-All chain_key IsSound id s.chains h found).numbered;
          },
        ))
        h

  -- When every stored chain is sound, that is, its steps are numbered by their positions and
  -- its index is that of a step, each still is after one is paused, and after one is failed.
  pub stop-AllSound :
      (id reason : String) (s : Missions E)
      → All IsSound s.chains
      → All IsSound (pause_chain o api_runs id s).1.chains
        × All IsSound (fail_chain o api_runs id reason s).1.chains
  stop-AllSound id reason s h = (
    pause_chain_kept o api_runs (IsSound-kept id) id s refl h,
    fail_chain_kept o api_runs (IsSound-kept id) id reason s refl h,
  )
