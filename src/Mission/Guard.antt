-- ===== src/Mission/Guard.antt =====
-- A run that the guardian stops once it is launched, in `_launch_step` of mission/chain.py.
use mathlib.Core.Path.{subst, sym}
use project_os_core.Base.{String, ◌≡◌, refl, Bool, ◌&&◌, true, false, none, some, if◌then◌else◌}
use project_os_core.Base.Table.{fetchone}
use project_os_core.Base.Result.{Result, ok}
use project_os_core.World.{Outside, append}
use project_os_core.Mission.{
  clarification_required, paused, MissionStep, MissionChain, RunPayload, ApiRuns, Missions,
}
use project_os_core.Mission.Chains.{
  chain_key, updated_chain, chain_status, compute_total_cost, update_chain, stop_fields,
  pause_found, pause_chain,
}
use project_os_core.Mission.Launch.{
  Launched, cost_only, is_clarification, record_block, pause_if_blocked, record_launch, after_run,
}
use project_os_core.Mission.Frame.{update_chain-stored}
use project_os_core.Mission.Progress.{IsStopped, journal-IsStopped, chain_status-ok}

module _ {E : Type 0} (o : Outside) (api_runs : ApiRuns E) where
  module _ (s : Missions E) (c : MissionChain) (x : MissionStep) where
    Unreported : Result Launched × Missions E → Missions E → Type 0
    Unreported m from =
        ((l : Launched) × (m.0 ≡ ok l) × (l.guardian_blocked ≡ false))
        × IsStopped o api_runs c.chain_id paused from m.1

    record_launch-Unreported :
        (contract : String) (p : RunPayload) (s' : Missions E) (row : MissionChain)
        → fetchone chain_key row.chain_id s'.chains ≡ some row
        → c.chain_id ≡ row.chain_id
        → row.status ≡ paused
        → s'.api ≡ s.api
        → Unreported
            (record_launch o api_runs c x contract p (chain_status o api_runs c.chain_id s') s')
            s
    unfolding record_launch Unreported
    record_launch-Unreported contract p s' row found same halted api =
        let fields = cost_only o api_runs c.chain_id s'.api in
        rw (chain_status-ok o api_runs c.chain_id s' row (rw same found)) (
          (_, refl, refl),
          journal-IsStopped o api_runs c.chain_id paused "mission_chain_step_launched" _ s
              (update_chain o api_runs row fields s').1
              (record {
                row = (update_chain o api_runs row fields s').0;
                stored =
                    subst
                      (λ i.
                        fetchone chain_key i (update_chain o api_runs row fields s').1.chains
                        ≡ some (update_chain o api_runs row fields s').0)
                      (sym same) (update_chain-stored o api_runs row fields s' found);
                stopped_as = unfold update_chain updated_chain in halted;
                costs = unfold update_chain updated_chain compute_total_cost in rw api refl;
                same_api = unfold update_chain in api;
              }),
        )

    blocked_pauses :
        (p : RunPayload)
        → fetchone chain_key c.chain_id s.chains ≡ some c
        → p.status ≡ clarification_required
        → p.guardian_blocked ≡ true
        → pause_if_blocked o api_runs c x p s
          ≡ record_block o api_runs c x p (pause_found o api_runs c.chain_id (ok c) s)
    unfolding pause_if_blocked pause_chain
    blocked_pauses p found asked blocked =
        rw (chain_status-ok o api_runs c.chain_id s c found)
          (pick (is_clarification p.status && p.guardian_blocked) _ _ (rw (asked, blocked) refl))
      where
        pick :
            (b : Bool) (y z : Result (Unit {0}) × Missions E) → b ≡ true → (if b then y else z) ≡ y
        pick b y z h = rw h refl

    -- When the guardian stops the launched run of a stored chain, asking for a clarification,
    -- the chain is stored as paused, but what the launch returns does not say that it was
    -- blocked.
    pub after_run-unreported :
        (contract : String) (p : RunPayload)
        → fetchone chain_key c.chain_id s.chains ≡ some c
        → p.status ≡ clarification_required
        → p.guardian_blocked ≡ true
        → ((l : Launched) × ((after_run o api_runs c x contract p s).0 ≡ ok l)
            × (l.guardian_blocked ≡ false))
          × IsStopped o api_runs c.chain_id paused s (after_run o api_runs c x contract p s).1
    unfolding after_run Unreported
    after_run-unreported contract p found asked blocked =
        let fields = stop_fields o api_runs paused none c.chain_id s.api in
        rw (blocked_pauses p found asked blocked) (
          record_launch-Unreported contract p _ (update_chain o api_runs c fields s).0
            (unfold update_chain updated_chain append in
              update_chain-stored o api_runs c fields s found)
            (unfold update_chain updated_chain in refl) (unfold update_chain updated_chain in refl)
            (unfold update_chain append in refl))
