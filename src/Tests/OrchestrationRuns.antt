-- ===== src/Tests/OrchestrationRuns.antt =====
-- The mission graph on a decision that the router allows.
use project_os_core.Base.{refl, some, []}
use project_os_core.Base.Table.{fetchone}
use project_os_core.Router.{ready}
use project_os_core.Router.Decision.{route_intent}
use project_os_core.Orchestration.{MissionRun, queued, Routed, MissionGraph}
use project_os_core.Orchestration.Graph.{prepare_execution}
use project_os_core.Orchestration.Trail.{Prepares}
use project_os_core.Orchestration.Simulate.{route_intent-Prepares}
use project_os_core.Tests.RouterRuns.{home, intent, allowed}
use project_os_core.Tests.Samples.{outside, context}

abbrev mission : MissionRun
mission = record {
  mission_run_id = "mission";
  objective = "Delete the old site";
  profile_name = some "uefn";
  status = queued;
}

abbrev routed : Routed
routed = record { decision_id = "decision"; decision = route_intent home (some ready) intent }

abbrev graph : MissionGraph
graph = record {
  context = context;
  graph_states = [];
  handoffs = [];
  checkpoints = [];
  assignments = [];
  tickets = [];
  dispatches = [];
}

route_intent-Prepares_example : Prepares routed (prepare_execution outside mission routed graph)
unfolding fetchone
route_intent-Prepares_example =
    route_intent-Prepares outside home (some ready) intent mission routed graph refl allowed
      (refl, refl, refl)
