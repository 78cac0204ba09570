-- ===== src/Tests/TraceRuns.antt =====
-- The table of trace edges on a concrete link.
use project_os_core.Base.{◌≡◌, refl, none, [], ◌∷◌, length, is_some, if◌then◌else◌}
use project_os_core.Base.Table.{fetchone}
use project_os_core.World.{Context, TraceEdge}
use project_os_core.TraceEdges.{Link, find_link, record_trace_edge, edge_key}
use project_os_core.TraceEdges.Rows.{length-record_trace_edge}
use project_os_core.Tests.Samples.{outside, context}

abbrev link : Link
link = record {
  parent_id = "intent_1";
  parent_kind = "mission_intent";
  child_id = "route_1";
  child_kind = "routing_decision";
  relation = "routed_to";
}

abbrev stored : TraceEdge
stored = record {
  trace_edge_id = "old_edge";
  parent_id = "intent_1";
  parent_kind = "mission_intent";
  child_id = "route_1";
  child_kind = "routing_decision";
  relation = "routed_to";
  metadata = [];
  created_at = 3;
}

abbrev linked : Context
linked = record context { edges = stored ∷ [] }

unused : fetchone edge_key "trace_edge" (stored ∷ []) ≡ none
unfolding fetchone
unused = refl

length-record_trace_edge_example :
    length (record_trace_edge outside link (("route_reason", "hard_route") ∷ []) linked).edges
    ≡ (if is_some (find_link link (stored ∷ [])) then 1 else 2)
length-record_trace_edge_example =
    length-record_trace_edge outside link (("route_reason", "hard_route") ∷ []) linked unused
