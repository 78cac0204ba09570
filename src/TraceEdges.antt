-- ===== src/TraceEdges.antt =====
-- The `trace_edges` table of database.py: one row for each link between two entities.
pub mod Rows
use project_os_core.Base.{
  ℕ, suc, String, Bool, ◌&&◌, Option, none, some, List, [], ◌∷◌, ◌==◌, if◌then◌else◌,
}
use project_os_core.Base.Dict.{Dict}
use project_os_core.Base.Table.{upsert}
use project_os_core.World.{Outside, Context, TraceEdge}

-- The columns of the query that looks for an existing row.
pub record Link : Type 0 where
  pub parent_id : String
  pub parent_kind : String
  pub child_id : String
  pub child_kind : String
  pub relation : String

abbrev pub link_of : TraceEdge → Link
link_of e = record {
  parent_id = e.parent_id;
  parent_kind = e.parent_kind;
  child_id = e.child_id;
  child_kind = e.child_kind;
  relation = e.relation;
}

same_link : Link → Link → Bool
same_link a b =
    a.parent_id == b.parent_id
    && a.parent_kind == b.parent_kind
    && a.child_id == b.child_id
    && a.child_kind == b.child_kind
    && a.relation == b.relation

-- SELECT trace_edge_id FROM trace_edges WHERE …
unfoldable pub find_link : Link → List TraceEdge → Option TraceEdge
unfolding same_link
find_link l [] = none
find_link l (e ∷ es) = if same_link (link_of e) l then some e else find_link l es

-- ON CONFLICT(trace_edge_id) DO UPDATE, with `created_at` immutable
abbrev pub keep_created : TraceEdge → TraceEdge → TraceEdge
keep_created old new = record new { created_at = old.created_at }

edge : String → Link → Dict String → ℕ → TraceEdge
edge id l metadata at = record {
  trace_edge_id = id;
  parent_id = l.parent_id;
  parent_kind = l.parent_kind;
  child_id = l.child_id;
  child_kind = l.child_kind;
  relation = l.relation;
  metadata = metadata;
  created_at = at;
}

abbrev pub edge_key : TraceEdge → String
edge_key e = e.trace_edge_id

write_edge : TraceEdge → List TraceEdge → List TraceEdge
write_edge = upsert edge_key keep_created

module _ (o : Outside) where
  -- the branch on `existing`
  unfoldable pub record_found : Option TraceEdge → Link → Dict String → Context → Context
  unfolding write_edge edge
  record_found (some existing) l metadata c = record c {
    readings = suc c.readings;
    edges = write_edge (edge existing.trace_edge_id l metadata (o.wall c.readings)) c.edges;
  }
  record_found none l metadata c = record c {
    readings = suc c.readings;
    identifiers = suc c.identifiers;
    edges =
        write_edge (edge (o.fresh "trace_edge" c.identifiers) l metadata (o.wall c.readings))
          c.edges;
  }

  unfoldable pub record_trace_edge : Link → Dict String → Context → Context
  unfolding record_found
  record_trace_edge l metadata c = record_found (find_link l c.edges) l metadata c
