-- ===== src/TraceEdges/Rows.antt =====
-- How many rows the table `trace_edges` of database.py has after a link is recorded.
use project_os_core.Base.{
  suc, String, ◌≡◌, refl, inl, inr, true, none, some, List, [], ◌∷◌, arith, length, is_some, eq_iff,
  Option-cases, if◌then◌else◌,
}
use project_os_core.Base.Dict.{Dict}
use project_os_core.Base.Table.{fetchone, upsert}
use project_os_core.World.{Outside, Context, TraceEdge}
use project_os_core.TraceEdges.{
  Link, find_link, record_found, record_trace_edge, write_edge, edge, edge_key, keep_created,
}

length-upsert :
    (new : TraceEdge) (rows : List TraceEdge)
    → length (upsert edge_key keep_created new rows) ≡ (
        if is_some (fetchone edge_key new.trace_edge_id rows)
        then length rows
        else suc (length rows))
unfolding upsert fetchone
length-upsert new [] = refl
length-upsert new (r ∷ rows) = ground (arith, length-upsert new rows)

is_some-find_link :
    (l : Link) (rows : List TraceEdge) (e : TraceEdge)
    → find_link l rows ≡ some e
    → is_some (fetchone edge_key e.trace_edge_id rows) ≡ true
unfolding find_link fetchone
is_some-find_link l [] e h = absurd cc
is_some-find_link l (r ∷ rows) e h =
    ground (arith, h, eq_iff r.trace_edge_id e.trace_edge_id, is_some-find_link l rows e)

module _ (o : Outside) where
  -- A link that the table has gets no second row, and a link that it does not have gets one more row, when
  -- the new identifier is that of no row.
  pub length-record_trace_edge :
      (l : Link) (metadata : Dict String) (c : Context)
      → fetchone edge_key (o.fresh "trace_edge" c.identifiers) c.edges ≡ none
      → length (record_trace_edge o l metadata c).edges
        ≡ (if is_some (find_link l c.edges) then length c.edges else suc (length c.edges))
  unfolding record_trace_edge record_found write_edge edge
  length-record_trace_edge l metadata c unused = elim (Option-cases (find_link l c.edges)) [
    | inl missing ↦ rw (missing, length-upsert _ c.edges, unused) refl
    | inr (e, found) ↦ rw (found, length-upsert _ c.edges, is_some-find_link l c.edges e found) refl
  ]
