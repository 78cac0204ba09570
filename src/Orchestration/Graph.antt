-- ===== src/Orchestration/Graph.antt =====
-- prepare_execution of orchestration/graph.py. The identifiers and the times are taken in the order of the source.
use project_os_core.Base.{
  ℕ, suc, ◌+◌, String, not, Option, none, some, List, [], ◌∷◌, map, ◌==◌, if◌then◌else◌,
}
use project_os_core.Base.Table.{upsert}
use project_os_core.Base.Result.{Result, ok, err, value_error}
use project_os_core.World.{Outside, Context, text, optional_text, append}
use project_os_core.Orchestration.{
  AgentRole, executor_coordinator, role_value, mission_status_value, canonical_role_sequence,
  MissionRun, Routed, GraphState, RoleHandoff, ExecutionCheckpoint, RoutingAssignment,
  ExecutionTicket, WorkerDispatchEnvelope, DispatchRow, MissionGraph,
}

pub record Prepared : Type 0 where
  pub graph_state : GraphState
  pub handoffs : List RoleHandoff
  pub checkpoint : ExecutionCheckpoint
  pub assignment : RoutingAssignment
  pub ticket : ExecutionTicket
  pub worker_dispatch_envelope : WorkerDispatchEnvelope

abbrev pub handoff_key : RoleHandoff → String
handoff_key h = h.handoff_id

abbrev pub assignment_key : RoutingAssignment → String
assignment_key a = a.assignment_id

abbrev pub ticket_key : ExecutionTicket → String
ticket_key t = t.ticket_id

abbrev pub dispatch_key : DispatchRow → String
dispatch_key d = d.dispatch_id

-- ON CONFLICT DO UPDATE, with `created_at` immutable
abbrev keep_handoff : RoleHandoff → RoleHandoff → RoleHandoff
keep_handoff old new = record new { created_at = old.created_at }

abbrev pub keep_assignment : RoutingAssignment → RoutingAssignment → RoutingAssignment
keep_assignment old new = record new { created_at = old.created_at }

abbrev pub keep_ticket : ExecutionTicket → ExecutionTicket → ExecutionTicket
keep_ticket old new = record new { created_at = old.created_at }

abbrev pub keep_dispatch : DispatchRow → DispatchRow → DispatchRow
keep_dispatch old new = record new { created_at = old.created_at }

unfoldable pub persist_handoffs : List RoleHandoff → List RoleHandoff → List RoleHandoff
unfolding upsert
persist_handoffs [] rows = rows
persist_handoffs (h ∷ hs) rows = persist_handoffs hs (upsert handoff_key keep_handoff h rows)

module _ (o : Outside) where
  -- the loop of `_build_handoffs`, from its previous role, the next identifier and the next reading
  unfoldable pub build_handoffs :
      String → Option AgentRole → List AgentRole → ℕ → ℕ → List RoleHandoff
  build_handoffs mission previous [] n r = []
  build_handoffs mission previous (role ∷ roles) n r =
      record {
        handoff_id = o.fresh "handoff" n;
        mission_run_id = mission;
        from_role = previous;
        to_role = role;
        reason = "canonical_graph_progression";
        payload = ("role", text (role_value role)) ∷ [];
        created_at = o.wall r;
      }
      ∷ build_handoffs mission (some role) roles (suc n) (suc r)

  abbrev pub new_graph_state : MissionRun → Context → GraphState
  new_graph_state m c = record {
    graph_state_id = o.fresh "graph_state" c.identifiers;
    mission_run_id = m.mission_run_id;
    objective = m.objective;
    active_role = executor_coordinator;
    status = mission_status_value m.status;
    role_sequence = map role_value canonical_role_sequence;
    metadata = ("profile_name", optional_text m.profile_name) ∷ [];
    created_at = o.wall c.readings;
  }

  abbrev pub new_checkpoint : MissionRun → Routed → String → Context → ExecutionCheckpoint
  new_checkpoint m d worker c = record {
    execution_checkpoint_id = o.fresh "exec_checkpoint" (c.identifiers + 7);
    mission_run_id = m.mission_run_id;
    role = executor_coordinator;
    label = "execution_ticket_issued";
    payload = ("decision_id", text d.decision_id) ∷ ("worker_kind", text worker) ∷ [];
    created_at = o.wall (c.readings + 7);
  }

  abbrev pub new_assignment : MissionRun → Routed → String → Context → RoutingAssignment
  new_assignment m d worker c = record {
    assignment_id = o.fresh "assignment" (c.identifiers + 8);
    mission_run_id = m.mission_run_id;
    decision_id = d.decision_id;
    worker_kind = worker;
    execution_class = d.decision.execution_class;
    model_route = d.decision.model_route;
    created_at = o.wall (c.readings + 8);
  }

  abbrev pub new_ticket : MissionRun → Routed → RoutingAssignment → Context → ExecutionTicket
  new_ticket m d a c = record {
    ticket_id = o.fresh "ticket" (c.identifiers + 9);
    mission_run_id = m.mission_run_id;
    assignment_id = a.assignment_id;
    worker_kind = a.worker_kind;
    action_name = "execute_mission";
    payload =
        ("objective", text m.objective)
        ∷ ("profile_name", optional_text m.profile_name)
        ∷ ("routing_decision_id", text d.decision_id)
        ∷ [];
    policy_verdict = d.decision.route_reason;
    status = "issued";
    created_at = o.wall (c.readings + 9);
  }

  abbrev pub new_envelope : ExecutionTicket → Context → WorkerDispatchEnvelope
  new_envelope t c = record {
    dispatch_id = o.fresh "worker_dispatch" (c.identifiers + 11);
    ticket = t;
    worker_request = record {
      request_id = o.fresh "worker_req" (c.identifiers + 10);
      worker_kind = t.worker_kind;
      action_name = t.action_name;
      payload = t.payload;
      created_at = o.wall (c.readings + 10);
    };
    metadata = ("issued_by", text (role_value executor_coordinator)) ∷ [];
    created_at = o.wall (c.readings + 11);
  }

  abbrev pub prepared : MissionRun → Routed → String → Context → Prepared
  prepared m d worker c =
      let a = new_assignment m d worker c in
      let t = new_ticket m d a c in
      record {
        graph_state = new_graph_state m c;
        handoffs =
            build_handoffs m.mission_run_id none canonical_role_sequence (suc c.identifiers)
              (suc c.readings);
        checkpoint = new_checkpoint m d worker c;
        assignment = a;
        ticket = t;
        worker_dispatch_envelope = new_envelope t c;
      }

  abbrev pub envelope_row : WorkerDispatchEnvelope → DispatchRow
  envelope_row e = record {
    dispatch_id = e.dispatch_id;
    ticket_id = e.ticket.ticket_id;
    worker_request = e.worker_request;
    payload = e.metadata;
    created_at = e.created_at;
  }

  abbrev issued : MissionRun → Routed → Prepared → Context → Context
  issued m d p c =
      append o "execution_ticket_issued" "orchestration"
        (("mission_run_id", text m.mission_run_id)
          ∷ ("decision_id", text d.decision_id)
          ∷ ("ticket_id", text p.ticket.ticket_id)
          ∷ ("worker_kind", text p.ticket.worker_kind)
          ∷ [])
        (record c { readings = c.readings + 12; identifiers = c.identifiers + 12 })

  -- the six kinds of rows, and the journal
  abbrev pub persist_prepared : MissionRun → Routed → Prepared → MissionGraph → MissionGraph
  persist_prepared m d p s = record {
    context = issued m d p s.context;
    graph_states =
        upsert (λ g. g.graph_state_id) (λ old new. record new { created_at = old.created_at })
          p.graph_state s.graph_states;
    handoffs = persist_handoffs p.handoffs s.handoffs;
    checkpoints =
        upsert (λ x. x.execution_checkpoint_id)
          (λ old new. record new { created_at = old.created_at }) p.checkpoint s.checkpoints;
    assignments = upsert assignment_key keep_assignment p.assignment s.assignments;
    tickets = upsert ticket_key keep_ticket p.ticket s.tickets;
    dispatches =
        upsert dispatch_key keep_dispatch (envelope_row p.worker_dispatch_envelope) s.dispatches;
  }

  abbrev no_worker : Result Prepared
  no_worker = err (value_error "Routing decision must choose a worker before execution")

  abbrev pub with_worker :
      MissionRun → Routed → Option String → MissionGraph → Result Prepared × MissionGraph
  with_worker m d none s = (no_worker, s)
  with_worker m d (some worker) s =
      if worker == ""
      then (no_worker, s)
      else let p = prepared m d worker s.context in (ok p, persist_prepared m d p s)

  unfoldable pub prepare_execution :
      MissionRun → Routed → MissionGraph → Result Prepared × MissionGraph
  unfolding build_handoffs persist_handoffs
  prepare_execution m d s =
      if not d.decision.allowed
      then (err (value_error "Cannot prepare execution for a blocked routing decision"), s)
      else with_worker m d d.decision.chosen_worker s
