-- ===== src/Orchestration/Trail.antt =====
-- The rows that prepare_execution of orchestration/graph.py leaves lead from a dispatch to the decision.
use project_os_core.Base.{
  ℕ, suc, ◌+◌, String, ◌≡◌, refl, Bool, true, false, not, Option, none, some, List, [], ◌∷◌, map,
  arith, ◌==◌, ap, if◌then◌else◌,
}
use project_os_core.Base.Table.{fetchone, fetchone-upsert_new}
use project_os_core.Base.Result.{Result, ok}
use project_os_core.World.{Outside}
use project_os_core.Orchestration.{
  AgentRole, canonical_role_sequence, MissionRun, Routed, RoleHandoff, RoutingAssignment,
  ExecutionTicket, DispatchRow, MissionGraph,
}
use project_os_core.Orchestration.Graph.{
  Prepared, assignment_key, ticket_key, dispatch_key, keep_assignment, keep_ticket, keep_dispatch,
  build_handoffs, prepared, persist_prepared, envelope_row, with_worker, prepare_execution,
}

-- The decision names a worker.
abbrev pub names_worker : Option String → Bool
names_worker none = false
names_worker (some worker) = not (worker == "")

-- Each handoff comes from the role that the one before it went to.
abbrev pub IsRelay : Option AgentRole → List RoleHandoff → Type 0
IsRelay previous [] = Unit
IsRelay previous (h ∷ hs) = (h.from_role ≡ previous) × IsRelay (some h.to_role) hs

-- The identifiers that the call is about to make for a worker are in no row.
abbrev pub AreFree : Outside → MissionGraph → Type 0
AreFree o s =
    let n = s.context.identifiers in
    (fetchone assignment_key (o.fresh "assignment" (n + 8)) s.assignments ≡ none)
    × (fetchone ticket_key (o.fresh "ticket" (n + 9)) s.tickets ≡ none)
    × (fetchone dispatch_key (o.fresh "worker_dispatch" (n + 11)) s.dispatches ≡ none)

-- The rows lead from a dispatch, by its ticket and its assignment, to the decision and its worker.
abbrev pub LeadsTo : MissionGraph → String → Routed → Type 0
LeadsTo s dispatch d =
    (row : DispatchRow) × (ticket : ExecutionTicket) × (a : RoutingAssignment) × (fetchone
        dispatch_key dispatch s.dispatches
      ≡ some row)
    × (fetchone ticket_key row.ticket_id s.tickets ≡ some ticket)
    × (fetchone assignment_key ticket.assignment_id s.assignments ≡ some a)
    × (a.decision_id ≡ d.decision_id)
    × (some row.worker_request.worker_kind ≡ d.decision.chosen_worker)
    × (some a.worker_kind ≡ d.decision.chosen_worker)

-- The call answers with an execution whose rows lead from the dispatch to the decision, and whose handoffs go
-- from role to role through the canonical sequence.
abbrev pub Prepares : Routed → Result Prepared × MissionGraph → Type 0
Prepares d (r, s) =
    (p : Prepared) × (r ≡ ok p)
    × LeadsTo s p.worker_dispatch_envelope.dispatch_id d
    × IsRelay none p.handoffs
    × (map (λ h. h.to_role) p.handoffs ≡ canonical_role_sequence)

pass {ℓ κ} :
    {A : Type ℓ} (P : A → Type κ) (x y : A) (b : Bool) → b ≡ true → P y → P (if not b then x else y)
pass P x y true h p = p
pass P x y false h p = absurd cc

module _ (o : Outside) where
  build_handoffs-IsRelay :
      (mission : String) (previous : Option AgentRole) (roles : List AgentRole) (n r : ℕ)
      → IsRelay previous (build_handoffs o mission previous roles n r)
        × (map (λ h. h.to_role) (build_handoffs o mission previous roles n r) ≡ roles)
  unfolding build_handoffs
  build_handoffs-IsRelay mission previous [] n r = (tt, refl)
  build_handoffs-IsRelay mission previous (role ∷ roles) n r =
      let (relay, same) = build_handoffs-IsRelay mission (some role) roles (suc n) (suc r) in
      ((refl, relay), ap (λ rest. role ∷ rest) same)

  prepared-LeadsTo :
      (m : MissionRun) (d : Routed) (worker : String) (s : MissionGraph)
      → AreFree o s
      → some worker ≡ d.decision.chosen_worker
      → LeadsTo
          (persist_prepared o m d (prepared o m d worker s.context) s)
          (prepared o m d worker s.context).worker_dispatch_envelope.dispatch_id
          d
  prepared-LeadsTo m d worker s (no_assignment, no_ticket, no_dispatch) chosen =
      let p = prepared o m d worker s.context in
      (
        envelope_row o p.worker_dispatch_envelope,
        p.ticket,
        p.assignment,
        fetchone-upsert_new dispatch_key keep_dispatch (envelope_row o p.worker_dispatch_envelope)
            s.dispatches no_dispatch,
        fetchone-upsert_new ticket_key keep_ticket p.ticket s.tickets no_ticket,
        fetchone-upsert_new assignment_key keep_assignment p.assignment s.assignments no_assignment,
        refl,
        chosen,
        chosen,
      )

  with_worker-LeadsTo :
      (m : MissionRun) (d : Routed) (worker : Option String) (s : MissionGraph)
      → AreFree o s
      → worker ≡ d.decision.chosen_worker
      → names_worker worker ≡ true
      → Prepares d (with_worker o m d worker s)
  with_worker-LeadsTo m d none s free chosen named = absurd cc
  with_worker-LeadsTo m d (some worker) s free chosen named =
      let named_ : (worker == "") ≡ false = ground arith in
      let c = s.context in
      let (relay, roles) =
        build_handoffs-IsRelay m.mission_run_id none canonical_role_sequence (suc c.identifiers)
          (suc c.readings) in
      rw named_
        (prepared o m d worker c, refl, prepared-LeadsTo m d worker s free chosen, relay, roles)

  -- For an allowed decision that names a worker, when the identifiers to be made are in no row, the call
  -- prepares an execution: the rows lead from its dispatch to the decision and its worker, and the mission is
  -- handed from role to role through the canonical sequence.
  pub prepare_execution-LeadsTo :
      (m : MissionRun) (d : Routed) (s : MissionGraph)
      → AreFree o s
      → d.decision.allowed ≡ true
      → names_worker d.decision.chosen_worker ≡ true
      → Prepares d (prepare_execution o m d s)
  unfolding prepare_execution
  prepare_execution-LeadsTo m d s free allowed named =
      pass (Prepares d) _ _ d.decision.allowed allowed
        (with_worker-LeadsTo m d d.decision.chosen_worker s free refl named)
