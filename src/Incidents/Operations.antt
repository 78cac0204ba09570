-- ===== src/Incidents/Operations.antt =====
-- The methods of IncidentService that read and change the state.
use Prim.Native.String.{◌++◌ as concat}
use project_os_core.Base.{
  ℕ, suc, String, Bool, ◌&&◌, ◌||◌, true, Option, none, some, List, [], ◌∷◌, take, max, map, filter,
  leb, eqb, ltb, ◌==◌, if◌then◌else◌,
}
use project_os_core.Base.Text.{or_text}
use project_os_core.Base.Dict
use project_os_core.Base.Dict.{Dict}
use project_os_core.Base.Sort.{sort_by}
use project_os_core.Base.Table.{fetchone, update_where}
use project_os_core.Base.Result.{Result, ok, err, key_error}
use project_os_core.World.{Outside, Context, Value, text, optional_text, append}
use project_os_core.TraceEdges.{record_trace_edge}
use project_os_core.Incidents.Status.{
  IncidentSeverity, incident_status, incident_severity, status_value, severity_value, same_status,
  is_terminal, verified, IncidentStatus,
}
use project_os_core.Incidents.Update.{IncidentRow, Change, Plan, plan_update, apply_plan}
use project_os_core.Incidents.{
  DeadLetter, Incidents, Files, NewIncident, incident_key, falsy_none, get_incident,
  incident_record, persist_incident, write_artifact, row_to_payload,
}

-- if parent: record_trace_edge(parent → incident, caused)
unfoldable pub record_cause :
    Outside → Option String → String → String → Dict String → Incidents → Incidents
record_cause o none kind id metadata s = s
record_cause o (some parent) kind id metadata s = record s {
  context =
      record_trace_edge o
        (record {
          parent_id = parent;
          parent_kind = kind;
          child_id = id;
          child_kind = "incident";
          relation = "caused";
        })
        metadata s.context;
}

abbrev created_payload : IncidentRow → Dict Value
created_payload r =
    ("incident_id", text r.incident_id)
    ∷ ("severity", text (severity_value r.severity))
    ∷ ("status", text (status_value r.status))
    ∷ ("correlation_id", optional_text r.correlation_id)
    ∷ ("dead_letter_id", text (or_text r.dead_letter_id ""))
    ∷ []

-- An entry of the journal has its identifier and its time before its line is written.
abbrev journal_failed : Incidents → Incidents
journal_failed s =
    let c = s.context in
    record s { context = record c { readings = suc c.readings; identifiers = suc c.identifiers } }

-- the journal and the edges of a new incident
abbrev pub told_incident :
    Outside → Result (Unit {0}) → IncidentRow → Incidents → Result (Unit {0}) × Incidents
told_incident o (err e) r s = (err e, journal_failed s)
told_incident o (ok _) r s =
    let s2 = record s {
      context = append o "incident_created" "incidents" (created_payload r) s.context;
    } in
    let s3 =
      record_cause o r.dead_letter_id "dead_letter" r.incident_id
        (("severity", severity_value r.severity) ∷ []) s2 in
    (ok tt, record_cause o r.replay_id "debug_replay" r.incident_id [] s3)

abbrev pub artifact_incident :
    Outside → Files → Result (Unit {0}) → IncidentRow → Incidents → Result (Unit {0}) × Incidents
artifact_incident o f (err e) r s = (err e, s)
artifact_incident o f (ok _) r s =
    let s1 = write_artifact r s in told_incident o (f.journal_line s1.context) r s1

-- what create_incident does with the record once both enums are read
unfoldable pub store_incident :
    Outside → Files → IncidentRow → Incidents → Result (Unit {0}) × Incidents
store_incident o f r s =
    let s1 = persist_incident r s in artifact_incident o f (f.artifact r s1.context) r s1

abbrev pub created : String → Result (Unit {0}) × Incidents → Result IncidentRow × Incidents
created id (err e, s) = (err e, s)
created id (ok _, s) = (get_incident id s, s)

-- the clock is read first, and the identifier is taken once both enums are read
unfoldable pub create_checked :
    Outside
    → Files
    → NewIncident
    → Result IncidentSeverity
    → Result IncidentStatus
    → Incidents
    → Result IncidentRow × Incidents
create_checked o f n (err e) status s =
    (err e, record s { context = record s.context { readings = suc s.context.readings } })
create_checked o f n (ok severity) (err e) s =
    (err e, record s { context = record s.context { readings = suc s.context.readings } })
create_checked o f n (ok severity) (ok status) s =
    let c = s.context in
    let r =
      incident_record (o.fresh "incident" c.identifiers) severity status n (o.wall c.readings) in
    created r.incident_id (
      store_incident o f r (record s {
        context = record c { readings = suc c.readings; identifiers = suc c.identifiers };
      }))

unfoldable pub create_incident :
    Outside → Files → NewIncident → Incidents → Result IncidentRow × Incidents
create_incident o f n s =
    create_checked o f n (incident_severity n.severity) (incident_status n.status) s

-- the arguments that create_from_dead_letter passes on
unfoldable pub incident_of_letter :
    String → Option String → Option String → Dict String → DeadLetter → NewIncident
incident_of_letter severity summary symptom metadata d = record {
  severity = severity;
  summary = or_text summary (concat "Incident derive du dead letter " d.domain);
  symptom = or_text symptom (or_text d.error_message (or_text (some d.domain) "Dead letter actif"));
  root_cause_hypothesis = none;
  fix_summary = none;
  source_ids = d.dead_letter_id ∷ d.source_entity_id ∷ [];
  verification_refs = [];
  correlation_id = falsy_none d.correlation_id;
  run_id = falsy_none d.run_id;
  mission_run_id = falsy_none d.mission_run_id;
  dispatch_id = falsy_none d.dispatch_id;
  channel_event_id = falsy_none d.channel_event_id;
  replay_id = none;
  dead_letter_id = some d.dead_letter_id;
  eval_case_id = none;
  latest_eval_run_id = none;
  metadata =
      Dict.put "source_entity_kind" d.source_entity_kind
        (Dict.put "source_dead_letter_domain" d.domain (Dict.update d.metadata metadata));
  status = "open";
}

abbrev pub create_from_letter :
    Outside
    → Files
    → String
    → String
    → Option String
    → Option String
    → Dict String
    → Option DeadLetter
    → Incidents
    → Result IncidentRow × Incidents
create_from_letter o f id severity summary symptom metadata none s =
    (err (key_error (concat "Unknown dead letter: " id)), s)
create_from_letter o f id severity summary symptom metadata (some d) s =
    create_incident o f (incident_of_letter severity summary symptom metadata d) s

unfoldable pub create_from_dead_letter :
    Outside
    → Files
    → String
    → String
    → Option String
    → Option String
    → Dict String
    → Incidents
    → Result IncidentRow × Incidents
create_from_dead_letter o f id severity summary symptom metadata s =
    create_from_letter o f id severity summary symptom metadata
      (fetchone (λ (d : DeadLetter). d.dead_letter_id) id s.dead_letters) s

-- a filter that is None or empty is left out of the WHERE clause
abbrev matches : Option String → String → Bool
matches none value = true
matches (some wanted) value = wanted == "" || value == wanted

-- ORDER BY updated_at DESC, created_at DESC
abbrev pub newest_first : IncidentRow → IncidentRow → Bool
newest_first a b =
    ltb b.updated_at a.updated_at
    || (eqb a.updated_at b.updated_at && leb b.created_at a.created_at)

unfoldable pub list_incidents : Option String → Option String → ℕ → Incidents → List IncidentRow
unfolding row_to_payload
list_incidents status severity limit s = map row_to_payload (
    take (max 1 limit) (
      sort_by newest_first (
        filter
          (λ r.
            matches status (status_value r.status) && matches severity (severity_value r.severity))
          s.incidents)))

abbrev verified_by : Outside → Option String → String → IncidentStatus → Context → Context
verified_by o none id next c = c
verified_by o (some run) id next c =
    record_trace_edge o
      (record {
        parent_id = id;
        parent_kind = "incident";
        child_id = run;
        child_kind = "eval_run";
        relation = "verified_by";
      })
      (("status", status_value next) ∷ []) c

-- the reading for updated_at: one more was taken before it when the change sets resolved_at
unfoldable pub update_reading : Plan → ℕ → ℕ
update_reading p start =
    if is_terminal p.next_status || same_status p.next_status verified then suc start else start

-- the first writes of update_incident_status: the row and the edge
unfoldable pub write_update : Outside → String → Change → IncidentRow → Plan → Incidents → Incidents
write_update o id c r p s =
    let at = update_reading p s.context.readings in
    record s {
      context =
          verified_by o p.eval_run_id id p.next_status (record s.context { readings = suc at });
      incidents =
          update_where incident_key id (apply_plan p c (o.wall s.context.readings) (o.wall at))
            s.incidents;
    }

-- incident = self.get_incident(…); the artifact is written from it
abbrev pub shown_update :
    Result (Unit {0}) → IncidentRow → Incidents → Result IncidentRow × Incidents
shown_update (ok _) shown s = (ok shown, write_artifact shown s)
shown_update (err e) shown s = (err e, s)

unfoldable pub show_update : Files → Result IncidentRow → Incidents → Result IncidentRow × Incidents
show_update f (ok shown) s = shown_update (f.artifact shown s.context) shown s
show_update f (err e) s = (err e, s)

abbrev updated_entry : Outside → String → IncidentRow → Plan → Context → Context
updated_entry o id r p c =
    append o "incident_status_updated" "incidents"
      (("incident_id", text id)
        ∷ ("previous_status", text (status_value r.status))
        ∷ ("status", text (status_value p.next_status))
        ∷ ("latest_eval_run_id", text (or_text p.eval_run_id ""))
        ∷ [])
      c

-- the journal, and what is shown
abbrev pub told_update :
    Outside
    → Files
    → Result (Unit {0})
    → String
    → IncidentRow
    → Plan
    → Incidents
    → Result IncidentRow × Incidents
told_update o f (err e) id r p s = (err e, journal_failed s)
told_update o f (ok _) id r p s =
    let s' = record s { context = updated_entry o id r p s.context } in
    show_update f (get_incident id s') s'

unfoldable pub commit_update :
    Outside
    → Files
    → String
    → Change
    → IncidentRow
    → Plan
    → Incidents
    → Result IncidentRow × Incidents
commit_update o f id c r p s =
    let s' = write_update o id c r p s in told_update o f (f.journal_line s'.context) id r p s'

abbrev pub update_planned :
    Outside
    → Files
    → String
    → Change
    → IncidentRow
    → Result Plan
    → Incidents
    → Result IncidentRow × Incidents
update_planned o f id c r (err e) s = (err e, s)
update_planned o f id c r (ok p) s = commit_update o f id c r p s

abbrev pub update_found :
    Outside
    → Files
    → String
    → Change
    → Option IncidentRow
    → Incidents
    → Result IncidentRow × Incidents
update_found o f id c none s = (err (key_error (concat "Unknown incident: " id)), s)
update_found o f id c (some r) s = update_planned o f id c r (plan_update s.eval_runs c r) s

unfoldable pub update_incident_status :
    Outside → Files → String → Change → Incidents → Result IncidentRow × Incidents
update_incident_status o f id c s = update_found o f id c (fetchone incident_key id s.incidents) s
