-- ===== src/Incidents.antt =====
-- incidents/service.py over the tables that it reads and writes. A method takes the state and returns
-- its result, or what it raises, with the state it leaves.
pub mod Status
pub mod Update
pub mod Operations
pub mod Lifecycle
pub mod Evidence
pub mod Creation
pub mod Writes
pub mod References
use Prim.Native.String.{◌++◌ as concat}
use project_os_core.Base.{
  ℕ, suc, String, Bool, ◌&&◌, ◌||◌, true, Option, none, some, List, [], ◌∷◌, ◌++◌, take, max,
  length, map, filter, leb, eqb, ltb, ◌==◌, if◌then◌else◌, ◌≡◌,
}
use project_os_core.Base.Text.{strip, clean, or_none, or_text}
use project_os_core.Base.Dict
use project_os_core.Base.Dict.{Dict}
use project_os_core.Base.Sort.{sort_by}
use project_os_core.Base.Table.{fetchone, update_where, upsert}
use project_os_core.Base.Result.{Result, ok, err, key_error, ◌>>=◌}
use project_os_core.World.{Outside, Context, append}
use project_os_core.TraceEdges.{record_trace_edge}
use Status.{
  IncidentStatus, IncidentSeverity, incident_status, incident_severity, status_value,
  severity_value, needs_evidence, is_terminal, verified, open_,
}
use Update.{IncidentRow, EvalRun, Change, Plan, plan_update, apply_plan}

pub record DeadLetter : Type 0 where
  pub dead_letter_id : String
  pub domain : String
  pub source_entity_kind : String
  pub source_entity_id : String
  pub error_message : Option String
  pub correlation_id : Option String
  pub run_id : Option String
  pub mission_run_id : Option String
  pub dispatch_id : Option String
  pub channel_event_id : Option String
  pub metadata : Dict String

-- `artifacts` are the incidents whose JSON file was written, newest last.
pub record Incidents : Type 0 where
  pub context : Context
  pub incidents : List IncidentRow
  pub eval_runs : List EvalRun
  pub dead_letters : List DeadLetter
  pub artifacts : List IncidentRow

abbrev pub incident_key : IncidentRow → String
incident_key r = r.incident_id

abbrev falsy_none : Option String → Option String
falsy_none none = none
falsy_none (some s) = or_none s

-- a column that is empty is shown as None
unfoldable pub row_to_payload : IncidentRow → IncidentRow
row_to_payload r = record r {
  root_cause_hypothesis = falsy_none r.root_cause_hypothesis;
  fix_summary = falsy_none r.fix_summary;
  correlation_id = falsy_none r.correlation_id;
  run_id = falsy_none r.run_id;
  mission_run_id = falsy_none r.mission_run_id;
  dispatch_id = falsy_none r.dispatch_id;
  channel_event_id = falsy_none r.channel_event_id;
  replay_id = falsy_none r.replay_id;
  dead_letter_id = falsy_none r.dead_letter_id;
  eval_case_id = falsy_none r.eval_case_id;
  latest_eval_run_id = falsy_none r.latest_eval_run_id;
}

abbrev incident_of : String → Option IncidentRow → Result IncidentRow
incident_of id none = err (key_error (concat "Unknown incident: " id))
incident_of id (some r) = ok r

unfoldable pub get_incident : String → Incidents → Result IncidentRow
unfolding row_to_payload
get_incident id s = do
  r ← incident_of id (fetchone incident_key id s.incidents)
  ok (row_to_payload r)

-- _persist_incident: the upsert, with `created_at` immutable
unfoldable pub persist_incident : IncidentRow → Incidents → Incidents
persist_incident r s = record s {
  incidents =
      upsert incident_key (λ old new. record new { created_at = old.created_at }) r s.incidents;
}

-- Whether the line of the journal is written to its file, and the artifact of an incident, or what is raised.
pub record Files : Type 0 where
  pub journal_line : Context → Result (Unit {0})
  pub artifact : IncidentRow → Context → Result (Unit {0})

-- Every file can be written.
abbrev pub Writable : Files → Type 0
Writable f =
    ((c : Context) → f.journal_line c ≡ ok tt)
    × ((r : IncidentRow) (c : Context) → f.artifact r c ≡ ok tt)

-- _write_artifact_payload once the file is written: the folder lies in the runtime root, which is managed
unfoldable pub write_artifact : IncidentRow → Incidents → Incidents
write_artifact r s = record s { artifacts = s.artifacts ++ r ∷ [] }

pub record NewIncident : Type 0 where
  pub severity : String
  pub summary : String
  pub symptom : String
  pub root_cause_hypothesis : Option String
  pub fix_summary : Option String
  pub source_ids : List String
  pub verification_refs : List String
  pub correlation_id : Option String
  pub run_id : Option String
  pub mission_run_id : Option String
  pub dispatch_id : Option String
  pub channel_event_id : Option String
  pub replay_id : Option String
  pub dead_letter_id : Option String
  pub eval_case_id : Option String
  pub latest_eval_run_id : Option String
  pub metadata : Dict String
  pub status : String

-- x.strip() if x else None
abbrev strip_given : Option String → Option String
strip_given none = none
strip_given (some s) = if s == "" then none else some (strip s)

unfoldable pub incident_record :
    String → IncidentSeverity → IncidentStatus → NewIncident → ℕ → IncidentRow
incident_record id severity status n now = record {
  incident_id = id;
  severity = severity;
  status = status;
  summary = strip n.summary;
  symptom = strip n.symptom;
  root_cause_hypothesis = strip_given n.root_cause_hypothesis;
  fix_summary = strip_given n.fix_summary;
  source_ids = n.source_ids;
  verification_refs = n.verification_refs;
  correlation_id = clean n.correlation_id;
  run_id = clean n.run_id;
  mission_run_id = clean n.mission_run_id;
  dispatch_id = clean n.dispatch_id;
  channel_event_id = clean n.channel_event_id;
  replay_id = clean n.replay_id;
  dead_letter_id = clean n.dead_letter_id;
  eval_case_id = clean n.eval_case_id;
  latest_eval_run_id = clean n.latest_eval_run_id;
  metadata = n.metadata;
  created_at = now;
  updated_at = now;
  resolved_at = none;
}
