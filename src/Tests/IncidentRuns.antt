-- ===== src/Tests/IncidentRuns.antt =====
-- Incidents on concrete inputs.
use project_os_core.Base.{
  ◌≡◌, ◌≢◌, ◌⊎◌, refl, none, some, [], ◌∷◌, ◌++◌, ◌==◌, if◌then◌else◌, String, eq_iff,
}
use mathlib.Core.Bool.{false≢true}
use project_os_core.Base.Text.{strip, is_member}
use project_os_core.Base.Table.{fetchone, update_where}
use project_os_core.Base.Result.{ok, err, key_error, runtime_error}
use project_os_core.Incidents.Status.{
  IncidentStatus, verified, closed, fix_in_progress, p0, p1, incident_status, same_status,
  allowed_transition, needs_evidence, is_terminal, incident_severity,
}
use project_os_core.Incidents.Update.{
  IncidentRow, EvalRun, Change, Plan, plan_update, apply_plan, dedupe, eval_run_of,
}
use project_os_core.Incidents.{
  Incidents, Files, DeadLetter, NewIncident, incident_key, row_to_payload, get_incident,
}
use project_os_core.Incidents.Operations.{
  create_incident, update_incident_status, commit_update, write_update, show_update,
}
use project_os_core.Incidents.Lifecycle.{
  Reach, here, change, Visited, closed_needs_verified, Reach-closed, resolved_at-kept,
}
use project_os_core.Incidents.Evidence.{AllEvidence, update-AllEvidence}
use project_os_core.Incidents.Creation.{create_incident-unguarded}
use project_os_core.Incidents.Writes.{changed, update-ok, IsCommitted, update-IsCommitted}
use project_os_core.Incidents.References.{incident-Closable}
use project_os_core.Tests.Samples.{outside, context}

abbrev sample : IncidentRow
sample = record {
  incident_id = "incident_1";
  severity = p1;
  status = fix_in_progress;
  summary = "delivery stuck";
  symptom = "no reply";
  root_cause_hypothesis = none;
  fix_summary = none;
  source_ids = [];
  verification_refs = "log_1" ∷ [];
  correlation_id = none;
  run_id = none;
  mission_run_id = none;
  dispatch_id = none;
  channel_event_id = none;
  replay_id = none;
  dead_letter_id = none;
  eval_case_id = none;
  latest_eval_run_id = none;
  metadata = [];
  created_at = 1;
  updated_at = 1;
  resolved_at = none;
}

abbrev to_status : String → Change
to_status x = record {
  status = x;
  fix_summary = none;
  root_cause_hypothesis = none;
  verification_refs = "log_2" ∷ "log_1" ∷ [];
  latest_eval_run_id = none;
  metadata = [];
}

abbrev both_refs : IncidentStatus → Plan
both_refs x = record { next_status = x; merged_refs = "log_1" ∷ "log_2" ∷ []; eval_run_id = none }

verified_planned : plan_update [] (to_status "verified") sample ≡ ok (both_refs verified)
unfolding plan_update incident_status same_status allowed_transition needs_evidence dedupe is_member
    eval_run_of strip
verified_planned = refl

abbrev verified_row : IncidentRow
verified_row = apply_plan (both_refs verified) (to_status "verified") 5 6 sample

closed_planned : plan_update [] (to_status "closed") verified_row ≡ ok (both_refs closed)
unfolding plan_update incident_status same_status allowed_transition needs_evidence dedupe is_member
    eval_run_of apply_plan strip
closed_planned = refl

abbrev closed_row : IncidentRow
closed_row = apply_plan (both_refs closed) (to_status "closed") 7 8 verified_row

abbrev to_closed : Reach [] sample closed_row
to_closed =
    change (to_status "closed") (both_refs closed) 7 8
      (change (to_status "verified") (both_refs verified) 5 6 here verified_planned) closed_planned

closed_row_closed : closed_row.status ≡ closed
unfolding apply_plan
closed_row_closed = refl

closed_needs_verified_example : Visited to_closed verified
closed_needs_verified_example = closed_needs_verified to_closed (λ e. cc) closed_row_closed

again_planned : plan_update [] (to_status "closed") closed_row ≡ ok (both_refs closed)
unfolding plan_update incident_status same_status allowed_transition needs_evidence dedupe is_member
    eval_run_of apply_plan strip
again_planned = refl

abbrev closed_again : IncidentRow
closed_again = apply_plan (both_refs closed) (to_status "closed") 9 10 closed_row

abbrev to_closed_again : Reach [] closed_row closed_again
to_closed_again = change (to_status "closed") (both_refs closed) 9 10 here again_planned

Reach-closed_example : closed_again.status ≡ closed
Reach-closed_example = Reach-closed to_closed_again closed_row_closed

closed_row_resolved : closed_row.resolved_at ≢ none
unfolding apply_plan is_terminal
closed_row_resolved e = cc

resolved_at-kept_example : closed_again.resolved_at ≢ none
resolved_at-kept_example = resolved_at-kept to_closed_again closed_row_resolved

-- Every file can be written, or only the line of the journal.
abbrev files : Files
files = record { journal_line = λ c. ok tt; artifact = λ r c. ok tt }

abbrev full_disk : Files
full_disk = record {
  journal_line = λ c. ok tt;
  artifact = λ r c. err (runtime_error "No space left on device");
}

abbrev service : Incidents
service = record {
  context = context;
  incidents = sample ∷ [];
  eval_runs = [];
  dead_letters = [];
  artifacts = [];
}

service_evidence : AllEvidence service
unfolding needs_evidence
service_evidence = ((λ h. cc), tt)

update-AllEvidence_example :
    AllEvidence (update_incident_status outside files "incident_1" (to_status "closed") service).1
update-AllEvidence_example =
    update-AllEvidence outside files "incident_1" (to_status "closed") service service_evidence

sample_found : fetchone incident_key "incident_1" service.incidents ≡ some sample
unfolding fetchone
sample_found = refl

update-ok_example :
    let s' = (update_incident_status outside files "incident_1" (to_status "verified") service).1 in
    let row =
      changed outside "incident_1" (to_status "verified") sample (both_refs verified) service in
    ((update_incident_status outside files "incident_1" (to_status "verified") service).0
      ≡ ok (row_to_payload row))
    × (s'.artifacts ≡ [] ++ row_to_payload row ∷ [])
    × ((j : String)
        → fetchone incident_key j s'.incidents
          ≡ (if "incident_1" == j then some row else fetchone incident_key j (sample ∷ [])))
update-ok_example =
    update-ok outside "incident_1" (to_status "verified") sample (both_refs verified) service files
      ((λ c. refl), (λ r c. refl)) sample_found verified_planned

unknown_raises :
    (update_incident_status outside files "incident_9" (to_status "closed") service).0
    ≡ err (key_error "Unknown incident: incident_9")
unfolding update_incident_status fetchone
unknown_raises = refl

verified_raises :
    (update_incident_status outside full_disk "incident_1" (to_status "verified") service).0
    ≡ err (runtime_error "No space left on device")
unfolding update_incident_status fetchone plan_update incident_status same_status allowed_transition
    needs_evidence dedupe is_member eval_run_of strip commit_update write_update get_incident
    show_update update_where apply_plan
verified_raises = refl

update-IsCommitted_example :
    let s' =
      (update_incident_status outside full_disk "incident_1" (to_status "verified") service).1 in
    (s' ≡ service)
    ⊎ IsCommitted outside full_disk "incident_1"
        (to_status "verified")
        (runtime_error "No space left on device")
        service
        s'
update-IsCommitted_example =
    update-IsCommitted outside full_disk "incident_1" (to_status "verified") service
      (runtime_error "No space left on device") verified_raises

abbrev passed_run : EvalRun
passed_run = record { eval_run_id = "eval_1"; status = "passed" }

incident-Closable_example :
    (s : IncidentRow) × Reach (passed_run ∷ []) sample s × (s.status ≡ closed)
unfolding fetchone strip
incident-Closable_example =
    incident-Closable (passed_run ∷ []) passed_run refl refl
      (λ e. false≢true ((eq_iff "eval_1" "").1 e)) refl sample

abbrev hasty : NewIncident
hasty = record {
  severity = "p0";
  summary = "outage";
  symptom = "down";
  root_cause_hypothesis = none;
  fix_summary = none;
  source_ids = [];
  verification_refs = [];
  correlation_id = none;
  run_id = none;
  mission_run_id = none;
  dispatch_id = none;
  channel_event_id = none;
  replay_id = none;
  dead_letter_id = none;
  eval_case_id = none;
  latest_eval_run_id = none;
  metadata = [];
  status = "closed";
}

create_incident-unguarded_example : ¬ AllEvidence (create_incident outside files hasty service).1
unfolding incident_severity incident_status needs_evidence
create_incident-unguarded_example =
    create_incident-unguarded outside files hasty service p0 closed refl refl refl refl refl

abbrev letter : DeadLetter
letter = record {
  dead_letter_id = "letter_1";
  domain = "delivery";
  source_entity_kind = "dispatch";
  source_entity_id = "dispatch_1";
  error_message = some "timeout";
  correlation_id = none;
  run_id = some "run_1";
  mission_run_id = none;
  dispatch_id = some "dispatch_1";
  channel_event_id = none;
  metadata = [];
}
