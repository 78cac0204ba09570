-- ===== src/Incidents/Update.antt =====
-- The incident row, and the validation and the write of `update_incident_status`.
use Prim.Native.String.{◌++◌ as concat}
use project_os_core.Base.{
  ℕ, String, ◌&&◌, ◌||◌, not, Option, none, some, List, [], ◌∷◌, ◌++◌, is_empty, is_some, ◌==◌,
  if◌then◌else◌,
}
use project_os_core.Base.Text.{strip, or_none, or_text, is_member}
use project_os_core.Base.Dict
use project_os_core.Base.Dict.{Dict}
use project_os_core.Base.Table.{fetchone}
use project_os_core.Base.Result.{Result, ok, err, value_error, raise_if, ◌>>=◌, ◌>>◌}
use project_os_core.Incidents.Status.{
  IncidentStatus, IncidentSeverity, status_value, same_status, allowed_transition, needs_evidence,
  is_terminal, verified, incident_status,
}

pub record IncidentRow : Type 0 where
  pub incident_id : String
  pub severity : IncidentSeverity
  pub status : IncidentStatus
  pub summary : String
  pub symptom : String
  pub root_cause_hypothesis : Option String
  pub fix_summary : Option String
  pub source_ids : List String
  pub verification_refs : List String
  pub correlation_id : Option String
  pub run_id : Option String
  pub mission_run_id : Option String
  pub dispatch_id : Option String
  pub channel_event_id : Option String
  pub replay_id : Option String
  pub dead_letter_id : Option String
  pub eval_case_id : Option String
  pub latest_eval_run_id : Option String
  pub metadata : Dict String
  pub created_at : ℕ
  pub updated_at : ℕ
  pub resolved_at : Option ℕ

-- a row of eval_runs, by the columns that are read
pub record EvalRun : Type 0 where
  pub eval_run_id : String
  pub status : String

-- the arguments of update_incident_status
pub record Change : Type 0 where
  pub status : String
  pub fix_summary : Option String
  pub root_cause_hypothesis : Option String
  pub verification_refs : List String
  pub latest_eval_run_id : Option String
  pub metadata : Dict String

pub record Plan : Type 0 where
  pub next_status : IncidentStatus
  pub merged_refs : List String
  pub eval_run_id : Option String

unfoldable pub dedupe_from : List String → List String → List String
unfolding is_member
dedupe_from seen [] = []
dedupe_from seen (x ∷ xs) =
    let rest = dedupe_from (x ∷ seen) xs in if is_member x seen then rest else x ∷ rest

-- list(dict.fromkeys(xs))
unfoldable pub dedupe : List String → List String
unfolding dedupe_from
dedupe = dedupe_from []

-- str(latest or row.latest or "").strip() or None
unfoldable pub eval_run_of : Change → IncidentRow → Option String
eval_run_of c r = or_none (strip (or_text c.latest_eval_run_id (or_text r.latest_eval_run_id "")))

unfoldable pub check_transition : IncidentStatus → IncidentStatus → Result (Unit {0})
check_transition current next =
    raise_if (not (same_status next current) && not (allowed_transition current next)) (
      value_error (
        concat "Invalid incident transition: "
          (concat (status_value current) (concat " -> " (status_value next)))))

unfoldable pub check_evidence : IncidentStatus → List String → Option String → Result (Unit {0})
check_evidence next refs eval_run_id =
    raise_if (needs_evidence next && not (not (is_empty refs) || is_some eval_run_id))
      (value_error "verified/closed incidents require verification_refs or latest_eval_run_id")

unfoldable pub check_passed : String → Option EvalRun → Result (Unit {0})
check_passed id none = err (value_error (concat "Unknown eval run: " id))
check_passed id (some run) =
    raise_if (not (run.status == "passed"))
      (value_error (concat "eval run must be passed before verification: " id))

unfoldable pub check_eval_run : IncidentStatus → Option String → List EvalRun → Result (Unit {0})
check_eval_run next none runs = ok tt
check_eval_run next (some id) runs =
    if needs_evidence next then check_passed id (fetchone (λ e. e.eval_run_id) id runs) else ok tt

-- The guards of update_incident_status, in order, once the row is read.
unfoldable pub plan_update : List EvalRun → Change → IncidentRow → Result Plan
unfolding check_transition check_evidence check_eval_run check_passed
plan_update runs c r = do
  next ← incident_status c.status
  check_transition r.status next
  let refs = dedupe (r.verification_refs ++ c.verification_refs)
  let eval_run_id = eval_run_of c r
  check_evidence next refs eval_run_id
  check_eval_run next eval_run_id runs
  ok (record { next_status = next; merged_refs = refs; eval_run_id = eval_run_id })

-- COALESCE(?, column)
abbrev pub coalesce : Option String → Option String → Option String
coalesce none old = old
coalesce (some v) old = some v

-- The UPDATE statement; `resolved` is the reading for resolved_at, `now` the one for updated_at.
unfoldable pub apply_plan : Plan → Change → ℕ → ℕ → IncidentRow → IncidentRow
apply_plan p c resolved now r = record r {
  status = p.next_status;
  fix_summary = coalesce c.fix_summary r.fix_summary;
  root_cause_hypothesis = coalesce c.root_cause_hypothesis r.root_cause_hypothesis;
  verification_refs = p.merged_refs;
  latest_eval_run_id = coalesce p.eval_run_id r.latest_eval_run_id;
  metadata = Dict.update r.metadata c.metadata;
  updated_at = now;
  resolved_at =
      if is_terminal p.next_status || same_status p.next_status verified
      then some resolved
      else r.resolved_at;
}
