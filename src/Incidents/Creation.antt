-- ===== src/Incidents/Creation.antt =====
-- Which evidence a new incident has: proofs over the creating methods of Operations.
use mathlib.Core.Path.{subst, sym}
use project_os_core.Base.{
  String, ◌≡◌, refl, true, false, inl, inr, Option, none, some, List, [], arith,
}
use project_os_core.Base.Dict.{Dict}
use project_os_core.Base.Text.{clean, strip}
use project_os_core.Base.Table.{fetchone, upsert, All-upsert, upsert-written}
use project_os_core.Base.Result.{Result, ok, err}
use project_os_core.World.{Outside}
use project_os_core.Incidents.Status.{
  IncidentStatus, IncidentSeverity, incident_status, incident_severity, needs_evidence,
}
use project_os_core.Incidents.Update.{IncidentRow, EvalRun}
use project_os_core.Incidents.{
  Incidents, Files, NewIncident, DeadLetter, incident_key, incident_record, persist_incident,
  write_artifact,
}
use project_os_core.Incidents.Operations.{
  record_cause, told_incident, artifact_incident, created, store_incident, create_checked,
  create_incident, create_from_dead_letter, incident_of_letter, create_from_letter,
}
use project_os_core.Incidents.Evidence.{NamesPassed, HasEvidence, AllEvidence}

abbrev keep_created : IncidentRow → IncidentRow → IncidentRow
keep_created old new = record new { created_at = old.created_at }

module _ (o : Outside) (kind id : String) (m : Dict String) (s : Incidents) where
  incidents-record_cause :
      (x : Option String) → (record_cause o x kind id m s).incidents ≡ s.incidents
  unfolding record_cause
  incidents-record_cause none = refl
  incidents-record_cause (some parent) = refl

  eval_runs-record_cause :
      (x : Option String) → (record_cause o x kind id m s).eval_runs ≡ s.eval_runs
  unfolding record_cause
  eval_runs-record_cause none = refl
  eval_runs-record_cause (some parent) = refl

module _ (o : Outside) (f : Files) (r : IncidentRow) where
  incidents-told :
      (x : Result (Unit {0})) (s : Incidents) → (told_incident o x r s).1.incidents ≡ s.incidents
  incidents-told (err e) s = refl
  incidents-told (ok _) s = simp incidents-record_cause

  eval_runs-told :
      (x : Result (Unit {0})) (s : Incidents) → (told_incident o x r s).1.eval_runs ≡ s.eval_runs
  eval_runs-told (err e) s = refl
  eval_runs-told (ok _) s = simp eval_runs-record_cause

  incidents-artifact :
      (x : Result (Unit {0})) (s : Incidents)
      → (artifact_incident o f x r s).1.incidents ≡ s.incidents
  unfolding write_artifact
  incidents-artifact (err e) s = refl
  incidents-artifact (ok _) s = incidents-told _ (write_artifact r s)

  eval_runs-artifact :
      (x : Result (Unit {0})) (s : Incidents)
      → (artifact_incident o f x r s).1.eval_runs ≡ s.eval_runs
  unfolding write_artifact
  eval_runs-artifact (err e) s = refl
  eval_runs-artifact (ok _) s = eval_runs-told _ (write_artifact r s)

  incidents-store_incident :
      (s : Incidents)
      → (store_incident o f r s).1.incidents ≡ upsert incident_key keep_created r s.incidents
  unfolding store_incident persist_incident
  incidents-store_incident s = incidents-artifact _ (persist_incident r s)

  eval_runs-store_incident : (s : Incidents) → (store_incident o f r s).1.eval_runs ≡ s.eval_runs
  unfolding store_incident persist_incident
  eval_runs-store_incident s = eval_runs-artifact _ (persist_incident r s)

  store_incident-AllEvidence :
      (s : Incidents)
      → HasEvidence s.eval_runs r
      → AllEvidence s
      → AllEvidence (store_incident o f r s).1
  store_incident-AllEvidence s new h =
      rw (incidents-store_incident s, eval_runs-store_incident s)
        (All-upsert incident_key (HasEvidence s.eval_runs) keep_created r s.incidents new (λ _. new)
          h)

created_state : (id : String) (m : Result (Unit {0}) × Incidents) → (created id m).1 ≡ m.1
created_state id (err e, s) = refl
created_state id (ok _, s) = refl

module _ (o : Outside) (f : Files) (n : NewIncident) (s : Incidents) where
  create_checked-AllEvidence :
      (severity : Result IncidentSeverity) (status : Result IncidentStatus)
      → ((x : IncidentStatus) → status ≡ ok x → needs_evidence x ≡ false)
      → AllEvidence s
      → AllEvidence (create_checked o f n severity status s).1
  unfolding create_checked incident_record
  create_checked-AllEvidence (err e) status plain h = h
  create_checked-AllEvidence (ok severity) (err e) plain h = h
  create_checked-AllEvidence (ok severity) (ok status) plain h =
      subst AllEvidence (sym (created_state _ _))
        (store_incident-AllEvidence o f _ _ (λ k. cc (k, plain status refl)) h)

  -- A new incident that is neither verified nor closed keeps the evidence of all the others.
  pub create_incident-AllEvidence :
      ((x : IncidentStatus) → incident_status n.status ≡ ok x → needs_evidence x ≡ false)
      → AllEvidence s
      → AllEvidence (create_incident o f n s).1
  unfolding create_incident
  create_incident-AllEvidence = create_checked-AllEvidence _ _

-- When every verified or closed incident has evidence, each still has it after an incident is
-- made from a dead letter: the new one is open.
pub create_from_dead_letter-AllEvidence :
    (o : Outside) (f : Files) (id severity : String) (summary symptom : Option String)
    (metadata : Dict String) (s : Incidents)
    → AllEvidence s
    → AllEvidence (create_from_dead_letter o f id severity summary symptom metadata s).1
unfolding create_from_dead_letter
create_from_dead_letter-AllEvidence o f id severity summary symptom metadata s h =
    found (fetchone (λ (d : DeadLetter). d.dead_letter_id) id s.dead_letters)
  where
    found :
        (x : Option DeadLetter)
        → AllEvidence (create_from_letter o f id severity summary symptom metadata x s).1
    found none = h
    found (some d) =
        create_incident-AllEvidence o f (incident_of_letter severity summary symptom metadata d) s
          (λ x e. unfold incident_of_letter incident_status needs_evidence in ground arith) h

clean-none : clean none ≡ none
unfolding clean strip
clean-none = refl

module _ (runs : List EvalRun) (r : IncidentRow) where
  lacks_evidence :
      needs_evidence r.status ≡ true
      → r.verification_refs ≡ []
      → r.latest_eval_run_id ≡ none
      → ¬ HasEvidence runs r
  lacks_evidence guarded refs run h = elim (h guarded) [
    | inl some_refs ↦ some_refs refs
    | inr named ↦ subst (NamesPassed runs) run named
  ]

-- The creating method has no such guard: an incident that is created as verified or closed, with
-- neither references nor an evaluation run, has no evidence, whether or not its files can be written.
pub create_incident-unguarded :
    (o : Outside) (f : Files) (n : NewIncident) (s : Incidents) (severity : IncidentSeverity)
    (x : IncidentStatus)
    → incident_severity n.severity ≡ ok severity
    → incident_status n.status ≡ ok x
    → needs_evidence x ≡ true
    → n.verification_refs ≡ []
    → n.latest_eval_run_id ≡ none
    → ¬ AllEvidence (create_incident o f n s).1
unfolding create_incident create_checked incident_record
create_incident-unguarded o f n s severity x hs hx guarded refs run all =
    unguarded (rw (hs, hx) at all)
  where
    r : IncidentRow
    r =
        incident_record (o.fresh "incident" s.context.identifiers) severity x n
          (o.wall s.context.readings)

    bare : ¬ HasEvidence s.eval_runs r
    bare = lacks_evidence s.eval_runs r guarded refs (rw run clean-none)

    unguarded : ¬ AllEvidence (create_checked o f n (ok severity) (ok x) s).1
    unguarded h =
        elim (upsert-written incident_key (HasEvidence s.eval_runs) keep_created r s.incidents
          (rw (created_state, incidents-store_incident, eval_runs-store_incident) at h)) [
            | inl new ↦ bare new
            | inr (old, merged) ↦ bare merged
          ]
