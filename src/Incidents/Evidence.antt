-- ===== src/Incidents/Evidence.antt =====
-- The evidence that a verified or closed incident rests on: proofs over Operations.
use project_os_core.Base.{
  ℕ, String, ◌≡◌, ◌≢◌, refl, true, ◌⊎◌, inl, inr, Option, none, some, List, [], All, Option-cases,
}
use project_os_core.Base.Table.{fetchone, All-update_where}
use project_os_core.Base.Result.{Result, ok, err}
use project_os_core.World.{Outside}
use project_os_core.Incidents.Status.{needs_evidence}
use project_os_core.Incidents.Update.{IncidentRow, EvalRun, Change, Plan, plan_update, apply_plan}
use project_os_core.Incidents.{Incidents, Files, incident_key, write_artifact}
use project_os_core.Incidents.Operations.{
  told_update, shown_update, commit_update, write_update, show_update, update_planned, update_found,
  update_incident_status,
}
use project_os_core.Incidents.Lifecycle.{plan_update-evidence, plan_update-passed}

-- The run that a row names is in the table of runs, and passed.
abbrev pub NamesPassed : List EvalRun → Option String → Type 0
NamesPassed runs none = ⊥
NamesPassed runs (some id) =
    (run : EvalRun) × (fetchone (λ e. e.eval_run_id) id runs ≡ some run) × (run.status ≡ "passed")

abbrev pub HasEvidence : List EvalRun → IncidentRow → Type 0
HasEvidence runs r =
    needs_evidence r.status ≡ true
    → (r.verification_refs ≢ []) ⊎ NamesPassed runs r.latest_eval_run_id

abbrev pub AllEvidence : Incidents → Type 0
AllEvidence s = All (HasEvidence s.eval_runs) s.incidents

module _ (runs : List EvalRun) (c : Change) (r : IncidentRow) (p : Plan)
    (planned : plan_update runs c r ≡ ok p) where
  apply_plan-HasEvidence :
      (at now : ℕ) (row : IncidentRow) → HasEvidence runs (apply_plan p c at now row)
  unfolding apply_plan
  apply_plan-HasEvidence at now row h = elim (plan_update-evidence runs c r p planned h) [
    | inl refs ↦ inl refs
    | inr named ↦ elim (Option-cases p.eval_run_id) [
      | inl absent ↦ absurd (named absent)
      | inr (id, e) ↦ inr (rw e (plan_update-passed runs c r p planned id h e))
    ]
  ]

module _ (f : Files) where
  show_update-AllEvidence :
      (x : Result IncidentRow) (s : Incidents) → AllEvidence s → AllEvidence (show_update f x s).1
  unfolding show_update write_artifact
  show_update-AllEvidence (err e) s h = h
  show_update-AllEvidence (ok shown) s h = written (f.artifact shown s.context)
    where
      written : (x : Result (Unit {0})) → AllEvidence (shown_update x shown s).1
      written (err e) = h
      written (ok _) = h

  told_update-AllEvidence :
      (o : Outside) (x : Result (Unit {0})) (id : String) (r : IncidentRow) (p : Plan)
      (s : Incidents)
      → AllEvidence s
      → AllEvidence (told_update o f x id r p s).1
  told_update-AllEvidence o (err e) id r p s h = h
  told_update-AllEvidence o (ok _) id r p s h = show_update-AllEvidence _ _ h

  commit_update-AllEvidence :
      (o : Outside) (id : String) (c : Change) (r : IncidentRow) (p : Plan) (s : Incidents)
      → plan_update s.eval_runs c r ≡ ok p
      → AllEvidence s
      → AllEvidence (commit_update o f id c r p s).1
  unfolding commit_update write_update
  commit_update-AllEvidence o id c r p s planned h = told_update-AllEvidence o _ id r p _ (
      All-update_where incident_key (HasEvidence s.eval_runs) id (apply_plan p c _ _) s.incidents
        (λ row _. apply_plan-HasEvidence s.eval_runs c r p planned _ _ row) h)

-- When every verified or closed incident has evidence, each still has it after a status change,
-- accepted or refused, whether or not its files can be written.
pub update-AllEvidence :
    (o : Outside) (f : Files) (id : String) (c : Change) (s : Incidents)
    → AllEvidence s
    → AllEvidence (update_incident_status o f id c s).1
unfolding update_incident_status
update-AllEvidence o f id c s h = found (fetchone incident_key id s.incidents)
  where
    planned :
        (r : IncidentRow) (q : Result Plan)
        → plan_update s.eval_runs c r ≡ q
        → AllEvidence (update_planned o f id c r q s).1
    planned r (ok p) e = commit_update-AllEvidence f o id c r p s e h
    planned r (err x) e = h

    found : (x : Option IncidentRow) → AllEvidence (update_found o f id c x s).1
    found none = h
    found (some r) = planned r (plan_update s.eval_runs c r) refl
