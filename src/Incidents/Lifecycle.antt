-- ===== src/Incidents/Lifecycle.antt =====
-- What `update_incident_status` lets an incident become: proofs over Update.
use project_os_core.Base.{
  ℕ, String, ◌≡◌, ◌≢◌, refl, true, ◌⊎◌, inl, inr, Option, none, some, List, [], ◌++◌, arith, eq_iff,
}
use project_os_core.Base.Table.{fetchone}
use project_os_core.Base.Result.{ok}
use project_os_core.Incidents.Status.{
  IncidentStatus, open_, triaged, repro_ready, fix_in_progress, verified, closed, non_reproducible,
  incident_status, status_value, same_status, allowed_transition, needs_evidence,
}
use project_os_core.Incidents.Update.{
  IncidentRow, EvalRun, Change, Plan, plan_update, apply_plan, check_passed, dedupe, eval_run_of,
}

pub value-incident_status : (x : IncidentStatus) → incident_status (status_value x) ≡ ok x
unfolding incident_status status_value
value-incident_status open_ = refl
value-incident_status triaged = refl
value-incident_status repro_ready = refl
value-incident_status fix_in_progress = refl
value-incident_status verified = refl
value-incident_status closed = refl
value-incident_status non_reproducible = refl

same_status-eq : (a b : IncidentStatus) → same_status a b ≡ true → a ≡ b
unfolding same_status
same_status-eq a b h = ground arith

module _ (runs : List EvalRun) (c : Change) (r : IncidentRow) (p : Plan)
    (planned : plan_update runs c r ≡ ok p) where
  -- An accepted change keeps the status, or goes along an entry of the table.
  pub plan_update-step :
      (p.next_status ≡ r.status) ⊎ (allowed_transition r.status p.next_status ≡ true)
  unfolding plan_update
  plan_update-step = ground (arith, same_status-eq p.next_status r.status)

  pub plan_update-refs : p.merged_refs ≡ dedupe (r.verification_refs ++ c.verification_refs)
  unfolding plan_update
  plan_update-refs = ground arith

  pub plan_update-eval : p.eval_run_id ≡ eval_run_of c r
  unfolding plan_update
  plan_update-eval = ground arith

  pub plan_update-evidence :
      needs_evidence p.next_status ≡ true → (p.merged_refs ≢ []) ⊎ (p.eval_run_id ≢ none)
  unfolding plan_update
  plan_update-evidence h = ground arith

  found_passed :
      (id : String) (o : Option EvalRun)
      → fetchone (λ e. e.eval_run_id) id runs ≡ o
      → check_passed id o ≡ ok tt
      → (run : EvalRun) × (fetchone (λ e. e.eval_run_id) id runs ≡ some run)
        × (run.status ≡ "passed")
  unfolding check_passed
  found_passed id none e h = cc
  found_passed id (some run) e h = (run, e, ground (arith, eq_iff run.status "passed"))

  -- An evaluation run that an accepted change to verified or closed names is in the table, and passed.
  pub plan_update-passed :
      (id : String)
      → needs_evidence p.next_status ≡ true
      → p.eval_run_id ≡ some id
      → (run : EvalRun) × (fetchone (λ e. e.eval_run_id) id runs ≡ some run)
        × (run.status ≡ "passed")
  plan_update-passed id h named =
      found_passed id _ refl (unfold plan_update in ground (arith, h, named))

-- Any number of accepted changes of one incident, at any readings of the clock.
pub data Reach (runs : List EvalRun) (r : IncidentRow) : IncidentRow → Type 0 where
  here : Reach runs r r
  change :
      {s : IncidentRow} (c : Change) (p : Plan) (at now : ℕ)
      → Reach runs r s
      → plan_update runs c s ≡ ok p
      → Reach runs r (apply_plan p c at now s)

closed_only : (x : IncidentStatus) → allowed_transition closed x ≡ true → x ≡ closed
unfolding allowed_transition
closed_only x h = ground arith

-- A closed incident stays closed, whatever changes are accepted.
pub Reach-closed :
    {runs : List EvalRun} {r s : IncidentRow}
    → Reach runs r s
    → r.status ≡ closed
    → s.status ≡ closed
unfolding apply_plan
Reach-closed here h = h
Reach-closed {runs} (change {s = m} c p at now before planned) h =
    let closed_before = Reach-closed before h in
    elim (plan_update-step runs c m p planned) [
      | inl same ↦ cc
      | inr moved ↦ closed_only p.next_status (rw closed_before at moved)
    ]

-- The statuses that an incident has had, the last one first.
abbrev pub Visited :
    {runs : List EvalRun} {r s : IncidentRow} → Reach runs r s → IncidentStatus → Type 0
Visited {r = r} here x = r.status ≡ x
Visited (change c p at now before planned) x = (p.next_status ≡ x) ⊎ Visited before x

into_closed : (x : IncidentStatus) → allowed_transition x closed ≡ true → x ≡ verified
unfolding allowed_transition
into_closed x h = ground arith

last-Visited :
    {runs : List EvalRun} {r s : IncidentRow} (w : Reach runs r s) (x : IncidentStatus)
    → s.status ≡ x
    → Visited w x
unfolding apply_plan
last-Visited here x e = e
last-Visited (change c p at now before planned) x e = inl e

-- An incident that is closed now, and was not at first, has been verified in between.
pub closed_needs_verified :
    {runs : List EvalRun} {r s : IncidentRow} (w : Reach runs r s)
    → r.status ≢ closed
    → s.status ≡ closed
    → Visited w verified
unfolding apply_plan
closed_needs_verified here h e = absurd (h e)
closed_needs_verified {runs} (change {s = m} c p at now before planned) h e =
    elim (plan_update-step runs c m p planned) [
      | inl same ↦ inr (closed_needs_verified before h (cc))
      | inr moved ↦ inr (last-Visited before verified (into_closed m.status (rw e at moved)))
    ]

-- Once the time of resolution is set, no accepted change clears it, reopening included.
pub resolved_at-kept :
    {runs : List EvalRun} {r s : IncidentRow} (w : Reach runs r s)
    → r.resolved_at ≢ none
    → s.resolved_at ≢ none
unfolding apply_plan
resolved_at-kept here h = h
resolved_at-kept (change c p at now before planned) h =
    let kept = resolved_at-kept before h in ground arith
