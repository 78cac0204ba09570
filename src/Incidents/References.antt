-- ===== src/Incidents/References.antt =====
-- The merged references of a change, and how an incident gets closed: proofs over Update.
use text.Mathlib.TextPositions.{eq_refl}
use project_os_core.Base.{
  String, ◌≡◌, ◌≢◌, refl, true, false, Bool-cases, not, ◌&&◌, ◌||◌, inl, inr, none, some, List, [],
  ◌∷◌, ◌++◌, arith, eq_iff,
}
use project_os_core.Base.Text.{strip, is_member}
use project_os_core.Base.Table.{fetchone}
use project_os_core.Base.Result.{ok}
use project_os_core.Incidents.Status.{
  IncidentStatus, open_, triaged, repro_ready, fix_in_progress, verified, closed, non_reproducible,
  status_value, allowed_transition,
}
use project_os_core.Incidents.Update.{
  IncidentRow, EvalRun, Change, Plan, plan_update, apply_plan, dedupe, dedupe_from, eval_run_of,
}
use project_os_core.Incidents.Lifecycle.{
  Reach, here, change, plan_update-refs, value-incident_status,
}

is_member-dedupe_from :
    (x : String) (seen xs : List String)
    → is_member x (dedupe_from seen xs) ≡ (is_member x xs && not (is_member x seen))
unfolding dedupe_from is_member
is_member-dedupe_from x seen [] = refl
is_member-dedupe_from x seen (y ∷ ys) =
    ground (arith, is_member-dedupe_from x (y ∷ seen) ys, eq_iff x y)

-- No text twice.
abbrev pub Distinct : List String → Type 0
Distinct [] = Unit
Distinct (x ∷ xs) = (is_member x xs ≡ false) × Distinct xs

dedupe_from-Distinct : (seen xs : List String) → Distinct (dedupe_from seen xs)
unfolding dedupe_from is_member
dedupe_from-Distinct seen [] = tt
dedupe_from-Distinct seen (y ∷ ys) = elim (Bool-cases (is_member y seen)) [
  | inl old ↦ rw old (dedupe_from-Distinct (y ∷ seen) ys)
  | inr new ↦ rw new (
    ground (arith, is_member-dedupe_from y (y ∷ seen) ys, eq_refl y),
    dedupe_from-Distinct (y ∷ seen) ys,
  )
]

is_member-append :
    (x : String) (xs ys : List String) → is_member x (xs ++ ys) ≡ (is_member x xs || is_member x ys)
unfolding is_member
is_member-append x [] ys = refl
is_member-append x (y ∷ xs) ys = ground (arith, is_member-append x xs ys)

-- An accepted change keeps each reference of the row and of the change exactly once, and adds no other.
pub plan_update-references :
    (runs : List EvalRun) (c : Change) (r : IncidentRow) (p : Plan)
    → plan_update runs c r ≡ ok p
    → Distinct p.merged_refs
      × ((x : String)
          → is_member x p.merged_refs
            ≡ (is_member x r.verification_refs || is_member x c.verification_refs))
unfolding dedupe is_member
plan_update-references runs c r p planned = rw (plan_update-refs runs c r p planned) (
  dedupe_from-Distinct [] _,
  λ x. ground (
    arith,
    is_member-dedupe_from x [] (r.verification_refs ++ c.verification_refs),
    is_member-append x r.verification_refs c.verification_refs,
  ),
)

module _ (runs : List EvalRun) (run : EvalRun)
    (stored : fetchone (λ e. e.eval_run_id) run.eval_run_id runs ≡ some run)
    (passed : run.status ≡ "passed") (nonempty : run.eval_run_id ≢ "")
    (stripped : strip run.eval_run_id ≡ run.eval_run_id) where
  request : IncidentStatus → Change
  request x = record {
    status = status_value x;
    fix_summary = none;
    root_cause_hypothesis = none;
    verification_refs = [];
    latest_eval_run_id = some run.eval_run_id;
    metadata = [];
  }

  plan_for : IncidentRow → IncidentStatus → Plan
  plan_for r x = record {
    next_status = x;
    merged_refs = dedupe (r.verification_refs ++ []);
    eval_run_id = some run.eval_run_id;
  }

  eval_run-request :
      (r : IncidentRow) (x : IncidentStatus) → eval_run_of (request x) r ≡ some run.eval_run_id
  unfolding eval_run_of request
  eval_run-request r x =
      ground (arith, eq_iff run.eval_run_id "", eq_iff (strip run.eval_run_id) "")

  plan_for-ok :
      (r : IncidentRow) (x : IncidentStatus)
      → allowed_transition r.status x ≡ true
      → plan_update runs (request x) r ≡ ok (plan_for r x)
  unfolding plan_update plan_for
  plan_for-ok r x edge = rw (eval_run-request r x) (
      unfold request in
      rw (value-incident_status x)
        (ground (arith, edge, stored, passed, eq_iff run.status "passed")))

  moved : IncidentRow → IncidentStatus → IncidentRow
  moved r x = apply_plan (plan_for r x) (request x) 0 0 r

  status-moved : (r : IncidentRow) (x : IncidentStatus) → (moved r x).status ≡ x
  unfolding moved apply_plan plan_for
  status-moved r x = refl

  move :
      {r : IncidentRow} (s : IncidentRow) (x : IncidentStatus)
      → Reach runs r s
      → allowed_transition s.status x ≡ true
      → Reach runs r (moved s x)
  unfolding moved
  move s x before edge = change (request x) (plan_for s x) 0 0 before (plan_for-ok s x edge)

  abbrev pub Closable : IncidentRow → Type 0
  Closable r = (s : IncidentRow) × Reach runs r s × (s.status ≡ closed)

  module _ {r : IncidentRow} (s : IncidentRow) (before : Reach runs r s) where
    from_verified : s.status ≡ verified → Closable r
    unfolding allowed_transition
    from_verified e = (moved s closed, move s closed before (rw e), status-moved s closed)

  module _ {r : IncidentRow} (s : IncidentRow) (before : Reach runs r s) where
    from_fix : s.status ≡ fix_in_progress → Closable r
    unfolding allowed_transition
    from_fix e =
        from_verified (moved s verified) (move s verified before (rw e)) (status-moved s verified)

  module _ {r : IncidentRow} (s : IncidentRow) (before : Reach runs r s) where
    from_triaged : s.status ≡ triaged → Closable r
    unfolding allowed_transition
    from_triaged e =
        from_fix (moved s fix_in_progress) (move s fix_in_progress before (rw e))
          (status-moved s fix_in_progress)

  Closable-from : (r : IncidentRow) (x : IncidentStatus) → r.status ≡ x → Closable r
  unfolding allowed_transition
  Closable-from r open_ e =
      from_triaged (moved r triaged) (move r triaged here (rw e)) (status-moved r triaged)
  Closable-from r triaged e = from_triaged r here e
  Closable-from r repro_ready e =
      from_fix (moved r fix_in_progress) (move r fix_in_progress here (rw e))
        (status-moved r fix_in_progress)
  Closable-from r fix_in_progress e = from_fix r here e
  Closable-from r verified e = from_verified r here e
  Closable-from r closed e = (r, here, e)
  Closable-from r non_reproducible e =
      from_triaged (moved r triaged) (move r triaged here (rw e)) (status-moved r triaged)

  -- With a passed evaluation run, whose identifier is not empty and has no blanks round it, accepted
  -- changes lead from every incident to a closed one.
  pub incident-Closable : (r : IncidentRow) → Closable r
  incident-Closable r = Closable-from r r.status refl
