-- ===== src/Incidents/Writes.antt =====
-- What a status change writes and what it leaves alone: proofs over Operations.
use text.Mathlib.TextPositions.{eq_refl}
use project_os_core.Base.{
  ℕ, String, ◌≡◌, ◌⊎◌, inl, inr, refl, ap, ◌∙◌, Option, none, some, [], ◌∷◌, ◌++◌, arith, eq_iff,
  ◌==◌, if◌then◌else◌,
}
use project_os_core.Base.Table.{fetchone, update_where, fetchone-update_where}
use project_os_core.Base.Result.{Error, Result, ok, err}
use project_os_core.World.{Outside, Context}
use project_os_core.Incidents.Update.{IncidentRow, Change, Plan, plan_update, apply_plan}
use project_os_core.Incidents.{
  Incidents, Files, Writable, incident_key, get_incident, row_to_payload, write_artifact,
}
use project_os_core.Incidents.Operations.{
  shown_update, told_update, commit_update, write_update, show_update, update_reading,
  update_planned, update_found, update_incident_status,
}

apply_plan-key :
    (p : Plan) (c : Change) (at now : ℕ) (r : IncidentRow)
    → (apply_plan p c at now r).incident_id ≡ r.incident_id
unfolding apply_plan
apply_plan-key p c at now r = refl

module _ (o : Outside) (id : String) (c : Change) (r : IncidentRow) (p : Plan) (s : Incidents) where
  -- the row that the UPDATE leaves
  abbrev pub changed : IncidentRow
  changed =
      apply_plan p c (o.wall s.context.readings) (o.wall (update_reading p s.context.readings)) r

  fetchone-write_update :
      (j : String)
      → fetchone incident_key id s.incidents ≡ some r
      → fetchone incident_key j (write_update o id c r p s).incidents
        ≡ (if id == j then some changed else fetchone incident_key j s.incidents)
  unfolding write_update
  fetchone-write_update j found =
      let start = s.context.readings in
      let now = o.wall (update_reading p start) in
      rw
        (fetchone-update_where incident_key id j (apply_plan p c (o.wall start) now) s.incidents
          (apply_plan-key p c (o.wall start) now))
        (ground (arith, eq_iff id j))

  -- The incident is read again after the journal has gone on.
  get-write_update :
      (k : Context)
      → fetchone incident_key id s.incidents ≡ some r
      → get_incident id (record (write_update o id c r p s) { context = k })
        ≡ ok (row_to_payload changed)
  unfolding get_incident
  get-write_update k found = rw (fetchone-write_update id found, eq_refl)

  -- An accepted change whose files can be written returns the changed incident as it is shown, writes its
  -- artifact last, changes its row as planned, and leaves the rows of all the other incidents.
  pub update-ok :
      (f : Files)
      → Writable f
      → fetchone incident_key id s.incidents ≡ some r
      → plan_update s.eval_runs c r ≡ ok p
      → let (shown, s') = update_incident_status o f id c s in
        (shown ≡ ok (row_to_payload changed))
        × (s'.artifacts ≡ s.artifacts ++ row_to_payload changed ∷ [])
        × ((j : String)
            → fetchone incident_key j s'.incidents
              ≡ (if id == j then some changed else fetchone incident_key j s.incidents))
  unfolding update_incident_status commit_update show_update
  update-ok f (lines, artifacts) found planned =
      rw (found, planned, lines, get-write_update _ found, artifacts)
        (unfold write_artifact in
          (refl, unfold write_update in refl, λ j. fetchone-write_update j found))

-- An exception of the files.
abbrev pub RaisesOf : Files → Error → Type 0
RaisesOf f e =
    ((k : Context) × (f.journal_line k ≡ err e))
    ⊎ ((x : IncidentRow) × (k : Context) × (f.artifact x k ≡ err e))

-- A change that was accepted, and has changed the row as planned, but a file of which was not written.
abbrev pub IsCommitted : Outside → Files → String → Change → Error → Incidents → Incidents → Type 0
IsCommitted o f id c e s s' =
    (r : IncidentRow) × (p : Plan) × (fetchone incident_key id s.incidents ≡ some r)
    × (plan_update s.eval_runs c r ≡ ok p)
    × (s'.incidents
        ≡ update_where incident_key id
            (apply_plan p c (o.wall s.context.readings)
              (o.wall (update_reading p s.context.readings)))
            s.incidents)
    × (s'.artifacts ≡ s.artifacts)
    × RaisesOf f e

module _ (o : Outside) (f : Files) (id : String) (c : Change) (s : Incidents) (e : Error) where
  shown_raises :
      (x : Result (Unit {0})) (shown : IncidentRow) (k : Context) (t : Incidents)
      → f.artifact shown k ≡ x
      → (shown_update x shown t).0 ≡ err e
      → ((shown_update x shown t).1 ≡ t) × RaisesOf f e
  shown_raises (ok _) shown k t wrote h = absurd cc
  shown_raises (err y) shown k t wrote h = (refl, inr (shown, k, cc))

  show_raises :
      (x : Result IncidentRow) (row : IncidentRow) (t : Incidents)
      → x ≡ ok row
      → (show_update f x t).0 ≡ err e
      → ((show_update f x t).1 ≡ t) × RaisesOf f e
  unfolding show_update
  show_raises (err y) row t got h = absurd cc
  show_raises (ok shown) row t got h = shown_raises _ shown t.context t refl h

  module _ (r : IncidentRow) (p : Plan)
      (found : fetchone incident_key id s.incidents ≡ some r) where
    told_raises :
        (x : Result (Unit {0})) (k : Context)
        → f.journal_line k ≡ x
        → (told_update o f x id r p (write_update o id c r p s)).0 ≡ err e
        → ((told_update o f x id r p (write_update o id c r p s)).1.incidents
            ≡ (write_update o id c r p s).incidents)
          × ((told_update o f x id r p (write_update o id c r p s)).1.artifacts
              ≡ (write_update o id c r p s).artifacts)
          × RaisesOf f e
    told_raises (err y) k wrote h = (refl, refl, inl (k, cc))
    told_raises (ok _) k wrote h =
        let again = get-write_update o id c r p s _ found in
        let (same, why) = show_raises _ (row_to_payload (changed o id c r p s)) _ again h in
        (ap (λ t. t.incidents) same, ap (λ t. t.artifacts) same, why)

    commit_raises :
        plan_update s.eval_runs c r ≡ ok p
        → (commit_update o f id c r p s).0 ≡ err e
        → IsCommitted o f id c e s (commit_update o f id c r p s).1
    unfolding commit_update
    commit_raises planned h =
        let (rows, artifacts, why) = told_raises _ _ refl h in
        (
          r,
          p,
          found,
          planned,
          rows ∙ (unfold write_update in refl),
          artifacts ∙ (unfold write_update in refl),
          why,
        )

  -- A status change that raises has changed nothing; or it was accepted, its row is changed as planned and
  -- no artifact is written, and the exception is that of writing the journal or the artifact.
  pub update-IsCommitted :
      (update_incident_status o f id c s).0 ≡ err e
      → ((update_incident_status o f id c s).1 ≡ s)
        ⊎ IsCommitted o f id c e s (update_incident_status o f id c s).1
  unfolding update_incident_status
  update-IsCommitted = found_raises (fetchone incident_key id s.incidents) refl
    where
      planned_raises :
          (r : IncidentRow) (q : Result Plan)
          → fetchone incident_key id s.incidents ≡ some r
          → plan_update s.eval_runs c r ≡ q
          → (update_planned o f id c r q s).0 ≡ err e
          → ((update_planned o f id c r q s).1 ≡ s)
            ⊎ IsCommitted o f id c e s (update_planned o f id c r q s).1
      planned_raises r (ok p) found planned h = inr (commit_raises r p found planned h)
      planned_raises r (err x) found planned h = inl refl

      found_raises :
          (x : Option IncidentRow)
          → fetchone incident_key id s.incidents ≡ x
          → (update_found o f id c x s).0 ≡ err e
          → ((update_found o f id c x s).1 ≡ s)
            ⊎ IsCommitted o f id c e s (update_found o f id c x s).1
      found_raises none found h = inl refl
      found_raises (some r) found h = planned_raises r (plan_update s.eval_runs c r) found refl h
