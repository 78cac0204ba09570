-- ===== src/Runtime/Store.antt =====
-- The methods of RuntimeStore. The JSON file of an evidence is a parameter: `write_json_artifact` of
-- artifacts.py, with the check of the pointer that follows it, returns the pointer, or raises. An
-- identifier that was just made is in no row.
use Prim.Native.String.{◌++◌ as concat}
use project_os_core.Base.{
  ℕ, suc, ◌+◌, ◌*◌, ◌/◌, String, Bool, ◌&&◌, ◌||◌, true, false, Option, none, some, List, [], ◌∷◌,
  ◌++◌, filter, leb, ◌==◌, if◌then◌else◌, is_some,
}
use project_os_core.Base.Dict.{Dict}
use project_os_core.Base.Sort.{sort_by}
use project_os_core.Base.Table.{fetchone, update_where, upsert}
use project_os_core.Base.Result.{Result, ok, err, key_error, integrity_error, and_then}
use project_os_core.World.{Outside, Context, Value, text, flag, append}
use project_os_core.Router.{RuntimeVerdict, ready, degraded, verdict_blocked, away_from_target}
use project_os_core.Runtime.{
  ApprovalStatus, pending, approved, rejected, expired, SessionState, RuntimeState, ApprovalRecord,
  ArtifactPointer, ActionEvidence, RuntimeStore, session_key, approval_key,
}

abbrev pub verdict_value : RuntimeVerdict → String
verdict_value ready = "ready"
verdict_value degraded = "degraded"
verdict_value verdict_blocked = "blocked"
verdict_value away_from_target = "away_from_target"

abbrev pub approval_status_value : ApprovalStatus → String
approval_status_value pending = "pending"
approval_status_value approved = "approved"
approval_status_value rejected = "rejected"
approval_status_value expired = "expired"

abbrev pub is_pending : ApprovalStatus → Bool
is_pending pending = true
is_pending _ = false

-- x or new_id(prefix); the identifier counts only when it is made
abbrev given_id : Outside → String → Option String → ℕ → String × ℕ
given_id o prefix none n = (o.fresh prefix n, suc n)
given_id o prefix (some id) n = if id == "" then (o.fresh prefix n, suc n) else (id, n)

-- ON CONFLICT DO UPDATE, with `created_at` immutable
abbrev pub keep_session : SessionState → SessionState → SessionState
keep_session old new = record new { created_at = old.created_at }

abbrev pub keep_approval : ApprovalRecord → ApprovalRecord → ApprovalRecord
keep_approval old new = record new { created_at = old.created_at }

abbrev found_session : String → Option SessionState → Result SessionState
found_session id none = err (key_error (concat "Unknown session_id: " id))
found_session id (some s) = ok s

unfoldable pub get_session : String → RuntimeStore → Result SessionState
get_session id r = found_session id (fetchone session_key id r.sessions)

abbrev pub runtime_state_key : RuntimeState → String
runtime_state_key t = t.runtime_state_id

-- ORDER BY captured_at DESC LIMIT 1
abbrev pub captured_later : RuntimeState → RuntimeState → Bool
captured_later a b = leb b.captured_at a.captured_at

abbrev pub first_of {ℓ} : {A : Type ℓ} → List A → Option A
first_of [] = none
first_of (x ∷ xs) = some x

unfoldable pub latest_runtime_state : RuntimeStore → Option RuntimeState
latest_runtime_state r = first_of (sort_by captured_later r.runtime_states)

-- if mission_run_id: AND mission_run_id = ?
abbrev of_mission : Option String → Option String → Bool
of_mission none m = true
of_mission (some wanted) none = wanted == ""
of_mission (some wanted) (some m) = wanted == "" || m == wanted

abbrev pub is_listed : Option String → ApprovalRecord → Bool
is_listed wanted a = is_pending a.status && of_mission wanted a.mission_run_id

abbrev pub created_later : ApprovalRecord → ApprovalRecord → Bool
created_later a b = leb b.created_at a.created_at

unfoldable pub list_pending_approvals : Option String → RuntimeStore → List ApprovalRecord
list_pending_approvals wanted r = sort_by created_later (filter (is_listed wanted) r.approvals)

-- CURRENT_TIMESTAMP is a reading of the clock in whole seconds
abbrev pub settle : ApprovalStatus → Dict Value → ℕ → ApprovalRecord → ApprovalRecord
settle status metadata now a = record a {
  status = status;
  metadata = metadata;
  updated_at = now / 1_000_000 * 1_000_000;
}

-- the identifier and the time of an evidence, and what is left to read
abbrev pub fresh_evidence : Outside → ActionEvidence → Context → ActionEvidence
fresh_evidence o e c = record e {
  evidence_id = o.fresh "evidence" c.identifiers;
  created_at = o.wall c.readings;
}

abbrev pub with_readings : Context → Context
with_readings c = record c { readings = suc c.readings; identifiers = suc c.identifiers }

module _ (o : Outside) where
  abbrev journal : String → Dict Value → RuntimeStore → RuntimeStore
  journal event payload r = record r { context = append o event "runtime" payload r.context }

  -- `created_at` and `updated_at` are two readings of the clock
  unfoldable pub open_session :
      String
      → String
      → String
      → Dict Value
      → Option String
      → RuntimeStore
      → SessionState × RuntimeStore
  open_session profile owner status metadata id r =
      let c = r.context in
      let (session_id, identifiers) = given_id o "session" id c.identifiers in
      let s : SessionState = record {
        session_id = session_id;
        profile_name = profile;
        owner = owner;
        status = status;
        metadata = metadata;
        created_at = o.wall c.readings;
        updated_at = o.wall (suc c.readings);
      } in
      (
        s,
        journal "session_opened"
            (("session_id", text session_id) ∷ ("profile_name", text profile) ∷ [])
            (record r {
              context = record c { readings = c.readings + 2; identifiers = identifiers };
              sessions = upsert session_key keep_session s r.sessions;
            }),
      )

  abbrev pub stored_state : RuntimeState → RuntimeStore → Result RuntimeState × RuntimeStore
  stored_state t r = (
    ok t,
    journal "runtime_state_recorded"
        (("session_id", text t.session_id)
          ∷ ("runtime_state_id", text t.runtime_state_id)
          ∷ ("verdict", text (verdict_value t.verdict))
          ∷ [])
        (record r { runtime_states = r.runtime_states ++ t ∷ [] }),
  )

  abbrev pub record_in_session :
      RuntimeState → Result SessionState → RuntimeStore → Result RuntimeState × RuntimeStore
  record_in_session t (err e) r = (err e, r)
  record_in_session t (ok s) r =
      if is_some (fetchone runtime_state_key t.runtime_state_id r.runtime_states)
      then (err (integrity_error "UNIQUE constraint failed: runtime_states.runtime_state_id"), r)
      else stored_state t r

  unfoldable pub record_runtime_state :
      RuntimeState → RuntimeStore → Result RuntimeState × RuntimeStore
  record_runtime_state t r = record_in_session t (get_session t.session_id r) r

  -- the arguments of create_approval are the fields of its record
  unfoldable pub create_approval :
      String
      → String
      → String
      → Option String
      → Option ℕ
      → Dict Value
      → Option String
      → RuntimeStore
      → ApprovalRecord × RuntimeStore
  create_approval requested_by risk reason mission expires metadata id r =
      let c = r.context in
      let (approval_id, identifiers) = given_id o "approval" id c.identifiers in
      let a : ApprovalRecord = record {
        approval_id = approval_id;
        requested_by = requested_by;
        risk_tier = risk;
        reason = reason;
        status = pending;
        mission_run_id = mission;
        expires_at = expires;
        metadata = metadata;
        created_at = o.wall c.readings;
        updated_at = o.wall (suc c.readings);
      } in
      (
        a,
        journal "approval_created"
            (("approval_id", text approval_id)
              ∷ ("risk_tier", text risk)
              ∷ ("requested_by", text requested_by)
              ∷ [])
            (record r {
              context = record c { readings = c.readings + 2; identifiers = identifiers };
              approvals = upsert approval_key keep_approval a r.approvals;
            }),
      )

  unfoldable pub resolve_approval :
      String → ApprovalStatus → Dict Value → RuntimeStore → RuntimeStore
  resolve_approval id status metadata r =
      let c = r.context in
      journal "approval_resolved"
        (("approval_id", text id) ∷ ("status", text (approval_status_value status)) ∷ [])
        (record r {
          context = record c { readings = suc c.readings };
          approvals =
              update_where approval_key id (settle status metadata (o.wall c.readings)) r.approvals;
        })

  module _ (write_json_artifact : ActionEvidence → Context → Result ArtifactPointer × Context) where
    abbrev pub after_write :
        RuntimeStore → Result ArtifactPointer × Context → Result ArtifactPointer × RuntimeStore
    after_write r (p, c) = (p, record r { context = c })

    -- the two INSERT statements
    abbrev pub store_evidence :
        ActionEvidence → ArtifactPointer → RuntimeStore → Result ActionEvidence × RuntimeStore
    store_evidence e p r =
        let done : ActionEvidence = record e { artifact_count = 1 } in
        (
          ok done,
          journal "action_evidence_recorded"
              (("evidence_id", text e.evidence_id)
                ∷ ("session_id", text e.session_id)
                ∷ ("action_name", text e.action_name)
                ∷ ("success", flag e.success)
                ∷ [])
              (record r {
                evidences = r.evidences ++ done ∷ [];
                pointers =
                    r.pointers
                    ++ record {
                      owner_type = "action_evidence";
                      owner_id = e.evidence_id;
                      pointer = p;
                    }
                      ∷ [];
              }),
        )

    abbrev pub evidence_in_session :
        ActionEvidence → Result SessionState → RuntimeStore → Result ActionEvidence × RuntimeStore
    evidence_in_session e (err x) r = (err x, r)
    evidence_in_session e (ok s) r =
        let c = with_readings r.context in
        and_then
          (after_write (record r { context = c })
            (write_json_artifact (fresh_evidence o e r.context) c))
          (store_evidence (fresh_evidence o e r.context))

    -- the arguments are the fields of `e`; its identifier, its time and its count are made here
    unfoldable pub record_action_evidence :
        ActionEvidence → RuntimeStore → Result ActionEvidence × RuntimeStore
    record_action_evidence e r = evidence_in_session e (get_session e.session_id r) r
