-- ===== src/Runtime/Sessions.antt =====
-- Every runtime state and every evidence of runtime/store.py belongs to a stored session.
use project_os_core.Base.{
  ℕ, String, ◌≡◌, refl, inl, inr, Bool, true, false, Option, List, [], ◌∷◌, All, All-imp,
  All-append, arith, is_some, if◌then◌else◌,
}
use project_os_core.Base.Dict.{Dict}
use project_os_core.Base.Table.{fetchone, upsert, fetchone-upsert}
use project_os_core.Base.Result.{Result, ok, err, integrity_error, Result-cases, and_then}
use project_os_core.World.{Outside, Context, Value, append}
use project_os_core.Runtime.{
  ApprovalStatus, SessionState, RuntimeState, ArtifactPointer, ActionEvidence, RuntimeStore,
  session_key,
}
use project_os_core.Runtime.Store.{
  get_session, open_session, runtime_state_key, stored_state, record_runtime_state, create_approval,
  resolve_approval, keep_session, record_action_evidence, evidence_in_session, store_evidence,
  after_write, fresh_evidence, with_readings,
}

abbrev pub HasSession : List SessionState → String → Type 0
HasSession sessions id = is_some (fetchone session_key id sessions) ≡ true

-- Every state and every evidence names a stored session.
pub record IsLinked (r : RuntimeStore) : Type 0 where
  pub states : All (λ t. HasSession r.sessions t.session_id) r.runtime_states
  pub proofs : All (λ e. HasSession r.sessions e.session_id) r.evidences

HasSession-upsert :
    (s : SessionState) (sessions : List SessionState) (id : String)
    → HasSession sessions id
    → HasSession (upsert session_key keep_session s sessions) id
HasSession-upsert s sessions id h =
    rw (fetchone-upsert session_key id keep_session s sessions (λ r. refl)) (ground (arith, h))

get_session-HasSession :
    (id : String) (r : RuntimeStore) (s : SessionState)
    → get_session id r ≡ ok s
    → HasSession r.sessions id
unfolding get_session
get_session-HasSession id r s h = ground (arith, h)

module _ (o : Outside) where
  pub open_session-IsLinked :
      (profile owner status : String) (metadata : Dict Value) (id : Option String)
      (r : RuntimeStore)
      → IsLinked r
      → IsLinked (open_session o profile owner status metadata id r).1
  unfolding open_session append
  open_session-IsLinked profile owner status metadata id r h = record {
    states = All-imp (λ t. HasSession-upsert _ r.sessions t.session_id) r.runtime_states h.states;
    proofs = All-imp (λ e. HasSession-upsert _ r.sessions e.session_id) r.evidences h.proofs;
  }

  pub record_runtime_state-IsLinked :
      (t : RuntimeState) (r : RuntimeStore) → IsLinked r → IsLinked (record_runtime_state o t r).1
  unfolding record_runtime_state append
  record_runtime_state-IsLinked t r h = elim (Result-cases (get_session t.session_id r)) [
    | inl (s, found) ↦ rw found (
        appended (is_some (fetchone runtime_state_key t.runtime_state_id r.runtime_states))
          (get_session-HasSession t.session_id r s found))
    | inr (e, missing) ↦ rw missing h
  ]
    where
      appended :
          (taken : Bool)
          → HasSession r.sessions t.session_id
          → IsLinked
              (if taken
                then (
                  err (integrity_error "UNIQUE constraint failed: runtime_states.runtime_state_id"),
                  r,
                )
                else stored_state o t r).1
      appended true k = h
      appended false k = record {
        states =
            All-append (λ u. HasSession r.sessions u.session_id) r.runtime_states (t ∷ []) h.states
              (k, tt);
        proofs = h.proofs;
      }

  module _ (write_json_artifact : ActionEvidence → Context → Result ArtifactPointer × Context) where
    stored-IsLinked :
        (e : ActionEvidence) (m : Result ArtifactPointer × RuntimeStore)
        → IsLinked m.1
        → HasSession m.1.sessions e.session_id
        → IsLinked (and_then m (store_evidence o write_json_artifact e)).1
    unfolding append
    stored-IsLinked e (err x, r) h k = h
    stored-IsLinked e (ok p, r) h k = record {
      states = h.states;
      proofs = All-append (λ u. HasSession r.sessions u.session_id) r.evidences _ h.proofs (k, tt);
    }

    evidence-IsLinked :
        (e : ActionEvidence) (found : Result SessionState) (r : RuntimeStore)
        → ((s : SessionState) → found ≡ ok s → HasSession r.sessions e.session_id)
        → IsLinked r
        → IsLinked (evidence_in_session o write_json_artifact e found r).1
    unfolding append
    evidence-IsLinked e (err x) r stored h = h
    evidence-IsLinked e (ok s) r stored h =
        let c = with_readings r.context in
        let e1 = fresh_evidence o e r.context in
        stored-IsLinked e1
          (after_write o write_json_artifact (record r { context = c }) (write_json_artifact e1 c))
          (record { states = h.states; proofs = h.proofs }) (stored s refl)

    pub record_action_evidence-IsLinked :
        (e : ActionEvidence) (r : RuntimeStore)
        → IsLinked r
        → IsLinked (record_action_evidence o write_json_artifact e r).1
    unfolding record_action_evidence
    record_action_evidence-IsLinked e r =
        evidence-IsLinked e (get_session e.session_id r) r
          (λ s. get_session-HasSession e.session_id r s)

  -- A call of one of the methods that write.
  pub data Call : RuntimeStore → RuntimeStore → Type 0 where
    opens :
        (profile owner status : String) (metadata : Dict Value) (id : Option String)
        (r : RuntimeStore)
        → Call r (open_session o profile owner status metadata id r).1
    records : (t : RuntimeState) (r : RuntimeStore) → Call r (record_runtime_state o t r).1
    asks :
        (requested_by risk reason : String) (mission : Option String) (expires : Option ℕ)
        (metadata : Dict Value) (id : Option String) (r : RuntimeStore)
        → Call r (create_approval o requested_by risk reason mission expires metadata id r).1
    settles :
        (id : String) (status : ApprovalStatus) (metadata : Dict Value) (r : RuntimeStore)
        → Call r (resolve_approval o id status metadata r)
    proves :
        (write_json_artifact : ActionEvidence → Context → Result ArtifactPointer × Context)
        (e : ActionEvidence) (r : RuntimeStore)
        → Call r (record_action_evidence o write_json_artifact e r).1

  pub data Calls (r : RuntimeStore) : RuntimeStore → Type 0 where
    none_yet : Calls r r
    then_call : {s t : RuntimeStore} → Calls r s → Call s t → Calls r t

  Call-IsLinked : {r s : RuntimeStore} → Call r s → IsLinked r → IsLinked s
  unfolding create_approval resolve_approval append
  Call-IsLinked (opens profile owner status metadata id r) h =
      open_session-IsLinked profile owner status metadata id r h
  Call-IsLinked (records t r) h = record_runtime_state-IsLinked t r h
  Call-IsLinked (asks requested_by risk reason mission expires metadata id r) h = record {
    states = h.states;
    proofs = h.proofs;
  }
  Call-IsLinked (settles id status metadata r) h = record { states = h.states; proofs = h.proofs }
  Call-IsLinked (proves write e r) h = record_action_evidence-IsLinked write e r h

  -- After any calls, refused ones included, every runtime state and every evidence names a stored session
  -- when they did before.
  pub Calls-IsLinked : {r s : RuntimeStore} → Calls r s → IsLinked r → IsLinked s
  Calls-IsLinked none_yet h = h
  Calls-IsLinked (then_call w c) h = Call-IsLinked c (Calls-IsLinked w h)
