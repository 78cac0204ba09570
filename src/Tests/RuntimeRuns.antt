-- ===== src/Tests/RuntimeRuns.antt =====
-- The runtime store on concrete sessions, states and approvals.
use project_os_core.Base.{◌≡◌, ◌==◌, All, false, refl, none, some, [], ◌∷◌}
use project_os_core.Base.Sort.{sort_by}
use project_os_core.Router.{ready, degraded}
use project_os_core.Runtime.Approvals.{resolve_approval-unlisted}
use project_os_core.Runtime.{pending, approved, RuntimeState, ApprovalRecord, RuntimeStore}
use project_os_core.Runtime.Store.{
  resolve_approval, list_pending_approvals, open_session, record_runtime_state,
  latest_runtime_state,
}
use project_os_core.Runtime.Sessions.{
  IsLinked, Calls, none_yet, then_call, opens, records, Calls-IsLinked,
}
use project_os_core.Tests.Samples.{outside, context}

abbrev state_at_5 : RuntimeState
state_at_5 = record {
  runtime_state_id = "state_1";
  session_id = "session";
  verdict = degraded;
  active_profile = none;
  mission_run_id = none;
  status_summary = none;
  blockers = "no_display" ∷ [];
  metadata = [];
  captured_at = 5;
}

abbrev state_at_9 : RuntimeState
state_at_9 = record state_at_5 { runtime_state_id = "state_2"; verdict = ready; captured_at = 9 }

abbrev open_one : ApprovalRecord
open_one = record {
  approval_id = "approval_1";
  requested_by = "router";
  risk_tier = "destructive";
  reason = "deletes a branch";
  status = pending;
  mission_run_id = some "mission_1";
  expires_at = none;
  metadata = [];
  created_at = 1;
  updated_at = 1;
}

abbrev store : RuntimeStore
store = record {
  context = context;
  sessions = [];
  runtime_states = [];
  approvals = open_one ∷ record open_one { approval_id = "approval_2" } ∷ [];
  evidences = [];
  pointers = [];
}

abbrev with_states : RuntimeStore
with_states = record store { runtime_states = state_at_9 ∷ state_at_5 ∷ [] }

newest_of_two : latest_runtime_state with_states ≡ some state_at_9
unfolding latest_runtime_state sort_by
newest_of_two = refl

abbrev after_open : RuntimeStore
after_open = (open_session outside "default" "operator" "active" [] none store).1

opened_and_recorded : Calls outside store (record_runtime_state outside state_at_5 after_open).1
opened_and_recorded =
    then_call (then_call none_yet (opens "default" "operator" "active" [] none store))
      (records state_at_5 after_open)

Calls-IsLinked_example : IsLinked (record_runtime_state outside state_at_5 after_open).1
Calls-IsLinked_example =
    Calls-IsLinked outside opened_and_recorded (record { states = tt; proofs = tt })

resolve_approval-unlisted_example :
    All
      (λ a. (a.approval_id == "approval_1") ≡ false)
      (list_pending_approvals none (resolve_approval outside "approval_1" approved [] store))
resolve_approval-unlisted_example =
    resolve_approval-unlisted outside "approval_1" approved [] none store refl
