-- ===== src/Tests/DeliveryRuns.antt =====
-- The deliveries on a concrete event, policy and row.
use project_os_core.Base.{
  ℕ, ◌≤◌, ◌≡◌, refl, String, true, false, none, some, [], ◌∷◌, All, Option, arith, List,
}
use project_os_core.Base.Sort.{IsSorted}
use project_os_core.Base.Table.{fetchone}
use project_os_core.Base.Result.{Result, ok}
use project_os_core.World.{Context, text, number, int_or_zero}
use project_os_core.Base.Dict.{get}
use project_os_core.Base.Numbers.{pos}
use project_os_core.Deliveries.{
  runs_live, pending, delivered, failed, important, run_started, RunLifecycleEvent, Payload,
  OperatorDelivery, DeliveryPolicy, Deliveries, delivery_key, event_key, plain,
}
use project_os_core.Deliveries.Policy.{is_given_up}
use project_os_core.Deliveries.Marks.{mark_operator_delivery, retry_delay_seconds}
use project_os_core.Deliveries.Requeue.{count_told, requeue_operator_delivery}
use project_os_core.Deliveries.Calls.{none_yet, then_call, marks, requeues}
use project_os_core.Deliveries.Retries.{
  HasAttempts, Calls-HasAttempts, retry_delay_seconds-bounds, IsRetried, report_all,
  report_all-retry_status,
}
use project_os_core.Deliveries.Phases
use project_os_core.Deliveries.Phases.{Operation, standing_at, map_standing, promised_all, call_all}
use project_os_core.Deliveries.Refines.{call_all-promised_all}
use project_os_core.Deliveries.Listing.{or_time, before, list_operator_deliveries}
use project_os_core.Deliveries.Order.{list_operator_deliveries-due}
use project_os_core.Deliveries.Final.{IsDelivered, Calls-IsDelivered}
use project_os_core.Deliveries.Recovery.{NoneActive, HasLetter, requeue-IsRetried, mark-HasLetter}
use project_os_core.Tests.Samples.{outside, context}

abbrev hash : String → ℕ
hash s = 12

abbrev policy : DeliveryPolicy
policy = record {
  operator_delivery_max_attempts = 4;
  operator_delivery_retry_base_seconds = 30;
  operator_delivery_retry_max_seconds = 900;
  operator_delivery_max_pending = 64;
}

abbrev write : String → String → Context → Result String
write folder name c = ok "dead_letter.json"

abbrev translate : RunLifecycleEvent → Context → Result (Option String)
translate e c = ok (some "Run started")

abbrev started_event : RunLifecycleEvent
started_event = record {
  lifecycle_event_id = "event_1";
  run_id = "run_1";
  run_request_id = "request_1";
  kind = run_started;
  title = "Run started";
  summary = "The audit has started";
  contract_id = none;
  branch_name = none;
  mode = none;
  channel_hint = runs_live;
  status = none;
  phase = none;
  blocking_question = none;
  recommended_action = none;
  requires_reapproval = false;
  artifact_path = none;
  metadata = [];
  created_at = 10;
}

abbrev payload : Payload
payload = record {
  text = "Run started";
  delivery_guarantee = important;
  delivery_priority_rank = 1;
  visible_failure_required = false;
  must_persist = false;
  soft_backlog_limit_exceeded = false;
  event = started_event;
  target = none;
  reply_to = none;
  attachments = [];
}

abbrev waiting : OperatorDelivery
waiting = record {
  delivery_id = "delivery_1";
  lifecycle_event_id = "event_1";
  adapter = "openclaw";
  surface = "discord";
  channel_hint = runs_live;
  status = pending;
  attempts = 1;
  payload = payload;
  last_error = none;
  next_attempt_at = some 10;
  metadata = [];
  created_at = 10;
  updated_at = 10;
}

abbrev with_row : OperatorDelivery → Deliveries
with_row d = record { context = context; events = started_event ∷ []; rows = d ∷ []; letters = [] }

abbrev done_one : OperatorDelivery
done_one = record waiting { status = delivered }

abbrev failed_one : OperatorDelivery
failed_one = record waiting { status = failed; attempts = 4 }

one_row :
    (d : OperatorDelivery)
    → d.delivery_id ≡ "delivery_1"
    → fetchone delivery_key "delivery_1" (d ∷ []) ≡ some d
unfolding fetchone
one_row d named = rw named refl

abbrev marked : Deliveries
marked =
    (mark_operator_delivery outside hash policy write "delivery_1" pending none []
      (with_row waiting)).1

Calls-HasAttempts_example : All (HasAttempts policy) marked.rows
Calls-HasAttempts_example =
    Calls-HasAttempts outside hash policy write translate
      (then_call none_yet (marks "delivery_1" pending none [] (with_row waiting)))
      ((λ waits. omega arith), tt)

retry_delay_seconds-bounds_example :
    30 ≤ retry_delay_seconds hash policy "delivery_1" 40
    × retry_delay_seconds hash policy "delivery_1" 40 ≤ 906
retry_delay_seconds-bounds_example = retry_delay_seconds-bounds outside hash policy "delivery_1" 40

report_all-retry_status_example :
    IsRetried policy "delivery_1" 4
      (report_all outside hash policy write "delivery_1"
        ((some "timeout", []) ∷ (none, []) ∷ (some "refused", []) ∷ [])
        (with_row waiting)).rows
report_all-retry_status_example =
    report_all-retry_status outside hash policy write "delivery_1"
      ((some "timeout", []) ∷ (none, []) ∷ (some "refused", []) ∷ []) 1 (with_row waiting)
      (waiting, one_row waiting refl, refl, refl)

Calls-IsDelivered_example :
    IsDelivered "delivery_1"
      (requeue_operator_delivery outside "delivery_1" (with_row done_one)).1.rows
Calls-IsDelivered_example =
    Calls-IsDelivered outside hash policy write translate "delivery_1"
      (then_call none_yet (requeues "delivery_1" (with_row done_one)))
      (done_one, one_row done_one refl, refl)

-- a count that an adapter wrote as a text
abbrev counted_one : OperatorDelivery
counted_one = record failed_one { metadata = ("requeue_count", plain (text "2")) ∷ [] }

counted_two : count_told (get "requeue_count" counted_one.metadata) ≡ ok (pos 2)
unfolding get int_or_zero
counted_two = refl

requeue-IsRetried_example :
    let call = requeue_operator_delivery outside "delivery_1" (with_row counted_one) in
    (x : OperatorDelivery) × (call.0 ≡ ok x)
    × (fetchone delivery_key "delivery_1" call.1.rows ≡ some x)
    × (x.attempts ≡ 0)
    × (x.status ≡ pending)
    × (get "requeue_count" x.metadata ≡ some (plain (number 3)))
    × NoneActive "delivery_1" call.1.letters
requeue-IsRetried_example =
    requeue-IsRetried outside "delivery_1" counted_one (pos 2) (with_row counted_one)
      (one_row counted_one refl) refl counted_two

mark-HasLetter_example :
    (x : OperatorDelivery) × (fetchone delivery_key "delivery_1"
        (mark_operator_delivery outside hash policy write "delivery_1" failed
          (some "timeout")
          []
          (with_row waiting)).1.rows
      ≡ some x)
    × (is_given_up x.status ≡ true
        → HasLetter "delivery_1" "active"
            (mark_operator_delivery outside hash policy write "delivery_1" failed
              (some "timeout")
              []
              (with_row waiting)).1.letters)
mark-HasLetter_example =
    mark-HasLetter outside hash policy write (λ folder name c. ("dead_letter.json", refl))
      "delivery_1" waiting failed (some "timeout") [] (with_row waiting) (one_row waiting refl) refl

abbrev reports : List Operation
reports =
    Phases.marks "delivery_1" failed (some "refused") []
    ∷ Phases.requeues "delivery_1"
    ∷ Phases.marks "delivery_1" delivered none []
    ∷ Phases.marks "delivery_1" pending none []
    ∷ []

call_all-promised_all_example :
    standing_at "delivery_1" (call_all outside hash policy write reports (with_row waiting)).rows
    ≡ map_standing (promised_all 4 "delivery_1" reports) (standing_at "delivery_1" (waiting ∷ []))
call_all-promised_all_example =
    call_all-promised_all outside hash policy write "delivery_1" reports (with_row waiting)

list_operator_deliveries-due_example :
    All
      (λ x.
        ((x.delivery.status ≡ pending)
          × (or_time x.delivery.next_attempt_at x.delivery.updated_at ≤ 28_800_000_000))
        × (fetchone event_key x.delivery.lifecycle_event_id (started_event ∷ []) ≡ some x.event))
      (list_operator_deliveries outside (some pending) 20 (with_row waiting)).0
    × IsSorted before (list_operator_deliveries outside (some pending) 20 (with_row waiting)).0
list_operator_deliveries-due_example = list_operator_deliveries-due outside 20 (with_row waiting)
