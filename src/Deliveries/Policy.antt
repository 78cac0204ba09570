-- ===== src/Deliveries/Policy.antt =====
-- What api_runs/service.py decides of a delivery before it is written: the channel, the guarantee, its
-- rank, the text, the state of the backlog, and the order in which deliveries are listed.
use Prim.Native.String.{◌++◌ as concat}
use project_os_core.Base.{
  ℕ, String, Bool, ◌&&◌, not, true, false, Option, none, some, List, [], ◌∷◌, ◌++◌, length, filter,
  max, leb, ltb, eqb, ◌==◌, if◌then◌else◌,
}
use project_os_core.Base.Text.{strip, lower}
use project_os_core.World.{text}
use project_os_core.Deliveries.{
  OperatorChannelHint, runs_live, approvals, incidents, OperatorDeliveryStatus, pending, delivered,
  failed, skipped, expired, OperatorDeliveryGuarantee, best_effort, important, must_notify,
  must_persist, RunLifecycleEventKind, run_started, clarification_required, run_completed,
  run_failed, run_reviewed, contract_proposed, contract_approved, contract_rejected, budget_alert,
  run_relaunched, RunLifecycleEvent, OperatorDelivery, DeliveryPolicy, Field, plain,
}

abbrev pub channel_value : OperatorChannelHint → String
channel_value runs_live = "runs_live"
channel_value approvals = "approvals"
channel_value incidents = "incidents"

unfoldable pub delivery_status_value : OperatorDeliveryStatus → String
delivery_status_value pending = "pending"
delivery_status_value delivered = "delivered"
delivery_status_value failed = "failed"
delivery_status_value skipped = "skipped"
delivery_status_value expired = "expired"

abbrev pub guarantee_value : OperatorDeliveryGuarantee → String
guarantee_value best_effort = "best_effort"
guarantee_value important = "important"
guarantee_value must_notify = "must_notify"
guarantee_value must_persist = "must_persist"

abbrev pub kind_value : RunLifecycleEventKind → String
kind_value run_started = "run_started"
kind_value clarification_required = "clarification_required"
kind_value run_completed = "run_completed"
kind_value run_failed = "run_failed"
kind_value run_reviewed = "run_reviewed"
kind_value contract_proposed = "contract_proposed"
kind_value contract_approved = "contract_approved"
kind_value contract_rejected = "contract_rejected"
kind_value budget_alert = "budget_alert"
kind_value run_relaunched = "run_relaunched"

abbrev pub is_pending : OperatorDeliveryStatus → Bool
is_pending pending = true
is_pending _ = false

abbrev pub is_delivered : OperatorDeliveryStatus → Bool
is_delivered delivered = true
is_delivered _ = false

-- {FAILED, SKIPPED, EXPIRED}
abbrev pub is_given_up : OperatorDeliveryStatus → Bool
is_given_up pending = false
is_given_up delivered = false
is_given_up _ = true

-- the loop over the enumeration
abbrev guarantee_named : String → OperatorDeliveryGuarantee
guarantee_named s =
    if s == "best_effort"
    then best_effort
    else if s == "must_notify"
    then must_notify
    else if s == "must_persist"
    then must_persist
    else important

unfoldable pub coerce_operator_delivery_guarantee : Field → OperatorDeliveryGuarantee
unfolding strip lower
coerce_operator_delivery_guarantee (plain (text s)) = guarantee_named (lower (strip s))
coerce_operator_delivery_guarantee _ = important

unfoldable pub operator_delivery_guarantee_rank : OperatorDeliveryGuarantee → ℕ
operator_delivery_guarantee_rank best_effort = 0
operator_delivery_guarantee_rank important = 1
operator_delivery_guarantee_rank must_notify = 2
operator_delivery_guarantee_rank must_persist = 3

abbrev asks_notice : RunLifecycleEventKind → Bool
asks_notice clarification_required = true
asks_notice contract_proposed = true
asks_notice contract_approved = true
asks_notice contract_rejected = true
asks_notice run_failed = true
asks_notice budget_alert = true
asks_notice _ = false

-- the channel chooses between two equal branches at the end
unfoldable pub delivery_guarantee_for_kind : RunLifecycleEventKind → OperatorDeliveryGuarantee
delivery_guarantee_for_kind run_completed = must_persist
delivery_guarantee_for_kind k = if asks_notice k then must_notify else important

unfoldable pub channel_hint_for_lifecycle : RunLifecycleEventKind → OperatorChannelHint
channel_hint_for_lifecycle clarification_required = approvals
channel_hint_for_lifecycle contract_proposed = approvals
channel_hint_for_lifecycle contract_approved = approvals
channel_hint_for_lifecycle contract_rejected = approvals
channel_hint_for_lifecycle budget_alert = incidents
channel_hint_for_lifecycle run_failed = incidents
channel_hint_for_lifecycle _ = runs_live

abbrev labelled : String → Option String → List String
labelled label none = []
labelled label (some s) = if s == "" then [] else concat label s ∷ []

abbrev join_lines : List String → String
join_lines [] = ""
join_lines (s ∷ []) = s
join_lines (s ∷ t ∷ lines) = concat s (concat "\n" (join_lines (t ∷ lines)))

abbrev or_default : String → String → String
or_default s d = if s == "" then d else s

abbrev strip_some : Option String → Option String
strip_some none = none
strip_some (some s) = some (strip s)

-- StandardReplyPolicy.render_operator_delivery_text
unfoldable pub render_operator_delivery_text : RunLifecycleEvent → String
unfolding strip lower
render_operator_delivery_text e =
    let title =
      or_default (strip (or_default e.title "Mise a jour Project OS")) "Mise a jour Project OS" in
    let summary = strip e.summary in
    let told = not (summary == "") && not (lower summary == lower title) in
    join_lines (
      title
      ∷ ((if told then summary ∷ [] else [])
          ++ (labelled "Branche: " (strip_some e.branch_name)
              ++ (labelled "Question: " e.blocking_question
                  ++ (labelled "Prochain pas: " e.recommended_action
                      ++ (if e.requires_reapproval
                          then "Confirmation requise avant relance." ∷ []
                          else []))))))

pub record BacklogState : Type 0 where
  pub soft_limit_exceeded : Bool
  pub pending_count : ℕ
  pub max_pending : ℕ

unfoldable pub operator_delivery_backlog_state :
    DeliveryPolicy → List OperatorDelivery → BacklogState
operator_delivery_backlog_state p rows =
    let count = length (filter (λ d. is_pending d.status) rows) in
    let limit = max 1 p.operator_delivery_max_pending in
    record { soft_limit_exceeded = leb limit count; pending_count = count; max_pending = limit }

-- the sort key: pending first, then the higher rank, then the time at which it is due, then its age
pub record SortKey : Type 0 where
  pub status_marker : ℕ
  pub priority_rank : ℕ
  pub due_marker : ℕ
  pub created : ℕ

abbrev or_time : Option ℕ → ℕ → ℕ
or_time none d = d
or_time (some t) d = t

unfoldable pub operator_delivery_sort_key :
    OperatorDeliveryStatus → Option ℕ → ℕ → OperatorDeliveryGuarantee → SortKey
unfolding operator_delivery_guarantee_rank
operator_delivery_sort_key status next created g = record {
  status_marker = if is_pending status then 0 else 1;
  priority_rank = operator_delivery_guarantee_rank g;
  due_marker = or_time next created;
  created = created;
}

-- the order of the tuples, with the rank negated
unfoldable pub key_before : SortKey → SortKey → Bool
key_before a b =
    if not (eqb a.status_marker b.status_marker)
    then ltb a.status_marker b.status_marker
    else if not (eqb a.priority_rank b.priority_rank)
    then ltb b.priority_rank a.priority_rank
    else if not (eqb a.due_marker b.due_marker)
    then ltb a.due_marker b.due_marker
    else leb a.created b.created
