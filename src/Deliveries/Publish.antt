-- ===== src/Deliveries/Publish.antt =====
-- How api_runs/service.py announces an event: the event is written, then a pending delivery of it.
-- `write_runtime_json` writes the event's file and returns its path, or raises; after that the transaction
-- is rolled back, which leaves the tables as they were.
use project_os_core.Base.{
  ℕ, suc, ◌+◌, String, Bool, true, false, Option, none, some, List, [], ◌∷◌, ◌++◌, if◌then◌else◌,
  ◌==◌,
}
use project_os_core.Base.Text.{strip, or_text}
use project_os_core.Base.Dict.{Dict}
use project_os_core.Base.Result.{Result, ok, err, and_then}
use project_os_core.World.{Outside, Context, Value, null, text, number, flag, append}
use project_os_core.Mission.{ApiRunMode, ApiRunStatus}
use project_os_core.Deliveries.{
  OperatorChannelHint, pending, OperatorDeliveryGuarantee, must_notify, must_persist,
  RunLifecycleEvent, RunLifecycleEventKind, Payload, OperatorDelivery, DeliveryPolicy, Deliveries,
  plain,
}
use project_os_core.Deliveries.Policy.{
  channel_value, guarantee_value, kind_value, operator_delivery_guarantee_rank,
  delivery_guarantee_for_kind, channel_hint_for_lifecycle, render_operator_delivery_text,
  BacklogState, operator_delivery_backlog_state,
}

abbrev pub needs_notice : OperatorDeliveryGuarantee → Bool
needs_notice must_notify = true
needs_notice must_persist = true
needs_notice _ = false

abbrev pub needs_storage : OperatorDeliveryGuarantee → Bool
needs_storage must_persist = true
needs_storage _ = false

-- the keys that a caller of publish_operator_update may add to the payload
pub record Extras : Type 0 where
  pub target : Option String
  pub reply_to : Option String
  pub attachments : List String

-- the arguments of publish_operator_update
pub record OperatorUpdate : Type 0 where
  pub title : String
  pub summary : String
  pub message : Option String
  pub kind : RunLifecycleEventKind
  pub status : Option ApiRunStatus
  pub channel_hint : OperatorChannelHint
  pub mode : Option ApiRunMode
  pub branch_name : Option String
  pub extras : Extras
  pub metadata : Dict Value

unfoldable pub build_operator_delivery_payload :
    RunLifecycleEvent → String → OperatorDeliveryGuarantee → BacklogState → Extras → Payload
unfolding operator_delivery_guarantee_rank
build_operator_delivery_payload e translated g b x = record {
  text = if translated == "" then render_operator_delivery_text e else translated;
  delivery_guarantee = g;
  delivery_priority_rank = operator_delivery_guarantee_rank g;
  visible_failure_required = needs_notice g;
  must_persist = needs_storage g;
  soft_backlog_limit_exceeded = b.soft_limit_exceeded;
  event = e;
  target = x.target;
  reply_to = x.reply_to;
  attachments = x.attachments;
}

module _ (o : Outside) (p : DeliveryPolicy) where
  abbrev journal : String → Dict Value → Deliveries → Deliveries
  journal event payload s = record s { context = append o event "api_runs" payload s.context }

  -- _prune_pending_operator_deliveries: nothing is pruned, a full backlog is only told of
  unfoldable pub prune_pending_operator_deliveries : OperatorChannelHint → Deliveries → Deliveries
  prune_pending_operator_deliveries hint s =
      let b = operator_delivery_backlog_state p s.rows in
      if b.soft_limit_exceeded
      then journal "api_run_operator_delivery_backlog_soft_limit_exceeded"
          (("incoming_channel_hint", text (channel_value hint))
            ∷ ("pending_count", number b.pending_count)
            ∷ ("pending_limit", number b.max_pending)
            ∷ [])
          s
      else s

  -- The row of a delivery with its first metadata; its identifier and times are read here.
  unfoldable pub new_delivery :
      RunLifecycleEvent → String → Extras → Bool → Deliveries → OperatorDelivery
  unfolding delivery_guarantee_for_kind operator_delivery_guarantee_rank
      operator_delivery_backlog_state build_operator_delivery_payload
  new_delivery e translated x external s =
      let g = delivery_guarantee_for_kind e.kind in
      let b = operator_delivery_backlog_state p s.rows in
      record {
        delivery_id = o.fresh "operator_delivery" s.context.identifiers;
        lifecycle_event_id = e.lifecycle_event_id;
        adapter = "openclaw";
        surface = "discord";
        channel_hint = e.channel_hint;
        status = pending;
        attempts = 0;
        payload = build_operator_delivery_payload e translated g b x;
        last_error = none;
        next_attempt_at = some e.created_at;
        metadata =
            ("run_id", plain (text e.run_id))
            ∷ ("kind", plain (text (kind_value e.kind)))
            ∷ ("delivery_guarantee", plain (text (guarantee_value g)))
            ∷ ("delivery_priority_rank", plain (number (operator_delivery_guarantee_rank g)))
            ∷ ("replayable", plain (flag true))
            ∷ ("backlog_soft_limit_exceeded", plain (flag b.soft_limit_exceeded))
            ∷ ("pending_backlog_count", plain (number b.pending_count))
            ∷ ("pending_backlog_limit", plain (number b.max_pending))
            ∷ (if external then ("external_update", plain (flag true)) ∷ [] else []);
        created_at = o.wall s.context.readings;
        updated_at = o.wall (suc s.context.readings);
      }

  -- _persist_operator_delivery
  unfoldable pub persist_operator_delivery : OperatorDelivery → Deliveries → Deliveries
  persist_operator_delivery d s =
      let c = s.context in
      record s {
        context = record c { readings = suc (suc c.readings); identifiers = suc c.identifiers };
        rows = s.rows ++ d ∷ [];
      }

  unfoldable pub enqueue : RunLifecycleEvent → String → Extras → Bool → Deliveries → Deliveries
  unfolding prune_pending_operator_deliveries new_delivery persist_operator_delivery
  enqueue e translated x external s =
      let s1 = prune_pending_operator_deliveries e.channel_hint s in
      persist_operator_delivery (new_delivery e translated x external s1) s1

  -- the identifier of the delivery that `enqueue` makes
  abbrev enqueued_id : RunLifecycleEvent → Deliveries → String
  enqueued_id e s =
      o.fresh "operator_delivery"
        (prune_pending_operator_deliveries e.channel_hint s).context.identifiers

  abbrev filtered : RunLifecycleEvent → String → Deliveries → Deliveries
  filtered e reason s =
      journal "api_run_operator_delivery_filtered"
        (("lifecycle_event_id", text e.lifecycle_event_id)
          ∷ ("run_id", text e.run_id)
          ∷ ("kind", text (kind_value e.kind))
          ∷ ("reason", text reason)
          ∷ [])
        s

  -- what the constructor of an event reads, with the identifiers that are made
  abbrev pub event_read : ℕ → Deliveries → Deliveries
  event_read made s =
      let c = s.context in
      record s {
        context = record c { readings = suc c.readings; identifiers = c.identifiers + made };
      }

  module _ (write_runtime_json : String → String → Context → Result String) where
    abbrev pub write_event :
        RunLifecycleEvent → Result String → Deliveries → Result RunLifecycleEvent × Deliveries
    write_event e (err x) s = (err x, s)
    write_event e (ok path) s =
        let written : RunLifecycleEvent = record e { artifact_path = some path } in
        (ok written, record s { events = s.events ++ written ∷ [] })

    unfoldable pub persist_lifecycle_event :
        RunLifecycleEvent → Deliveries → Result RunLifecycleEvent × Deliveries
    persist_lifecycle_event e s =
        write_event e (write_runtime_json "lifecycle_events" e.lifecycle_event_id s.context) s

    abbrev pub publish_stored :
        OperatorUpdate → RunLifecycleEvent → Deliveries → Result String × Deliveries
    publish_stored u e s =
        let s1 = enqueue e (or_text u.message (render_operator_delivery_text e)) u.extras true s in
        (
          ok (enqueued_id e s),
          journal "api_run_external_operator_update_published"
              (("lifecycle_event_id", text e.lifecycle_event_id)
                ∷ ("delivery_id", text (enqueued_id e s))
                ∷ ("kind", text (kind_value u.kind))
                ∷ ("channel_hint", text (channel_value u.channel_hint))
                ∷ [])
              s1,
        )

    unfoldable pub external_event : OperatorUpdate → Context → RunLifecycleEvent
    unfolding strip
    external_event u c = record {
      lifecycle_event_id = o.fresh "lifecycle_event" c.identifiers;
      run_id = o.fresh "external_run" (suc c.identifiers);
      run_request_id = o.fresh "external_request" (suc (suc c.identifiers));
      kind = u.kind;
      title = strip u.title;
      summary = strip u.summary;
      contract_id = none;
      branch_name = u.branch_name;
      mode = u.mode;
      channel_hint = u.channel_hint;
      status = u.status;
      phase = some "external_update";
      blocking_question = none;
      recommended_action = none;
      requires_reapproval = false;
      artifact_path = none;
      metadata = u.metadata;
      created_at = o.wall c.readings;
    }

    -- The result is the identifier of the delivery.
    unfoldable pub publish_operator_update :
        OperatorUpdate → Deliveries → Result String × Deliveries
    unfolding external_event persist_lifecycle_event enqueue render_operator_delivery_text
    publish_operator_update u s =
        and_then (persist_lifecycle_event (external_event u s.context) (event_read 3 s))
          (publish_stored u)

    -- what _emit_run_lifecycle_event is given, as an event without its identifier, channel and time
    abbrev pub emitted_event : RunLifecycleEvent → Context → RunLifecycleEvent
    emitted_event e c = record e {
      lifecycle_event_id = o.fresh "lifecycle_event" c.identifiers;
      channel_hint = channel_hint_for_lifecycle e.kind;
      artifact_path = none;
      created_at = o.wall c.readings;
    }

    abbrev told : RunLifecycleEvent → Value → Deliveries → Deliveries
    told e id s =
        journal "api_run_lifecycle_event_created"
          (("lifecycle_event_id", text e.lifecycle_event_id)
            ∷ ("run_id", text e.run_id)
            ∷ ("kind", text (kind_value e.kind))
            ∷ ("delivery_id", id)
            ∷ ("channel_hint", text (channel_value e.channel_hint))
            ∷ [])
          s

    -- what the translator answers: a text, nothing for an event that is noise, or an exception
    abbrev pub emit_translated :
        RunLifecycleEvent
        → Result (Option String)
        → Deliveries
        → Result RunLifecycleEvent × Deliveries
    emit_translated e (ok (some translated)) s = (
      ok e,
      told e (text (enqueued_id e s)) (
          enqueue e translated (record { target = none; reply_to = none; attachments = [] }) false
            s),
    )
    emit_translated e (ok none) s = (ok e, told e null (filtered e "noise_filtered" s))
    emit_translated e (err x) s = (ok e, told e null (filtered e "translator_failed" s))

    module _ (call_translator : RunLifecycleEvent → Context → Result (Option String)) where
      abbrev pub emit_stored :
          RunLifecycleEvent → Deliveries → Result RunLifecycleEvent × Deliveries
      emit_stored e s = emit_translated e (call_translator e s.context) s

      unfoldable pub emit_run_lifecycle_event :
          RunLifecycleEvent → Deliveries → Result RunLifecycleEvent × Deliveries
      unfolding persist_lifecycle_event enqueue channel_hint_for_lifecycle
      emit_run_lifecycle_event e s =
          and_then (persist_lifecycle_event (emitted_event e s.context) (event_read 1 s))
            emit_stored
