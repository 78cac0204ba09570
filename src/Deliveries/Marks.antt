-- ===== src/Deliveries/Marks.antt =====
-- mark_operator_delivery of api_runs/service.py: what an adapter reports of one attempt.
use Prim.Native.String.{◌++◌ as concat}
use Prim.Native.Nat.{◌^◌}
use project_os_core.Base.{
  ℕ, suc, ◌+◌, ◌-◌, ◌*◌, ◌%◌, min, max, String, Bool, ◌&&◌, not, true, false, Option, none, some,
  List, [], ◌∷◌, ◌++◌, leb, ◌==◌, if◌then◌else◌, take_last, eqb,
}
use project_os_core.Base.Text.{or_text}
use project_os_core.Base.Dict.{Dict, get, put, pop, update}
use project_os_core.Base.Table.{fetchone, update_where}
use project_os_core.Base.Result.{Result, ok, err, key_error}
use project_os_core.World.{
  Outside, Context, Value, null, text, number, negative, flag, container, append,
}
use project_os_core.Deliveries.{
  OperatorDeliveryStatus, pending, delivered, failed, OperatorDelivery, RunLifecycleEvent,
  DeliveryPolicy, Deliveries, Attempt, Field, plain, history, Payload, DeadLetterRecord,
  delivery_key, event_key,
}
use project_os_core.Deliveries.Policy.{
  delivery_status_value, guarantee_value, channel_value, is_delivered, is_given_up,
  coerce_operator_delivery_guarantee, operator_delivery_guarantee_rank,
}
use project_os_core.Deliveries.Letters.{record_active_letter}

-- bool(x)
abbrev truthy : Field → Bool
truthy (plain null) = false
truthy (plain (text s)) = not (s == "")
truthy (plain (number n)) = not (eqb n 0)
truthy (plain (negative n)) = true
truthy (plain (flag b)) = b
truthy (plain (container s)) = true
truthy (history []) = false
truthy (history (a ∷ rest)) = true

abbrev or_field : Option Field → Field → Field
or_field none d = d
or_field (some f) d = if truthy f then f else d

-- metadata.get("delivery_guarantee") or payload.get("delivery_guarantee")
abbrev pub guarantee_field : Dict Field → Payload → Field
guarantee_field metadata p =
    or_field (get "delivery_guarantee" metadata)
      (plain (text (guarantee_value p.delivery_guarantee)))

abbrev pub attempts_told : Option Field → List Attempt
attempts_told (some (history xs)) = xs
attempts_told _ = []

-- guarantee.value, which the merged metadata hold
abbrev shown_guarantee : Payload → Dict Field → Value
shown_guarantee p metadata =
    text (guarantee_value (coerce_operator_delivery_guarantee (guarantee_field metadata p)))

-- the answer; its guarantee is the value whose text the caller gets
pub record Marked : Type 0 where
  pub delivery_id : String
  pub status : OperatorDeliveryStatus
  pub attempts : ℕ
  pub last_error : Option String
  pub next_attempt_at : Option ℕ
  pub delivery_guarantee : Field
  pub metadata : Dict Field

abbrev pub max_attempts : DeliveryPolicy → ℕ
max_attempts p = max 1 p.operator_delivery_max_attempts

-- the seconds before the next attempt; `hash` is Python's hash of a text, without its sign
unfoldable pub retry_delay_seconds : (String → ℕ) → DeliveryPolicy → String → ℕ → ℕ
retry_delay_seconds hash p id attempts =
    let base = max 1 p.operator_delivery_retry_base_seconds in
    let limit = max base p.operator_delivery_retry_max_seconds in
    min limit (base * 2 ^ (attempts - 1)) + min 15 (hash id % 7)

-- What is known of a row once the requested status is looked at.
pub record Applied : Type 0 where
  pub final_status : OperatorDeliveryStatus
  pub next_attempt_at : Option ℕ
  pub metadata : Dict Field
  pub context : Context

-- delivery_metadata.update(metadata), and the guarantee with its rank
abbrev pub merged_metadata : OperatorDelivery → Dict Field → Dict Field
merged_metadata d metadata =
    let merged = update d.metadata metadata in
    let g = coerce_operator_delivery_guarantee (guarantee_field merged d.payload) in
    put "replayable" (plain (flag true)) (
      put "delivery_priority_rank" (plain (number (operator_delivery_guarantee_rank g)))
        (put "delivery_guarantee" (plain (text (guarantee_value g))) merged))

abbrev pub told_attempt :
    OperatorDeliveryStatus
    → OperatorDeliveryStatus
    → ℕ
    → Option String
    → ℕ
    → Dict Field
    → Dict Field
told_attempt requested final attempts error now metadata =
    let told : Attempt = record {
      attempt = attempts;
      requested_status = requested;
      applied_status = final;
      error = error;
      at = now;
    } in
    put "last_transition_at" (plain (number now)) (
      put "attempt_history"
        (history (take_last 10 (attempts_told (get "attempt_history" metadata) ++ told ∷ [])))
        metadata)

abbrev pub replay_metadata : OperatorDeliveryStatus → ℕ → Dict Field → Dict Field
replay_metadata delivered now metadata =
    put "replay_status" (plain (text "delivered"))
      (put "delivered_at" (plain (number now)) metadata)
replay_metadata pending now metadata = put "replay_status" (plain (text "queued")) metadata
replay_metadata _ now metadata =
    put "replay_status" (plain (text "manual_requeue_available")) metadata

abbrev or_error : Option String → Option String → Option String
or_error none last = last
or_error (some e) last = if e == "" then last else some e

module _ (o : Outside) (hash : String → ℕ) (p : DeliveryPolicy) where
  abbrev journal : String → Dict Value → Deliveries → Deliveries
  journal event payload s = record s { context = append o event "api_runs" payload s.context }

  -- the branch on the requested status; the second reading of the clock is that of the retry
  unfoldable pub apply_status : String → OperatorDeliveryStatus → ℕ → Dict Field → Context → Applied
  unfolding retry_delay_seconds
  apply_status id pending attempts metadata c =
      let delay = retry_delay_seconds hash p id attempts in
      if leb (max_attempts p) attempts
      then record {
        final_status = failed;
        next_attempt_at = none;
        metadata = metadata;
        context = c;
      }
      else record {
        final_status = pending;
        next_attempt_at = some (o.wall c.readings + delay * 1_000_000);
        metadata = put "retry_backoff_seconds" (plain (number delay)) metadata;
        context = record c { readings = suc c.readings };
      }
  apply_status id status attempts metadata c = record {
    final_status = status;
    next_attempt_at = none;
    metadata = pop "retry_backoff_seconds" metadata;
    context = c;
  }

  -- the same, of a row, after the first reading of the clock
  abbrev pub applied_status :
      OperatorDelivery → OperatorDeliveryStatus → Dict Field → Deliveries → Applied
  applied_status d requested metadata s =
      let c = s.context in
      apply_status d.delivery_id requested (suc d.attempts) (merged_metadata d metadata)
        (record c { readings = suc c.readings })

  abbrev event_run : Option RunLifecycleEvent → Option String
  event_run none = none
  event_run (some e) = if e.run_id == "" then none else some e.run_id

  -- the letter of a delivery that is given up
  unfoldable pub delivery_letter :
      OperatorDelivery
      → OperatorDeliveryStatus
      → Option String
      → ℕ
      → String
      → Option RunLifecycleEvent
      → DeadLetterRecord
  unfolding delivery_status_value
  delivery_letter d final error attempts path event = record {
    dead_letter_id = "";
    domain = "operator_delivery";
    source_entity_kind = "operator_delivery";
    source_entity_id = d.delivery_id;
    status = "active";
    error_code = some (delivery_status_value final);
    error_message = or_error error (or_error d.last_error none);
    replayable = true;
    recovery_command =
        some (concat "project-os api-runs requeue-operator-delivery --delivery-id " d.delivery_id);
    artifact_path = some path;
    run_id = event_run event;
    metadata =
        ("adapter", text d.adapter)
        ∷ ("surface", text d.surface)
        ∷ ("channel_hint", text (channel_value d.channel_hint))
        ∷ ("lifecycle_event_id", text d.lifecycle_event_id)
        ∷ ("attempts", number attempts)
        ∷ [];
    created_at = 0;
    updated_at = 0;
  }

  abbrev pub letter_journal :
      OperatorDelivery → OperatorDeliveryStatus → String → Deliveries → Deliveries
  letter_journal d final path s =
      journal "api_run_operator_delivery_dead_lettered"
        (("delivery_id", text d.delivery_id)
          ∷ ("status", text (delivery_status_value final))
          ∷ ("artifact_path", text path)
          ∷ [])
        s

  -- An exception is logged, and the letter is lost.
  abbrev pub letter_written :
      OperatorDelivery
      → OperatorDeliveryStatus
      → Option String
      → ℕ
      → Result String
      → Deliveries
      → Option String × Deliveries
  letter_written d final error attempts (err x) s = (none, s)
  letter_written d final error attempts (ok path) s =
      let event = fetchone event_key d.lifecycle_event_id s.events in
      let written =
        record_active_letter o (delivery_letter d final error attempts path event)
          (letter_journal d final path s).context s.letters in
      (some path, record s { context = written.0; letters = written.1 })

  abbrev pub letter_metadata : Option String → ℕ → Dict Field → Dict Field
  letter_metadata none now metadata = metadata
  letter_metadata (some path) now metadata =
      put "dead_letter_created_at" (plain (number now))
        (put "dead_letter_artifact_path" (plain (text path)) metadata)

  -- the UPDATE of the row
  abbrev pub marked_row :
      OperatorDeliveryStatus
      → ℕ
      → Option String
      → Option ℕ
      → Dict Field
      → ℕ
      → OperatorDelivery
      → OperatorDelivery
  marked_row status attempts error next metadata now d = record d {
    status = status;
    attempts = attempts;
    last_error = error;
    next_attempt_at = next;
    metadata = metadata;
    updated_at = now;
  }

  module _ (write_runtime_json : String → String → Context → Result String) where
    -- _persist_operator_delivery_dead_letter
    unfoldable pub persist_operator_delivery_dead_letter :
        OperatorDelivery
        → OperatorDeliveryStatus
        → Option String
        → ℕ
        → Deliveries
        → Option String × Deliveries
    unfolding record_active_letter delivery_letter append
    persist_operator_delivery_dead_letter d final error attempts s =
        letter_written d final error attempts
          (write_runtime_json "operator_delivery_dead_letters" d.delivery_id s.context) s

    abbrev pub dead_letter_for :
        Bool
        → OperatorDelivery
        → OperatorDeliveryStatus
        → Option String
        → ℕ
        → Deliveries
        → Option String × Deliveries
    dead_letter_for false d final error attempts s = (none, s)
    dead_letter_for true d final error attempts s =
        persist_operator_delivery_dead_letter d final error attempts s

    abbrev pub ignored :
        OperatorDelivery → OperatorDeliveryStatus → Deliveries → Result Marked × Deliveries
    ignored d requested s = (
      ok (record {
        delivery_id = d.delivery_id;
        status = d.status;
        attempts = d.attempts;
        last_error = or_error d.last_error none;
        next_attempt_at = d.next_attempt_at;
        delivery_guarantee = guarantee_field d.metadata d.payload;
        metadata = d.metadata;
      }),
      journal "api_run_operator_delivery_ack_ignored"
          (("delivery_id", text d.delivery_id)
            ∷ ("current_status", text (delivery_status_value d.status))
            ∷ ("requested_status", text (delivery_status_value requested))
            ∷ [])
          s,
    )

    -- the metadata before the dead letter
    abbrev pub told_metadata : OperatorDeliveryStatus → Option String → ℕ → ℕ → Applied → Dict Field
    told_metadata requested error attempts now a =
        let told =
          replay_metadata a.final_status now
            (told_attempt requested a.final_status attempts error now a.metadata) in
        if is_given_up a.final_status
        then put "delivery_terminal_reason"
            (plain (text (or_text error (delivery_status_value a.final_status)))) told
        else pop "delivery_terminal_reason" told

    -- the UPDATE, the journal and the answer
    abbrev pub written_mark :
        OperatorDelivery
        → Applied
        → Option String
        → ℕ
        → Dict Field
        → Option String × Deliveries
        → Result Marked × Deliveries
    written_mark d a error now metadata (path, s) =
        let attempts = suc d.attempts in
        let final = letter_metadata path now metadata in
        (
          ok (record {
            delivery_id = d.delivery_id;
            status = a.final_status;
            attempts = attempts;
            last_error = error;
            next_attempt_at = a.next_attempt_at;
            delivery_guarantee = guarantee_field final d.payload;
            metadata = final;
          }),
          journal "api_run_operator_delivery_updated"
              (("delivery_id", text d.delivery_id)
                ∷ ("status", text (delivery_status_value a.final_status))
                ∷ ("attempts", number attempts)
                ∷ ("last_error", text (or_text error ""))
                ∷ ("delivery_guarantee", shown_guarantee d.payload final)
                ∷ ("dead_letter_artifact_path", text (or_text path ""))
                ∷ [])
              (record s {
                rows =
                    update_where delivery_key d.delivery_id
                      (marked_row a.final_status attempts error a.next_attempt_at final now) s.rows;
              }),
        )

    abbrev pub accepted :
        OperatorDelivery
        → OperatorDeliveryStatus
        → Option String
        → Dict Field
        → Deliveries
        → Result Marked × Deliveries
    accepted d requested error metadata s =
        let c = s.context in
        let now = o.wall c.readings in
        let a = applied_status d requested metadata s in
        written_mark d a error now (told_metadata requested error (suc d.attempts) now a) (
          dead_letter_for (is_given_up a.final_status) d a.final_status error (suc d.attempts)
            (record s { context = a.context }))

    abbrev pub mark_delivery_found :
        String
        → Option OperatorDelivery
        → OperatorDeliveryStatus
        → Option String
        → Dict Field
        → Deliveries
        → Result Marked × Deliveries
    mark_delivery_found id none requested error metadata s =
        (err (key_error (concat "Unknown operator delivery: " id)), s)
    mark_delivery_found id (some d) requested error metadata s =
        if is_delivered d.status && not (is_delivered requested)
        then ignored d requested s
        else accepted d requested error metadata s

    unfoldable pub mark_operator_delivery :
        String
        → OperatorDeliveryStatus
        → Option String
        → Dict Field
        → Deliveries
        → Result Marked × Deliveries
    unfolding apply_status persist_operator_delivery_dead_letter delivery_status_value append
        coerce_operator_delivery_guarantee operator_delivery_guarantee_rank
    mark_operator_delivery id requested error metadata s =
        mark_delivery_found id (fetchone delivery_key id s.rows) requested error metadata s
