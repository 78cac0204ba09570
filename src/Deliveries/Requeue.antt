-- ===== src/Deliveries/Requeue.antt =====
-- requeue_operator_delivery of api_runs/service.py: a delivery that was given up becomes pending again.
use Prim.Native.String.{◌++◌ as concat}
use project_os_core.Base.{ℕ, suc, String, true, Option, none, some, [], ◌∷◌, if◌then◌else◌}
use project_os_core.Base.Dict.{Dict, get, put, pop}
use project_os_core.Base.Numbers.{ℤ, pos, suc_int}
use project_os_core.Base.Table.{fetchone, update_where}
use project_os_core.Base.Result.{Result, ok, err, key_error, value_error, type_error}
use project_os_core.World.{Outside, text, number, integer, int_or_zero, flag, append}
use project_os_core.Deliveries.{
  pending, OperatorDelivery, Deliveries, Field, plain, history, delivery_key,
}
use project_os_core.Deliveries.Policy.{delivery_status_value, is_given_up}
use project_os_core.Deliveries.Letters.{update_dead_letter_status_for_source}

-- int(metadata.get("requeue_count") or 0), or what `int` raises
abbrev pub count_told : Option Field → Result ℤ
count_told none = ok (pos 0)
count_told (some (plain v)) = int_or_zero v
count_told (some (history [])) = ok (pos 0)
count_told (some (history (a ∷ rest))) =
    err (type_error "int() argument must be a number or a string")

-- The metadata that the UPDATE writes, with the new count.
abbrev pub requeue_metadata : ℕ → ℤ → OperatorDelivery → Dict Field
requeue_metadata now count d = pop "retry_backoff_seconds" (
    put "replay_status" (plain (text "queued")) (
      put "last_requeued_at" (plain (number now)) (
        put "requeue_count" (plain (integer count))
          (put "replayable" (plain (flag true)) d.metadata))))

-- the row that the UPDATE leaves
abbrev pub requeued_row : ℕ → Dict Field → OperatorDelivery → OperatorDelivery
requeued_row now metadata d = record d {
  status = pending;
  attempts = 0;
  last_error = none;
  next_attempt_at = some now;
  metadata = metadata;
  updated_at = now;
}

module _ (o : Outside) where
  -- The writes once the count is read. The answer is the row as it is written.
  abbrev pub requeue_counted :
      Result ℤ → OperatorDelivery → Deliveries → Result OperatorDelivery × Deliveries
  requeue_counted (err e) d s =
      let c = s.context in (err e, record s { context = record c { readings = suc c.readings } })
  requeue_counted (ok k) d s =
      let c = s.context in
      let now = o.wall c.readings in
      let count = suc_int k in
      let metadata = requeue_metadata now count d in
      let id = d.delivery_id in
      let letters =
        update_dead_letter_status_for_source "operator_delivery" id "requeued"
          (("last_requeued_at", number now) ∷ ("requeue_count", integer count) ∷ [])
          (o.wall (suc c.readings)) s.letters in
      (
        ok (requeued_row now metadata d),
        record s {
          context =
              append o "api_run_operator_delivery_requeued" "api_runs"
                (("delivery_id", text id)
                  ∷ ("previous_status", text (delivery_status_value d.status))
                  ∷ ("requeue_count", integer count)
                  ∷ [])
                (record c { readings = suc (suc c.readings) });
          rows = update_where delivery_key id (requeued_row now metadata) s.rows;
          letters = letters;
        },
      )

  -- The clock is read before the count.
  abbrev pub requeue : OperatorDelivery → Deliveries → Result OperatorDelivery × Deliveries
  requeue d s = requeue_counted (count_told (get "requeue_count" d.metadata)) d s

  abbrev pub requeue_found :
      String → Option OperatorDelivery → Deliveries → Result OperatorDelivery × Deliveries
  requeue_found id none s = (err (key_error (concat "Unknown operator delivery: " id)), s)
  requeue_found id (some d) s = if is_given_up d.status then requeue d s else (
    err (
        value_error (
          concat "Operator delivery " (
            concat id
              (concat " is not replayable from status " (delivery_status_value d.status))))),
    s,
  )

  unfoldable pub requeue_operator_delivery :
      String → Deliveries → Result OperatorDelivery × Deliveries
  unfolding update_dead_letter_status_for_source append delivery_status_value int_or_zero
  requeue_operator_delivery id s = requeue_found id (fetchone delivery_key id s.rows) s
