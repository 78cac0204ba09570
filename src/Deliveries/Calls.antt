-- ===== src/Deliveries/Calls.antt =====
-- The methods of api_runs/service.py that write deliveries, as the steps of a run; and what holds of
-- every row through them.
use project_os_core.Base.{
  ℕ, suc, String, ◌≡◌, refl, inl, inr, Bool, true, false, Option, none, some, List, [], ◌∷◌, ◌++◌,
  ap, Bool-cases,
}
use project_os_core.Base.Dict.{Dict}
use project_os_core.Base.Table.{update_where}
use project_os_core.Base.Result.{Result, ok, err, and_then}
use project_os_core.World.{Outside, Context, append}
use project_os_core.Deliveries.{
  OperatorChannelHint, OperatorDeliveryStatus, pending, OperatorDelivery, RunLifecycleEvent,
  DeliveryPolicy, Deliveries, Field, delivery_key,
}
use project_os_core.Deliveries.Policy.{operator_delivery_backlog_state, is_given_up}
use project_os_core.Deliveries.Publish.{
  OperatorUpdate, Extras, publish_operator_update, publish_stored, write_event,
  emit_run_lifecycle_event, emit_translated, emit_stored, enqueue,
  prune_pending_operator_deliveries, new_delivery, persist_operator_delivery,
  persist_lifecycle_event, emitted_event, event_read, external_event,
}
use project_os_core.Deliveries.Marks.{
  mark_operator_delivery, applied_status, marked_row, letter_metadata, told_metadata, accepted,
  dead_letter_for, letter_written, persist_operator_delivery_dead_letter,
}
use project_os_core.Deliveries.Counts.{is_countable, recounted, mark-recounted}
use project_os_core.Deliveries.Requeue.{requeue_operator_delivery}

-- A write of a dead letter leaves the deliveries alone.
module _ (o : Outside) (hash : String → ℕ) (p : DeliveryPolicy) where
  letter_written-rows :
      (d : OperatorDelivery) (final : OperatorDeliveryStatus) (error : Option String) (n : ℕ)
      (path : Result String) (s : Deliveries)
      → (letter_written o hash p d final error n path s).1.rows ≡ s.rows
  letter_written-rows d final error n (ok path) s = refl
  letter_written-rows d final error n (err x) s = refl

  module _ (write : String → String → Context → Result String) where
    pub dead_letter_for-rows :
        (b : Bool) (d : OperatorDelivery) (final : OperatorDeliveryStatus) (error : Option String)
        (n : ℕ) (s : Deliveries)
        → (dead_letter_for o hash p write b d final error n s).1.rows ≡ s.rows
    unfolding persist_operator_delivery_dead_letter
    dead_letter_for-rows false d final error n s = refl
    dead_letter_for-rows true d final error n s = letter_written-rows d final error n _ s

    -- An accepted mark rewrites the one row, whose status, attempts and count of requeues are these.
    pub accepted-rows :
        (d : OperatorDelivery) (status : OperatorDeliveryStatus) (error : Option String)
        (metadata : Dict Field) (s : Deliveries)
        → (f : OperatorDelivery → OperatorDelivery) × ((accepted o hash p write d status error
              metadata s).1.rows
            ≡ update_where delivery_key d.delivery_id f s.rows)
          × ((r : OperatorDelivery) → (f r).delivery_id ≡ r.delivery_id)
          × ((r : OperatorDelivery) → (f r).attempts ≡ suc d.attempts)
          × ((r : OperatorDelivery)
              → (f r).status ≡ (applied_status o hash p d status metadata s).final_status)
          × ((r : OperatorDelivery)
              → is_countable (f r).metadata ≡ recounted metadata (is_countable d.metadata))
    unfolding append
    accepted-rows d status error metadata s =
        let a = applied_status o hash p d status metadata s in
        let now = o.wall s.context.readings in
        let letter =
          dead_letter_for o hash p write (is_given_up a.final_status) d a.final_status error
            (suc d.attempts) (record s { context = a.context }) in
        let f =
          marked_row o hash p a.final_status (suc d.attempts) error a.next_attempt_at
            (letter_metadata o hash p letter.0 now
              (told_metadata o hash p write status error (suc d.attempts) now a))
            now in
        (
          f,
          ap (update_where delivery_key d.delivery_id f) (
              dead_letter_for-rows (is_given_up a.final_status) d a.final_status error
                (suc d.attempts) (record s { context = a.context })),
          λ r. refl,
          λ r. refl,
          λ r. refl,
          λ r. mark-recounted o hash p write d status error metadata letter.0 now _,
        )

  prune-rows :
      (hint : OperatorChannelHint) (s : Deliveries)
      → (prune_pending_operator_deliveries o p hint s).rows ≡ s.rows
  unfolding prune_pending_operator_deliveries append
  prune-rows hint s =
      elim (Bool-cases (operator_delivery_backlog_state p s.rows).soft_limit_exceeded) [
        | inl full ↦ rw full refl
        | inr room ↦ rw room refl
      ]

  -- A new delivery is the last row.
  enqueue-rows :
      (e : RunLifecycleEvent) (translated : String) (x : Extras) (external : Bool) (s : Deliveries)
      → (enqueue o p e translated x external s).rows
        ≡ s.rows
          ++ new_delivery o p e translated x external
              (prune_pending_operator_deliveries o p e.channel_hint s)
            ∷ []
  unfolding enqueue persist_operator_delivery
  enqueue-rows e translated x external s = rw (prune-rows e.channel_hint s) refl

-- A property of a table of deliveries that no new pending delivery breaks.
module _ (o : Outside) (p : DeliveryPolicy) (write : String → String → Context → Result String)
    (P : List OperatorDelivery → Type 0)
    (grow : (rows : List OperatorDelivery) (d : OperatorDelivery)
      → d.status ≡ pending
      → d.attempts ≡ 0
      → P rows
      → P (rows ++ d ∷ [])) where
  enqueue-keeps :
      (hash : String → ℕ) (e : RunLifecycleEvent) (translated : String) (x : Extras)
      (external : Bool) (s : Deliveries)
      → P s.rows
      → P (enqueue o p e translated x external s).rows
  unfolding new_delivery
  enqueue-keeps hash e translated x external s h =
      rw (enqueue-rows o hash p e translated x external s) (grow s.rows _ refl refl h)

  publish_stored-keeps :
      (u : OperatorUpdate) (m : Result RunLifecycleEvent × Deliveries)
      → P m.1.rows
      → P (and_then m (publish_stored o p write u)).1.rows
  unfolding append
  publish_stored-keeps u (err e, s) h = h
  publish_stored-keeps u (ok e, s) h = enqueue-keeps (λ t. 0) e _ _ true s h

  write_event-keeps :
      (e : RunLifecycleEvent) (path : Result String) (s : Deliveries)
      → P s.rows
      → P (write_event o p write e path s).1.rows
  write_event-keeps e (err x) s h = h
  write_event-keeps e (ok path) s h = h

  pub publish_operator_update-keeps :
      (u : OperatorUpdate) (s : Deliveries)
      → P s.rows
      → P (publish_operator_update o p write u s).1.rows
  unfolding publish_operator_update persist_lifecycle_event
  publish_operator_update-keeps u s h =
      publish_stored-keeps u _
        (write_event-keeps (external_event o p write u s.context) _ (event_read o p 3 s) h)

  module _ (translate : RunLifecycleEvent → Context → Result (Option String)) where
    emit_translated-keeps :
        (e : RunLifecycleEvent) (answer : Result (Option String)) (s : Deliveries)
        → P s.rows
        → P (emit_translated o p write e answer s).1.rows
    unfolding append
    emit_translated-keeps e (ok (some t)) s h = enqueue-keeps (λ t. 0) e t _ false s h
    emit_translated-keeps e (ok none) s h = h
    emit_translated-keeps e (err x) s h = h

    emit_stored-keeps :
        (m : Result RunLifecycleEvent × Deliveries)
        → P m.1.rows
        → P (and_then m (emit_stored o p write translate)).1.rows
    emit_stored-keeps (err e, s) h = h
    emit_stored-keeps (ok e, s) h = emit_translated-keeps e (translate e s.context) s h

    pub emit_run_lifecycle_event-keeps :
        (e : RunLifecycleEvent) (s : Deliveries)
        → P s.rows
        → P (emit_run_lifecycle_event o p write translate e s).1.rows
    unfolding emit_run_lifecycle_event persist_lifecycle_event
    emit_run_lifecycle_event-keeps e s h =
        emit_stored-keeps _
          (write_event-keeps (emitted_event o p write e s.context) _ (event_read o p 1 s) h)

-- A call of a method that writes deliveries.
module _ (o : Outside) (hash : String → ℕ) (p : DeliveryPolicy)
    (write : String → String → Context → Result String)
    (translate : RunLifecycleEvent → Context → Result (Option String)) where
  pub data Call : Deliveries → Deliveries → Type 0 where
    publishes :
        (u : OperatorUpdate) (s : Deliveries) → Call s (publish_operator_update o p write u s).1
    emits :
        (e : RunLifecycleEvent) (s : Deliveries)
        → Call s (emit_run_lifecycle_event o p write translate e s).1
    marks :
        (id : String) (status : OperatorDeliveryStatus) (error : Option String)
        (metadata : Dict Field) (s : Deliveries)
        → Call s (mark_operator_delivery o hash p write id status error metadata s).1
    requeues : (id : String) (s : Deliveries) → Call s (requeue_operator_delivery o id s).1

  pub data Calls (s : Deliveries) : Deliveries → Type 0 where
    none_yet : Calls s s
    then_call : {t u : Deliveries} → Calls s t → Call t u → Calls s u

  module _ (P : List OperatorDelivery → Type 0)
      (grow : (rows : List OperatorDelivery) (d : OperatorDelivery)
        → d.status ≡ pending
        → d.attempts ≡ 0
        → P rows
        → P (rows ++ d ∷ []))
      (mark : (id : String) (status : OperatorDeliveryStatus) (error : Option String)
          (metadata : Dict Field) (s : Deliveries)
        → P s.rows
        → P (mark_operator_delivery o hash p write id status error metadata s).1.rows)
      (requeue : (id : String) (s : Deliveries)
        → P s.rows
        → P (requeue_operator_delivery o id s).1.rows) where
    Call-keeps : {s t : Deliveries} → Call s t → P s.rows → P t.rows
    Call-keeps (publishes u s) h = publish_operator_update-keeps o p write P grow u s h
    Call-keeps (emits e s) h = emit_run_lifecycle_event-keeps o p write P grow translate e s h
    Call-keeps (marks id status error metadata s) h = mark id status error metadata s h
    Call-keeps (requeues id s) h = requeue id s h

    pub Calls-keep : {s t : Deliveries} → Calls s t → P s.rows → P t.rows
    Calls-keep none_yet h = h
    Calls-keep (then_call w c) h = Call-keeps c (Calls-keep w h)
