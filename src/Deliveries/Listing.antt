-- ===== src/Deliveries/Listing.antt =====
-- list_operator_deliveries of api_runs/service.py: what an adapter asks for.
use project_os_core.Base.{
  ℕ, suc, Bool, true, ◌&&◌, Option, none, some, List, [], ◌∷◌, filter, take, leb, ltb, eqb, ◌==◌,
  if◌then◌else◌,
}
use project_os_core.Base.Sort.{sort_by}
use project_os_core.Base.Table.{fetchone}
use project_os_core.World.{Outside}
use project_os_core.Deliveries.{
  OperatorDeliveryStatus, OperatorDeliveryGuarantee, OperatorDelivery, RunLifecycleEvent,
  Deliveries, event_key,
}
use project_os_core.Deliveries.Policy.{
  delivery_status_value, is_pending, coerce_operator_delivery_guarantee,
  operator_delivery_guarantee_rank, operator_delivery_sort_key, key_before, SortKey,
}
use project_os_core.Deliveries.Marks.{guarantee_field}

-- an entry of the answer: the row, the event that it is joined with, and the guarantee with its rank
pub record Listed : Type 0 where
  pub delivery : OperatorDelivery
  pub event : RunLifecycleEvent
  pub delivery_guarantee : OperatorDeliveryGuarantee
  pub delivery_priority_rank : ℕ

abbrev pub or_time : Option ℕ → ℕ → ℕ
or_time none d = d
or_time (some t) d = t

-- COALESCE(next_attempt_at, updated_at, created_at) <= now
abbrev pub is_due : ℕ → OperatorDelivery → Bool
is_due now d = leb (or_time d.next_attempt_at d.updated_at) now

-- the WHERE clause
unfoldable pub is_wanted : Option OperatorDeliveryStatus → ℕ → OperatorDelivery → Bool
unfolding delivery_status_value
is_wanted none now d = true
is_wanted (some status) now d =
    delivery_status_value d.status == delivery_status_value status
    && (if is_pending status then is_due now d else true)

-- ORDER BY COALESCE(next_attempt_at, created_at) ASC, created_at ASC
abbrev pub due_first : OperatorDelivery → OperatorDelivery → Bool
due_first a b =
    let due_a = or_time a.next_attempt_at a.created_at in
    let due_b = or_time b.next_attempt_at b.created_at in
    if eqb due_a due_b then leb a.created_at b.created_at else ltb due_a due_b

abbrev listed : OperatorDelivery → RunLifecycleEvent → Listed
listed d e =
    let g = coerce_operator_delivery_guarantee (guarantee_field d.metadata d.payload) in
    record {
      delivery = d;
      event = e;
      delivery_guarantee = g;
      delivery_priority_rank = operator_delivery_guarantee_rank g;
    }

abbrev join_event : Option RunLifecycleEvent → OperatorDelivery → List Listed → List Listed
join_event none d rest = rest
join_event (some e) d rest = listed d e ∷ rest

-- JOIN api_run_lifecycle_events
unfoldable pub join_events : List RunLifecycleEvent → List OperatorDelivery → List Listed
unfolding coerce_operator_delivery_guarantee operator_delivery_guarantee_rank
join_events events [] = []
join_events events (d ∷ rows) =
    join_event (fetchone event_key d.lifecycle_event_id events) d (join_events events rows)

unfoldable pub key_of : Listed → SortKey
unfolding operator_delivery_sort_key
key_of x =
    operator_delivery_sort_key x.delivery.status x.delivery.next_attempt_at x.delivery.created_at
      x.delivery_guarantee

abbrev pub before : Listed → Listed → Bool
before a b = key_before (key_of a) (key_of b)

unfoldable pub list_operator_deliveries :
    Outside → Option OperatorDeliveryStatus → ℕ → Deliveries → List Listed × Deliveries
unfolding is_wanted join_events key_of key_before
list_operator_deliveries o status limit s =
    let c = s.context in
    let now = o.wall c.readings in
    let rows = sort_by due_first (filter (is_wanted status now) s.rows) in
    (
      take limit (sort_by before (join_events s.events rows)),
      record s { context = record c { readings = suc c.readings } },
    )
