-- ===== src/Deliveries/Order.antt =====
-- What list_operator_deliveries of api_runs/service.py lists, and in which order.
use project_os_core.Base.{
  take-All, ℕ, zero, suc, ◌≡◌, ◌≤◌, ◌⊎◌, refl, inl, inr, true, some, List, [], ◌∷◌, All, All-imp,
  filter_holds, arith, take, Option-cases, ◌==◌,
}
use project_os_core.Base.Sort.{sort_by-All, sort_by-IsSorted, IsSorted}
use project_os_core.Base.Table.{fetchone}
use project_os_core.World.{Outside}
use project_os_core.Deliveries.{
  OperatorDeliveryStatus, pending, delivered, failed, skipped, expired, OperatorDelivery,
  RunLifecycleEvent, Deliveries, event_key,
}
use project_os_core.Deliveries.Policy.{delivery_status_value, SortKey, key_before}
use project_os_core.Deliveries.Listing.{
  Listed, or_time, is_wanted, join_events, key_of, before, due_first, list_operator_deliveries,
}

key_before_total : (a b : SortKey) → (key_before a b ≡ true) ⊎ (key_before b a ≡ true)
unfolding key_before
key_before_total a b = ground arith

key_before_trans :
    (a b c : SortKey) → key_before a b ≡ true → key_before b c ≡ true → key_before a c ≡ true
unfolding key_before
key_before_trans a b c h k = ground (arith, h, k)

take-IsSorted : (n : ℕ) (xs : List Listed) → IsSorted before xs → IsSorted before (take n xs)
take-IsSorted zero xs h = tt
take-IsSorted (suc n) [] h = tt
take-IsSorted (suc n) (x ∷ xs) h =
    (take-All (λ y. before x y ≡ true) n xs h.0, take-IsSorted n xs h.1)

join_events-All {ℓ} :
    (P : OperatorDelivery → Type ℓ) (events : List RunLifecycleEvent) (rows : List OperatorDelivery)
    → All P rows
    → All
        (λ x.
          P x.delivery × (fetchone event_key x.delivery.lifecycle_event_id events ≡ some x.event))
        (join_events events rows)
unfolding join_events
join_events-All P events [] h = tt
join_events-All P events (d ∷ rows) h =
    let rest = join_events-All P events rows h.1 in
    elim (Option-cases (fetchone event_key d.lifecycle_event_id events)) [
      | inl missing ↦ rw missing rest
      | inr (e, found) ↦ rw found ((h.0, found), rest)
    ]

wanted_pending :
    (now : ℕ) (d : OperatorDelivery)
    → is_wanted (some pending) now d ≡ true
    → (d.status ≡ pending) × (or_time d.next_attempt_at d.updated_at ≤ now)
unfolding is_wanted delivery_status_value
wanted_pending now d h = (only d.status (ground (arith, h)), ground (arith, h))
  where
    only :
        (x : OperatorDeliveryStatus) → (delivery_status_value x == "pending") ≡ true → x ≡ pending
    only pending e = refl
    only delivered e = absurd cc
    only failed e = absurd cc
    only skipped e = absurd cc
    only expired e = absurd cc

-- The pending deliveries that are listed are pending, due at the time of the call, joined with their event,
-- and come in the order of the sort key.
pub list_operator_deliveries-due :
    (o : Outside) (limit : ℕ) (s : Deliveries)
    → All
        (λ x.
          ((x.delivery.status ≡ pending)
            × (or_time x.delivery.next_attempt_at x.delivery.updated_at
                ≤ o.wall s.context.readings))
          × (fetchone event_key x.delivery.lifecycle_event_id s.events ≡ some x.event))
        (list_operator_deliveries o (some pending) limit s).0
      × IsSorted before (list_operator_deliveries o (some pending) limit s).0
unfolding list_operator_deliveries
list_operator_deliveries-due o limit s =
    let now = o.wall s.context.readings in
    (
      take-All _ limit _ (
          sort_by-All before _ _ (
            join_events-All _ s.events _ (
              sort_by-All due_first _ _ (
                All-imp (wanted_pending now) _
                  (filter_holds (is_wanted (some pending) now) s.rows))))),
      take-IsSorted limit _ (
          sort_by-IsSorted before (λ a b. key_before_total (key_of a) (key_of b))
            (λ a b c. key_before_trans (key_of a) (key_of b) (key_of c)) _),
    )
