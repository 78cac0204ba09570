-- ===== src/Deliveries/Retries.antt =====
-- A delivery that api_runs/service.py retries is given up in the end, and waits a bounded time in between.
use Prim.Native.Nat.{◌^◌}
use project_os_core.Base.{
  ℕ, zero, suc, ◌+◌, ◌-◌, ◌*◌, ◌≤◌, ◌<◌, max, String, ◌≡◌, inl, inr, true, false, ◌&&◌, not, Option,
  none, some, List, [], ◌∷◌, All, All-append, arith, ap, sym, ◌∙◌, leb, length, Bool-cases,
  if◌then◌else◌,
}
use project_os_core.Base.Dict.{Dict, get}
use project_os_core.Base.Numbers.{ℤ}
use project_os_core.Base.Table.{fetchone, All-update_where_into, fetchone-update_found}
use project_os_core.Base.Result.{Result, ok, err}
use project_os_core.World.{Outside, Context, append}
use project_os_core.Deliveries.{
  OperatorDeliveryStatus, pending, delivered, failed, skipped, expired, OperatorDelivery,
  RunLifecycleEvent, DeliveryPolicy, Deliveries, Field, delivery_key,
}
use project_os_core.Deliveries.Policy.{is_pending, is_delivered, is_given_up}
use project_os_core.Deliveries.Marks.{
  mark_operator_delivery, mark_delivery_found, accepted, apply_status, max_attempts,
  retry_delay_seconds,
}
use project_os_core.Deliveries.Requeue.{
  count_told, requeue_counted, requeue_found, requeue_operator_delivery,
}
use project_os_core.Deliveries.Calls.{accepted-rows, Calls, Calls-keep}

-- What waits for an attempt has attempts left.
abbrev pub HasAttempts : DeliveryPolicy → OperatorDelivery → Type 0
HasAttempts p d = is_pending d.status ≡ true → d.attempts < max_attempts p

module _ (o : Outside) (hash : String → ℕ) (p : DeliveryPolicy) where
  apply_status-HasAttempts :
      (id : String) (status : OperatorDeliveryStatus) (n : ℕ) (metadata : Dict Field) (c : Context)
      → is_pending (apply_status o hash p id status n metadata c).final_status ≡ true
      → n < max_attempts p
  unfolding apply_status
  apply_status-HasAttempts id pending n metadata c h = ground (arith, h)
  apply_status-HasAttempts id delivered n metadata c h = absurd cc
  apply_status-HasAttempts id failed n metadata c h = absurd cc
  apply_status-HasAttempts id skipped n metadata c h = absurd cc
  apply_status-HasAttempts id expired n metadata c h = absurd cc

  module _ (write : String → String → Context → Result String) where
    accepted-HasAttempts :
        (d : OperatorDelivery) (status : OperatorDeliveryStatus) (error : Option String)
        (metadata : Dict Field) (s : Deliveries)
        → All (HasAttempts p) s.rows
        → All (HasAttempts p) (accepted o hash p write d status error metadata s).1.rows
    unfolding append
    accepted-HasAttempts d status error metadata s h =
        let (f, written, same, tried, status_of, recount) =
          accepted-rows o hash p write d status error metadata s in
        rw written (
          All-update_where_into delivery_key (HasAttempts p) (HasAttempts p) d.delivery_id f s.rows
            (λ r named kept waits.
              let left =
                apply_status-HasAttempts d.delivery_id status (suc d.attempts) _ _
                  (ap is_pending (sym (status_of r)) ∙ waits) in
              omega (arith, tried r, left))
            (λ r other kept. kept) h)

    found-HasAttempts :
        (id : String) (found : Option OperatorDelivery) (status : OperatorDeliveryStatus)
        (error : Option String) (metadata : Dict Field) (s : Deliveries)
        → All (HasAttempts p) s.rows
        → All
            (HasAttempts p)
            (mark_delivery_found o hash p write id found status error metadata s).1.rows
    unfolding append
    found-HasAttempts id none status error metadata s h = h
    found-HasAttempts id (some d) status error metadata s h =
        elim (Bool-cases (is_delivered d.status && not (is_delivered status))) [
          | inl done ↦ rw done h
          | inr open_ ↦ rw open_ (accepted-HasAttempts d status error metadata s h)
        ]

    counted-HasAttempts :
        (count : Result ℤ) (d : OperatorDelivery) (s : Deliveries)
        → All (HasAttempts p) s.rows
        → All (HasAttempts p) (requeue_counted o count d s).1.rows
    counted-HasAttempts (err e) d s h = h
    counted-HasAttempts (ok k) d s h =
        All-update_where_into delivery_key (HasAttempts p) (HasAttempts p) d.delivery_id _ s.rows
          (λ r same kept waits. ground arith) (λ r other kept. kept) h

    requeued-HasAttempts :
        (id : String) (found : Option OperatorDelivery) (s : Deliveries)
        → All (HasAttempts p) s.rows
        → All (HasAttempts p) (requeue_found o id found s).1.rows
    requeued-HasAttempts id none s h = h
    requeued-HasAttempts id (some d) s h = elim (Bool-cases (is_given_up d.status)) [
      | inl done ↦ rw done (counted-HasAttempts (count_told (get "requeue_count" d.metadata)) d s h)
      | inr open_ ↦ rw open_ h
    ]

    module _ (translate : RunLifecycleEvent → Context → Result (Option String)) where
      -- After any calls every pending delivery has been tried fewer times than the policy allows, when that
      -- held before.
      pub Calls-HasAttempts :
          {s t : Deliveries}
          → Calls o hash p write translate s t
          → All (HasAttempts p) s.rows
          → All (HasAttempts p) t.rows
      unfolding mark_operator_delivery requeue_operator_delivery
      Calls-HasAttempts calls h =
          Calls-keep o hash p write translate (λ rows. All (HasAttempts p) rows)
            (λ rows d waits untried kept.
              All-append (HasAttempts p) rows (d ∷ []) kept (λ u. omega (arith, untried), tt))
            (λ id status error metadata u kept.
              found-HasAttempts id (fetchone delivery_key id u.rows) status error metadata u kept)
            (λ id u kept. requeued-HasAttempts id (fetchone delivery_key id u.rows) u kept) calls h

  two_power : (n : ℕ) → 1 ≤ 2 ^ n
  two_power zero = omega arith
  two_power (suc n) = let rest = two_power n in omega (arith, rest)

  le_mul : (b k : ℕ) → 1 ≤ k → b ≤ b * k
  le_mul b zero h = absurd (omega (arith, h))
  le_mul b (suc k) h = omega arith

  -- The wait before the next attempt is at least the base of the policy, and at most the larger of its base
  -- and its limit and six seconds, whatever the number of attempts.
  pub retry_delay_seconds-bounds :
      (id : String) (n : ℕ)
      → max 1 p.operator_delivery_retry_base_seconds ≤ retry_delay_seconds hash p id n
        × retry_delay_seconds hash p id n
          ≤ max (max 1 p.operator_delivery_retry_base_seconds) p.operator_delivery_retry_max_seconds
            + 6
  unfolding retry_delay_seconds
  retry_delay_seconds-bounds id n = (
    ground (
      arith,
      le_mul (max 1 p.operator_delivery_retry_base_seconds) (2 ^ (n - 1)) (two_power (n - 1)),
    ),
    ground arith,
  )

-- The status of a delivery that was only retried.
abbrev pub retry_status : DeliveryPolicy → ℕ → OperatorDeliveryStatus
retry_status p n = if leb (max_attempts p) n then failed else pending

-- A row that is there, with so many attempts, and the status of one that was only retried.
abbrev pub IsRetried : DeliveryPolicy → String → ℕ → List OperatorDelivery → Type 0
IsRetried p id n rows =
    (d : OperatorDelivery) × (fetchone delivery_key id rows ≡ some d)
    × (d.attempts ≡ n)
    × (d.status ≡ retry_status p n)

-- an error and metadata of each report that asks for another attempt, the earliest first
abbrev pub Reports : Type 0
Reports = List (Option String × Dict Field)

module _ (o : Outside) (hash : String → ℕ) (p : DeliveryPolicy)
    (write : String → String → Context → Result String) where
  unfoldable pub report_all : String → Reports → Deliveries → Deliveries
  unfolding mark_operator_delivery
  report_all id [] s = s
  report_all id ((error, metadata) ∷ reports) s =
      report_all id reports (mark_operator_delivery o hash p write id pending error metadata s).1

  retry_status-open : (n : ℕ) → is_delivered (retry_status p n) ≡ false
  retry_status-open n = ground arith

  apply_status-retry_status :
      (id : String) (n : ℕ) (metadata : Dict Field) (c : Context)
      → (apply_status o hash p id pending n metadata c).final_status ≡ retry_status p n
  unfolding apply_status
  apply_status-retry_status id n metadata c = ground arith

  mark-IsRetried :
      (id : String) (n : ℕ) (error : Option String) (metadata : Dict Field) (s : Deliveries)
      → IsRetried p id n s.rows
      → IsRetried p id
          (suc n)
          (mark_operator_delivery o hash p write id pending error metadata s).1.rows
  unfolding mark_operator_delivery append
  mark-IsRetried id n error metadata s (d, found, tried, status) =
      let (f, written, same, more, status_of, recount) =
        accepted-rows o hash p write d pending error metadata s in
      let open_ : is_delivered d.status ≡ false = ap is_delivered status ∙ retry_status-open n in
      (
        f d,
        rw (found, open_, written) (fetchone-update_found delivery_key id f s.rows d same found),
        more d ∙ ap suc tried,
        status_of d
            ∙ apply_status-retry_status d.delivery_id (suc d.attempts) _ _
            ∙ ap (λ k. retry_status p (suc k)) tried,
      )

  -- A delivery that was only retried, with n attempts, is after k more reports that ask for a retry failed
  -- if n + k is the number of attempts that the policy allows or more, and pending if it is less.
  pub report_all-retry_status :
      (id : String) (reports : Reports) (n : ℕ) (s : Deliveries)
      → IsRetried p id n s.rows
      → IsRetried p id (n + length reports) (report_all id reports s).rows
  unfolding report_all
  report_all-retry_status id [] n s h = let same : n + 0 ≡ n = omega arith in rw same h
  report_all-retry_status id ((error, metadata) ∷ reports) n s h =
      let same : n + suc (length reports) ≡ suc n + length reports = omega arith in
      rw same
        (report_all-retry_status id reports (suc n) _ (mark-IsRetried id n error metadata s h))
