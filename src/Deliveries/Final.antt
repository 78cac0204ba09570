-- ===== src/Deliveries/Final.antt =====
-- A delivery that api_runs/service.py knows to be delivered stays so.
use project_os_core.Base.{
  ℕ, suc, String, ◌≡◌, refl, sym, ap, ◌∙◌, inl, inr, true, false, ◌&&◌, not, Option, some, List, [],
  ◌∷◌, arith, Bool-cases, Option-cases, ◌==◌,
}
use project_os_core.Base.Dict.{Dict, get}
use project_os_core.Base.Numbers.{ℤ}
use project_os_core.Base.Table.{
  fetchone, update_where, fetchone-update_where, fetchone_same, fetchone-append_found,
}
use project_os_core.World.{Outside, Context, append}
use project_os_core.Base.Result.{Result, ok, err}
use project_os_core.Deliveries.{
  OperatorDeliveryStatus, pending, delivered, failed, skipped, expired, OperatorDelivery,
  RunLifecycleEvent, DeliveryPolicy, Deliveries, Field, delivery_key,
}
use project_os_core.Deliveries.Policy.{is_delivered, is_given_up}
use project_os_core.Deliveries.Marks.{mark_operator_delivery, accepted, apply_status}
use project_os_core.Deliveries.Requeue.{count_told, requeue_counted, requeue_operator_delivery}
use project_os_core.Deliveries.Calls.{accepted-rows, Calls, Calls-keep}

-- The delivery of this identifier is there, and is delivered.
abbrev pub IsDelivered : String → List OperatorDelivery → Type 0
IsDelivered id rows =
    (d : OperatorDelivery) × (fetchone delivery_key id rows ≡ some d)
    × (is_delivered d.status ≡ true)

-- An UPDATE that leaves a delivered row delivered, when it is of this row.
IsDelivered-update_where :
    (id k : String) (f : OperatorDelivery → OperatorDelivery) (rows : List OperatorDelivery)
    (d : OperatorDelivery)
    → ((r : OperatorDelivery) → (f r).delivery_id ≡ r.delivery_id)
    → fetchone delivery_key k rows ≡ some d
    → ((d.delivery_id == id) ≡ true
        → is_delivered d.status ≡ true
        → is_delivered (f d).status ≡ true)
    → IsDelivered id rows
    → IsDelivered id (update_where delivery_key d.delivery_id f rows)
IsDelivered-update_where id k f rows d same found kept (x, there, done) =
    elim (Bool-cases (d.delivery_id == id)) [
      | inl named ↦
          let one = fetchone_same delivery_key k id rows d x found there named in
          (
            f d,
            rw (fetchone-update_where delivery_key d.delivery_id id f rows same, named, there)
                (ap (λ r. some (f r)) (sym one)),
            kept named (ap (λ r. is_delivered r.status) one ∙ done),
          )
      | inr other ↦ (
        x,
        rw (fetchone-update_where delivery_key d.delivery_id id f rows same, other) there,
        done,
      )
    ]

module _ (o : Outside) (hash : String → ℕ) (p : DeliveryPolicy) where
  apply_status-delivered :
      (id : String) (status : OperatorDeliveryStatus) (n : ℕ) (metadata : Dict Field) (c : Context)
      → is_delivered status ≡ true
      → is_delivered (apply_status o hash p id status n metadata c).final_status ≡ true
  unfolding apply_status
  apply_status-delivered id pending n metadata c h = absurd cc
  apply_status-delivered id delivered n metadata c h = refl
  apply_status-delivered id failed n metadata c h = absurd cc
  apply_status-delivered id skipped n metadata c h = absurd cc
  apply_status-delivered id expired n metadata c h = absurd cc

  module _ (write : String → String → Context → Result String) where
    accepted-IsDelivered :
        (id k : String) (d : OperatorDelivery) (status : OperatorDeliveryStatus)
        (error : Option String) (metadata : Dict Field) (s : Deliveries)
        → fetchone delivery_key k s.rows ≡ some d
        → (is_delivered d.status && not (is_delivered status)) ≡ false
        → IsDelivered id s.rows
        → IsDelivered id (accepted o hash p write d status error metadata s).1.rows
    accepted-IsDelivered id k d status error metadata s found open_ h =
        let (f, written, same, tried, status_of, recount) =
          accepted-rows o hash p write d status error metadata s in
        rw written (
          IsDelivered-update_where id k f s.rows d same found
            (λ named done.
              ap is_delivered (status_of d)
              ∙ apply_status-delivered d.delivery_id status (suc d.attempts) _ _
                  (ground (arith, open_, done)))
            h)

    mark-IsDelivered :
        (id k : String) (status : OperatorDeliveryStatus) (error : Option String)
        (metadata : Dict Field) (s : Deliveries)
        → IsDelivered id s.rows
        → IsDelivered id (mark_operator_delivery o hash p write k status error metadata s).1.rows
    unfolding mark_operator_delivery append
    mark-IsDelivered id k status error metadata s h =
        elim (Option-cases (fetchone delivery_key k s.rows)) [
          | inl missing ↦ rw missing h
          | inr (d, found) ↦
              rw found (elim (Bool-cases (is_delivered d.status && not (is_delivered status))) [
                | inl ignored_ ↦ rw ignored_ h
                | inr open_ ↦
                    rw open_ (accepted-IsDelivered id k d status error metadata s found open_ h)
              ])
        ]

    not_both : (x : OperatorDeliveryStatus) → is_given_up x ≡ true → is_delivered x ≡ true → ⊥
    not_both delivered t u = cc
    not_both pending t u = cc
    not_both failed t u = cc
    not_both skipped t u = cc
    not_both expired t u = cc

    requeue-IsDelivered :
        (id k : String) (s : Deliveries)
        → IsDelivered id s.rows
        → IsDelivered id (requeue_operator_delivery o k s).1.rows
    unfolding requeue_operator_delivery append
    requeue-IsDelivered id k s h = elim (Option-cases (fetchone delivery_key k s.rows)) [
      | inl missing ↦ rw missing h
      | inr (d, found) ↦ rw found (elim (Bool-cases (is_given_up d.status)) [
        | inl over ↦ rw over (counted (count_told (get "requeue_count" d.metadata)) d found over)
        | inr open_ ↦ rw open_ h
      ])
    ]
      where
        counted :
            (count : Result ℤ) (d : OperatorDelivery)
            → fetchone delivery_key k s.rows ≡ some d
            → is_given_up d.status ≡ true
            → IsDelivered id (requeue_counted o count d s).1.rows
        counted (err e) d found over = h
        counted (ok n) d found over =
            IsDelivered-update_where id k _ s.rows d (λ r. refl) found
              (λ named done. absurd (not_both d.status over done)) h

    -- A delivery that is delivered is delivered after any calls of the methods that publish, mark and requeue.
    pub Calls-IsDelivered :
        (translate : RunLifecycleEvent → Context → Result (Option String)) (id : String)
        {s t : Deliveries}
        → Calls o hash p write translate s t
        → IsDelivered id s.rows
        → IsDelivered id t.rows
    Calls-IsDelivered translate id calls h =
        Calls-keep o hash p write translate (IsDelivered id)
          (λ rows d waits untried (x, there, done).
            (x, fetchone-append_found delivery_key id rows (d ∷ []) x there, done))
          (λ k status error metadata u. mark-IsDelivered id k status error metadata u)
          (λ k u. requeue-IsDelivered id k u) calls h
