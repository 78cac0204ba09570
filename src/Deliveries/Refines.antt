-- ===== src/Deliveries/Refines.antt =====
-- The methods on deliveries of api_runs/service.py do what the phases promise.
use mathlib.Core.Path.{subst}
use project_os_core.Base.{
  ℕ, suc, String, ◌≡◌, refl, sym, ap, ◌∙◌, inl, inr, Bool, true, false, ◌&&◌, not, Option, none,
  some, List, [], ◌∷◌, arith, Bool-cases, Option-cases, leb, ◌==◌, eq_iff,
}
use project_os_core.Base.Dict.{Dict, get}
use project_os_core.Base.Table.{
  fetchone, fetchone-update_where, fetchone-update_found, fetchone-key,
}
use project_os_core.World.{Outside, Context, append}
use project_os_core.Base.Numbers.{ℤ, suc_int}
use project_os_core.Base.Result.{Result, ok, err}
use project_os_core.Deliveries.{
  OperatorDeliveryStatus, pending, delivered, failed, skipped, expired, OperatorDelivery,
  DeliveryPolicy, Deliveries, Field, delivery_key,
}
use project_os_core.Deliveries.Policy.{is_delivered, is_given_up}
use project_os_core.Deliveries.Marks.{mark_operator_delivery, apply_status, max_attempts}
use project_os_core.Deliveries.Requeue.{
  count_told, requeue_counted, requeue_operator_delivery, requeued_row, requeue_metadata,
}
use project_os_core.Deliveries.Counts.{is_countable, recounted, requeue-countable}
use project_os_core.Deliveries.Calls.{accepted-rows}
use project_os_core.Deliveries.Phases.{
  Phase, waiting, Standing, standing, standing_of, tried, reported, requeued, Operation, marks,
  requeues, promised, promised_all, phase, map_standing, standing_at, call, call_all,
}

standing_cong : {x y : Phase} {b c : Bool} → x ≡ y → b ≡ c → standing x b ≡ standing y c
standing_cong p q = λ i. standing (p i) (q i)

ignored_phase :
    (limit n : ℕ) (was status : OperatorDeliveryStatus) (metadata : Dict Field) (c : Bool)
    → (is_delivered was && not (is_delivered status)) ≡ true
    → standing (phase was n) c ≡ reported limit status metadata (standing (phase was n) c)
ignored_phase limit n delivered status metadata c h = ground (arith, h)
ignored_phase limit n pending status metadata c h = absurd cc
ignored_phase limit n failed status metadata c h = absurd cc
ignored_phase limit n skipped status metadata c h = absurd cc
ignored_phase limit n expired status metadata c h = absurd cc

tried_phase :
    (limit n : ℕ) (was status : OperatorDeliveryStatus) (metadata : Dict Field) (c : Bool)
    → (is_delivered was && not (is_delivered status)) ≡ false
    → standing (tried limit status (suc n)) (recounted metadata c)
      ≡ reported limit status metadata (standing (phase was n) c)
tried_phase limit n delivered delivered metadata c h = refl
tried_phase limit n delivered pending metadata c h = absurd cc
tried_phase limit n delivered failed metadata c h = absurd cc
tried_phase limit n delivered skipped metadata c h = absurd cc
tried_phase limit n delivered expired metadata c h = absurd cc
tried_phase limit n pending status metadata c h = refl
tried_phase limit n failed status metadata c h = refl
tried_phase limit n skipped status metadata c h = refl
tried_phase limit n expired status metadata c h = refl

module _ (o : Outside) (hash : String → ℕ) (p : DeliveryPolicy) where
  apply_status-tried :
      (id : String) (status : OperatorDeliveryStatus) (n : ℕ) (metadata : Dict Field) (c : Context)
      → phase (apply_status o hash p id status n metadata c).final_status n
        ≡ tried (max_attempts p) status n
  unfolding apply_status
  apply_status-tried id pending n metadata c = elim (Bool-cases (leb (max_attempts p) n)) [
    | inl over ↦ rw over refl
    | inr left ↦ rw left refl
  ]
  apply_status-tried id delivered n metadata c = refl
  apply_status-tried id failed n metadata c = refl
  apply_status-tried id skipped n metadata c = refl
  apply_status-tried id expired n metadata c = refl

  module _ (write : String → String → Context → Result String) where
    mark_phase :
        (id : String) (status : OperatorDeliveryStatus) (error : Option String)
        (metadata : Dict Field) (s : Deliveries)
        → standing_at id (mark_operator_delivery o hash p write id status error metadata s).1.rows
          ≡ map_standing (reported (max_attempts p) status metadata) (standing_at id s.rows)
    unfolding mark_operator_delivery append
    mark_phase id status error metadata s = elim (Option-cases (fetchone delivery_key id s.rows)) [
      | inl missing ↦ rw (missing, missing) refl
      | inr (d, found) ↦ elim (Bool-cases (is_delivered d.status && not (is_delivered status))) [
        | inl ignored ↦
            rw (found, ignored, found)
              (ap some (
                ignored_phase (max_attempts p) d.attempts d.status status metadata
                  (is_countable d.metadata) ignored))
        | inr open_ ↦
            let (f, written, same, more, status_of, recount) =
              accepted-rows o hash p write d status error metadata s in
            rw (found, open_, written, fetchone-update_found delivery_key id f s.rows d same found)
              (ap some (
                standing_cong
                  (ap (λ n. phase (f d).status n) (more d)
                    ∙ ap (λ x. phase x (suc d.attempts)) (status_of d)
                    ∙ apply_status-tried d.delivery_id status (suc d.attempts) _ _)
                  (recount d)
                ∙ tried_phase (max_attempts p) d.attempts d.status status metadata
                    (is_countable d.metadata) open_))
      ]
    ]

    -- A mark of another delivery.
    mark_other :
        (id k : String) (status : OperatorDeliveryStatus) (error : Option String)
        (metadata : Dict Field) (s : Deliveries)
        → (k == id) ≡ false
        → fetchone delivery_key id
            (mark_operator_delivery o hash p write k status error metadata s).1.rows
          ≡ fetchone delivery_key id s.rows
    unfolding mark_operator_delivery append
    mark_other id k status error metadata s other =
        elim (Option-cases (fetchone delivery_key k s.rows)) [
          | inl missing ↦ rw missing refl
          | inr (d, found) ↦
              elim (Bool-cases (is_delivered d.status && not (is_delivered status))) [
                | inl ignored ↦ rw (found, ignored) refl
                | inr open_ ↦
                    let (f, written, same, more, status_of, recount) =
                      accepted-rows o hash p write d status error metadata s in
                    let apart : (d.delivery_id == id) ≡ false =
                      ap (λ j. j == id) (fetchone-key delivery_key k s.rows d found) ∙ other in
                    rw
                      (
                        found,
                        open_,
                        written,
                        fetchone-update_where delivery_key d.delivery_id id f s.rows same,
                        apart,
                      )
                      refl
              ]
        ]

  requeue_phase :
      (id : String) (s : Deliveries)
      → standing_at id (requeue_operator_delivery o id s).1.rows
        ≡ map_standing requeued (standing_at id s.rows)
  unfolding requeue_operator_delivery append
  requeue_phase id s = elim (Option-cases (fetchone delivery_key id s.rows)) [
    | inl missing ↦ rw (missing, missing) refl
    | inr (d, found) ↦ elim (Bool-cases (is_given_up d.status)) [
      | inl over ↦
          rw (found, over) (counted d (count_told (get "requeue_count" d.metadata)) refl found over)
      | inr open_ ↦
          rw (found, open_, found)
            (ap some (kept d.status d.attempts (is_countable d.metadata) open_))
    ]
  ]
    where
      again :
          (x : OperatorDeliveryStatus) (n : ℕ)
          → is_given_up x ≡ true
          → standing (waiting 0) true ≡ requeued (standing (phase x n) true)
      again pending n h = absurd cc
      again delivered n h = absurd cc
      again failed n h = refl
      again skipped n h = refl
      again expired n h = refl

      uncounted :
          (x : OperatorDeliveryStatus) (n : ℕ)
          → standing (phase x n) false ≡ requeued (standing (phase x n) false)
      uncounted pending n = refl
      uncounted delivered n = refl
      uncounted failed n = refl
      uncounted skipped n = refl
      uncounted expired n = refl

      counted :
          (d : OperatorDelivery) (count : Result ℤ)
          → count_told (get "requeue_count" d.metadata) ≡ count
          → fetchone delivery_key id s.rows ≡ some d
          → is_given_up d.status ≡ true
          → standing_at id (requeue_counted o count d s).1.rows ≡ some (requeued (standing_of d))
      counted d (err e) read found over = rw (found, read) (ap some (uncounted d.status d.attempts))
      counted d (ok k) read found over =
          let now = o.wall s.context.readings in
          let count = suc_int k in
          rw
            (
              fetchone-update_found delivery_key id
                  (requeued_row now (requeue_metadata now count d)) s.rows d (λ r. refl) found,
              requeue-countable now count d,
              read,
            )
            (ap some (again d.status d.attempts over))

      kept :
          (x : OperatorDeliveryStatus) (n : ℕ) (c : Bool)
          → is_given_up x ≡ false
          → standing (phase x n) c ≡ requeued (standing (phase x n) c)
      kept pending n c h = refl
      kept delivered n c h = refl
      kept failed n c h = absurd cc
      kept skipped n c h = absurd cc
      kept expired n c h = absurd cc

  requeue_other :
      (id k : String) (s : Deliveries)
      → (k == id) ≡ false
      → fetchone delivery_key id (requeue_operator_delivery o k s).1.rows
        ≡ fetchone delivery_key id s.rows
  unfolding requeue_operator_delivery append
  requeue_other id k s other = elim (Option-cases (fetchone delivery_key k s.rows)) [
    | inl missing ↦ rw missing refl
    | inr (d, found) ↦ elim (Bool-cases (is_given_up d.status)) [
      | inl over ↦ rw (found, over) (counted d (count_told (get "requeue_count" d.metadata)) found)
      | inr open_ ↦ rw (found, open_) refl
    ]
  ]
    where
      counted :
          (d : OperatorDelivery) (count : Result ℤ)
          → fetchone delivery_key k s.rows ≡ some d
          → fetchone delivery_key id (requeue_counted o count d s).1.rows
            ≡ fetchone delivery_key id s.rows
      counted d (err e) found = refl
      counted d (ok n) found =
          let apart : (d.delivery_id == id) ≡ false =
            ap (λ j. j == id) (fetchone-key delivery_key k s.rows d found) ∙ other in
          let now = o.wall s.context.readings in
          rw
            (
              fetchone-update_where delivery_key d.delivery_id id
                  (requeued_row now (requeue_metadata now (suc_int n) d)) s.rows (λ r. refl),
              apart,
            )
            refl

map_standing_same : (x : Option Standing) → x ≡ map_standing (λ y. y) x
map_standing_same none = refl
map_standing_same (some y) = refl

map_standing_cong :
    (f g : Standing → Standing)
    → ((y : Standing) → f y ≡ g y)
    → (x : Option Standing) → map_standing f x ≡ map_standing g x
map_standing_cong f g same none = refl
map_standing_cong f g same (some y) = ap some (same y)

map_standing_twice :
    (f g : Standing → Standing) (x : Option Standing)
    → map_standing f (map_standing g x) ≡ map_standing (λ y. f (g y)) x
map_standing_twice f g none = refl
map_standing_twice f g (some y) = refl

module _ (o : Outside) (hash : String → ℕ) (p : DeliveryPolicy)
    (write : String → String → Context → Result String) where
  call_phase :
      (id : String) (c : Operation) (s : Deliveries)
      → standing_at id (call o hash p write c s).rows
        ≡ map_standing (promised (max_attempts p) id c) (standing_at id s.rows)
  call_phase id (marks k status error metadata) s =
      let x = standing_at id s.rows in
      let limit = max_attempts p in
      let promise = promised limit id (marks k status error metadata) in
      elim (Bool-cases (k == id)) [
        | inl named ↦
            subst
              (λ j.
                standing_at id
                  (mark_operator_delivery o hash p write j status error metadata s).1.rows
                ≡ map_standing (reported limit status metadata) x)
              (sym ((eq_iff k id).0 named)) (mark_phase o hash p write id status error metadata s)
            ∙ map_standing_cong (reported limit status metadata) promise (λ y. rw named refl) x
        | inr other ↦
            ap (map_standing standing_of)
              (mark_other o hash p write id k status error metadata s other)
            ∙ map_standing_same x
            ∙ map_standing_cong (λ y. y) promise (λ y. rw other refl) x
      ]
  call_phase id (requeues k) s =
      let x = standing_at id s.rows in
      let promise = promised (max_attempts p) id (requeues k) in
      elim (Bool-cases (k == id)) [
        | inl named ↦
            subst
              (λ j.
                standing_at id (requeue_operator_delivery o j s).1.rows ≡ map_standing requeued x)
              (sym ((eq_iff k id).0 named)) (requeue_phase o hash p id s)
            ∙ map_standing_cong requeued promise (λ y. rw named refl) x
        | inr other ↦
            ap (map_standing standing_of) (requeue_other o hash p id k s other)
            ∙ map_standing_same x
            ∙ map_standing_cong (λ y. y) promise (λ y. rw other refl) x
      ]

  -- After any sequence of marks and requeues of any deliveries, refused calls included, the phase of each
  -- delivery, and whether its count of requeues can be read, are what the calls on it promise from what they
  -- were.
  pub call_all-promised_all :
      (id : String) (calls : List Operation) (s : Deliveries)
      → standing_at id (call_all o hash p write calls s).rows
        ≡ map_standing (promised_all (max_attempts p) id calls) (standing_at id s.rows)
  call_all-promised_all id [] s = map_standing_same (standing_at id s.rows)
  call_all-promised_all id (c ∷ calls) s =
      call_all-promised_all id calls (call o hash p write c s)
      ∙ ap (map_standing (promised_all (max_attempts p) id calls)) (call_phase id c s)
      ∙ map_standing_twice (promised_all (max_attempts p) id calls) (promised (max_attempts p) id c)
          (standing_at id s.rows)
