-- ===== src/Deliveries/Recovery.antt =====
-- What api_runs/service.py leaves of a delivery that is given up, and how it comes back.
use mathlib.Core.Path.{subst}
use text.Mathlib.TextPositions.{eq_refl}
use project_os_core.Base.{
  ℕ, suc, String, ◌≡◌, refl, sym, ap, ◌∙◌, inl, inr, true, false, ◌&&◌, not, Option, some, List, [],
  ◌∷◌, All, arith, Bool-cases, Option-cases, ◌==◌,
}
use project_os_core.Base.Dict.{Dict, get}
use project_os_core.Base.Numbers.{ℤ, suc_int}
use project_os_core.Base.Table.{fetchone, fetchone-upsert, fetchone-update_found, fetchone-key}
use project_os_core.Base.Result.{Result, ok}
use project_os_core.World.{Outside, Context, Value, integer, append}
use project_os_core.Deliveries.{
  OperatorDeliveryStatus, OperatorDelivery, DeadLetterRecord, DeliveryPolicy, Deliveries, Field,
  pending, plain, delivery_key, event_key,
}
use project_os_core.Deliveries.Policy.{is_delivered, is_given_up}
use project_os_core.Deliveries.Letters.{
  letter_key, keep_letter, of_source, is_open, update_dead_letter_status_for_source,
  record_active_letter, record_dead_letter, new_letter,
}
use project_os_core.Deliveries.Marks.{
  mark_operator_delivery, accepted, applied_status, dead_letter_for, letter_journal,
  persist_operator_delivery_dead_letter, delivery_letter,
}
use project_os_core.Deliveries.Requeue.{count_told, requeue_operator_delivery}
use project_os_core.Deliveries.Counts.{requeue-count}
use project_os_core.Deliveries.Calls.{accepted-rows}

-- A stored letter of a delivery, with this status.
abbrev pub HasLetter : String → String → List DeadLetterRecord → Type 0
HasLetter id status letters =
    (l : DeadLetterRecord) × (fetchone letter_key l.dead_letter_id letters ≡ some l)
    × (of_source "operator_delivery" id l ≡ true)
    × (l.status ≡ status)

-- No letter of a delivery is active.
abbrev pub NoneActive : String → List DeadLetterRecord → Type 0
NoneActive id letters =
    All (λ l. of_source "operator_delivery" id l ≡ true → (l.status == "active") ≡ false) letters

update_dead_letter_status_for_source-NoneActive :
    (id : String) (metadata : Dict Value) (now : ℕ) (letters : List DeadLetterRecord)
    → NoneActive id (
        update_dead_letter_status_for_source "operator_delivery" id "requeued" metadata now letters)
unfolding update_dead_letter_status_for_source
update_dead_letter_status_for_source-NoneActive id metadata now [] = tt
update_dead_letter_status_for_source-NoneActive id metadata now (l ∷ letters) = (
  elim (Bool-cases (of_source "operator_delivery" id l && is_open l)) [
    | inl hit ↦ rw hit (λ named. refl)
    | inr miss ↦ rw miss (λ named. ground (arith, named, miss))
  ],
  update_dead_letter_status_for_source-NoneActive id metadata now letters,
)

requeued-NoneActive :
    (k id : String) (metadata : Dict Value) (now : ℕ) (letters : List DeadLetterRecord)
    → k ≡ id
    → NoneActive id
        (update_dead_letter_status_for_source "operator_delivery" k "requeued" metadata now letters)
requeued-NoneActive k id metadata now letters same =
    subst
      (λ j. NoneActive j (
        update_dead_letter_status_for_source "operator_delivery" k "requeued" metadata now letters))
      same (update_dead_letter_status_for_source-NoneActive k metadata now letters)

module _ (o : Outside) where
  record_active_letter-HasLetter :
      (d : DeadLetterRecord) (c : Context) (letters : List DeadLetterRecord) (id : String)
      → of_source "operator_delivery" id d ≡ true
      → HasLetter id "active" (record_active_letter o d c letters).1
  unfolding record_active_letter record_dead_letter
  record_active_letter-HasLetter d c letters id named =
      let new = new_letter o (record d { status = "active" }) c in
      elim (Option-cases (fetchone letter_key new.dead_letter_id letters)) [
        | inl missing ↦ (
          new,
          rw
              (
                fetchone-upsert letter_key new.dead_letter_id keep_letter new letters (λ r. refl),
                eq_refl new.dead_letter_id,
                missing,
              )
              refl,
          named,
          refl,
        )
        | inr (old, found) ↦ (
          keep_letter old new,
          rw
              (
                fetchone-upsert letter_key new.dead_letter_id keep_letter new letters (λ r. refl),
                eq_refl new.dead_letter_id,
                found,
              )
              refl,
          named,
          refl,
        )
      ]

  -- A delivery that is given up, and whose requeue_count can be read as an integer, can be requeued: the call
  -- answers, the delivery is then pending with no attempts and the next count, and none of its letters is active.
  pub requeue-IsRetried :
      (id : String) (d : OperatorDelivery) (k : ℤ) (s : Deliveries)
      → fetchone delivery_key id s.rows ≡ some d
      → is_given_up d.status ≡ true
      → count_told (get "requeue_count" d.metadata) ≡ ok k
      → (x : OperatorDelivery) × ((requeue_operator_delivery o id s).0 ≡ ok x)
        × (fetchone delivery_key id (requeue_operator_delivery o id s).1.rows ≡ some x)
        × (x.attempts ≡ 0)
        × (x.status ≡ pending)
        × (get "requeue_count" x.metadata ≡ some (plain (integer (suc_int k))))
        × NoneActive id (requeue_operator_delivery o id s).1.letters
  unfolding requeue_operator_delivery append
  requeue-IsRetried id d k s found over counted =
      rw (found, over, counted)
        (
          _,
          refl,
          fetchone-update_found delivery_key id _ s.rows d (λ r. refl) found,
          refl,
          refl,
          requeue-count (o.wall s.context.readings) (suc_int k) d,
          requeued-NoneActive d.delivery_id id _ _ s.letters
              (fetchone-key delivery_key id s.rows d found),
        )

module _ (o : Outside) (hash : String → ℕ) (p : DeliveryPolicy)
    (write : String → String → Context → Result String)
    (writes : (folder name : String) (c : Context)
      → (path : String) × (write folder name c ≡ ok path)) where
  dead_letter_for-HasLetter :
      (d : OperatorDelivery) (final : OperatorDeliveryStatus) (error : Option String) (n : ℕ)
      (s : Deliveries)
      → HasLetter d.delivery_id "active"
          (dead_letter_for o hash p write true d final error n s).1.letters
  unfolding persist_operator_delivery_dead_letter delivery_letter
  dead_letter_for-HasLetter d final error n s =
      let (path, written) = writes "operator_delivery_dead_letters" d.delivery_id s.context in
      rw written (
        record_active_letter-HasLetter o
          (delivery_letter o hash p d final error n path
            (fetchone event_key d.lifecycle_event_id s.events))
          (letter_journal o hash p d final path s).context s.letters d.delivery_id
          (eq_refl d.delivery_id))

  accepted-HasLetter :
      (d : OperatorDelivery) (status : OperatorDeliveryStatus) (error : Option String)
      (metadata : Dict Field) (s : Deliveries)
      → is_given_up (applied_status o hash p d status metadata s).final_status ≡ true
      → HasLetter d.delivery_id "active"
          (accepted o hash p write d status error metadata s).1.letters
  accepted-HasLetter d status error metadata s over =
      let a = applied_status o hash p d status metadata s in
      rw over (
        dead_letter_for-HasLetter d a.final_status error (suc d.attempts)
          (record s { context = a.context }))

  -- When the file of a dead letter can be written, a delivery whose mark was not ignored is afterwards not
  -- failed, skipped or expired, or it has an active dead letter.
  pub mark-HasLetter :
      (id : String) (d : OperatorDelivery) (status : OperatorDeliveryStatus) (error : Option String)
      (metadata : Dict Field) (s : Deliveries)
      → fetchone delivery_key id s.rows ≡ some d
      → (is_delivered d.status && not (is_delivered status)) ≡ false
      → (x : OperatorDelivery) × (fetchone delivery_key id
            (mark_operator_delivery o hash p write id status error metadata s).1.rows
          ≡ some x)
        × (is_given_up x.status ≡ true
            → HasLetter id "active"
                (mark_operator_delivery o hash p write id status error metadata s).1.letters)
  unfolding mark_operator_delivery
  mark-HasLetter id d status error metadata s found open_ =
      let (f, written, same, tried, status_of, recount) =
        accepted-rows o hash p write d status error metadata s in
      rw (found, open_)
        (
          f d,
          rw written (fetchone-update_found delivery_key id f s.rows d same found),
          λ over.
              subst
                (λ k.
                  HasLetter k "active"
                    (accepted o hash p write d status error metadata s).1.letters)
                (fetchone-key delivery_key id s.rows d found)
                (accepted-HasLetter d status error metadata s
                  (sym (ap is_given_up (status_of d)) ∙ over)),
        )
