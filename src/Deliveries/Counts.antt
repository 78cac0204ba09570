-- ===== src/Deliveries/Counts.antt =====
-- Whether the `requeue_count` of a delivery's metadata can be read as an integer, through the changes that
-- api_runs/service.py makes of the metadata.
use project_os_core.Base.{
  ℕ, suc, String, ◌≡◌, refl, ap, ◌∙◌, Bool, true, false, Option, none, some, [], ◌∷◌, ◌==◌,
  if◌then◌else◌, inl, inr, Bool-cases,
}
use project_os_core.Base.Dict.{Dict, get, put, pop, update, get-put, get-pop}
use project_os_core.Base.Numbers.{ℤ, pos, negsuc}
use project_os_core.Base.Result.{Result, ok, err}
use project_os_core.World.{Outside, Context, integer, int_or_zero}
use project_os_core.Deliveries.{
  OperatorDeliveryStatus, pending, delivered, failed, skipped, expired, OperatorDelivery,
  DeliveryPolicy, Field, plain,
}
use project_os_core.Deliveries.Policy.{is_given_up}
use project_os_core.Deliveries.Marks.{
  merged_metadata, apply_status, told_attempt, replay_metadata, letter_metadata, told_metadata,
  max_attempts, Applied,
}
use project_os_core.Deliveries.Requeue.{count_told, requeue_metadata}
use project_os_core.Base.{leb}

abbrev pub is_ok {ℓ} : {A : Type ℓ} → Result A → Bool
is_ok (ok a) = true
is_ok (err e) = false

abbrev pub is_countable : Dict Field → Bool
is_countable metadata = is_ok (count_told (get "requeue_count" metadata))

-- The same once the keys of a report are put into the metadata: the last count that it tells decides.
pub recounted : Dict Field → Bool → Bool
recounted [] c = c
recounted ((k, v) ∷ metadata) c =
    recounted metadata (if k == "requeue_count" then is_ok (count_told (some v)) else c)

put_other :
    (k : String) (v : Field) (m : Dict Field)
    → (k == "requeue_count") ≡ false
    → is_countable (put k v m) ≡ is_countable m
put_other k v m other =
    ap (λ x. is_ok (count_told x)) (get-put k "requeue_count" v m ∙ rw other refl)

pop_other :
    (k : String) (m : Dict Field)
    → (k == "requeue_count") ≡ false
    → is_countable (pop k m) ≡ is_countable m
pop_other k m other = ap (λ x. is_ok (count_told x)) (get-pop k "requeue_count" m other)

put_any :
    (k : String) (v : Field) (m : Dict Field)
    → is_countable (put k v m)
      ≡ (if k == "requeue_count" then is_ok (count_told (some v)) else is_countable m)
put_any k v m = elim (Bool-cases (k == "requeue_count")) [
  | inl same ↦ rw (get-put k "requeue_count" v m, same) refl
  | inr other ↦ rw other (put_other k v m other)
]

update-recounted : (m e : Dict Field) → is_countable (update m e) ≡ recounted e (is_countable m)
unfolding update recounted
update-recounted m [] = refl
update-recounted m ((k, v) ∷ e) = update-recounted (put k v m) e ∙ ap (recounted e) (put_any k v m)

merged-recounted :
    (d : OperatorDelivery) (metadata : Dict Field)
    → is_countable (merged_metadata d metadata) ≡ recounted metadata (is_countable d.metadata)
merged-recounted d metadata =
    put_other "replayable" _ _ refl
    ∙ put_other "delivery_priority_rank" _ _ refl
    ∙ put_other "delivery_guarantee" _ _ refl
    ∙ update-recounted d.metadata metadata

attempt_counted :
    (requested final : OperatorDeliveryStatus) (n : ℕ) (error : Option String) (now : ℕ)
    (m : Dict Field)
    → is_countable (told_attempt requested final n error now m) ≡ is_countable m
attempt_counted requested final n error now m =
    put_other "last_transition_at" _ _ refl ∙ put_other "attempt_history" _ _ refl

replay_counted :
    (final : OperatorDeliveryStatus) (now : ℕ) (m : Dict Field)
    → is_countable (replay_metadata final now m) ≡ is_countable m
replay_counted delivered now m =
    put_other "replay_status" _ _ refl ∙ put_other "delivered_at" _ _ refl
replay_counted pending now m = put_other "replay_status" _ _ refl
replay_counted failed now m = put_other "replay_status" _ _ refl
replay_counted skipped now m = put_other "replay_status" _ _ refl
replay_counted expired now m = put_other "replay_status" _ _ refl

module _ (o : Outside) (hash : String → ℕ) (p : DeliveryPolicy) where
  letter_counted :
      (path : Option String) (now : ℕ) (m : Dict Field)
      → is_countable (letter_metadata o hash p path now m) ≡ is_countable m
  letter_counted none now m = refl
  letter_counted (some path) now m =
      put_other "dead_letter_created_at" _ _ refl ∙ put_other "dead_letter_artifact_path" _ _ refl

  apply_counted :
      (id : String) (status : OperatorDeliveryStatus) (n : ℕ) (m : Dict Field) (c : Context)
      → is_countable (apply_status o hash p id status n m c).metadata ≡ is_countable m
  unfolding apply_status
  apply_counted id pending n m c = elim (Bool-cases (leb (max_attempts p) n)) [
    | inl over ↦ rw over refl
    | inr left ↦ rw left (put_other "retry_backoff_seconds" _ m refl)
  ]
  apply_counted id delivered n m c = pop_other "retry_backoff_seconds" m refl
  apply_counted id failed n m c = pop_other "retry_backoff_seconds" m refl
  apply_counted id skipped n m c = pop_other "retry_backoff_seconds" m refl
  apply_counted id expired n m c = pop_other "retry_backoff_seconds" m refl

  module _ (write : String → String → Context → Result String) where
    told_counted :
        (requested : OperatorDeliveryStatus) (error : Option String) (n now : ℕ) (a : Applied)
        → is_countable (told_metadata o hash p write requested error n now a)
          ≡ is_countable a.metadata
    told_counted requested error n now a = elim (Bool-cases (is_given_up a.final_status)) [
      | inl over ↦ rw over (put_other "delivery_terminal_reason" _ _ refl ∙ rest)
      | inr left ↦ rw left (pop_other "delivery_terminal_reason" _ refl ∙ rest)
    ]
      where
        rest :
            is_countable (
              replay_metadata a.final_status now
                (told_attempt requested a.final_status n error now a.metadata))
            ≡ is_countable a.metadata
        rest =
            replay_counted a.final_status now _
            ∙ attempt_counted requested a.final_status n error now a.metadata

    -- The metadata that an accepted mark writes.
    pub mark-recounted :
        (d : OperatorDelivery) (status : OperatorDeliveryStatus) (error : Option String)
        (metadata : Dict Field) (path : Option String) (now : ℕ) (c : Context)
        → is_countable (
            letter_metadata o hash p path now (
              told_metadata o hash p write status error (suc d.attempts) now (
                apply_status o hash p d.delivery_id status
                  (suc d.attempts)
                  (merged_metadata d metadata)
                  c)))
          ≡ recounted metadata (is_countable d.metadata)
    mark-recounted d status error metadata path now c =
        letter_counted path now _
        ∙ told_counted status error _ now (
            apply_status o hash p d.delivery_id status (suc d.attempts) (merged_metadata d metadata)
              c)
        ∙ apply_counted d.delivery_id status _ _ c
        ∙ merged-recounted d metadata

-- A requeued delivery has the new count, which can be read.
pub requeue-count :
    (now : ℕ) (count : ℤ) (d : OperatorDelivery)
    → get "requeue_count" (requeue_metadata now count d) ≡ some (plain (integer count))
requeue-count now count d =
    get-pop "retry_backoff_seconds" "requeue_count" _ refl
    ∙ get-put "replay_status" "requeue_count" _ _
    ∙ get-put "last_requeued_at" "requeue_count" _ _
    ∙ get-put "requeue_count" "requeue_count" _ _

pub requeue-countable :
    (now : ℕ) (count : ℤ) (d : OperatorDelivery)
    → is_countable (requeue_metadata now count d) ≡ true
unfolding int_or_zero
requeue-countable now count d =
    ap (λ x. is_ok (count_told x)) (requeue-count now count d) ∙ integer_counts count
  where
    integer_counts : (k : ℤ) → is_ok (int_or_zero (integer k)) ≡ true
    integer_counts (pos n) = refl
    integer_counts (negsuc n) = refl
