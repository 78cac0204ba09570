-- ===== src/Deliveries/Phases.antt =====
-- What the deliveries of api_runs/service.py promise: a delivery waits, is done or is given up, after a
-- number of attempts, and its count of requeues can be read or not. Its identifier, its texts, the rest of its
-- metadata and its times are forgotten.
use project_os_core.Base.{
  ℕ, suc, String, Bool, true, false, Option, none, some, List, [], ◌∷◌, leb, ◌==◌, if◌then◌else◌,
}
use project_os_core.Base.Dict.{Dict}
use project_os_core.Base.Table.{fetchone}
use project_os_core.World.{Outside, Context}
use project_os_core.Base.Result.{Result}
use project_os_core.Deliveries.{
  OperatorDeliveryStatus, pending, delivered, failed, skipped, expired, OperatorDelivery,
  DeliveryPolicy, Deliveries, Field, delivery_key,
}
use project_os_core.Deliveries.Policy.{is_delivered}
use project_os_core.Deliveries.Marks.{mark_operator_delivery}
use project_os_core.Deliveries.Counts.{is_countable, recounted}
use project_os_core.Deliveries.Requeue.{requeue_operator_delivery}

pub data Phase : Type 0 where
  waiting done given_up : ℕ → Phase

-- the phase, and whether the count can be read
pub data Standing : Type 0 where
  standing : Phase → Bool → Standing

-- one more attempt with this report, the n-th
abbrev pub tried : ℕ → OperatorDeliveryStatus → ℕ → Phase
tried limit pending n = if leb limit n then given_up n else waiting n
tried limit delivered n = done n
tried limit failed n = given_up n
tried limit skipped n = given_up n
tried limit expired n = given_up n

-- A report on what is done counts only when it says that it is delivered.
abbrev pub reported : ℕ → OperatorDeliveryStatus → Dict Field → Standing → Standing
reported limit status metadata (standing (done n) c) =
    if is_delivered status
    then standing (done (suc n)) (recounted metadata c)
    else standing (done n) c
reported limit status metadata (standing (waiting n) c) =
    standing (tried limit status (suc n)) (recounted metadata c)
reported limit status metadata (standing (given_up n) c) =
    standing (tried limit status (suc n)) (recounted metadata c)

-- Only what is given up waits again, and only with a count that can be read.
abbrev pub requeued : Standing → Standing
requeued (standing (given_up n) true) = standing (waiting 0) true
requeued (standing (given_up n) false) = standing (given_up n) false
requeued (standing (waiting n) c) = standing (waiting n) c
requeued (standing (done n) c) = standing (done n) c

-- A call on the deliveries that exist.
pub data Operation : Type 0 where
  marks : String → OperatorDeliveryStatus → Option String → Dict Field → Operation
  requeues : String → Operation

-- what a call promises of the delivery `id`
abbrev pub promised : ℕ → String → Operation → Standing → Standing
promised limit id (marks k status error metadata) x =
    if k == id then reported limit status metadata x else x
promised limit id (requeues k) x = if k == id then requeued x else x

abbrev pub promised_all : ℕ → String → List Operation → Standing → Standing
promised_all limit id [] x = x
promised_all limit id (c ∷ calls) x = promised_all limit id calls (promised limit id c x)

abbrev pub phase : OperatorDeliveryStatus → ℕ → Phase
phase pending n = waiting n
phase delivered n = done n
phase failed n = given_up n
phase skipped n = given_up n
phase expired n = given_up n

abbrev pub standing_of : OperatorDelivery → Standing
standing_of d = standing (phase d.status d.attempts) (is_countable d.metadata)

abbrev pub map_standing {ℓ} : {A : Type ℓ} → (A → Standing) → Option A → Option Standing
map_standing f none = none
map_standing f (some a) = some (f a)

-- the abstract view of the table
abbrev pub standing_at : String → List OperatorDelivery → Option Standing
standing_at id rows = map_standing standing_of (fetchone delivery_key id rows)

module _ (o : Outside) (hash : String → ℕ) (p : DeliveryPolicy)
    (write : String → String → Context → Result String) where
  abbrev pub call : Operation → Deliveries → Deliveries
  call (marks id status error metadata) s =
      (mark_operator_delivery o hash p write id status error metadata s).1
  call (requeues id) s = (requeue_operator_delivery o id s).1

  abbrev pub call_all : List Operation → Deliveries → Deliveries
  call_all [] s = s
  call_all (c ∷ calls) s = call_all calls (call c s)
