-- ===== src/Outbox/Attempts.antt =====
-- webhooks.py, `deliver_delivery` and what it calls: one attempt at a delivery. What the network does
-- is an argument: `answer` is what the resolution of the target, the connection and the response give for
-- a webhook and a delivery, and `rejected` is the text of an HTTPError with a status. The clock is read once.
use Prim.Native.String.{compare}
use Prim.Native.Nat.{Ordering}
use memoratum.Base.{
  ℕ, ◌+◌, ◌^◌, String, Bool, true, false, ◌&&◌, ◌||◌, not, Option, none, some, List, ◌==◌, ltb, leb,
  eqb, if◌then◌else◌, min, max, map, take,
}
use memoratum.Json.{Fields, end, field, str}
use memoratum.Table.{select_where, find_where, update_where, order_with, first_row}
use memoratum.Jobs.{Job, Queue, is_queued, cut, has_id}
use memoratum.Outbox.{
  Webhook, Delivery, DeliveryStatus, waiting, succeeded, dead, Outbox, has_delivery_id,
  enqueue_delivery_job,
}

pub data Answer : Type 0 where
  unsafe_target : String → Answer
  -- The status of the response and the number of bytes that it sends.
  response : ℕ → ℕ → Answer
  -- The text of an exception, and the status if it was known by then.
  raised : Option ℕ → String → Answer

-- The dictionary that the caller gets.
pub data Receipt : Type 0 where
  not_found : Receipt
  settled : DeliveryStatus → ℕ → Receipt
  deferred : ℕ → Option ℕ → Receipt
  delivered : ℕ → Receipt
  retried : ℕ → ℕ → String → Receipt
  buried : ℕ → String → Receipt

abbrev pub has_webhook_id : String → Webhook → Bool
has_webhook_id i w = w.id == i

-- The join of a delivery with its webhook.
unfoldable pub delivery_row : String → Outbox → Option (Delivery × Webhook)
delivery_row i o = elim (find_where (has_delivery_id i) o.deliveries) [
  | none ↦ none
  | some d ↦ elim (find_where (has_webhook_id d.webhook_id) o.webhooks) [
    | none ↦ none
    | some w ↦ some (d, w)
  ]
]

abbrev pub marked :
    ℕ → DeliveryStatus → ℕ → Option String → Option ℕ → Option ℕ → Delivery → Delivery
marked clock status attempts error code next d = record d {
  status = status;
  attempts = attempts;
  last_error = error;
  response_status = code;
  next_attempt_at = next;
  updated_at = clock;
}

unfoldable pub mark_delivery :
    String → ℕ → DeliveryStatus → ℕ → Option String → Option ℕ → Option ℕ → Outbox → Outbox
mark_delivery i clock status attempts error code next o = record o {
  deliveries =
      update_where (has_delivery_id i) (marked clock status attempts error code next) o.deliveries;
}

-- `payload = ?` with the text of {"delivery_id": i}
abbrev pub is_delivery_payload : String → Fields → Bool
is_delivery_payload i (field k (str v) end) = (k == "delivery_id") && (v == i)
is_delivery_payload i _ = false

abbrev pub is_delivery_job : String → Job → Bool
is_delivery_job i j =
    (j.kind == "webhook_delivery") && is_queued j.status && is_delivery_payload i j.payload

-- ORDER BY created_at, id
abbrev pub created_before : Job → Job → Bool
created_before j k =
    ltb j.created_at k.created_at
    || (eqb j.created_at k.created_at
        && elim (compare j.id k.id) [ Ordering.gt ↦ false | _ ↦ true ])

unfoldable pub queued_delivery_jobs : String → Queue → List Job
queued_delivery_jobs i q = order_with created_before (select_where (is_delivery_job i) q)

abbrev pub sooner : ℕ → ℕ → Job → Job
sooner clock run_at j = record j {
  run_after = if ltb 0 j.run_after then min j.run_after run_at else run_at;
  updated_at = clock;
}

unfoldable pub schedule_delivery_retry : String → String → ℕ → ℕ → Outbox → Outbox
unfolding queued_delivery_jobs
schedule_delivery_retry job_id i clock run_at o = elim (first_row (queued_delivery_jobs i o.jobs)) [
  | none ↦ enqueue_delivery_job job_id clock i run_at o
  | some j ↦ record o { jobs = update_where (has_id j.id) (sooner clock run_at) o.jobs }
]

unfoldable pub requeue_or_dead :
    String → String → ℕ → ℕ → ℕ → String → Option ℕ → Outbox → Receipt × Outbox
requeue_or_dead job_id i clock attempt max_attempts error code o =
    let next = clock + min 3600 (2 ^ attempt) in
    if leb max_attempts attempt
    then (buried attempt error, mark_delivery i clock dead attempt (some error) code none o)
    else (
      retried attempt next error,
      schedule_delivery_retry job_id i clock next
          (mark_delivery i clock waiting attempt (some error) code (some next) o),
    )

abbrev pub is_settled : DeliveryStatus → Bool
is_settled waiting = false
is_settled _ = true

abbrev pub is_later : ℕ → Option ℕ → Bool
is_later now none = false
is_later now (some t) = ltb now t

-- now or time.time()
abbrev pub or_clock : Option ℕ → ℕ → ℕ
or_clock none clock = clock
or_clock (some n) clock = if eqb n 0 then clock else n

abbrev pub is_success : ℕ → Bool
is_success code = leb 200 code && ltb code 300

module _ (rejected : ℕ → String) (max_bytes max_attempts : ℕ) where
  -- What is left to do once the network has answered.
  unfoldable pub conclude : String → String → ℕ → ℕ → Answer → Outbox → Receipt × Outbox
  conclude job_id i clock attempt (unsafe_target error) o =
      requeue_or_dead job_id i clock attempt max_attempts error none o
  conclude job_id i clock attempt (raised code error) o =
      requeue_or_dead job_id i clock attempt max_attempts (cut 2000 error) code o
  conclude job_id i clock attempt (response code size) o =
      if ltb max_bytes size
      then requeue_or_dead job_id i clock attempt max_attempts
          (cut 2000 "ValueError: webhook response exceeded the configured size limit") (some code) o
      else if is_success code
      then (delivered attempt, mark_delivery i clock succeeded attempt none (some code) none o)
      else requeue_or_dead job_id i clock attempt max_attempts (cut 2000 (rejected code))
          (some code) o

  unfoldable pub proceed :
      (Webhook → Delivery → Answer)
      → String
      → String
      → Option ℕ
      → ℕ
      → Option (Delivery × Webhook)
      → Outbox
      → Receipt × Outbox
  unfolding conclude
  proceed answer job_id i now clock none o = (not_found, o)
  proceed answer job_id i now clock (some (d, w)) o =
      if is_settled d.status
      then (settled d.status d.attempts, o)
      else if is_later (or_clock now clock) d.next_attempt_at
      then (deferred d.attempts d.next_attempt_at, o)
      else conclude job_id i clock (d.attempts + 1) (answer w d) o

  unfoldable pub deliver_delivery :
      (Webhook → Delivery → Answer) → String → String → Option ℕ → ℕ → Outbox → Receipt × Outbox
  unfolding proceed
  deliver_delivery answer job_id i now clock o =
      proceed answer job_id i now clock (delivery_row i o) o

abbrev pub is_claimable : ℕ → Delivery → Bool
is_claimable now d = not (is_settled d.status) && not (is_later now d.next_attempt_at)

abbrev pub delivery_before : Delivery → Delivery → Bool
delivery_before j k =
    ltb j.created_at k.created_at
    || (eqb j.created_at k.created_at
        && elim (compare j.id k.id) [ Ordering.gt ↦ false | _ ↦ true ])

unfoldable pub claim_due_deliveries : ℕ → Option ℕ → ℕ → Outbox → List String
claim_due_deliveries limit now clock o = take (max 1 (min limit 100)) (
    map (λ (d : Delivery). d.id)
      (order_with delivery_before (select_where (is_claimable (or_clock now clock)) o.deliveries)))
