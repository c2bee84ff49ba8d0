-- ===== src/Outbox/Soundness.antt =====
-- webhooks.py: what one attempt at a delivery does to its row, and what any number of attempts do.
use memoratum.Base.{
  ℕ, ◌+◌, ◌^◌, ◌≤◌, ◌<◌, ◌≡◌, refl, ap, ◌∙◌, String, Bool, true, false, ◌&&◌, Option, none, some,
  arith, ltb, leb, if◌then◌else◌, min, Bool-cases, Option-cases, inl, inr,
}
use memoratum.Table.{first_row, find_where}
use memoratum.Table.Laws.{find_where-update_where_self}
use memoratum.Jobs.{cut}
use memoratum.Outbox.{
  Webhook, Delivery, DeliveryStatus, waiting, succeeded, dead, Outbox, has_delivery_id,
  enqueue_delivery_job,
}
use memoratum.Outbox.Attempts.{
  Answer, unsafe_target, response, raised, has_webhook_id, delivery_row, marked, mark_delivery,
  schedule_delivery_retry, queued_delivery_jobs, requeue_or_dead, is_success, conclude,
}

abbrev pub delivery_at : String → Outbox → Option Delivery
delivery_at i o = find_where (has_delivery_id i) o.deliveries

-- The webhook takes the delivery: a status from 200 to 299 and a body within the limit.
abbrev pub accepts : ℕ → Answer → Bool
accepts max_bytes (response code size) = leb size max_bytes && is_success code
accepts max_bytes _ = false

-- The status of a delivery after an attempt, the number of the attempt included.
abbrev pub next_status : ℕ → Bool → ℕ → DeliveryStatus
next_status max_attempts accepted attempt =
    if accepted then succeeded else (if leb max_attempts attempt then dead else waiting)

pub last : (m a : ℕ) → m ≤ a → next_status m false a ≡ dead
last m a h = ground arith

pub early : (m a : ℕ) → a < m → next_status m false a ≡ waiting
early m a h = ground arith

-- 2, 4, 8, ... seconds, an hour at most.
abbrev pub next_time : ℕ → Bool → ℕ → ℕ → Option ℕ
next_time max_attempts accepted attempt clock =
    if accepted
    then none
    else (if leb max_attempts attempt then none else some (clock + min 3600 (2 ^ attempt)))

-- The row after an attempt.
abbrev pub Advanced : ℕ → Bool → ℕ → Delivery → Option Delivery → Type 0
Advanced max_attempts accepted clock d o =
    (k : Delivery) × (o ≡ some k)
    × (k.attempts ≡ d.attempts + 1)
    × (k.status ≡ next_status max_attempts accepted (d.attempts + 1))
    × (k.next_attempt_at ≡ next_time max_attempts accepted (d.attempts + 1) clock)
    × (k.webhook_id ≡ d.webhook_id)

delivery_at-mark_delivery :
    (i : String) (clock : ℕ) (status : DeliveryStatus) (attempts : ℕ) (error : Option String)
    (code next : Option ℕ) (o : Outbox) (d : Delivery)
    → delivery_at i o ≡ some d
    → delivery_at i (mark_delivery i clock status attempts error code next o)
      ≡ some (marked clock status attempts error code next d)
unfolding mark_delivery
delivery_at-mark_delivery i clock status attempts error code next o d h =
    find_where-update_where_self (has_delivery_id i) _ (λ r e. e) o.deliveries d h

-- Jobs are all that a retry changes.
schedule_delivery_retry-deliveries :
    (job_id i : String) (clock run_at : ℕ) (o : Outbox)
    → (schedule_delivery_retry job_id i clock run_at o).deliveries ≡ o.deliveries
unfolding schedule_delivery_retry enqueue_delivery_job
schedule_delivery_retry-deliveries job_id i clock run_at o =
    elim (Option-cases (first_row (queued_delivery_jobs i o.jobs))) [
      | inl e ↦ rw (e, schedule_delivery_retry) refl
      | inr (j, e) ↦ rw (e, schedule_delivery_retry) refl
    ]

schedule_delivery_retry-webhooks :
    (job_id i : String) (clock run_at : ℕ) (o : Outbox)
    → (schedule_delivery_retry job_id i clock run_at o).webhooks ≡ o.webhooks
unfolding schedule_delivery_retry enqueue_delivery_job
schedule_delivery_retry-webhooks job_id i clock run_at o =
    elim (Option-cases (first_row (queued_delivery_jobs i o.jobs))) [
      | inl e ↦ rw (e, schedule_delivery_retry) refl
      | inr (j, e) ↦ rw (e, schedule_delivery_retry) refl
    ]

requeue_or_dead_lem :
    (job_id i : String) (clock max_attempts : ℕ) (error : String) (code : Option ℕ) (o : Outbox)
    (d : Delivery)
    → delivery_at i o ≡ some d
    → Advanced max_attempts false clock d (
        delivery_at i (requeue_or_dead job_id i clock (d.attempts + 1) max_attempts error code o).1)
unfolding requeue_or_dead
requeue_or_dead_lem job_id i clock max_attempts error code o d h =
    elim (Bool-cases (leb max_attempts (d.attempts + 1))) [
      | inl e ↦ rw e (
        _,
        delivery_at-mark_delivery i clock dead (d.attempts + 1) (some error) code none o d h,
        refl,
        refl,
        refl,
        refl,
      )
      | inr e ↦ rw e (
        _,
        ap (find_where (has_delivery_id i)) (schedule_delivery_retry-deliveries job_id i clock _ _)
            ∙ delivery_at-mark_delivery i clock waiting (d.attempts + 1) (some error) code _ o d h,
        refl,
        refl,
        refl,
        refl,
      )
    ]

requeue_or_dead-webhooks :
    (job_id i : String) (clock attempt max_attempts : ℕ) (error : String) (code : Option ℕ)
    (o : Outbox)
    → (requeue_or_dead job_id i clock attempt max_attempts error code o).1.webhooks ≡ o.webhooks
unfolding requeue_or_dead mark_delivery
requeue_or_dead-webhooks job_id i clock attempt max_attempts error code o =
    elim (Bool-cases (leb max_attempts attempt)) [
      | inl e ↦ rw e refl
      | inr e ↦ rw e (schedule_delivery_retry-webhooks job_id i clock _ _)
    ]

pub delivery_row_lem :
    (i : String) (o : Outbox) (d : Delivery) (w : Webhook)
    → delivery_at i o ≡ some d
    → find_where (has_webhook_id d.webhook_id) o.webhooks ≡ some w
    → delivery_row i o ≡ some (d, w)
unfolding delivery_row
delivery_row_lem i o d w h k = rw (h, delivery_row, k) refl

module _ (rejected : ℕ → String) (max_bytes max_attempts : ℕ) where
  pub conclude_lem :
      (job_id i : String) (clock : ℕ) (answer : Answer) (o : Outbox) (d : Delivery)
      → delivery_at i o ≡ some d
      → Advanced max_attempts (accepts max_bytes answer) clock d (
          delivery_at i
            (conclude rejected max_bytes max_attempts job_id i clock (d.attempts + 1) answer o).1)
  unfolding conclude
  conclude_lem job_id i clock (unsafe_target error) o d h =
      requeue_or_dead_lem job_id i clock max_attempts error none o d h
  conclude_lem job_id i clock (raised code error) o d h =
      requeue_or_dead_lem job_id i clock max_attempts (cut 2000 error) code o d h
  conclude_lem job_id i clock (response code size) o d h = elim (Bool-cases (ltb max_bytes size)) [
    | inl e ↦
        rw (e, over max_bytes size e)
          (requeue_or_dead_lem job_id i clock max_attempts _ (some code) o d h)
    | inr e ↦ elim (Bool-cases (is_success code)) [
      | inl s ↦
          rw (e, s, within max_bytes size e)
            (
              _,
              delivery_at-mark_delivery i clock succeeded (d.attempts + 1) none (some code) none o d
                  h,
              refl,
              refl,
              refl,
              refl,
            )
      | inr s ↦
          rw (e, s, within max_bytes size e)
            (requeue_or_dead_lem job_id i clock max_attempts _ (some code) o d h)
    ]
  ]
    where
      over : (m s : ℕ) → ltb m s ≡ true → leb s m ≡ false
      over m s h = ground arith

      within : (m s : ℕ) → ltb m s ≡ false → leb s m ≡ true
      within m s h = ground arith

  pub conclude-webhooks :
      (job_id i : String) (clock attempt : ℕ) (answer : Answer) (o : Outbox)
      → (conclude rejected max_bytes max_attempts job_id i clock attempt answer o).1.webhooks
        ≡ o.webhooks
  unfolding conclude mark_delivery
  conclude-webhooks job_id i clock attempt (unsafe_target error) o =
      requeue_or_dead-webhooks job_id i clock attempt max_attempts error none o
  conclude-webhooks job_id i clock attempt (raised code error) o =
      requeue_or_dead-webhooks job_id i clock attempt max_attempts _ code o
  conclude-webhooks job_id i clock attempt (response code size) o =
      elim (Bool-cases (ltb max_bytes size)) [
        | inl e ↦
            rw e (requeue_or_dead-webhooks job_id i clock attempt max_attempts _ (some code) o)
        | inr e ↦ elim (Bool-cases (is_success code)) [
          | inl s ↦ rw (e, s) refl
          | inr s ↦
              rw (e, s)
                (requeue_or_dead-webhooks job_id i clock attempt max_attempts _ (some code) o)
        ]
      ]
