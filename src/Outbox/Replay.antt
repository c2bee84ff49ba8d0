-- ===== src/Outbox/Replay.antt =====
-- webhooks.py, `replay_delivery`. A refusal rolls back to the state before the call.
use memoratum.Base.{
  ℕ, ◌≡◌, refl, ap, ◌∙◌, String, Bool, true, false, ◌&&◌, not, Option, none, some, List, [], ◌∷◌,
  ◌==◌, if◌then◌else◌, is_some, Bool-cases, inl, inr, arith,
}
use memoratum.Table.{find_where, update_where, delete_where}
use memoratum.Table.Laws.{find_where-update_where_self}
use memoratum.Jobs.{Job, Queue, queued, is_running, has_id}
use memoratum.Outbox.{
  Delivery, DeliveryStatus, waiting, succeeded, Outbox, has_delivery_id, enqueue_delivery_job,
}
use memoratum.Outbox.Attempts.{is_delivery_payload, queued_delivery_jobs}

abbrev pub is_replayable : DeliveryStatus → Bool
is_replayable succeeded = false
is_replayable _ = true

abbrev pub is_running_delivery : String → Job → Bool
is_running_delivery i j =
    (j.kind == "webhook_delivery") && is_running j.status && is_delivery_payload i j.payload

abbrev pub reset : ℕ → Delivery → Delivery
reset now d = record d {
  status = waiting;
  attempts = 0;
  last_error = none;
  response_status = none;
  next_attempt_at = none;
  updated_at = now;
}

abbrev pub rewind : ℕ → Job → Job
rewind now j = record j {
  status = queued;
  worker = none;
  attempts = 0;
  result = none;
  error = none;
  run_after = now;
  updated_at = now;
}

unfoldable pub delete_jobs : List Job → Queue → Queue
delete_jobs [] q = q
delete_jobs (j ∷ js) q = delete_jobs js (delete_where (has_id j.id) q)

-- The first queued job is used again and the others go; with none a job is enqueued.
unfoldable pub reuse_job : String → String → ℕ → List Job → Outbox → String × Outbox
unfolding delete_jobs
reuse_job job_id i now [] o = (job_id, enqueue_delivery_job job_id now i now o)
reuse_job job_id i now (j ∷ js) o =
    (j.id, record o { jobs = delete_jobs js (update_where (has_id j.id) (rewind now) o.jobs) })

abbrev pub reset_delivery : String → ℕ → Outbox → Outbox
reset_delivery i now o = record o {
  deliveries = update_where (has_delivery_id i) (reset now) o.deliveries;
}

-- The id of the job of the delivery, or nothing if the replay is refused.
unfoldable pub replay_delivery : String → String → ℕ → Outbox → Option String × Outbox
unfolding reuse_job
replay_delivery job_id i now o =
    let reused = reuse_job job_id i now (queued_delivery_jobs i o.jobs) (reset_delivery i now o) in
    if is_some (find_where (λ d. has_delivery_id i d && is_replayable d.status) o.deliveries)
    then if is_some (find_where (is_running_delivery i) o.jobs)
      then (none, o)
      else (some reused.0, reused.1)
    else (none, o)

abbrev pub can_replay : String → Outbox → Bool
can_replay i o =
    is_some (find_where (λ d. has_delivery_id i d && is_replayable d.status) o.deliveries)
    && not (is_some (find_where (is_running_delivery i) o.jobs))

reuse_job-deliveries :
    (job_id i : String) (now : ℕ) (js : List Job) (o : Outbox)
    → (reuse_job job_id i now js o).1.deliveries ≡ o.deliveries
unfolding reuse_job enqueue_delivery_job
reuse_job-deliveries job_id i now [] o = refl
reuse_job-deliveries job_id i now (j ∷ js) o = refl

-- A replay of an existing delivery answers a job exactly if a waiting or dead delivery has the id and no job is
-- running for it; the row has then no attempts, no error and no time to wait for. A replay that is refused changes nothing.
pub replay_outcome :
    (job_id i : String) (now : ℕ) (o : Outbox) (d : Delivery)
    → find_where (has_delivery_id i) o.deliveries ≡ some d
    → (is_some (replay_delivery job_id i now o).0 ≡ can_replay i o)
      × (can_replay i o ≡ false → (replay_delivery job_id i now o).1 ≡ o)
      × (can_replay i o ≡ true
          → find_where (has_delivery_id i) (replay_delivery job_id i now o).1.deliveries
            ≡ some (reset now d))
unfolding replay_delivery
replay_outcome job_id i now o d h =
    elim (Bool-cases
      (is_some (find_where (λ d. has_delivery_id i d && is_replayable d.status) o.deliveries))) [
        | inr e ↦ rw e (refl, (λ _. refl), (λ t. ground arith))
        | inl e ↦ elim (Bool-cases (is_some (find_where (is_running_delivery i) o.jobs))) [
          | inl r ↦ rw (e, r) (refl, (λ _. refl), (λ t. ground arith))
          | inr r ↦
              rw (e, r)
                (
                  refl,
                  (λ t. ground arith),
                  (λ _.
                      ap (find_where (has_delivery_id i)) (reuse_job-deliveries job_id i now _ _)
                      ∙ find_where-update_where_self (has_delivery_id i) (reset now) (λ x e. e)
                          o.deliveries d h),
                )
        ]
      ]

-- A replay that is accepted reuses the queued jobs of the delivery.
pub replayed :
    (job_id i : String) (now : ℕ) (o : Outbox)
    → can_replay i o ≡ true
    → (replay_delivery job_id i now o).1
      ≡ (reuse_job job_id i now (queued_delivery_jobs i o.jobs) (reset_delivery i now o)).1
unfolding replay_delivery
replayed job_id i now o can =
    let a : is_some (find_where (λ d. has_delivery_id i d && is_replayable d.status) o.deliveries)
        ≡ true =
      ground (arith, can) in
    let b : is_some (find_where (is_running_delivery i) o.jobs) ≡ false = ground (arith, can) in
    rw (a, b) refl
