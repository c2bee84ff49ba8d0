-- ===== src/Writers/Keys.antt =====
-- The ids of jobs stay a primary key, whoever writes the table.
use memoratum.Base.{
  ℕ, String, ◌&&◌, none, List, [], ◌∷◌, ◌==◌, ◌≡◌, ◌⊎◌, inl, inr, refl, Bool-cases, Option-cases,
  is_some,
}
use memoratum.Table.{find_where, update_where, delete_where, first_row}
use memoratum.Table.Keyed.{Keyed, Keyed-update_where, Keyed-append}
use memoratum.Table.Counting.{Keyed-delete_where}
use memoratum.Jobs.{Job, Queue, has_id}
use memoratum.Jobs.Claim.{job_id}
use memoratum.Jobs.Steps.{apply-Keyed}
use memoratum.Outbox.{Outbox, enqueue_delivery_job}
use memoratum.Outbox.Attempts.{queued_delivery_jobs, schedule_delivery_retry, sooner}
use memoratum.Outbox.Replay.{
  delete_jobs, reuse_job, rewind, replay_delivery, reset_delivery, is_replayable,
  is_running_delivery,
}
use memoratum.Retention.{old_job}
use memoratum.Purge.{is_purged_job}
use memoratum.Writers.{
  Write, queue, deliver, retry, replay, sweep_jobs, force, force_expire, is_running_id, unlease,
  purge, elsewhere, write, IsFresh,
}

-- The replay's rewrite of the queue.
delete_jobs-Keyed : (js : List Job) (q : Queue) → Keyed job_id q → Keyed job_id (delete_jobs js q)
unfolding delete_jobs
delete_jobs-Keyed [] q k = k
delete_jobs-Keyed (j ∷ js) q k =
    delete_jobs-Keyed js (delete_where (has_id j.id) q)
      (Keyed-delete_where job_id (has_id j.id) q k)

enqueue_delivery_job-Keyed :
    (new : String) (now : ℕ) (d : String) (run_at : ℕ) (o : Outbox)
    → find_where (has_id new) o.jobs ≡ none
    → Keyed job_id o.jobs
    → Keyed job_id (enqueue_delivery_job new now d run_at o).jobs
unfolding enqueue_delivery_job
enqueue_delivery_job-Keyed new now d run_at o f k = Keyed-append job_id o.jobs _ f k

reuse_job-Keyed :
    (new d : String) (now : ℕ) (js : List Job) (o : Outbox)
    → find_where (has_id new) o.jobs ≡ none
    → Keyed job_id o.jobs
    → Keyed job_id (reuse_job new d now js o).1.jobs
unfolding reuse_job
reuse_job-Keyed new d now [] o f k = enqueue_delivery_job-Keyed new now d now o f k
reuse_job-Keyed new d now (j ∷ js) o f k =
    delete_jobs-Keyed js (update_where (has_id j.id) (rewind now) o.jobs)
      (Keyed-update_where job_id (has_id j.id) (rewind now) (λ r. refl) o.jobs k)

force_expire-Keyed :
    (ids : List String) (q : Queue) → Keyed job_id q → Keyed job_id (force_expire ids q)
unfolding force_expire
force_expire-Keyed [] q k = k
force_expire-Keyed (i ∷ ids) q k =
    force_expire-Keyed ids (update_where (is_running_id i) unlease q)
      (Keyed-update_where job_id (is_running_id i) unlease (λ r. refl) q k)

-- A replay either refuses or reuses the queued jobs of the delivery.
pub replay_cases :
    (new d : String) (now : ℕ) (o : Outbox)
    → ((replay_delivery new d now o).1 ≡ o)
      ⊎ ((replay_delivery new d now o).1
          ≡ (reuse_job new d now (queued_delivery_jobs d o.jobs) (reset_delivery d now o)).1)
unfolding replay_delivery
replay_cases new d now o =
    elim (Bool-cases
      (is_some (find_where (λ e. e.id == d && is_replayable e.status) o.deliveries))) [
        | inr e ↦ inl (rw e refl)
        | inl e ↦ elim (Bool-cases (is_some (find_where (is_running_delivery d) o.jobs))) [
          | inl r ↦ inl (rw (e, r) refl)
          | inr r ↦ inr (rw (e, r) refl)
        ]
      ]

schedule_delivery_retry-Keyed :
    (new d : String) (clock run_at : ℕ) (o : Outbox)
    → find_where (has_id new) o.jobs ≡ none
    → Keyed job_id o.jobs
    → Keyed job_id (schedule_delivery_retry new d clock run_at o).jobs
unfolding schedule_delivery_retry
schedule_delivery_retry-Keyed new d clock run_at o f k =
    elim (Option-cases (first_row (queued_delivery_jobs d o.jobs))) [
      | inl n ↦
          rw (n, schedule_delivery_retry) (enqueue_delivery_job-Keyed new clock d run_at o f k)
      | inr (r, e) ↦
          rw (e, schedule_delivery_retry)
            (Keyed-update_where job_id (has_id r.id) (sooner clock run_at) (λ x. refl) o.jobs k)
    ]

pub write-Keyed :
    (w : Write) (o : Outbox)
    → IsFresh w o.jobs
    → Keyed job_id o.jobs
    → Keyed job_id (write w o).jobs
unfolding write
write-Keyed (queue op) o f k = apply-Keyed op o.jobs f k
write-Keyed (deliver new now d run_at) o f k = enqueue_delivery_job-Keyed new now d run_at o f k
write-Keyed (retry new d clock run_at) o f k =
    schedule_delivery_retry-Keyed new d clock run_at o f k
write-Keyed (replay new d now) o f k = elim (replay_cases new d now o) [
  | inl e ↦ rw e k
  | inr e ↦
      rw e (reuse_job-Keyed new d now (queued_delivery_jobs d o.jobs) (reset_delivery d now o) f k)
]
write-Keyed (sweep_jobs cutoff) o f k = Keyed-delete_where job_id (old_job cutoff) o.jobs k
write-Keyed (force ids) o f k = force_expire-Keyed ids o.jobs k
write-Keyed (purge project preserved) o f k =
    Keyed-delete_where job_id (is_purged_job project preserved) o.jobs k
write-Keyed (elsewhere other) o f k = k
