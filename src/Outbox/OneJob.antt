-- ===== src/Outbox/OneJob.antt =====
-- webhooks.py: a delivery that waits has one queued job.
use memoratum.Base.{
  ℕ, suc, ◌+◌, ◌≤◌, max, ◌≡◌, refl, ap, sym, ◌∙◌, String, true, false, Option, none, some, List, [],
  ◌∷◌, length, ◌==◌, eq_iff, eq_refl, arith, All, All-imp, Option-cases, inl, inr,
}
use memoratum.Table.{select_where, find_where, update_where, delete_where, count_where, first_row}
use memoratum.Table.Laws.{find_where-update_where_other, All-select_where}
use memoratum.Table.Keyed.{Keyed, Keyed-update_where, find_where_of_Memᴰ}
use memoratum.Table.Rows.{
  members, passing, both, count_where-append, All-order_with, length-select_where,
  find_where-delete_where,
}
use memoratum.Table.Counting.{
  count_where-delete_where, count_where-update_kept, count_where-update_same, Keyed-delete_where,
  Keyed-select_where, Keyed-order_with, length-order_with,
}
use memoratum.Jobs.{Job, Queue, has_id}
use memoratum.Jobs.Claim.{job_id}
use memoratum.Outbox.{Outbox, delivery_job, enqueue_delivery_job, has_delivery_id, project_of}
use memoratum.Outbox.Attempts.{
  is_delivery_job, created_before, queued_delivery_jobs, schedule_delivery_retry, sooner,
}
use memoratum.Outbox.Replay.{
  delete_jobs, reuse_job, rewind, replay_delivery, can_replay, replayed, reset_delivery,
}

-- How many queued jobs a delivery has.
abbrev pub job_count : String → Queue → ℕ
job_count i q = count_where (is_delivery_job i) q

-- A row of the selection, as the table has it.
IsChosen : String → Queue → Job → Type 0
IsChosen i q j = (is_delivery_job i j ≡ true) × (find_where (has_id j.id) q ≡ some j)

queued_delivery_jobs-IsChosen :
    (i : String) (q : Queue) → Keyed job_id q → All (IsChosen i q) (queued_delivery_jobs i q)
unfolding IsChosen queued_delivery_jobs
queued_delivery_jobs-IsChosen i q k =
    All-order_with
      (λ (j : Job). (is_delivery_job i j ≡ true) × (find_where (has_id j.id) q ≡ some j))
      created_before (select_where (is_delivery_job i) q)
      (both (λ j. is_delivery_job i j ≡ true) (λ (j : Job). find_where (has_id j.id) q ≡ some j)
        (select_where (is_delivery_job i) q) (passing (is_delivery_job i) q)
        (All-select_where (λ (j : Job). find_where (has_id j.id) q ≡ some j) (is_delivery_job i) q
          (All-imp _ (λ (j : Job). find_where (has_id j.id) q ≡ some j)
            (λ j m. find_where_of_Memᴰ job_id j q k m) q (members q))))

length-queued_delivery_jobs :
    (i : String) (q : Queue) → length (queued_delivery_jobs i q) ≡ job_count i q
unfolding queued_delivery_jobs
length-queued_delivery_jobs i q =
    length-order_with created_before (select_where (is_delivery_job i) q)
    ∙ length-select_where (is_delivery_job i) q

Keyed-queued_delivery_jobs :
    (i : String) (q : Queue) → Keyed job_id q → Keyed job_id (queued_delivery_jobs i q)
unfolding queued_delivery_jobs
Keyed-queued_delivery_jobs i q k =
    Keyed-order_with job_id created_before (select_where (is_delivery_job i) q)
      (Keyed-select_where job_id (is_delivery_job i) q k)

-- Chosen rows other than the one that is deleted, or updated, are still there.
IsChosen-delete_where :
    (i k : String) (q : Queue) (js : List Job)
    → All (λ (j : Job). (j.id == k) ≡ false) js
    → All (IsChosen i q) js
    → All (IsChosen i (delete_where (has_id k) q)) js
unfolding IsChosen
IsChosen-delete_where i k q [] d c = tt
IsChosen-delete_where i k q (j ∷ js) d c = (
  (
    c.0.0,
    find_where-delete_where (has_id k) (has_id j.id)
          (λ r e. ground (arith, e, d.0, eq_iff r.id j.id, eq_iff r.id k, eq_iff j.id k)) q
        ∙ c.0.1,
  ),
  IsChosen-delete_where i k q js d.1 c.1,
)

IsChosen-update_where :
    (i k : String) (f : Job → Job) (q : Queue) (js : List Job)
    → ((r : Job) → (f r).id ≡ r.id)
    → All (λ (j : Job). (j.id == k) ≡ false) js
    → All (IsChosen i q) js
    → All (IsChosen i (update_where (has_id k) f q)) js
unfolding IsChosen
IsChosen-update_where i k f q [] same d c = tt
IsChosen-update_where i k f q (j ∷ js) same d c = (
  (
    c.0.0,
    find_where-update_where_other (has_id k) f (has_id j.id)
          (λ r e. ground (arith, e, d.0, eq_iff r.id j.id, eq_iff r.id k, eq_iff j.id k))
          (λ r e.
            rw (same r) (ground (arith, e, d.0, eq_iff r.id j.id, eq_iff r.id k, eq_iff j.id k)))
          q
        ∙ c.0.1,
  ),
  IsChosen-update_where i k f q js same d.1 c.1,
)

delete_jobs-count :
    (i : String) (js : List Job) (q : Queue)
    → Keyed job_id q
    → Keyed job_id js
    → All (IsChosen i q) js
    → job_count i (delete_jobs js q) + length js ≡ job_count i q
unfolding delete_jobs IsChosen
delete_jobs-count i [] q k kj c = omega arith
delete_jobs-count i (j ∷ js) q k kj c =
    let rest =
      delete_jobs-count i js (delete_where (has_id j.id) q)
        (Keyed-delete_where job_id (has_id j.id) q k) kj.1
        (IsChosen-delete_where i j.id q js kj.0 c.1) in
    omega (arith, rest, count_where-delete_where job_id (is_delivery_job i) j.id q j k c.0.1 c.0.0)

is_delivery_job-new :
    (i new : String) (project : Option String) (now run_at : ℕ)
    → is_delivery_job i (delivery_job new i project now run_at) ≡ true
is_delivery_job-new i new project now run_at = ground (arith, eq_refl i)

reuse_job-count :
    (new i : String) (now : ℕ) (js : List Job) (o : Outbox)
    → Keyed job_id o.jobs
    → Keyed job_id js
    → All (IsChosen i o.jobs) js
    → length js ≡ job_count i o.jobs
    → job_count i (reuse_job new i now js o).1.jobs ≡ 1
unfolding reuse_job enqueue_delivery_job IsChosen
reuse_job-count new i now [] o k kj c l =
    count_where-append (is_delivery_job i)
      (delivery_job new i (project_of (find_where (has_delivery_id i) o.deliveries)) now now) o.jobs
    ∙ rw
        (is_delivery_job-new i new (project_of (find_where (has_delivery_id i) o.deliveries)) now
          now)
        (ap suc (sym l))
reuse_job-count new i now (j ∷ js) o k kj c l =
    let kept =
      count_where-update_kept job_id (is_delivery_job i) j.id (rewind now) o.jobs j k c.0.1 c.0.0
        (ground (arith, c.0.0)) in
    let rest =
      delete_jobs-count i js (update_where (has_id j.id) (rewind now) o.jobs)
        (Keyed-update_where job_id (has_id j.id) (rewind now) (λ r. refl) o.jobs k) kj.1
        (IsChosen-update_where i j.id (rewind now) o.jobs js (λ r. refl) kj.0 c.1) in
    omega (arith, rest, kept, l)

-- On a keyed queue a replay that is accepted leaves exactly one queued job for the delivery, however many there were.
pub replay_one_job :
    (new i : String) (now : ℕ) (o : Outbox)
    → Keyed job_id o.jobs
    → can_replay i o ≡ true
    → job_count i (replay_delivery new i now o).1.jobs ≡ 1
unfolding replay_delivery
replay_one_job new i now o k can = rw (replayed new i now o can) (
    reuse_job-count new i now (queued_delivery_jobs i o.jobs) (reset_delivery i now o) k
      (Keyed-queued_delivery_jobs i o.jobs k) (queued_delivery_jobs-IsChosen i o.jobs k)
      (length-queued_delivery_jobs i o.jobs))

no_rows : (js : List Job) → first_row js ≡ none → length js ≡ 0
unfolding first_row
no_rows [] h = refl
no_rows (j ∷ js) h = ground (arith, h)

some_rows : (js : List Job) (j : Job) → first_row js ≡ some j → 1 ≤ length js
unfolding first_row
some_rows [] j h = ground (arith, h)
some_rows (k ∷ js) j h = omega arith

-- Scheduling a retry leaves one queued job for the delivery if there was none, and as many as there were if there
-- were some.
pub schedule_one_job :
    (new i : String) (now run_at : ℕ) (o : Outbox)
    → job_count i (schedule_delivery_retry new i now run_at o).jobs ≡ max 1 (job_count i o.jobs)
unfolding schedule_delivery_retry enqueue_delivery_job
schedule_one_job new i now run_at o =
    elim (Option-cases (first_row (queued_delivery_jobs i o.jobs))) [
      | inl n ↦
          let project = project_of (find_where (has_delivery_id i) o.deliveries) in
          let zero : job_count i o.jobs ≡ 0 =
            sym (length-queued_delivery_jobs i o.jobs)
            ∙ no_rows (queued_delivery_jobs i o.jobs) n in
          rw (n, schedule_delivery_retry)
            (count_where-append (is_delivery_job i) (delivery_job new i project now run_at) o.jobs
              ∙ rw (is_delivery_job-new i new project now run_at) (omega (arith, zero)))
      | inr (j, e) ↦
          rw (e, schedule_delivery_retry)
            (count_where-update_same (is_delivery_job i) (has_id j.id) (sooner now run_at)
                (λ r. refl) o.jobs
              ∙ omega (
                arith,
                some_rows (queued_delivery_jobs i o.jobs) j e,
                length-queued_delivery_jobs i o.jobs,
              ))
    ]
