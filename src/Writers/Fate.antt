-- ===== src/Writers/Fate.antt =====
-- What becomes of a job, whoever writes the table: webhooks.py, retention.py and db.py beside jobs.py.
use memoratum.Base.{
  ℕ, String, Bool, true, false, some, List, [], ◌∷◌, ◌++◌, ◌==◌, ◌≡◌, ◌⊎◌, inl, inr, refl, sym, ap,
  ◌∙◌, subst, eq_iff, arith, All, All-imp, Bool-cases, Option-cases,
}
use memoratum.Table.{find_where, update_where, delete_where, select_where, first_row}
use memoratum.Table.Laws.{find_where-update_where_other, All-select_where}
use memoratum.Table.Keyed.{Keyed, only_found, find_where-append}
use memoratum.Table.Rows.{find_where-delete_where, both, passing, All-order_with}
use memoratum.Jobs.{Job, Queue, has_id}
use memoratum.Jobs.Claim.{job_id}
use memoratum.Jobs.History.{Evolves, Evolves-refl, Evolves-trans, Tracked, updated, apply-Tracked}
use memoratum.Outbox.{Outbox, enqueue_delivery_job}
use memoratum.Outbox.Attempts.{
  is_delivery_job, queued_delivery_jobs, created_before, schedule_delivery_retry, sooner,
}
use memoratum.Outbox.Replay.{delete_jobs, reuse_job, rewind, reset_delivery}
use memoratum.Retention.{is_active, old_job}
use memoratum.Purge.{is_purged_job}
use memoratum.Writers.{
  Write, queue, deliver, retry, replay, sweep_jobs, force, force_expire, is_running_id, unlease,
  purge, elsewhere, write, run, AllFresh,
}
use memoratum.Writers.Keys.{replay_cases, write-Keyed}

-- The commit is no purge that takes the job.
abbrev pub IsSpared : Job → Write → Type 0
IsSpared j (purge project preserved) = is_purged_job project preserved j ≡ false
IsSpared j _ = Unit

module _ (i : String) where
  -- The job under the id is still there, with what it was made of.
  delete_where-Tracked :
      (p : Job → Bool) (q : Queue) (j : Job)
      → find_where (has_id i) q ≡ some j
      → p j ≡ false
      → find_where (has_id i) (delete_where p q) ≡ some j
  unfolding find_where delete_where
  delete_where-Tracked p [] j h e = cc
  delete_where-Tracked p (r ∷ q) j h e = elim (Bool-cases (has_id i r)) [
    | inl t ↦
        let same : r ≡ j = ground (arith, t, h) in
        let stays : p r ≡ false = subst (λ x. p x ≡ false) (sym same) e in
        rw (stays, t) (ap some same)
    | inr t ↦ ground (arith, t, delete_where-Tracked p q j (ground (arith, t, h)) e)
  ]

  -- The queued jobs of a delivery are other rows than a job of another kind.
  queued_delivery_jobs-other :
      (d : String) (q : Queue) (j : Job)
      → Keyed job_id q
      → find_where (has_id i) q ≡ some j
      → (j.kind == "webhook_delivery") ≡ false
      → All (λ r. (r.id == i) ≡ false) (queued_delivery_jobs d q)
  unfolding queued_delivery_jobs
  queued_delivery_jobs-other d q j k h w =
      All-order_with (λ r. (r.id == i) ≡ false) created_before (select_where (is_delivery_job d) q)
        (All-imp (λ r. ((r.id == i) ≡ true → r ≡ j) × (is_delivery_job d r ≡ true))
          (λ r. (r.id == i) ≡ false) (λ r c. differs r c.0 c.1) (select_where (is_delivery_job d) q)
          (both (λ r. (r.id == i) ≡ true → r ≡ j) (λ r. is_delivery_job d r ≡ true)
            (select_where (is_delivery_job d) q)
            (All-select_where (λ r. (r.id == i) ≡ true → r ≡ j) (is_delivery_job d) q
              (only_found job_id i q j k h))
            (passing (is_delivery_job d) q)))
    where
      differs :
          (r : Job)
          → ((r.id == i) ≡ true → r ≡ j)
          → is_delivery_job d r ≡ true
          → (r.id == i) ≡ false
      differs r same c = elim (Bool-cases (r.id == i)) [
        | inl e ↦ ground (arith, w, subst (λ (x : Job). is_delivery_job d x ≡ true) (same e) c)
        | inr e ↦ e
      ]

  other_row : (k : String) (r : Job) → (k == i) ≡ false → (r.id == k) ≡ true → (r.id == i) ≡ false
  other_row k r ne e = subst (λ x. (x == i) ≡ false) (sym ((eq_iff r.id k).0 e)) ne

  delete_jobs-other :
      (js : List Job) (q : Queue)
      → All (λ r. (r.id == i) ≡ false) js
      → find_where (has_id i) (delete_jobs js q) ≡ find_where (has_id i) q
  unfolding delete_jobs
  delete_jobs-other [] q a = refl
  delete_jobs-other (r ∷ js) q a =
      delete_jobs-other js (delete_where (has_id r.id) q) a.1
      ∙ find_where-delete_where (has_id r.id) (has_id i)
          (λ s e. elim (Bool-cases (s.id == r.id)) [
            | inl t ↦ ground (arith, e, other_row r.id s a.0 t)
            | inr t ↦ t
          ])
          q

  enqueue_delivery_job-Tracked :
      (new : String) (now : ℕ) (d : String) (run_at : ℕ) (o : Outbox) (j : Job)
      → find_where (has_id i) o.jobs ≡ some j
      → Tracked j i (enqueue_delivery_job new now d run_at o).jobs
  unfolding enqueue_delivery_job
  enqueue_delivery_job-Tracked new now d run_at o j h =
      (j, find_where-append job_id i o.jobs _ j h, Evolves-refl j)

  reuse_job-Tracked :
      (new d : String) (now : ℕ) (js : List Job) (o : Outbox) (j : Job)
      → All (λ r. (r.id == i) ≡ false) js
      → find_where (has_id i) o.jobs ≡ some j
      → Tracked j i (reuse_job new d now js o).1.jobs
  unfolding reuse_job
  reuse_job-Tracked new d now [] o j a h = enqueue_delivery_job-Tracked new now d now o j h
  reuse_job-Tracked new d now (r ∷ js) o j a h = (
    j,
    delete_jobs-other js (update_where (has_id r.id) (rewind now) o.jobs) a.1
        ∙ find_where-update_where_other (has_id r.id) (rewind now) (has_id i)
            (λ s e. other_row r.id s a.0 e) (λ s e. other_row r.id s a.0 e) o.jobs
        ∙ h,
    Evolves-refl j,
  )

  schedule_delivery_retry-Tracked :
      (new d : String) (clock run_at : ℕ) (o : Outbox) (j : Job)
      → find_where (has_id i) o.jobs ≡ some j
      → Tracked j i (schedule_delivery_retry new d clock run_at o).jobs
  unfolding schedule_delivery_retry
  schedule_delivery_retry-Tracked new d clock run_at o j h =
      elim (Option-cases (first_row (queued_delivery_jobs d o.jobs))) [
        | inl n ↦
            rw (n, schedule_delivery_retry) (enqueue_delivery_job-Tracked new clock d run_at o j h)
        | inr (r, e) ↦
            rw (e, schedule_delivery_retry)
              (updated i (has_id r.id) (sooner clock run_at) o.jobs j (λ x. refl)
                (λ x u. ground arith) h)
      ]

  force_expire-Tracked :
      (ids : List String) (q : Queue) (j : Job)
      → find_where (has_id i) q ≡ some j
      → Tracked j i (force_expire ids q)
  unfolding force_expire
  force_expire-Tracked [] q j h = (j, h, Evolves-refl j)
  force_expire-Tracked (n ∷ ids) q j h =
      let (k, g, e) = updated i (is_running_id n) unlease q j (λ r. refl) (λ r u. ground arith) h in
      let (l, g', e') = force_expire-Tracked ids (update_where (is_running_id n) unlease q) k g in
      (l, g', Evolves-trans j k l e e')

  write-Tracked :
      (w : Write) (o : Outbox) (j : Job)
      → Keyed job_id o.jobs
      → (j.kind == "webhook_delivery") ≡ false
      → IsSpared j w
      → find_where (has_id i) o.jobs ≡ some j
      → Tracked j i (write w o).jobs ⊎ (is_active j ≡ false)
  unfolding write
  write-Tracked (queue op) o j k n s h = inl (apply-Tracked op i o.jobs j h)
  write-Tracked (deliver new now d run_at) o j k n s h =
      inl (enqueue_delivery_job-Tracked new now d run_at o j h)
  write-Tracked (retry new d clock run_at) o j k n s h =
      inl (schedule_delivery_retry-Tracked new d clock run_at o j h)
  write-Tracked (replay new d now) o j k n s h = elim (replay_cases new d now o) [
    | inl e ↦ inl (rw e (j, h, Evolves-refl j))
    | inr e ↦ inl (
        rw e (
          reuse_job-Tracked new d now (queued_delivery_jobs d o.jobs) (reset_delivery d now o) j
            (queued_delivery_jobs-other d o.jobs j k h n) h))
  ]
  write-Tracked (sweep_jobs cutoff) o j k n s h = elim (Bool-cases (old_job cutoff j)) [
    | inl e ↦ inr (ground (arith, e))
    | inr e ↦ inl (j, delete_where-Tracked (old_job cutoff) o.jobs j h e, Evolves-refl j)
  ]
  write-Tracked (force ids) o j k n s h = inl (force_expire-Tracked ids o.jobs j h)
  write-Tracked (purge project preserved) o j k n s h =
      inl (j, delete_where-Tracked (is_purged_job project preserved) o.jobs j h s, Evolves-refl j)
  write-Tracked (elsewhere other) o j k n s h = inl (j, h, Evolves-refl j)

  Evolves-IsSpared : (j k : Job) (w : Write) → Evolves j k → IsSpared j w → IsSpared k w
  Evolves-IsSpared j k (purge project preserved) e s =
      rw (sym e.same_id, sym e.same_project, sym e.same_payload) s
  Evolves-IsSpared j k (queue op) e s = tt
  Evolves-IsSpared j k (deliver _ _ _ _) e s = tt
  Evolves-IsSpared j k (retry _ _ _ _) e s = tt
  Evolves-IsSpared j k (replay _ _ _) e s = tt
  Evolves-IsSpared j k (sweep_jobs _) e s = tt
  Evolves-IsSpared j k (force _) e s = tt
  Evolves-IsSpared j k (elsewhere _) e s = tt

  -- On a table of jobs whose ids are a primary key, after any commits that write it, of jobs.py, the outbox, the
  -- sweep, a purge or the script that ends leases by force, with fresh ids: a job that is no webhook delivery and that
  -- none of the purges takes is still there, with its id, kind, payload, project and creation time, its attempts have
  -- not fallen, and if it is running and was not before, they have grown; or else it was settled, done, failed or
  -- cancelled, after some of the commits, with all of this, and then a sweep may delete it.
  pub run-Evolves :
      (ws : List Write) (o : Outbox) (j : Job)
      → Keyed job_id o.jobs
      → AllFresh ws o
      → (j.kind == "webhook_delivery") ≡ false
      → All (IsSpared j) ws
      → find_where (has_id i) o.jobs ≡ some j
      → ((k : Job) × (find_where (has_id i) (run ws o).jobs ≡ some k) × Evolves j k)
        ⊎ ((us : List Write) × (vs : List Write) × (k : Job) × (ws ≡ us ++ vs)
            × (find_where (has_id i) (run us o).jobs ≡ some k)
            × Evolves j k
            × (is_active k ≡ false))
  unfolding run
  run-Evolves [] o j k f n s h = inl (j, h, Evolves-refl j)
  run-Evolves (w ∷ ws) o j k f n s h = elim (write-Tracked w o j k n s.0 h) [
    | inr e ↦ inr ([], w ∷ ws, j, refl, h, Evolves-refl j, e)
    | inl (m, g, v) ↦
        elim (run-Evolves ws (write w o) m (write-Keyed w o f.0 k) f.1 (rw (sym v.same_kind) n)
          (All-imp (IsSpared j) (IsSpared m) (λ x. Evolves-IsSpared j m x v) ws s.1) g) [
            | inl (l, g', v') ↦ inl (l, g', Evolves-trans j m l v v')
            | inr (us, vs, l, e, g', v', a) ↦
                inr (w ∷ us, vs, l, ap (λ xs. w ∷ xs) e, g', Evolves-trans j m l v v', a)
          ]
  ]
