-- ===== src/Jobs/History.antt =====
-- Rows of the queue under the operations of jobs.py: none of them loses a row, and attempts count the
-- starts.
use memoratum.Base.{
  ℕ, ◌+◌, ◌≤◌, ◌≡◌, refl, Bool, true, false, Option, none, some, [], ◌∷◌, String, arith, Bool-cases,
  inl, inr,
}
use memoratum.Json.{Fields}
use memoratum.Table.{find_where, update_where}
use memoratum.Table.Keyed.{find_where-update_where, find_where-append}
use memoratum.Jobs.{
  Job, Queue, is_running, has_id, is_queued_id, start, renew, note, enqueue, claim_row, claim,
  heartbeat, reap_stale, update_result, requeue, cancel, is_running_row, fresh_job,
}
use memoratum.Jobs.Claim.{job_id}
use memoratum.Jobs.Steps.{
  Op, enqueue_op, claim_op, heartbeat_op, reap_op, complete_op, progress_op, fail_op, requeue_op,
  cancel_op, apply, finish, give_up, complete_lem, fail_lem,
}

-- A later state of the same job. A job that is running and was not has been started since, and each
-- start is one attempt.
pub record Evolves (i j : Job) : Type 0 where
  pub same_id : i.id ≡ j.id
  pub same_kind : i.kind ≡ j.kind
  pub same_payload : i.payload ≡ j.payload
  pub same_project : i.project_id ≡ j.project_id
  pub same_creation : i.created_at ≡ j.created_at
  pub attempts_kept : i.attempts ≤ j.attempts
  pub starts_counted :
      is_running i.status ≡ false → is_running j.status ≡ true → i.attempts + 1 ≤ j.attempts

pub Evolves-refl : (j : Job) → Evolves j j
Evolves-refl j = ground arith

pub Evolves-trans : (i j k : Job) → Evolves i j → Evolves j k → Evolves i k
Evolves-trans i j k a b = record {
  same_id = cc (a.same_id, b.same_id);
  same_kind = cc (a.same_kind, b.same_kind);
  same_payload = cc (a.same_payload, b.same_payload);
  same_project = cc (a.same_project, b.same_project);
  same_creation = cc (a.same_creation, b.same_creation);
  attempts_kept = omega (arith, a.attempts_kept, b.attempts_kept);
  starts_counted = λ x y. elim (Bool-cases (is_running j.status)) [
    | inl t ↦ omega (arith, a.starts_counted x t, b.attempts_kept)
    | inr t ↦ omega (arith, b.starts_counted t y, a.attempts_kept)
  ];
}

abbrev pub Tracked : Job → String → Queue → Type 0
Tracked j i q = (k : Job) × (find_where (has_id i) q ≡ some k) × Evolves j k

pub updated :
    (i : String) (p : Job → Bool) (f : Job → Job) (q : Queue) (j : Job)
    → ((r : Job) → job_id (f r) ≡ job_id r)
    → ((r : Job) → p r ≡ true → Evolves r (f r))
    → find_where (has_id i) q ≡ some j
    → Tracked j i (update_where p f q)
updated i p f q j same step h = elim (Bool-cases (p j)) [
  | inl e ↦ (f j, rw e at (find_where-update_where job_id i p f same q j h), step j e)
  | inr e ↦ (j, rw e at (find_where-update_where job_id i p f same q j h), Evolves-refl j)
]

claim_row-Tracked :
    (now ttl : ℕ) (w : String) (o : Option Job) (i : String) (q : Queue) (j : Job)
    → find_where (has_id i) q ≡ some j
    → Tracked j i (claim_row now ttl w o q).1
unfolding claim_row
claim_row-Tracked now ttl w none i q j h = (j, h, Evolves-refl j)
claim_row-Tracked now ttl w (some r) i q j h =
    updated i (is_queued_id r.id) (start now ttl w) q j (λ r. refl) (λ r e. ground arith) h

-- `update_result` renews the lease only where the row is running.
update_result-Tracked :
    (now ttl : ℕ) (k : String) (result : Fields) (i : String) (q : Queue) (j : Job)
    → find_where (has_id i) q ≡ some j
    → Tracked j i (update_result now ttl k result q)
unfolding update_result
update_result-Tracked now ttl k result i q j h =
    elim (Bool-cases (is_running_row (find_where (has_id k) q))) [
      | inl e ↦
          rw e (updated i (has_id k) (renew now ttl result) q j (λ r. refl) (λ r u. ground arith) h)
      | inr e ↦
          rw e (updated i (has_id k) (note now result) q j (λ r. refl) (λ r u. ground arith) h)
    ]

pub apply-Tracked :
    (o : Op) (i : String) (q : Queue) (j : Job)
    → find_where (has_id i) q ≡ some j
    → Tracked j i (apply o q)
unfolding apply enqueue claim heartbeat reap_stale requeue cancel
apply-Tracked (enqueue_op k now kind payload after) i q j h =
    (j, find_where-append job_id i q (fresh_job k now kind payload after ∷ []) j h, Evolves-refl j)
apply-Tracked (claim_op now ttl w) i q j h = claim_row-Tracked now ttl w _ i q j h
apply-Tracked (heartbeat_op now ttl k) i q j h =
    updated i _ _ q j (λ r. refl) (λ r e. ground arith) h
apply-Tracked (reap_op now) i q j h = updated i _ _ q j (λ r. refl) (λ r e. ground arith) h
apply-Tracked (complete_op now k result) i q j h =
    rw (complete_lem now k result q)
      (updated i (has_id k) (finish now result) q j (λ r. refl) (λ r e. ground arith) h)
apply-Tracked (progress_op now ttl k result) i q j h =
    update_result-Tracked now ttl k result i q j h
apply-Tracked (fail_op now k error) i q j h =
    rw (fail_lem now k error q)
      (updated i (has_id k) (give_up now error) q j (λ r. refl) (λ r e. ground arith) h)
apply-Tracked (requeue_op now k after) i q j h =
    updated i _ _ q j (λ r. refl) (λ r e. ground arith) h
apply-Tracked (cancel_op now k) i q j h = updated i _ _ q j (λ r. refl) (λ r e. ground arith) h
