-- ===== src/Jobs/Steps.antt =====
-- Any number of callers use the functions of jobs.py: each commit is one operation, and a history is
-- their list in commit order, with the clock reading of each. The table has other writers, which are
-- not operations here: the outbox, which inserts, hastens and, on a replay, rewinds and deletes the
-- jobs of its deliveries, the retention sweep and the purge of a project, which delete jobs, and a script
-- (Writers.antt).
use memoratum.Base.{ℕ, ◌≡◌, refl, Option, none, some, List, [], ◌∷◌, String, Bool-cases, inl, inr}
use memoratum.Json.{Fields}
use memoratum.Table.{find_where, update_where}
use memoratum.Table.Laws.{update_where-update_where}
use memoratum.Table.Keyed.{Keyed, Keyed-update_where, Keyed-append}
use memoratum.Jobs.{
  Job, Queue, has_id, done, failed, cut, or_empty, fresh_job, is_running_row, enqueue, claim,
  heartbeat, reap_stale, complete, update_result, fail, requeue, cancel,
}
use memoratum.Jobs.Claim.{job_id, claim-Keyed}

pub data Op : Type 0 where
  enqueue_op : String → ℕ → String → Fields → Option ℕ → Op
  claim_op : ℕ → ℕ → String → Op
  heartbeat_op : ℕ → ℕ → String → Op
  reap_op : ℕ → Op
  complete_op : ℕ → String → Option Fields → Op
  progress_op : ℕ → ℕ → String → Fields → Op
  fail_op : ℕ → String → String → Op
  requeue_op : ℕ → String → Option ℕ → Op
  cancel_op : ℕ → String → Op

unfoldable pub apply : Op → Queue → Queue
apply (enqueue_op i now kind payload after) q = (enqueue i now kind payload after q).1
apply (claim_op now ttl w) q = (claim now ttl w q).1
apply (heartbeat_op now ttl i) q = (heartbeat now ttl i q).1
apply (reap_op now) q = (reap_stale now q).1
apply (complete_op now i result) q = complete now i result q
apply (progress_op now ttl i result) q = update_result now ttl i result q
apply (fail_op now i error) q = fail now i error q
apply (requeue_op now i after) q = requeue now i after q
apply (cancel_op now i) q = (cancel now i q).1

unfoldable pub run : List Op → Queue → Queue
run [] q = q
run (o ∷ os) q = run os (apply o q)

-- uuid4 gives an id that no row has.
abbrev pub IsFresh : Op → Queue → Type 0
IsFresh (enqueue_op i _ _ _ _) q = find_where (has_id i) q ≡ none
IsFresh _ q = Unit

abbrev pub AllFresh : List Op → Queue → Type 0
AllFresh [] q = Unit
AllFresh (o ∷ os) q = IsFresh o q × AllFresh os (apply o q)

-- `complete` and `fail` write the row twice in one transaction; together that is one update.
abbrev pub finish : ℕ → Option Fields → Job → Job
finish now result j = record j {
  status = done;
  result = some (or_empty result);
  lease_expires_at = 0;
  heartbeat_at = none;
  updated_at = now;
}

abbrev pub give_up : ℕ → String → Job → Job
give_up now error j = record j {
  status = failed;
  error = some (cut 2000 error);
  lease_expires_at = 0;
  heartbeat_at = none;
  updated_at = now;
}

pub complete_lem :
    (now : ℕ) (i : String) (result : Option Fields) (q : Queue)
    → complete now i result q ≡ update_where (has_id i) (finish now result) q
unfolding complete
complete_lem now i result q = update_where-update_where (has_id i) _ _ (λ j. refl) q

pub fail_lem :
    (now : ℕ) (i error : String) (q : Queue)
    → fail now i error q ≡ update_where (has_id i) (give_up now error) q
unfolding fail
fail_lem now i error q = update_where-update_where (has_id i) _ _ (λ j. refl) q

update_result-Keyed :
    (now ttl : ℕ) (i : String) (result : Fields) (q : Queue)
    → Keyed job_id q
    → Keyed job_id (update_result now ttl i result q)
unfolding update_result
update_result-Keyed now ttl i result q k =
    elim (Bool-cases (is_running_row (find_where (has_id i) q))) [
      | inl e ↦ rw e (Keyed-update_where job_id _ _ (λ j. refl) q k)
      | inr e ↦ rw e (Keyed-update_where job_id _ _ (λ j. refl) q k)
    ]

-- Every operation keeps the primary key, `enqueue` because its id is fresh.
pub apply-Keyed : (o : Op) (q : Queue) → IsFresh o q → Keyed job_id q → Keyed job_id (apply o q)
unfolding apply enqueue heartbeat reap_stale requeue cancel
apply-Keyed (enqueue_op i now kind payload after) q f k =
    Keyed-append job_id q (fresh_job i now kind payload after) f k
apply-Keyed (claim_op now ttl w) q f k = claim-Keyed now ttl w q k
apply-Keyed (heartbeat_op now ttl i) q f k = Keyed-update_where job_id _ _ (λ j. refl) q k
apply-Keyed (reap_op now) q f k = Keyed-update_where job_id _ _ (λ j. refl) q k
apply-Keyed (complete_op now i result) q f k =
    rw (complete_lem now i result q) (Keyed-update_where job_id _ _ (λ j. refl) q k)
apply-Keyed (progress_op now ttl i result) q f k = update_result-Keyed now ttl i result q k
apply-Keyed (fail_op now i error) q f k =
    rw (fail_lem now i error q) (Keyed-update_where job_id _ _ (λ j. refl) q k)
apply-Keyed (requeue_op now i after) q f k = Keyed-update_where job_id _ _ (λ j. refl) q k
apply-Keyed (cancel_op now i) q f k = Keyed-update_where job_id _ _ (λ j. refl) q k

module _ {P : Queue → Type 0}
    (step : (o : Op) (q : Queue) → Keyed job_id q → P q → P (apply o q)) where
  -- Induction over a history that starts on a keyed table and whose new ids are fresh.
  pub run_induction :
      (os : List Op) (q : Queue) → AllFresh os q → Keyed job_id q → P q → P (run os q)
  unfolding run
  run_induction [] q f k h = h
  run_induction (o ∷ os) q f k h =
      run_induction os (apply o q) f.1 (apply-Keyed o q f.0 k) (step o q k h)
