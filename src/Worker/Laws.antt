-- ===== src/Worker/Laws.antt =====
-- worker.py: how a turn of the worker ends.
use memoratum.Base.{
  ℕ, ◌≡◌, refl, ap, ◌∙◌, sym, String, Option, none, some, leb, if◌then◌else◌, Bool-cases, inl, inr,
  subst,
}
use memoratum.Table.{find_where}
use memoratum.Table.Laws.{find_where-update_where_self}
use memoratum.Jobs.{Job, Queue, Status, queued, done, failed, has_id, claim, heartbeat, requeue}
use memoratum.Jobs.Steps.{finish, give_up, complete_lem, fail_lem}
use memoratum.Worker.{
  Outcome, returned, value_error, raised, max_job_attempts, settle, work_on, run_once,
}

-- A result ends the job; a ValueError fails it at once; another exception fails it at the third attempt, and puts it
-- back in the queue before.
abbrev pub final_status : Outcome → ℕ → Status
final_status (returned result) attempts = done
final_status (value_error text) attempts = failed
final_status (raised text) attempts = if leb max_job_attempts attempts then failed else queued

-- The row after the turn.
abbrev pub IsSettled : Status → Job → Option Job → Type 0
IsSettled status r o =
    (k : Job) × (o ≡ some k)
    × (k.status ≡ status)
    × (k.attempts ≡ r.attempts)
    × (k.lease_expires_at ≡ 0)
    × (k.heartbeat_at ≡ none)

settle_lem :
    (now : ℕ) (j r : Job) (out : Outcome) (q : Queue)
    → find_where (has_id j.id) q ≡ some r
    → IsSettled (final_status out j.attempts) r (find_where (has_id j.id) (settle now j out q))
unfolding settle requeue
settle_lem now j r (returned result) q h = (
  finish now (some result) r,
  ap (find_where (has_id j.id)) (complete_lem now j.id (some result) q)
      ∙ find_where-update_where_self (has_id j.id) (finish now (some result)) (λ s e. e) q r h,
  refl,
  refl,
  refl,
  refl,
)
settle_lem now j r (value_error text) q h = (
  give_up now _ r,
  ap (find_where (has_id j.id)) (fail_lem now j.id _ q)
      ∙ find_where-update_where_self (has_id j.id) (give_up now _) (λ s e. e) q r h,
  refl,
  refl,
  refl,
  refl,
)
settle_lem now j r (raised text) q h = elim (Bool-cases (leb max_job_attempts j.attempts)) [
  | inl e ↦ rw e (
    give_up now text r,
    ap (find_where (has_id j.id)) (fail_lem now j.id text q)
        ∙ find_where-update_where_self (has_id j.id) (give_up now text) (λ s e. e) q r h,
    refl,
    refl,
    refl,
    refl,
  )
  | inr e ↦ rw e (requeued now j.id q r h)
]
  where
    requeued :
        (now : ℕ) (i : String) (q : Queue) (r : Job)
        → find_where (has_id i) q ≡ some r
        → IsSettled queued r (find_where (has_id i) (requeue now i none q))
    requeued now i q r h =
        (_, find_where-update_where_self (has_id i) _ (λ s e. e) q r h, refl, refl, refl, refl)

-- A turn that claims a job, whose row the handler leaves in the queue, settles it by how its handler ends: done with its result, failed on a ValueError, and on
-- any other exception failed if this was the third attempt or later and queued again if not; the row has the attempts
-- that the handler left it with, and no lease.
pub run_once_lem :
    (dispatch : Job → Queue → Outcome × Queue) (ttl : ℕ) (worker : String)
    (claimed_at renewed_at ended_at : ℕ) (q : Queue) (j r : Job)
    → (claim claimed_at ttl worker q).0 ≡ some j
    → find_where
        (has_id j.id)
        (dispatch j (heartbeat renewed_at ttl j.id (claim claimed_at ttl worker q).1).1).1
      ≡ some r
    → ((run_once dispatch ttl worker claimed_at renewed_at ended_at q).0 ≡ some j.id)
      × IsSettled
          (final_status
            (dispatch j (heartbeat renewed_at ttl j.id (claim claimed_at ttl worker q).1).1).0
            j.attempts)
          r
          (find_where
            (has_id j.id)
            (run_once dispatch ttl worker claimed_at renewed_at ended_at q).1)
unfolding run_once work_on
run_once_lem dispatch ttl worker claimed_at renewed_at ended_at q j r c f =
    let done = dispatch j (heartbeat renewed_at ttl j.id (claim claimed_at ttl worker q).1).1 in
    let same =
      ap
        (λ o.
          work_on dispatch ttl worker claimed_at renewed_at ended_at o
            (claim claimed_at ttl worker q).1)
        c in
    (
      ap (λ (x : Option String × Queue). x.0) same,
      subst
          (λ (x : Option String × Queue).
            IsSettled (final_status done.0 j.attempts) r (find_where (has_id j.id) x.1))
          (sym same) (settle_lem ended_at j r done.0 done.1 f),
    )
