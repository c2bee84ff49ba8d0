-- ===== src/Jobs/Lease.antt =====
-- The lease decides, the same way for every operation, whether a running job has a worker.
use memoratum.Base.{
  ℕ, ◌≡◌, refl, Bool, true, false, not, ◌&&◌, ◌||◌, some, [], ◌∷◌, String, arith, ◌∙◌,
  if◌then◌else◌, eqb,
}
use memoratum.Table.{find_where, update_where, select_where}
use memoratum.Table.Keyed.{Keyed, count_where-Keyed, find_where-update_where}
use memoratum.Jobs.{
  Job, Queue, is_queued, is_running, has_id, is_live, is_stale, is_cancellable, extend,
  back_to_queue, cancel_row, heartbeat, reap_stale, cancel, is_stuck,
}
use memoratum.Jobs.Claim.{job_id}

rowcount_one : (b : Bool) → eqb (if b then 1 else 0) 1 ≡ b
rowcount_one true = refl
rowcount_one false = refl

pub found_id :
    (i : String) (q : Queue) (j : Job) → find_where (has_id i) q ≡ some j → has_id i j ≡ true
unfolding find_where
found_id i [] j h = cc
found_id i (r ∷ rs) j h = ground (arith, found_id i rs j)

module _ (now : ℕ) (i : String) (q : Queue) (j : Job) (k : Keyed job_id q)
    (found : find_where (has_id i) q ≡ some j) where
  -- `heartbeat` succeeds exactly for a running job whose lease has not lapsed, and then moves the
  -- lease to the later of its deadline and `now + ttl`; else it leaves the job as it was.
  pub heartbeat_lem :
      (ttl : ℕ)
      → ((heartbeat now ttl i q).0 ≡ is_live now j)
        × (find_where (has_id i) (heartbeat now ttl i q).1
            ≡ some (if is_live now j then extend now ttl j else j))
  unfolding heartbeat
  heartbeat_lem ttl = (
    rw (count_where-Keyed job_id i (is_live now) q j k found) (rowcount_one (is_live now j)),
    find_where-update_where job_id i (λ r. has_id i r && is_live now r) (extend now ttl) (λ r. refl)
          q j found
        ∙ ground (arith, found_id i q j found),
  )

  pub cancel_lem :
      ((cancel now i q).0 ≡ is_cancellable now j)
      × (find_where (has_id i) (cancel now i q).1
          ≡ some (if is_cancellable now j then cancel_row now j else j))
  unfolding cancel
  cancel_lem = (
    rw (count_where-Keyed job_id i (is_cancellable now) q j k found)
        (rowcount_one (is_cancellable now j)),
    find_where-update_where job_id i (λ r. has_id i r && is_cancellable now r) (cancel_row now)
          (λ r. refl) q j found
        ∙ ground (arith, found_id i q j found),
  )

  reap_lem :
      find_where (has_id i) (reap_stale now q).1
      ≡ some (if is_stale now j then back_to_queue now j else j)
  unfolding reap_stale
  reap_lem =
      find_where-update_where job_id i (is_stale now) (back_to_queue now) (λ r. refl) q j found

  stuck_lem : is_stuck now i q ≡ is_stale now j
  unfolding is_stuck
  stuck_lem = rw (found, is_stuck)

  -- For a running job the operations agree at every moment on whether it still has a worker: the
  -- heartbeat succeeds, or else the job is stuck, an operator's cancellation succeeds, and the
  -- reaper puts it back in the queue with no worker and the attempts it had.
  pub lease_agreement :
      is_running j.status ≡ true
      → (ttl : ℕ)
      → ((heartbeat now ttl i q).0 ≡ not (is_stuck now i q))
        × ((cancel now i q).0 ≡ is_stuck now i q)
        × (find_where (has_id i) (reap_stale now q).1
            ≡ some (if is_stuck now i q then back_to_queue now j else j))
  lease_agreement r ttl =
      rw (stuck_lem) (ground (arith, heartbeat_lem ttl), ground (arith, cancel_lem), reap_lem)

  -- `cancel` succeeds exactly for a queued job and for a running one whose lease has lapsed, and a
  -- cancelled job has no worker and no lease; any other job is left as it was.
  pub cancel_outcome :
      ((cancel now i q).0 ≡ (is_queued j.status || is_stuck now i q))
      × (find_where (has_id i) (cancel now i q).1
          ≡ some (if (cancel now i q).0 then cancel_row now j else j))
  cancel_outcome = rw (cancel_lem.0, stuck_lem) (refl, cancel_lem.1)

none_stale :
    (now : ℕ) (q : Queue)
    → select_where (is_stale now) (update_where (is_stale now) (back_to_queue now) q) ≡ []
unfolding select_where update_where
none_stale now [] = refl
none_stale now (j ∷ q) = ground (arith, none_stale now q)

no_stale_no_change :
    (now : ℕ) (q : Queue)
    → select_where (is_stale now) q ≡ []
    → update_where (is_stale now) (back_to_queue now) q ≡ q
unfolding select_where update_where
no_stale_no_change now [] h = refl
no_stale_no_change now (j ∷ q) h = ground (arith, no_stale_no_change now q)

-- One sweep of the reaper finds every stale job: a second one at the same time returns no job and
-- changes nothing.
pub reap-reap :
    (now : ℕ) (q : Queue) → reap_stale now (reap_stale now q).1 ≡ ([], (reap_stale now q).1)
unfolding reap_stale
reap-reap now q = rw (none_stale now q) (
    rw (
      no_stale_no_change now (update_where (is_stale now) (back_to_queue now) q)
        (none_stale now q)))
