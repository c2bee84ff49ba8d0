-- ===== src/Writers.antt =====
-- Every commit that writes the table of jobs: the functions of jobs.py, the outbox of webhooks.py with its inserts,
-- retries and replays, the sweep of retention.py, the purge of a project in db.py, and the script
-- recover_stuck_jobs.py, which ends leases by force.
pub mod Keys
pub mod Fate
mod Tests
use memoratum.Base.{ℕ, String, Bool, ◌&&◌, ◌==◌, Option, none, List, [], ◌∷◌, ◌≡◌}
use memoratum.Table.{find_where, update_where, delete_where}
use memoratum.Jobs.{Job, Queue, has_id, is_running}
use memoratum.Jobs.Steps.{Op}
use memoratum.Outbox.{Outbox, enqueue_delivery_job}
use memoratum.Outbox.Attempts.{schedule_delivery_retry}
use memoratum.Outbox.Replay.{replay_delivery}
use memoratum.Retention.{old_job}
use memoratum.Purge.{purge_jobs}

abbrev pub unlease : Job → Job
unlease j = record j { lease_expires_at = 0 }

abbrev pub is_running_id : String → Job → Bool
is_running_id i j = j.id == i && is_running j.status

-- The loop under `--force`, over the ids of the live jobs.
unfoldable pub force_expire : List String → Queue → Queue
force_expire [] q = q
force_expire (i ∷ is) q = force_expire is (update_where (is_running_id i) unlease q)

-- `elsewhere` is any commit that leaves the table of jobs and writes the other tables of the outbox.
pub data Write : Type 0 where
  queue : Op → Write
  deliver : String → ℕ → String → ℕ → Write
  retry : String → String → ℕ → ℕ → Write
  replay : String → String → ℕ → Write
  sweep_jobs : ℕ → Write
  force : List String → Write
  purge : String → Option String → Write
  elsewhere : Outbox → Write

unfoldable pub write : Write → Outbox → Outbox
write (queue op) o = record o { jobs = memoratum.Jobs.Steps.apply op o.jobs }
write (deliver job_id now i run_after) o = enqueue_delivery_job job_id now i run_after o
write (retry job_id i clock run_at) o = schedule_delivery_retry job_id i clock run_at o
write (replay job_id i now) o = (replay_delivery job_id i now o).1
write (sweep_jobs cutoff) o = record o { jobs = delete_where (old_job cutoff) o.jobs }
write (force ids) o = record o { jobs = force_expire ids o.jobs }
write (purge project preserved) o = purge_jobs project preserved o
write (elsewhere other) o = record other { jobs = o.jobs }

unfoldable pub run : List Write → Outbox → Outbox
run [] o = o
run (w ∷ ws) o = run ws (write w o)

-- uuid4 gives an id that no row has.
abbrev pub IsFresh : Write → Queue → Type 0
IsFresh (queue op) q = memoratum.Jobs.Steps.IsFresh op q
IsFresh (deliver job_id _ _ _) q = find_where (has_id job_id) q ≡ none
IsFresh (retry job_id _ _ _) q = find_where (has_id job_id) q ≡ none
IsFresh (replay job_id _ _) q = find_where (has_id job_id) q ≡ none
IsFresh _ q = Unit

abbrev pub AllFresh : List Write → Outbox → Type 0
AllFresh [] o = Unit
AllFresh (w ∷ ws) o = IsFresh w o.jobs × AllFresh ws (write w o)
