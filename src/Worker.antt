-- ===== src/Worker.antt =====
-- worker.py: one turn of the worker. What the handler of a job's kind does is an argument: it may write the queue, and
-- returns a result or raises. The three times are those of the claim, of the heartbeat and of the end.
pub mod Laws
pub mod Bulk
pub mod Dispatch
mod Tests
use Prim.Native.String
use memoratum.Base.{ℕ, String, Option, none, some, leb, if◌then◌else◌}
use memoratum.Json.{Fields}
use memoratum.Jobs.{Job, Queue, claim, heartbeat, complete, fail, requeue}

-- The ends of the `try`: a result, a ValueError, another exception.
pub data Outcome : Type 0 where
  returned : Fields → Outcome
  value_error raised : String → Outcome

abbrev pub max_job_attempts : ℕ
max_job_attempts = 3

unfoldable pub settle : ℕ → Job → Outcome → Queue → Queue
settle now j (returned result) q = complete now j.id (some result) q
settle now j (value_error text) q = fail now j.id (String.◌++◌ "permanent: " text) q
settle now j (raised text) q =
    if leb max_job_attempts j.attempts then fail now j.id text q else requeue now j.id none q

module _ (dispatch : Job → Queue → Outcome × Queue) (ttl : ℕ) (worker : String)
    (claimed_at renewed_at ended_at : ℕ) where
  unfoldable pub work_on : Option Job → Queue → Option String × Queue
  unfolding settle
  work_on none q = (none, q)
  work_on (some j) q =
      let done = dispatch j (heartbeat renewed_at ttl j.id q).1 in
      (some j.id, settle ended_at j done.0 done.1)

  unfoldable pub run_once : Queue → Option String × Queue
  unfolding work_on
  run_once q = let c = claim claimed_at ttl worker q in work_on c.0 c.1
