-- ===== src/Jobs/Invariant.antt =====
-- What holds of every row at every commit, whichever functions of jobs.py are called.
use memoratum.Base.{◌<◌, ◌≡◌, true, false, none, All, is_some}
use memoratum.Table.Keyed.{Keyed}
use memoratum.Jobs.{Job, Queue, is_queued, is_running}

pub record JobOk (j : Job) : Type 0 where
  pub idle : is_running j.status ≡ false → (j.lease_expires_at ≡ 0) × (j.heartbeat_at ≡ none)
  pub unowned : is_queued j.status ≡ true → j.worker ≡ none
  pub owned : is_running j.status ≡ true → (is_some j.worker ≡ true) × (0 < j.attempts)

abbrev pub IsSound : Queue → Type 0
IsSound q = All JobOk q
