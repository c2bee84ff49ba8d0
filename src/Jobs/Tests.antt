-- ===== src/Jobs/Tests.antt =====
-- The queue at concrete tables.
use memoratum.Base.{◌+◌, ◌≡◌, ◌≢◌, refl, true, none, some, List, [], ◌∷◌, arith, not, if◌then◌else◌}
use memoratum.Json.{end}
use memoratum.Table.{find_where, select_where, update_where, count_where, order_by, first_row}
use memoratum.Table.Keyed.{Keyed}
use memoratum.Jobs.{
  Job, Queue, queued, done, integer, lease_seconds, fresh_job, has_id, decode, start, back_to_queue,
  claim, heartbeat, reap_stale, cancel, complete, is_stuck, get,
}
use memoratum.Jobs.Claim.{job_id, Claimed, claim_lem, claim-claim_ne}
use memoratum.Jobs.Steps.{Op, claim_op, heartbeat_op, reap_op, progress_op, complete_op, run}
use memoratum.Jobs.Lease.{lease_agreement}
use memoratum.Jobs.LostClaim.{crashes, crash_loop, complete-cancel}

abbrev first_job : Job
first_job = fresh_job "a" 10 "ingest" end none

abbrev second_job : Job
second_job = fresh_job "b" 5 "dream" end none

abbrev late_job : Job
late_job = fresh_job "c" 1 "webhook_delivery" end (some 99)

abbrev backlog : Queue
backlog = first_job ∷ second_job ∷ late_job ∷ []

backlog-Keyed : Keyed job_id backlog
backlog-Keyed = ((refl, (refl, tt)), ((refl, tt), (tt, tt)))

-- The oldest job that is due goes first; the one with a later `run_after` waits.
abbrev oldest : Job
oldest = decode (start 20 300 "w1" second_job)

claim-oldest : (claim 20 300 "w1" backlog).0 ≡ some oldest
unfolding claim select_where order_by first_row update_where count_where get find_where
claim-oldest = refl

lease_clamped : lease_seconds (integer 5) ≡ 30
unfolding lease_seconds
lease_clamped = refl

claim_lem_example :
    Claimed 20 300 "w1" backlog (claim 20 300 "w1" backlog).0 (claim 20 300 "w1" backlog).1
claim_lem_example = claim_lem 20 300 "w1" backlog backlog-Keyed

abbrev next_oldest : Job
next_oldest = decode (start 21 300 "w2" first_job)

claim-next : (claim 21 300 "w2" (claim 20 300 "w1" backlog).1).0 ≡ some next_oldest
unfolding claim select_where order_by first_row update_where count_where get find_where
claim-next = refl

claim-claim_ne_example : oldest.id ≢ next_oldest.id
claim-claim_ne_example =
    claim-claim_ne 20 300 21 300 "w1" "w2" backlog oldest next_oldest backlog-Keyed claim-oldest
      claim-next

abbrev history : List Op
history =
    claim_op 20 300 "w1"
    ∷ heartbeat_op 30 300 "b"
    ∷ progress_op 40 300 "b" end
    ∷ reap_op 500
    ∷ claim_op 501 300 "w2"
    ∷ complete_op 510 "b" none
    ∷ []

abbrev held : Job
held = start 20 300 "w1" second_job

abbrev working : Queue
working = first_job ∷ held ∷ []

working-Keyed : Keyed job_id working
working-Keyed = ((refl, tt), (tt, tt))

find_held : find_where (has_id "b") working ≡ some held
unfolding find_where
find_held = refl

lease_agreement_example :
    ((heartbeat 400 300 "b" working).0 ≡ not (is_stuck 400 "b" working))
    × ((cancel 400 "b" working).0 ≡ is_stuck 400 "b" working)
    × (find_where (has_id "b") (reap_stale 400 working).1
        ≡ some (if is_stuck 400 "b" working then back_to_queue 400 held else held))
lease_agreement_example = lease_agreement 400 "b" working held working-Keyed find_held refl 300

crash_loop_example :
    (k : Job) × (run (crashes 7 20 300 "w1") (first_job ∷ []) ≡ k ∷ [])
    × (k.status ≡ queued)
    × (k.attempts ≡ first_job.attempts + 7)
crash_loop_example = crash_loop 7 20 300 "w1" first_job refl (omega arith)

complete-cancel_example :
    (k : Job) × ((cancel 400 "b" working).0 ≡ true)
    × (find_where (has_id "b") (complete 401 "b" none (cancel 400 "b" working).1) ≡ some k)
    × (k.status ≡ done)
complete-cancel_example = complete-cancel 400 401 "b" none working held working-Keyed find_held refl
