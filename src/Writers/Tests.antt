-- ===== src/Writers/Tests.antt =====
-- A job beside a delivery that is replayed, a sweep and the purge of another project.
use memoratum.Base.{◌≡◌, ◌⊎◌, refl, none, some, List, [], ◌∷◌, ◌++◌, false}
use memoratum.Json.{end, get_text}
use memoratum.Table.{find_where}
use memoratum.Table.Keyed.{Keyed}
use memoratum.Jobs.{Job, fresh_job, has_id}
use memoratum.Jobs.Claim.{job_id}
use memoratum.Jobs.Steps.{claim_op}
use memoratum.Jobs.History.{Evolves}
use memoratum.Outbox.{Outbox, Delivery, dead, memory_add, delivery_job}
use memoratum.Retention.{is_active}
use memoratum.Writers.{Write, queue, replay, sweep_jobs, force, purge, elsewhere, run}
use memoratum.Writers.Fate.{run-Evolves}

abbrev ingest : Job
ingest = fresh_job "a" 10 "ingest" end none

abbrev delivery : Delivery
delivery = record {
  id = "d";
  event_id = "e";
  webhook_id = "w";
  project_id = "p";
  event_type = memory_add;
  memory_id = none;
  payload = end;
  status = dead;
  attempts = 5;
  next_attempt_at = none;
  last_error = none;
  response_status = none;
  created_at = 11;
  updated_at = 11;
}

abbrev outbox : Outbox
outbox = record {
  projects = "p" ∷ [];
  webhooks = [];
  events = [];
  deliveries = delivery ∷ [];
  jobs = ingest ∷ delivery_job "b" "d" (some "p") 11 11 ∷ [];
}

outbox-Keyed : Keyed job_id outbox.jobs
outbox-Keyed = ((refl, tt), (tt, tt))

abbrev commits : List Write
commits =
    replay "c" "d" 12
    ∷ sweep_jobs 999
    ∷ force ("a" ∷ [])
    ∷ purge "q" none
    ∷ elsewhere outbox
    ∷ queue (claim_op 20 300 "w1")
    ∷ []

run-Evolves_example :
    ((k : Job) × (find_where (has_id "a") (run commits outbox).jobs ≡ some k) × Evolves ingest k)
    ⊎ ((us : List Write) × (vs : List Write) × (k : Job) × (commits ≡ us ++ vs)
        × (find_where (has_id "a") (run us outbox).jobs ≡ some k)
        × Evolves ingest k
        × (is_active k ≡ false))
unfolding get_text
run-Evolves_example =
    run-Evolves "a" commits outbox ingest outbox-Keyed
      (unfold find_where in refl, (tt, (tt, (tt, (tt, (tt, tt)))))) refl
      (tt, (tt, (tt, (refl, (tt, (tt, tt)))))) (unfold find_where in refl)
