-- ===== src/Outbox/Tests.antt =====
-- The outbox at a concrete project with two webhooks.
use memoratum.Base.{ℕ, String, ◌≡◌, refl, true, false, none, some, [], ◌∷◌, arith}
use memoratum.Json.{end}
use memoratum.Table.{find_where}
use memoratum.Outbox.{
  Webhook, Delivery, Outbox, memory_add, memory_update, succeeded, dead, fresh_delivery,
  record_event,
}
use memoratum.Outbox.Events.{Recorded, record_event_lem}
use memoratum.Outbox.Attempts.{response, is_later, delivery_row}
use memoratum.Outbox.Replay.{replay_delivery, can_replay}
use memoratum.Table.Keyed.{Keyed}
use memoratum.Jobs.Claim.{job_id}
use memoratum.Outbox.OneJob.{job_count, replay_one_job}
use memoratum.Outbox.Soundness.{Advanced, delivery_at}
use memoratum.Outbox.Trials.{Attempt, attempt, attempts_at, attempt_outcome, gives_up}

abbrev hook : Webhook
hook = record {
  id = "wh";
  project_id = "p";
  url = "https://example.com/";
  event_types = memory_add ∷ [];
  is_active = true;
}

abbrev other_hook : Webhook
other_hook = record hook { id = "other"; event_types = memory_update ∷ [] }

abbrev row : Delivery
row = fresh_delivery "d" "e" "p" memory_add none end 10 hook

abbrev outbox : Outbox
outbox = record {
  projects = "p" ∷ [];
  webhooks = hook ∷ other_hook ∷ [];
  events = [];
  deliveries = row ∷ [];
  jobs = [];
}

abbrev fresh_ids : Webhook → String × String
fresh_ids w = ("d2", "j2")

abbrev rejected : ℕ → String
rejected code = "HTTPError"

abbrev refused : ℕ → Attempt
refused t = record { answer = λ _ _. response 500 10; job_id = "j"; now = some t; clock = t }

record_event_lem_example :
    (o' : Outbox) × (record_event fresh_ids "e2" 20 (some "p") memory_add none end outbox
      ≡ some (some "e2", o'))
    × Recorded fresh_ids "e2" 20 "p" memory_add none end outbox o'
record_event_lem_example =
    record_event_lem fresh_ids "e2" 20 "p" memory_add none end outbox refl
      (unfold find_where in refl)

attempt_outcome_example :
    Advanced 5 false 30 row (delivery_at "d" (attempt rejected 65536 5 "d" (refused 30) outbox))
attempt_outcome_example =
    attempt_outcome rejected 65536 5 "d" (refused 30) outbox row hook (unfold find_where in refl)
      (unfold find_where in refl) refl refl

abbrev finished : Outbox
finished = record outbox { deliveries = record row { status = succeeded } ∷ [] }

find_finished : delivery_row "d" finished ≡ some (record row { status = succeeded }, hook)
unfolding delivery_row find_where
find_finished = refl

abbrev buried_delivery : Outbox
buried_delivery = record outbox { deliveries = record row { status = dead; attempts = 5 } ∷ [] }

not_later : (d : Delivery) → delivery_at "d" outbox ≡ some d → is_later 30 d.next_attempt_at ≡ false
unfolding find_where
not_later d h = ground (arith, h)

gives_up_example :
    (k : Delivery) × (delivery_at "d" (attempts_at rejected 65536 1 "d" (refused 30 ∷ []) outbox)
      ≡ some k)
    × (k.status ≡ dead)
    × (k.attempts ≡ 1)
gives_up_example =
    gives_up rejected 65536 1 0 "d" (refused 30 ∷ []) outbox row hook refl refl
      (unfold find_where in refl) (unfold find_where in refl) refl
      ((λ d h. not_later d h), (λ w d. refl), tt)

no_jobs-Keyed : Keyed job_id buried_delivery.jobs
no_jobs-Keyed = tt

can_replay_buried : can_replay "d" buried_delivery ≡ true
unfolding find_where
can_replay_buried = refl

replay_one_job_example : job_count "d" (replay_delivery "j" "d" 50 buried_delivery).1.jobs ≡ 1
replay_one_job_example = replay_one_job "j" "d" 50 buried_delivery no_jobs-Keyed can_replay_buried
