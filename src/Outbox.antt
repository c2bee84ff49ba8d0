-- ===== src/Outbox.antt =====
-- webhooks.py: domain events and the deliveries that they enqueue (the transactional outbox), in the
-- caller's transaction. `fresh` draws the uuids of the delivery and of its job for a webhook.
pub mod Events
pub mod Attempts
pub mod Replay
pub mod OneJob
pub mod Soundness
pub mod Trials
mod Tests
use Prim.Native.String.{compare}
use Prim.Native.Nat.{Ordering}
use memoratum.Base.{
  ℕ, String, Bool, true, false, ◌&&◌, ◌||◌, Option, none, some, List, [], ◌∷◌, ◌++◌, map, ◌==◌, ltb,
  eqb, if◌then◌else◌, is_some, opt_eq,
}
use memoratum.Json.{Json, Fields, null, str, obj, end, field}
use memoratum.Table.{select_where, find_where}
use memoratum.Jobs.{Job, Queue, queued}

-- The names of SUPPORTED_EVENTS; any other text is `unsupported`.
pub data EventType : Type 0 where
  memory_add memory_update memory_delete memory_categorize : EventType
  ingest_job_completed ingest_job_partially_completed ingest_job_failed ingest_job_cancelled :
      EventType
  unsupported : EventType

pub EventType-discrete : Discrete EventType
EventType-discrete = hlevel

pub record Webhook : Type 0 where
  pub id : String
  pub project_id : String
  pub url : String
  pub event_types : List EventType
  pub is_active : Bool

pub record DomainEvent : Type 0 where
  pub id : String
  pub project_id : String
  pub event_type : EventType
  pub memory_id : Option String
  pub payload : Fields
  pub created_at : ℕ

pub data DeliveryStatus : Type 0 where
  waiting succeeded dead : DeliveryStatus

-- A row of `webhook_deliveries`; `waiting` is the status 'queued'.
pub record Delivery : Type 0 where
  pub id : String
  pub event_id : String
  pub webhook_id : String
  pub project_id : String
  pub event_type : EventType
  pub memory_id : Option String
  pub payload : Fields
  pub status : DeliveryStatus
  pub attempts : ℕ
  pub next_attempt_at : Option ℕ
  pub last_error : Option String
  pub response_status : Option ℕ
  pub created_at : ℕ
  pub updated_at : ℕ

pub record Outbox : Type 0 where
  pub projects : List String
  pub webhooks : List Webhook
  pub events : List DomainEvent
  pub deliveries : List Delivery
  pub jobs : Queue

abbrev pub is_supported : EventType → Bool
is_supported unsupported = false
is_supported _ = true

-- event_type.removeprefix("memory_").upper()
abbrev pub event_label : EventType → String
event_label memory_add = "ADD"
event_label memory_update = "UPDATE"
event_label memory_delete = "DELETE"
event_label memory_categorize = "CATEGORIZE"
event_label ingest_job_completed = "INGEST_JOB_COMPLETED"
event_label ingest_job_partially_completed = "INGEST_JOB_PARTIALLY_COMPLETED"
event_label ingest_job_failed = "INGEST_JOB_FAILED"
event_label ingest_job_cancelled = "INGEST_JOB_CANCELLED"
event_label unsupported = ""

abbrev pub text_or_null : Option String → Json
text_or_null none = null
text_or_null (some s) = str s

abbrev pub event_payload : EventType → Option String → Fields → Fields
event_payload event memory details =
    field "event_details"
      (obj (
        field "id" (text_or_null memory)
          (field "event" (str (event_label event)) (field "data" (obj details) end))))
      end

abbrev pub has_delivery_id : String → Delivery → Bool
has_delivery_id i d = d.id == i

abbrev pub delivery_payload : String → Fields
delivery_payload i = field "delivery_id" (str i) end

abbrev pub project_of : Option Delivery → Option String
project_of none = none
project_of (some d) = some d.project_id

abbrev pub delivery_job : String → String → Option String → ℕ → ℕ → Job
delivery_job job_id delivery_id project now run_after = record {
  id = job_id;
  kind = "webhook_delivery";
  payload = delivery_payload delivery_id;
  project_id = project;
  status = queued;
  attempts = 0;
  result = none;
  error = none;
  worker = none;
  created_at = now;
  updated_at = now;
  run_after = run_after;
  lease_expires_at = 0;
  heartbeat_at = none;
}

abbrev pub new_event : String → String → EventType → Option String → Fields → ℕ → DomainEvent
new_event event_id project event memory payload now = record {
  id = event_id;
  project_id = project;
  event_type = event;
  memory_id = memory;
  payload = payload;
  created_at = now;
}

abbrev pub add_event : DomainEvent → Outbox → Outbox
add_event e o = record o { events = o.events ++ e ∷ [] }

-- `_enqueue_delivery_job`
unfoldable pub enqueue_delivery_job : String → ℕ → String → ℕ → Outbox → Outbox
enqueue_delivery_job job_id now delivery_id run_after o = record o {
  jobs =
      o.jobs
      ++ delivery_job job_id delivery_id
          (project_of (find_where (has_delivery_id delivery_id) o.deliveries)) now run_after
        ∷ [];
}

unfoldable pub has_event : EventType → List EventType → Bool
has_event e [] = false
has_event e (f ∷ fs) = elim (EventType-discrete e f) [ yes _ ↦ true | no _ ↦ has_event e fs ]

abbrev pub subscribes : String → EventType → Webhook → Bool
subscribes project event w = w.project_id == project && w.is_active && has_event event w.event_types

abbrev pub fresh_delivery :
    String → String → String → EventType → Option String → Fields → ℕ → Webhook → Delivery
fresh_delivery delivery_id event_id project event memory payload now w = record {
  id = delivery_id;
  event_id = event_id;
  webhook_id = w.id;
  project_id = project;
  event_type = event;
  memory_id = memory;
  payload = payload;
  status = waiting;
  attempts = 0;
  next_attempt_at = some now;
  last_error = none;
  response_status = none;
  created_at = now;
  updated_at = now;
}

module _ (fresh : Webhook → String × String) (event_id : String) (now : ℕ) where
  -- The body of the loop over the active webhooks of the project.
  unfoldable pub deliver_to :
      String → EventType → Option String → Fields → Webhook → Outbox → Outbox
  unfolding enqueue_delivery_job
  deliver_to project event memory payload w o =
      let delivery = fresh_delivery (fresh w).0 event_id project event memory payload now w in
      if has_event event w.event_types
      then enqueue_delivery_job (fresh w).1 now (fresh w).0 now
          (record o { deliveries = o.deliveries ++ delivery ∷ [] })
      else o

  unfoldable pub deliver_all :
      String → EventType → Option String → Fields → List Webhook → Outbox → Outbox
  deliver_all project event memory payload [] o = o
  deliver_all project event memory payload (w ∷ ws) o =
      deliver_all project event memory payload ws (deliver_to project event memory payload w o)

  -- `none` is the ValueError; the inner option is the id of the event, if one was recorded.
  unfoldable pub record_event :
      Option String → EventType → Option String → Fields → Outbox → Option (Option String × Outbox)
  record_event project event memory details o =
      if is_supported event
      then some (elim project [
        | none ↦ (none, o)
        | some p ↦
            if is_some (find_where (λ q. q == p) o.projects)
            then (
              some event_id,
              deliver_all p event memory (event_payload event memory details)
                  (select_where (λ w. w.project_id == p && w.is_active) o.webhooks)
                  (add_event
                    (new_event event_id p event memory (event_payload event memory details) now) o),
            )
            else (none, o)
      ])
      else none
