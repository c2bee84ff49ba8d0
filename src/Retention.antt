-- ===== src/Retention.antt =====
-- retention.py: the sweep of rows past their retention window. Times are seconds; a cutoff before time 0 is 0, which
-- no row precedes.
pub mod Laws
mod Tests
use memoratum.Base.{
  ℕ, ◌-◌, ◌*◌, String, Bool, true, false, ◌&&◌, ◌||◌, not, Option, none, some, List, [], ◌∷◌, ◌++◌,
  ◌==◌, ltb, if◌then◌else◌, is_some,
}
use memoratum.Table.{find_where, delete_where, count_where}
use memoratum.Jobs.{Job, Queue, Status, queued, running}
use memoratum.Outbox.{Delivery, DeliveryStatus, waiting, DomainEvent}
use memoratum.Memory.Tables.{HistoryRow}
use memoratum.Idempotency.{Entry}
use memoratum.Keys.{RevokedKey}

pub record ShareLink : Type 0 where
  pub id : String
  pub token_hash : String
  pub document_id : String
  pub created_by : Option String
  pub created_at : ℕ
  pub expires_at : ℕ
  pub revoked_at : Option ℕ

-- The column of `audit_events` that the sweep reads.
pub record AuditEvent : Type 0 where
  pub id : String
  pub created_at : ℕ

-- The tables that the sweep touches.
pub record Timed : Type 0 where
  pub deliveries : List Delivery
  pub events : List DomainEvent
  pub history : List HistoryRow
  pub jobs : Queue
  pub links : List ShareLink
  pub keys : List Entry
  pub audit : List AuditEvent
  pub revoked : List RevokedKey

-- The names of SWEEP_ORDER.
pub data TableName : Type 0 where
  webhook_deliveries domain_events memory_history jobs share_links : TableName
  idempotency_keys audit_events revoked_keys : TableName

abbrev pub sweep_order : List TableName
sweep_order =
    webhook_deliveries ∷ domain_events ∷ memory_history ∷ jobs ∷ share_links ∷ idempotency_keys
    ∷ audit_events ∷ revoked_keys ∷ []

abbrev pub is_outstanding : Delivery → Bool
is_outstanding d = elim d.status [ waiting ↦ true | _ ↦ false ]

abbrev pub is_active : Job → Bool
is_active j = elim j.status [ queued ↦ true | running ↦ true | _ ↦ false ]

abbrev pub delivery_of : DomainEvent → Delivery → Bool
delivery_of e d = d.event_id == e.id

abbrev pub is_earlier : ℕ → Option ℕ → Bool
is_earlier cutoff none = false
is_earlier cutoff (some t) = ltb t cutoff

abbrev pub old_delivery : ℕ → Delivery → Bool
old_delivery cutoff d = ltb d.created_at cutoff && not (is_outstanding d)

abbrev pub old_event : ℕ → List Delivery → DomainEvent → Bool
old_event cutoff ds e = ltb e.created_at cutoff && not (is_some (find_where (delivery_of e) ds))

abbrev pub old_row : ℕ → HistoryRow → Bool
old_row cutoff h = ltb h.created_at cutoff

abbrev pub old_job : ℕ → Job → Bool
old_job cutoff j = ltb j.created_at cutoff && not (is_active j)

abbrev pub old_link : ℕ → ShareLink → Bool
old_link cutoff l = ltb l.expires_at cutoff || is_earlier cutoff l.revoked_at

abbrev pub old_key : ℕ → Entry → Bool
old_key cutoff e = ltb e.expires_at cutoff

abbrev pub old_audit : ℕ → AuditEvent → Bool
old_audit cutoff a = ltb a.created_at cutoff

abbrev pub old_revocation : ℕ → RevokedKey → Bool
old_revocation cutoff r = ltb r.revoked_at cutoff

-- DELETE FROM the table, and its rowcount.
unfoldable pub sweep_table : ℕ → TableName → Timed → ℕ × Timed
sweep_table cutoff webhook_deliveries t = (
  count_where (old_delivery cutoff) t.deliveries,
  record t { deliveries = delete_where (old_delivery cutoff) t.deliveries },
)
sweep_table cutoff domain_events t = (
  count_where (old_event cutoff t.deliveries) t.events,
  record t { events = delete_where (old_event cutoff t.deliveries) t.events },
)
sweep_table cutoff memory_history t = (
  count_where (old_row cutoff) t.history,
  record t { history = delete_where (old_row cutoff) t.history },
)
sweep_table cutoff jobs t =
    (count_where (old_job cutoff) t.jobs, record t { jobs = delete_where (old_job cutoff) t.jobs })
sweep_table cutoff share_links t = (
  count_where (old_link cutoff) t.links,
  record t { links = delete_where (old_link cutoff) t.links },
)
sweep_table cutoff idempotency_keys t =
    (count_where (old_key cutoff) t.keys, record t { keys = delete_where (old_key cutoff) t.keys })
sweep_table cutoff audit_events t = (
  count_where (old_audit cutoff) t.audit,
  record t { audit = delete_where (old_audit cutoff) t.audit },
)
sweep_table cutoff revoked_keys t = (
  count_where (old_revocation cutoff) t.revoked,
  record t { revoked = delete_where (old_revocation cutoff) t.revoked },
)

-- The days of `retention_policies`; `none` is a table with no row there or no days.
abbrev pub Policies : Type 0
Policies = TableName → Option ℕ

unfoldable pub cutoff_days : Policies → Option ℕ → TableName → Option ℕ
cutoff_days policies none name = policies name
cutoff_days policies (some days) name = some days

-- The days that `seed_policies` writes.
abbrev pub default_policies : Policies
default_policies webhook_deliveries = some 90
default_policies domain_events = some 90
default_policies memory_history = some 365
default_policies jobs = some 30
default_policies share_links = some 30
default_policies idempotency_keys = some 24
default_policies audit_events = some 365
default_policies revoked_keys = some 90

-- A probe counts and leaves the tables alone.
abbrev pub keep_if : Bool → Timed → ℕ × Timed → ℕ × Timed
keep_if true t r = (r.0, t)
keep_if false t r = r

unfoldable pub sweep_one : ℕ → Bool → TableName → Option ℕ → Timed → Option (TableName × ℕ) × Timed
unfolding sweep_table
sweep_one now dry_run name none t = (none, t)
sweep_one now dry_run name (some days) t =
    let r = keep_if dry_run t (sweep_table (now - days * 86400) name t) in (some (name, r.0), r.1)

abbrev pub add_count : Option (TableName × ℕ) → List (TableName × ℕ) → List (TableName × ℕ)
add_count none cs = cs
add_count (some c) cs = c ∷ cs

unfoldable pub sweep_all :
    ℕ → Bool → Policies → Option ℕ → List TableName → Timed → List (TableName × ℕ) × Timed
unfolding sweep_one cutoff_days
sweep_all now dry_run policies days [] t = ([], t)
sweep_all now dry_run policies days (n ∷ ns) t =
    let one = sweep_one now dry_run n (cutoff_days policies days n) t in
    let rest = sweep_all now dry_run policies days ns one.1 in (add_count one.0 rest.0, rest.1)

unfoldable pub sweep : ℕ → Bool → Policies → Option ℕ → Timed → List (TableName × ℕ) × Timed
unfolding sweep_all
sweep now dry_run policies days t = sweep_all now dry_run policies days sweep_order t
