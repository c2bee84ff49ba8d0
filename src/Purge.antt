-- ===== src/Purge.antt =====
-- db.py: deleting whole projects and expired rows, with what the foreign keys of the schema do to
-- the rows that refer to a deleted one: ON DELETE CASCADE, ON DELETE SET NULL, and for
-- `facts.superseded_by` an IntegrityError.
pub mod Erased
pub mod Others
pub mod Prune
pub mod Successors
mod Tests
use memoratum.Base.{
  ℕ, String, Bool, true, false, ◌&&◌, ◌||◌, not, Option, none, some, List, [], ◌∷◌, ◌==◌, leb,
  if◌then◌else◌, is_some, opt_eq, length,
}
use memoratum.Json.{get_text}
use memoratum.Table.{select_where, find_where, update_where, delete_where, count_where}
use memoratum.Jobs.{Job}
use memoratum.Keys.{ApiKey, RevokedKey, KeyStore, revokes}
use memoratum.Idempotency.{Entry}
use memoratum.Access.{Project, Member, Usage}
use memoratum.Outbox.{Webhook, DomainEvent, Delivery, Outbox}
use memoratum.Memory.Tables.{Memory, HistoryRow, Fact, Store}
use memoratum.Retention.{ShareLink}
use memoratum.Documents.{Document, Chunk}

-- The columns of `vector_points` and of `audit_events` that the deletions read.
pub record Point : Type 0 where
  pub id : String
  pub project_id : Option String

pub record AuditRow : Type 0 where
  pub id : String
  pub project_id : Option String

pub record World : Type 0 where
  pub store : Store
  pub documents : List Document
  pub chunks : List Chunk
  pub links : List ShareLink
  pub points : List Point
  pub keys : KeyStore
  pub entries : List Entry
  pub projects : List Project
  pub members : List Member
  pub usage : List Usage
  pub audit : List AuditRow

abbrev pub memory_in : (Memory → Bool) → List Memory → String → Bool
memory_in p ms i = is_some (find_where (λ m. m.id == i && p m) ms)

abbrev pub fact_in : (Fact → Bool) → List Fact → Option String → Bool
fact_in p fs none = false
fact_in p fs (some i) = is_some (find_where (λ f. f.id == i && p f) fs)

abbrev pub document_in : (Document → Bool) → List Document → Option String → Bool
document_in p ds none = false
document_in p ds (some i) = is_some (find_where (λ d. d.id == i && p d) ds)

-- DELETE FROM memories WHERE p; the history goes with them.
unfoldable pub delete_memories : (Memory → Bool) → World → World
delete_memories p w = record w {
  store = record w.store {
    memories = delete_where p w.store.memories;
    history = delete_where (λ h. memory_in p w.store.memories h.memory_id) w.store.history;
  };
}

abbrev pub forget_fact : Memory → Memory
forget_fact m = record m { fact_id = none }

-- A fact that stays names one of those that go as its successor.
unfoldable pub is_blocked : (Fact → Bool) → List Fact → Bool
is_blocked p fs = is_some (find_where (λ f. not (p f) && fact_in p fs f.superseded_by) fs)

abbrev pub without_facts : (Fact → Bool) → World → World
without_facts p w = record w {
  store = record w.store {
    facts = delete_where p w.store.facts;
    memories = update_where (λ m. fact_in p w.store.facts m.fact_id) forget_fact w.store.memories;
  };
}

-- DELETE FROM facts WHERE p; `none` is the IntegrityError.
unfoldable pub delete_facts : (Fact → Bool) → World → Option World
unfolding is_blocked
delete_facts p w = if is_blocked p w.store.facts then none else some (without_facts p w)

abbrev pub forget_document : Memory → Memory
forget_document m = record m { document_id = none }

abbrev pub forget_source : Fact → Fact
forget_source f = record f { document_id = none }

-- DELETE FROM documents WHERE p; chunks and links go with them.
unfoldable pub delete_documents : (Document → Bool) → World → World
delete_documents p w =
    let goes = document_in p w.documents in
    record w {
      documents = delete_where p w.documents;
      chunks = delete_where (λ c. goes (some c.document_id)) w.chunks;
      links = delete_where (λ k. goes (some k.document_id)) w.links;
      store = record w.store {
        facts = update_where (λ f. goes f.document_id) forget_source w.store.facts;
        memories = update_where (λ m. goes m.document_id) forget_document w.store.memories;
      };
    }

abbrev pub webhook_in : (Webhook → Bool) → List Webhook → String → Bool
webhook_in p ws i = is_some (find_where (λ w. w.id == i && p w) ws)

abbrev pub event_in : (DomainEvent → Bool) → List DomainEvent → String → Bool
event_in p es i = is_some (find_where (λ e. e.id == i && p e) es)

-- DELETE FROM webhooks WHERE p; the deliveries go with them.
unfoldable pub delete_webhooks : (Webhook → Bool) → Outbox → Outbox
delete_webhooks p o = record o {
  webhooks = delete_where p o.webhooks;
  deliveries = delete_where (λ d. webhook_in p o.webhooks d.webhook_id) o.deliveries;
}

unfoldable pub delete_events : (DomainEvent → Bool) → Outbox → Outbox
delete_events p o = record o {
  events = delete_where p o.events;
  deliveries = delete_where (λ d. event_in p o.events d.event_id) o.deliveries;
}

abbrev pub set_outbox : (Outbox → Outbox) → World → World
set_outbox f w = record w { store = record w.store { outbox = f w.store.outbox } }

abbrev pub owns : String → Option String → Bool
owns project o = opt_eq o (some project)

unfoldable pub remove_project : String → Outbox → Outbox
unfolding delete_webhooks delete_events
remove_project project o =
    delete_events (λ e. e.project_id == project)
      (delete_webhooks (λ h. h.project_id == project)
        (record o { projects = delete_where (λ q. q == project) o.projects }))

-- DELETE FROM projects WHERE id = ?; members, webhooks and events go with the row.
unfoldable pub delete_project : String → World → World
unfolding remove_project
delete_project project w = record (set_outbox (remove_project project) w) {
  projects = delete_where (λ q. q.id == project) w.projects;
  members = delete_where (λ m. m.project_id == project) w.members;
}

-- The jobs of the project, by their column or by their payload, but for the one that purges it.
abbrev pub is_purged_job : String → Option String → Job → Bool
is_purged_job project preserved j =
    not (opt_eq (some j.id) preserved)
    && (owns project j.project_id || owns project (get_text "project_id" j.payload))

abbrev pub purge_jobs : String → Option String → Outbox → Outbox
purge_jobs project preserved o = record o {
  jobs = delete_where (is_purged_job project preserved) o.jobs;
}

abbrev pub drop_key : ApiKey → World → World
drop_key k w = record w {
  entries = delete_where (λ e. e.scope == Prim.Native.String.◌++◌ "key:" k.key_hash) w.entries;
  keys = record w.keys { revoked_keys = delete_where (revokes k.key_hash) w.keys.revoked_keys };
}

unfoldable pub drop_keys : List ApiKey → World → World
drop_keys [] w = w
drop_keys (k ∷ ks) w = drop_keys ks (drop_key k w)

abbrev pub project_keys : String → World → List ApiKey
project_keys project w = select_where (λ k. owns project k.project_id) w.keys.api_keys

-- The statements behind the deletion of the facts.
unfoldable pub purge_rest : String → Option String → World → World
unfolding delete_documents delete_project delete_webhooks
purge_rest project preserved w =
    let points = record w { points = delete_where (λ v. owns project v.project_id) w.points } in
    let documents = delete_documents (λ d. owns project d.project_id) points in
    let webhooks = set_outbox (delete_webhooks (λ h. h.project_id == project)) documents in
    let logs = record webhooks {
      usage = delete_where (λ u. u.project_id == project) webhooks.usage;
      audit = delete_where (λ a. owns project a.project_id) webhooks.audit;
      members = delete_where (λ m. m.project_id == project) webhooks.members;
    } in
    delete_project project (set_outbox (purge_jobs project preserved) logs)

pub record Counts : Type 0 where
  pub memories : ℕ
  pub facts : ℕ
  pub documents : ℕ
  pub keys : ℕ
  pub webhooks : ℕ

pub data Purged : Type 0 where
  value_error integrity_error : Purged
  purged : Counts → World → Purged

abbrev pub nothing_counted : Counts
nothing_counted = record { memories = 0; facts = 0; documents = 0; keys = 0; webhooks = 0 }

abbrev pub counts_of : String → World → Counts
counts_of project w = record {
  memories = count_where (λ m. owns project m.project_id) w.store.memories;
  facts = count_where (λ f. owns project f.project_id) w.store.facts;
  documents = count_where (λ d. owns project d.project_id) w.documents;
  keys = length (project_keys project w);
  webhooks = count_where (λ h. h.project_id == project) w.store.outbox.webhooks;
}

abbrev pub finish_purge : String → Option String → Counts → Option World → Purged
finish_purge project preserved counts none = integrity_error
finish_purge project preserved counts (some w) = purged counts (purge_rest project preserved w)

unfoldable pub purge_row : String → Option String → Option String → World → Option Project → Purged
unfolding purge_rest drop_keys delete_memories delete_facts
purge_row project org preserved w none = purged nothing_counted w
purge_row project org preserved w (some row) =
    if is_some org && not (opt_eq org (some row.org_id))
    then value_error
    else finish_purge project preserved (counts_of project w) (
        delete_facts (λ f. owns project f.project_id)
          (delete_memories (λ m. owns project m.project_id) (drop_keys (project_keys project w) w)))

-- On an exception nothing is committed here.
unfoldable pub purge_project : String → Option String → Option String → World → Purged
unfolding purge_row
purge_project project org preserved w =
    purge_row project org preserved w (find_where (λ q. q.id == project) w.projects)
