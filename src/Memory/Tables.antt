-- ===== src/Memory/Tables.antt =====
-- db.py: the tables of memories and of their history, and the operations on one memory. An error is a value; the
-- operations that raise do so before they write.
use memoratum.Base.{
  ℕ, String, Bool, true, false, Option, none, some, List, [], ◌∷◌, ◌++◌, ◌==◌, if◌then◌else◌,
  is_some,
}
use memoratum.Json.{Fields}
use memoratum.Table.{find_where}
use memoratum.Outbox.{Webhook, Outbox, EventType, record_event}

pub data State : Type 0 where
  active deleted : State

abbrev pub is_deleted : State → Bool
is_deleted deleted = true
is_deleted active = false

pub record Memory : Type 0 where
  pub id : String
  pub container_tag : String
  pub text : String
  pub metadata : Fields
  pub org_id : Option String
  pub document_id : Option String
  pub fact_id : Option String
  pub expires_at : Option ℕ
  pub event_at : Option ℕ
  pub project_id : Option String
  pub version : ℕ
  pub state : State
  pub created_at : ℕ
  pub updated_at : ℕ

pub data Event : Type 0 where
  event_add event_update event_delete : Event

pub record HistoryRow : Type 0 where
  pub id : String
  pub memory_id : String
  pub event : Event
  pub old_text : Option String
  pub new_text : Option String
  pub metadata : Fields
  pub version : ℕ
  pub actor_key_hash : Option String
  pub created_at : ℕ
  pub content_hash : Option String
  pub updated_at : ℕ

pub record Fact : Type 0 where
  pub id : String
  pub container_tag : String
  pub subject : String
  pub predicate : String
  pub object : String
  pub document_id : Option String
  pub valid_from : ℕ
  pub valid_to : Option ℕ
  pub superseded_by : Option String
  pub created_at : ℕ
  pub metadata : Fields
  pub expires_at : Option ℕ
  pub memory_type : String
  pub org_id : Option String
  pub project_id : Option String

pub record Store : Type 0 where
  pub memories : List Memory
  pub history : List HistoryRow
  pub facts : List Fact
  pub outbox : Outbox

-- KeyError and ValueError.
pub data Failure : Type 0 where
  missing invalid : Failure

pub data Result {ℓ} (A : Type ℓ) : Type ℓ where
  ok : A → Result A
  error : Failure → Result A

-- What one operation draws: uuids for its memory, its history row, its event and the deliveries, and the clock.
pub record Draw : Type 0 where
  pub memory : String
  pub history : String
  pub event : String
  pub delivery : Webhook → String × String
  pub now : ℕ

abbrev pub has_memory_id : String → Memory → Bool
has_memory_id i m = m.id == i

unfoldable pub get_memory : String → Store → Result Memory
get_memory i s = elim (find_where (has_memory_id i) s.memories) [
  | none ↦ error missing
  | some m ↦ ok m
]

-- if project_id is not None: record_event(...). The event is always a supported one.
unfoldable pub emit : Draw → Option String → EventType → String → Fields → Store → Store
unfolding record_event
emit draw project event memory details s =
    elim (record_event draw.delivery draw.event draw.now project event (some memory) details
      s.outbox) [ none ↦ s | some (_, o) ↦ record s { outbox = o } ]

-- The columns that the caller chooses.
pub record Columns : Type 0 where
  pub text : String
  pub container_tag : String
  pub metadata : Fields
  pub org_id : Option String
  pub document_id : Option String
  pub fact_id : Option String
  pub expires_at : Option ℕ
  pub project_id : Option String

module _ (sha256 : String → String) where
  abbrev pub hash_of : Option String → Option String
  hash_of none = none
  hash_of (some t) = some (sha256 t)

  abbrev first_text : Option String → Option String → Option String
  first_text none old = old
  first_text (some t) old = some t

  -- The events that are not known do not type-check here.
  unfoldable pub append_memory_history :
      Draw
      → String
      → Event
      → ℕ
      → Option String
      → Option String
      → Fields
      → Option String
      → Option String
      → Store
      → Store
  append_memory_history draw i event version old new metadata actor hash s = record s {
    history =
        s.history
        ++ record {
          id = draw.history;
          memory_id = i;
          event = event;
          old_text = old;
          new_text = new;
          metadata = metadata;
          version = version;
          actor_key_hash = actor;
          created_at = draw.now;
          content_hash = if is_some hash then hash else hash_of (first_text new old);
          updated_at = draw.now;
        }
          ∷ [];
  }
