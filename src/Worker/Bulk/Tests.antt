-- ===== src/Worker/Bulk/Tests.antt =====
-- A bulk job that stops behind its first operation.
use memoratum.Base.{ℕ, String, ◌≡◌, refl, true, none, some, Option, List, [], ◌∷◌, All, map}
use memoratum.Json.{end, nil, Fields, get_text}
use memoratum.Table.{find_where, update_where, count_where}
use memoratum.Outbox.{Webhook}
use memoratum.Memory.Tables.{Memory, active, Store}
use memoratum.Worker.Bulk.{
  BulkOperation, Payload, Batch, ItemDraw, is_terminal, to_items, bulk_loop, bulk_memories,
  status_of,
}
use memoratum.Worker.Bulk.Resume.{bulk_memories-resume}

abbrev memory : Memory
memory = record {
  id = "m";
  container_tag = "t";
  text = "old";
  metadata = end;
  org_id = none;
  document_id = none;
  fact_id = none;
  expires_at = none;
  event_at = none;
  project_id = none;
  version = 1;
  state = active;
  created_at = 1;
  updated_at = 1;
}

abbrev store : Store
store = record {
  memories = memory ∷ [];
  history = [];
  facts = [];
  outbox = record { projects = []; webhooks = []; events = []; deliveries = []; jobs = [] };
}

abbrev operation : Option String → Option String → BulkOperation
operation action text = record {
  memory_id = some "m";
  action = action;
  text = text;
  metadata = end;
}

abbrev update_it : BulkOperation
update_it = operation none (some "new")

abbrev delete_it : BulkOperation
delete_it = operation (some "delete") none

abbrev payload : Payload
payload = record { container_tag = none; org_id = none; project_id = none; actor_key_hash = none }

abbrev draw_of : ℕ → ItemDraw
draw_of i = record {
  memory = record {
    memory = "u";
    history = "h";
    event = "e";
    delivery = λ (w : Webhook). (w.id, w.id);
    now = 5;
  };
  job = "j";
  now = 5;
}

abbrev batch : Batch
batch = record { job = "bulk"; ttl = 300; total = 3; draws = draw_of }

abbrev same : String → String
same s = s

abbrev statuses : List Fields → List String
statuses fs = map status_of fs

-- A memory that is deleted twice is not found the second time.
twice :
    statuses
      (bulk_loop same payload none batch nil 0
        (some update_it ∷ some delete_it ∷ some delete_it ∷ [])
        []
        store).0
    ≡ "completed" ∷ "completed" ∷ "not_found" ∷ []
unfolding bulk_loop find_where update_where count_where get_text
twice = refl

updated_first :
    All
      (λ f. is_terminal f ≡ true)
      (bulk_loop same payload none batch nil 0 (some update_it ∷ []) [] store).0
unfolding bulk_loop find_where update_where count_where is_terminal
updated_first = (refl, tt)

bulk_memories-resume_example :
    bulk_memories same payload none batch
      (to_items (bulk_loop same payload none batch nil 0 (some update_it ∷ []) [] store).0)
      (some update_it ∷ some delete_it ∷ [])
      (bulk_loop same payload none batch nil 0 (some update_it ∷ []) [] store).1
    ≡ bulk_memories same payload none batch nil (some update_it ∷ some delete_it ∷ []) store
bulk_memories-resume_example =
    bulk_memories-resume same payload none batch (some update_it ∷ []) (some delete_it ∷ []) store
      updated_first
