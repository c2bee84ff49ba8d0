-- ===== src/Worker/Dispatch/Tests.antt =====
-- Deleting all memories of one user beside another's.
use memoratum.Base.{String, ◌≡◌, refl, Option, none, some, List, [], ◌∷◌}
use memoratum.Json.{end}
use memoratum.Table.{find_where, select_where, order_with}
use memoratum.Memory.Tables.{Memory, active, Store, Draw, has_memory_id, get_memory}
use memoratum.Memory.Operations.{list_all_memories}
use memoratum.Memory.Linked.{soft_delete_memory}
use memoratum.Documents.{returned}
use memoratum.Purge.Prune.{expire_memories}
use memoratum.Worker.Dispatch.{matches_filters, delete_all_memories}
use memoratum.Worker.Dispatch.Unselected.{delete_all_memories-found}

abbrev memory : String → String → Memory
memory i tag = record {
  id = i;
  container_tag = tag;
  text = "text";
  metadata = end;
  org_id = some "o";
  document_id = none;
  fact_id = none;
  expires_at = none;
  event_at = none;
  project_id = none;
  version = 1;
  state = active;
  created_at = 1;
  updated_at = 1;
}

abbrev hers : Memory
hers = memory "a" "mem0:user:ann"

abbrev his : Memory
his = memory "b" "mem0:user:bob"

abbrev store : Store
store = record {
  memories = hers ∷ his ∷ [];
  history = [];
  facts = [];
  outbox = record { projects = []; webhooks = []; events = []; deliveries = []; jobs = [] };
}

abbrev draw : String → Draw
draw i = record { memory = i; history = i; event = i; delivery = (λ w. (i, i)); now = 5 }

abbrev ann : List (String × String)
ann = ("user", "ann") ∷ []

abbrev no_vectors : List String → Option String
no_vectors ids = none

run :
    (delete_all_memories (λ t. t) draw no_vectors 3 (some "o") none ann store).0
    ≡ returned ("a" ∷ [])
unfolding delete_all_memories list_all_memories matches_filters expire_memories soft_delete_memory
    select_where find_where get_memory order_with
run = refl

delete_all_memories-found_example :
    find_where
      (has_memory_id "b")
      (delete_all_memories (λ t. t) draw no_vectors 3 (some "o") none ann store).1.memories
    ≡ some his
unfolding find_where matches_filters
delete_all_memories-found_example =
    delete_all_memories-found (λ t. t) draw "b" no_vectors 3 (some "o") none ann his store
      ((refl, tt), (tt, tt)) refl refl
