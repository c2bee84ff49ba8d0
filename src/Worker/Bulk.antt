-- ===== src/Worker/Bulk.antt =====
-- worker.py: the job `bulk_memories`. What the embedder and the vector store raise for one memory
-- is an argument, and `draws` gives the uuids and times of the item at an index.
pub mod Indexes
pub mod Resume
mod Tests
use memoratum.Base.{
  ℕ, suc, ◌+◌, String, Bool, true, false, ◌&&◌, ◌||◌, not, Option, none, some, List, [], ◌∷◌, ◌++◌,
  ◌==◌, eqb, if◌then◌else◌, opt_eq, is_truthy, length, is_some, strip_prefix,
}
use memoratum.Json.{
  Json, Items, nil, cons, Fields, end, field, num, str, bool, obj, arr, get_field, get_text,
}
use memoratum.Table.{count_where}
use memoratum.Jobs.{Queue, enqueue, update_result}
use memoratum.Outbox.{Outbox, text_or_null}
use memoratum.Memory.Text.{set_field}
use memoratum.Memory.Tables.{
  Memory, Store, Result, ok, error, Failure, missing, invalid, Draw, get_memory,
}
use memoratum.Memory.Operations.{Change, update_memory}
use memoratum.Memory.Linked.{Report, soft_delete_memory}

-- An operation of the payload; a key that is not there is `none`.
pub record BulkOperation : Type 0 where
  pub memory_id : Option String
  pub action : Option String
  pub text : Option String
  pub metadata : Fields

pub record Payload : Type 0 where
  pub container_tag : Option String
  pub org_id : Option String
  pub project_id : Option String
  pub actor_key_hash : Option String

-- What the calls of the vector store raise, if anything, for a memory and for ids.
pub record Vectors : Type 0 where
  pub index : Memory → Option String
  pub remove : List String → Option String

-- What an item draws: the uuids of the memory operation, the id of a job and the clock.
pub record ItemDraw : Type 0 where
  pub memory : Draw
  pub job : String
  pub now : ℕ

abbrev pub has_index : ℕ → Fields → Bool
has_index i f = elim (get_field "index" f) [ some (num n) ↦ eqb n i | _ ↦ false ]

abbrev pub latest : Option Fields → Option Fields → Option Fields
latest (some g) o = some g
latest none o = o

-- prior_items.get(index): of two items with one index the later counts.
unfoldable pub prior_item : ℕ → Items → Option Fields
unfolding get_field
prior_item i nil = none
prior_item i (cons (obj f) rest) =
    latest (prior_item i rest) (if has_index i f then some f else none)
prior_item i (cons _ rest) = prior_item i rest

-- existing.get("status") in terminal
unfoldable pub is_terminal : Fields → Bool
unfolding get_text
is_terminal f = elim (get_text "status" f) [
  | none ↦ false
  | some s ↦ s == "completed" || s == "completed_with_vector_error" || s == "not_found"
]

abbrev pub if_terminal : Option Fields → Option Fields
if_terminal none = none
if_terminal (some f) = if is_terminal f then some f else none

-- The item that an earlier attempt at the job has finished.
unfoldable pub finished_item : ℕ → Items → Option Fields
unfolding prior_item is_terminal
finished_item i prior = if_terminal (prior_item i prior)

abbrev pub item_status : String → Fields → Fields
item_status s f = set_field "status" (str s) f

abbrev pub not_found : Fields → Fields
not_found f = item_status "not_found" f

abbrev pub failed_with : String → Fields → Fields
failed_with e f = set_field "error" (str e) (item_status "failed" f)

-- KeyError and ValueError.
abbrev pub failed_as : Failure → Fields → Fields
failed_as missing f = not_found f
failed_as invalid f = failed_with "ValueError" f

abbrev pub reindex_payload : Memory → Fields
reindex_payload m = field "memory_id" (str m.id) (
    field "container_tag" (str m.container_tag)
      (field "org_id" (text_or_null m.org_id) (field "project_id" (text_or_null m.project_id) end)))

abbrev pub set_jobs : (Queue → Queue) → Store → Store
set_jobs f s = record s { outbox = record s.outbox { jobs = f s.outbox.jobs } }

-- The row is committed; a failure of the vector store leaves a job that indexes it again.
unfoldable pub after_vectors : ItemDraw → Memory → Option String → Fields → Store → Fields × Store
unfolding enqueue set_field
after_vectors draw m none f s = (f, s)
after_vectors draw m (some e) f s = (
  set_field "vector_error" (str e) (item_status "completed_with_vector_error" f),
  set_jobs (λ q. (enqueue draw.job draw.now "reindex_memory" (reindex_payload m) none q).1) s,
)

abbrev pub outside : Option String → Option String → Bool
outside asked found = is_truthy asked && not (opt_eq found asked)

abbrev pub is_outside : Payload → Memory → Bool
is_outside p m =
    outside p.container_tag (some m.container_tag)
    || outside p.org_id m.org_id
    || outside p.project_id m.project_id

abbrev pub item_fields : ℕ → BulkOperation → Fields
item_fields i op =
    field "index" (num i)
      (field "memory_id" (text_or_null op.memory_id) (field "action" (text_or_null op.action) end))

-- operation.get("action", "update")
abbrev pub action_of : BulkOperation → String
action_of op = elim op.action [ none ↦ "update" | some a ↦ a ]

module _ (sha256 : String → String) (payload : Payload) (vectors : Option Vectors) where
  abbrev pub indexing : Memory → Option String
  indexing m = elim vectors [ none ↦ none | some v ↦ v.index m ]

  abbrev pub removing : List String → Option String
  removing ids = elim vectors [ none ↦ none | some v ↦ v.remove ids ]

  abbrev pub updated_item : ItemDraw → Fields → Store → Result Memory × Store → Fields × Store
  updated_item draw f s (error e, t) = (failed_as e f, s)
  updated_item draw f s (ok m, t) = after_vectors draw m (indexing m) (item_status "completed" f) t

  -- A report on a memory that was deleted before has no `deleted_ids`: the KeyError is caught.
  abbrev pub after_removal :
      ItemDraw → Memory → Option (List String) → Fields → Store → Fields × Store
  after_removal draw m none f t = (not_found f, t)
  after_removal draw m (some ids) f t = after_vectors draw m (removing ids) f t

  abbrev pub deleted_item : ItemDraw → Memory → Fields → Report → Store → Fields × Store
  deleted_item draw m f report t =
      let done = set_field "deleted" (bool report.deleted) (item_status "completed" f) in
      after_removal draw m report.deleted_ids done t

  abbrev pub removed :
      ItemDraw → Memory → Fields → Store → Result (Option (Report × Store)) → Fields × Store
  removed draw m f s (error e) = (failed_as e f, s)
  removed draw m f s (ok none) = (failed_with "RuntimeError" f, s)
  removed draw m f s (ok (some (report, t))) = deleted_item draw m f report t

  unfoldable pub carry_out :
      ItemDraw → BulkOperation → Bool → Memory → Fields → Store → Fields × Store
  unfolding update_memory soft_delete_memory after_vectors
  carry_out draw op false m f s = updated_item draw f s (
      update_memory sha256 draw.memory m.id payload.actor_key_hash
        (record { text = op.text; metadata = op.metadata; timestamp = none; expires_at = none }) s)
  carry_out draw op true m f s =
      removed draw m f s
        (soft_delete_memory sha256 (λ i. draw.memory) payload.actor_key_hash m.id false s)

  unfoldable pub act : ItemDraw → BulkOperation → Bool → Memory → Fields → Store → Fields × Store
  unfolding carry_out
  act draw op deletes m f s =
      if is_outside payload m then (not_found f, s) else carry_out draw op deletes m f s

  abbrev pub act_found :
      ItemDraw → BulkOperation → Bool → Result Memory → Fields → Store → Fields × Store
  act_found draw op deletes (error e) f s = (failed_as e f, s)
  act_found draw op deletes (ok m) f s = act draw op deletes m f s

  abbrev pub act_on :
      ItemDraw → BulkOperation → Option String → String → Fields → Store → Fields × Store
  act_on draw op none action f s = (not_found f, s)
  act_on draw op (some i) action f s =
      if action == "update" || action == "delete"
      then act_found draw op (action == "delete") (get_memory i s) f s
      else (failed_with "ValueError" f, s)

  unfoldable pub run_item : ItemDraw → ℕ → BulkOperation → Store → Fields × Store
  unfolding act get_memory set_field
  run_item draw i op s = act_on draw op op.memory_id (action_of op) (item_fields i op) s

abbrev pub to_items : List Fields → Items
to_items [] = nil
to_items (f ∷ fs) = cons (obj f) (to_items fs)

-- item.get("status", "") of the item
abbrev pub status_of : Fields → String
status_of f = elim (get_text "status" f) [ none ↦ "" | some s ↦ s ]

abbrev pub is_completed : Fields → Bool
is_completed f = is_some (strip_prefix "completed" (status_of f))

abbrev pub is_failed_item : Fields → Bool
is_failed_item f = status_of f == "failed" || status_of f == "not_found"

-- The result of the job so far.
unfoldable pub bulk_result : ℕ → List Fields → Fields
unfolding get_text strip_prefix
bulk_result total progress = field "total" (num total) (
    field "completed" (num (count_where is_completed progress)) (
      field "failed" (num (count_where is_failed_item progress))
        (field "items" (arr (to_items progress)) end)))

abbrev pub no_object : ℕ → Fields
no_object i =
    field "index" (num i)
      (field "status" (str "failed") (field "error" (str "operation must be an object") end))

-- What is the same for every item: the id of the job, its lease, its operations and its draws.
pub record Batch : Type 0 where
  pub job : String
  pub ttl : ℕ
  pub total : ℕ
  pub draws : ℕ → ItemDraw

module _ (sha256 : String → String) (payload : Payload) (vectors : Option Vectors) (b : Batch) where
  -- jobs.update_result behind an item
  unfoldable pub save_progress : ℕ → List Fields → Store → Store
  unfolding update_result bulk_result
  save_progress i progress s =
      set_jobs (update_result (b.draws i).now b.ttl b.job (bulk_result b.total progress)) s

  -- An item that was finished before is taken as it is; another one is run and saved.
  unfoldable pub take_item :
      Option Fields → ℕ → BulkOperation → List Fields → Store → List Fields × Store
  unfolding run_item save_progress
  take_item (some f) i op progress s = (progress ++ f ∷ [], s)
  take_item none i op progress s =
      let (f, t) = run_item sha256 payload vectors (b.draws i) i op s in
      let more = progress ++ f ∷ [] in (more, save_progress i more t)

  -- An operation that is no object is `none`.
  unfoldable pub bulk_step :
      Items → ℕ → Option BulkOperation → List Fields → Store → List Fields × Store
  unfolding take_item finished_item
  bulk_step prior i none progress s = (progress ++ no_object i ∷ [], s)
  bulk_step prior i (some op) progress s = take_item (finished_item i prior) i op progress s

  -- The loop from the index `i` on.
  unfoldable pub bulk_loop :
      Items → ℕ → List (Option BulkOperation) → List Fields → Store → List Fields × Store
  unfolding bulk_step
  bulk_loop prior i [] progress s = (progress, s)
  bulk_loop prior i (op ∷ ops) progress s =
      let done = bulk_step prior i op progress s in bulk_loop prior (suc i) ops done.0 done.1

  -- The handler: its result, and the tables.
  unfoldable pub bulk_memories : Items → List (Option BulkOperation) → Store → Fields × Store
  unfolding bulk_loop bulk_result
  bulk_memories prior ops s =
      let done = bulk_loop prior 0 ops [] s in (bulk_result b.total done.0, done.1)
