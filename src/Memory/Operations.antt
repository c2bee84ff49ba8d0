-- ===== src/Memory/Operations.antt =====
-- db.py: creating, reading, updating and categorizing a memory.
use Prim.Native.String.{compare}
use Prim.Native.Nat.{Ordering}
use memoratum.Base.{
  strip, len, is_blank, ℕ, ◌+◌, String, Bool, true, false, ◌&&◌, ◌||◌, not, Option, none, some,
  List, [], ◌∷◌, ◌++◌, ◌==◌, ltb, eqb, if◌then◌else◌, is_some, opt_eq, strip_prefix, take, drop,
}
use memoratum.Json.{Fields, end, field, str, obj}
use memoratum.Table.{select_where, find_where, update_where, order_with, first_row}
use memoratum.Outbox.{memory_add, memory_update, memory_categorize}
use memoratum.Memory.Text.{clean_memory_metadata, merge_fields}
use memoratum.Memory.Tables.{
  Memory, active, is_deleted, event_add, event_update, HistoryRow, Store, Result, ok, error,
  missing, invalid, Draw, has_memory_id, get_memory, emit, append_memory_history, Columns,
}

abbrev pub new_memory : Draw → Columns → Memory
new_memory draw c = record {
  id = draw.memory;
  container_tag = c.container_tag;
  text = c.text;
  metadata = clean_memory_metadata c.metadata;
  org_id = c.org_id;
  document_id = c.document_id;
  fact_id = c.fact_id;
  expires_at = c.expires_at;
  event_at = none;
  project_id = c.project_id;
  version = 1;
  state = active;
  created_at = draw.now;
  updated_at = draw.now;
}

abbrev pub memory_data : String → Fields → Fields
memory_data text metadata = field "memory" (str text) (field "metadata" (obj metadata) end)

abbrev pub has_fact : String → Memory → Bool
has_fact f m = opt_eq m.fact_id (some f)

abbrev pub is_input : String → Memory → Bool
is_input doc m = opt_eq m.document_id (some doc) && not (is_deleted m.state)

-- ORDER BY created_at, id
abbrev pub memory_before : Memory → Memory → Bool
memory_before m n =
    ltb m.created_at n.created_at
    || (eqb m.created_at n.created_at
        && elim (compare m.id n.id) [ Ordering.gt ↦ false | _ ↦ true ])

-- The arguments of `update_memory` that may be left out.
pub record Change : Type 0 where
  pub text : Option String
  pub metadata : Fields
  pub timestamp : Option ℕ
  pub expires_at : Option (Option ℕ)

abbrev or_old {ℓ} : {A : Type ℓ} → Option A → A → A
or_old none a = a
or_old (some b) a = b

abbrev pub or_kept : Option ℕ → Option ℕ → Option ℕ
or_kept none old = old
or_kept (some t) old = some t

abbrev pub changed : ℕ → Change → Memory → Memory
changed now c m = record m {
  text = or_old c.text m.text;
  metadata = clean_memory_metadata (merge_fields m.metadata c.metadata);
  expires_at = or_old c.expires_at m.expires_at;
  event_at = or_kept c.timestamp m.event_at;
  version = m.version + 1;
  updated_at = now;
}

abbrev pub categorized : ℕ → String → Memory → Memory
categorized now category m = record m {
  metadata = clean_memory_metadata (merge_fields m.metadata (field "category" (str category) end));
  version = m.version + 1;
  updated_at = now;
}

-- The columns that the two updates write.
abbrev pub write_change : Memory → Memory → Memory
write_change n r = record r {
  text = n.text;
  metadata = n.metadata;
  expires_at = n.expires_at;
  event_at = n.event_at;
  version = n.version;
  updated_at = n.updated_at;
}

abbrev pub write_category : Memory → Memory → Memory
write_category n r = record r {
  metadata = n.metadata;
  version = n.version;
  updated_at = n.updated_at;
}

abbrev pub set_memory : String → (Memory → Memory) → Store → Store
set_memory i f s = record s { memories = update_where (has_memory_id i) f s.memories }

-- What the operations return with the store: an error leaves it as it was.
abbrev pub after : String → Store → Result Memory × Store
after i s = (get_memory i s, s)

module _ (sha256 : String → String) where
  -- The INSERT, the history row and the event that creating a memory shares with projecting a fact.
  unfoldable pub add_memory : Draw → Option String → Columns → Store → Store
  unfolding emit append_memory_history
  add_memory draw actor c s =
      let m = new_memory draw c in
      emit draw c.project_id memory_add draw.memory (memory_data c.text m.metadata) (
        append_memory_history sha256 draw draw.memory event_add 1 none (some c.text) m.metadata
          actor none (record s { memories = s.memories ++ m ∷ [] }))

  unfoldable pub create_memory : Draw → Option String → Columns → Store → Result Memory × Store
  unfolding add_memory is_blank
  create_memory draw actor c s =
      if is_blank c.text then (error invalid, s) else after draw.memory (add_memory draw actor c s)

  -- `fact` is the column `fact_id`.
  unfoldable pub ensure_fact_memory : Draw → String → Columns → Store → String × Store
  unfolding add_memory
  ensure_fact_memory draw fact c s = elim (find_where (has_fact fact) s.memories) [
    | some m ↦ (m.id, s)
    | none ↦ (draw.memory, add_memory draw none (record c { fact_id = some fact }) s)
  ]

  -- The first memory of the document with the text, or a new one.
  unfoldable pub ensure_input_memory : Draw → String → Columns → Store → Result String × Store
  unfolding create_memory
  ensure_input_memory draw doc c s =
      elim (find_where (λ m. m.text == c.text) (select_where (is_input doc) s.memories)) [
        | some m ↦ (ok m.id, s)
        | none ↦
            let made = create_memory draw none (record c { document_id = some doc }) s in
            (elim made.0 [ ok m ↦ ok m.id | error e ↦ error e ], made.1)
      ]

  unfoldable pub update_row : Draw → Option String → Change → Memory → Store → Result Memory × Store
  unfolding emit append_memory_history is_blank
  update_row draw actor c m s =
      let n = changed draw.now c m in
      if is_deleted m.state
      then (error missing, s)
      else if is_blank n.text
      then (error invalid, s)
      else after m.id (
          emit draw m.project_id memory_update m.id (memory_data n.text n.metadata) (
            append_memory_history sha256 draw m.id event_update n.version (some m.text)
              (some n.text) n.metadata actor none (set_memory m.id (write_change n) s)))

  unfoldable pub update_memory :
      Draw → String → Option String → Change → Store → Result Memory × Store
  unfolding update_row get_memory
  update_memory draw i actor c s = elim (get_memory i s) [
    | error e ↦ (error e, s)
    | ok m ↦ update_row draw actor c m s
  ]

  unfoldable pub categorize_row :
      Draw → Option String → String → Memory → Store → Result Memory × Store
  unfolding emit append_memory_history
  categorize_row draw actor category m s =
      let n = categorized draw.now category m in
      if is_deleted m.state
      then (error missing, s)
      else after m.id (
          emit draw m.project_id memory_categorize m.id (field "category" (str category) end) (
            append_memory_history sha256 draw m.id event_update n.version (some m.text)
              (some m.text) n.metadata actor none (set_memory m.id (write_category n) s)))

  unfoldable pub categorize_memory :
      Draw → String → Option String → String → Store → Result Memory × Store
  unfolding categorize_row get_memory is_blank strip len
  categorize_memory draw i actor category s =
      if is_blank category || ltb 200 (len (strip category))
      then (error invalid, s)
      else elim (get_memory i s) [
        | error e ↦ (error e, s)
        | ok m ↦ categorize_row draw actor (strip category) m s
      ]

first_fact : Option Memory → Option Memory → Option Memory
first_fact none other = other
first_fact (some m) other = some m

abbrev by_fact : String → Store → Option Memory
by_fact f s = first_row (order_with memory_before (select_where (has_fact f) s.memories))

unprefixed : Option String → Store → Option Memory
unprefixed none s = none
unprefixed (some f) s = by_fact f s

-- The id of a memory, then the id of its fact, then that id behind the prefix `mem_`.
unfoldable pub resolve_memory_reference : String → Store → Option Memory
unfolding first_fact unprefixed get_memory strip_prefix
resolve_memory_reference reference s = elim (get_memory reference s) [
  | ok m ↦ some m
  | error e ↦ first_fact (by_fact reference s) (unprefixed (strip_prefix "mem_" reference) s)
]

abbrev pub optional : Option String → Option String → Bool
optional none column = true
optional (some v) column = opt_eq column (some v)

abbrev pub is_unexpired : ℕ → Option ℕ → Bool
is_unexpired now none = true
is_unexpired now (some t) = ltb now t

abbrev pub page {ℓ} : {A : Type ℓ} → Option ℕ → ℕ → List A → List A
page none offset rs = rs
page (some n) offset rs = take n (drop offset rs)

module _ (now : ℕ) (org project : Option String) (include_deleted show_expired : Bool) where
  abbrev pub is_listed : Memory → Bool
  is_listed m =
      optional org m.org_id
      && optional project m.project_id
      && (include_deleted || not (is_deleted m.state))
      && (show_expired || is_unexpired now m.expires_at)

  unfoldable pub list_all_memories : Store → List Memory
  list_all_memories s = order_with memory_before (select_where is_listed s.memories)

  unfoldable pub list_memories : String → Option ℕ → ℕ → Store → List Memory
  list_memories tag limit offset s = page limit offset (
      order_with memory_before
        (select_where (λ m. (m.container_tag == tag) && is_listed m) s.memories))

abbrev pub history_before : HistoryRow → HistoryRow → Bool
history_before m n =
    ltb m.created_at n.created_at
    || (eqb m.created_at n.created_at
        && elim (compare m.id n.id) [ Ordering.gt ↦ false | _ ↦ true ])

abbrev pub in_container : Option String → Store → HistoryRow → Bool
in_container none s h = true
in_container (some tag) s h =
    is_some
      (find_where (λ (m : Memory). (m.container_tag == tag) && (m.id == h.memory_id)) s.memories)

unfoldable pub list_memory_history : String → Option String → Option ℕ → ℕ → Store → List HistoryRow
list_memory_history i tag limit offset s = page limit offset (
    order_with history_before
      (select_where (λ h. (h.memory_id == i) && in_container tag s h) s.history))
