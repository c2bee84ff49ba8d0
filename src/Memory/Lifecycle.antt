-- ===== src/Memory/Lifecycle.antt =====
-- db.py: each operation on memories keeps the store sound.
use memoratum.Base.{
  is_blank, ◌+◌, ◌≡◌, refl, subst, String, Option, none, some, List, [], ◌∷◌, ◌==◌, Bool-cases,
  Option-cases, inl, inr, arith,
}
use memoratum.Json.{Fields}
use memoratum.Table.{select_where, find_where}
use memoratum.Table.Keyed.{find_where_own}
use memoratum.Outbox.{EventType, memory_add, memory_update, memory_delete, memory_categorize}
use memoratum.Memory.Tables.{
  Memory, is_deleted, Store, ok, Draw, Columns, has_memory_id, get_memory, emit,
  append_memory_history,
}
use memoratum.Memory.Operations.{
  Change, new_memory, has_fact, is_input, add_memory, create_memory, ensure_fact_memory,
  ensure_input_memory, changed, write_change, categorized, write_category, update_row,
  categorize_row,
}
use memoratum.Memory.Linked.{bury, delete_row, delete_targets}
use memoratum.Memory.Versions.{
  memory_key, IsRecorded, versions, emit_lem, IsRecorded-update, IsRecorded-insert,
}

-- The ids of the memories are a primary key; the history of a memory at version n has the versions 1, ..., n
-- in that order; and the row of a deletion has no text and no metadata.
unfoldable pub IsSound : Store → Type 0
IsSound s = IsRecorded s.memories s.history

sound : (s : Store) → IsRecorded s.memories s.history → IsSound s
unfolding IsSound
sound s h = h

recorded : (s : Store) → IsSound s → IsRecorded s.memories s.history
unfolding IsSound
recorded s h = h

-- A uuid that no memory has and no row of the history is about.
abbrev pub IsFresh : String → Store → Type 0
IsFresh i s = (find_where (has_memory_id i) s.memories ≡ none) × (versions i s.history ≡ [])

emit-IsSound :
    (draw : Draw) (project : Option String) (event : EventType) (i : String) (details : Fields)
    (s : Store)
    → IsSound s
    → IsSound (emit draw project event i details s)
emit-IsSound draw project event i details s h =
    let (a, b, c) = emit_lem draw project event i details s in sound _ (rw (a, b) (recorded s h))

module _ (sha256 : String → String) where
  pub add_memory-IsSound :
      (draw : Draw) (actor : Option String) (c : Columns) (s : Store)
      → IsFresh draw.memory s
      → IsSound s
      → IsSound (add_memory sha256 draw actor c s)
  unfolding add_memory append_memory_history
  add_memory-IsSound draw actor c s (fresh, empty) h =
      emit-IsSound draw c.project_id memory_add draw.memory _ _ (
        sound _ (
          IsRecorded-insert (new_memory draw c) _ s.memories s.history fresh empty refl refl refl
            (λ e. cc e) (recorded s h)))

  pub create_memory-IsSound :
      (draw : Draw) (actor : Option String) (c : Columns) (s : Store)
      → IsFresh draw.memory s
      → IsSound s
      → IsSound (create_memory sha256 draw actor c s).1
  unfolding create_memory
  create_memory-IsSound draw actor c s f h = elim (Bool-cases (is_blank c.text)) [
    | inl e ↦ rw e h
    | inr e ↦ rw e (add_memory-IsSound draw actor c s f h)
  ]

  pub ensure_fact_memory-IsSound :
      (draw : Draw) (fact : String) (c : Columns) (s : Store)
      → IsFresh draw.memory s
      → IsSound s
      → IsSound (ensure_fact_memory sha256 draw fact c s).1
  unfolding ensure_fact_memory
  ensure_fact_memory-IsSound draw fact c s f h =
      elim (Option-cases (find_where (has_fact fact) s.memories)) [
        | inl e ↦ rw (e, ensure_fact_memory) (add_memory-IsSound draw none _ s f h)
        | inr (m, e) ↦ rw (e, ensure_fact_memory) h
      ]

  pub ensure_input_memory-IsSound :
      (draw : Draw) (doc : String) (c : Columns) (s : Store)
      → IsFresh draw.memory s
      → IsSound s
      → IsSound (ensure_input_memory sha256 draw doc c s).1
  unfolding ensure_input_memory
  ensure_input_memory-IsSound draw doc c s f h =
      elim (Option-cases
        (find_where (λ (m : Memory). m.text == c.text) (select_where (is_input doc) s.memories))) [
          | inl e ↦
              rw (e, ensure_input_memory)
                (create_memory-IsSound draw none (record c { document_id = some doc }) s f h)
          | inr (m, e) ↦ rw (e, ensure_input_memory) h
        ]

  pub update_row-IsSound :
      (draw : Draw) (actor : Option String) (c : Change) (m : Memory) (s : Store)
      → find_where (has_memory_id m.id) s.memories ≡ some m
      → IsSound s
      → IsSound (update_row sha256 draw actor c m s).1
  unfolding update_row append_memory_history
  update_row-IsSound draw actor c m s found h = elim (Bool-cases (is_deleted m.state)) [
    | inl e ↦ rw e h
    | inr e ↦ elim (Bool-cases (is_blank (changed draw.now c m).text)) [
      | inl b ↦ rw (e, b) h
      | inr b ↦
          rw (e, b)
            (emit-IsSound draw m.project_id memory_update m.id _ _ (
              sound _ (
                IsRecorded-update m.id m (write_change (changed draw.now c m)) s.history _
                  (λ r. refl) (λ r. omega arith) refl (omega arith) s.memories found (λ e. cc e)
                  (recorded s h))))
    ]
  ]

  pub categorize_row-IsSound :
      (draw : Draw) (actor : Option String) (category : String) (m : Memory) (s : Store)
      → find_where (has_memory_id m.id) s.memories ≡ some m
      → IsSound s
      → IsSound (categorize_row sha256 draw actor category m s).1
  unfolding categorize_row append_memory_history
  categorize_row-IsSound draw actor category m s found h = elim (Bool-cases (is_deleted m.state)) [
    | inl e ↦ rw e h
    | inr e ↦ rw e (
        emit-IsSound draw m.project_id memory_categorize m.id _ _ (
          sound _ (
            IsRecorded-update m.id m (write_category (categorized draw.now category m)) s.history _
              (λ r. refl) (λ r. omega arith) refl (omega arith) s.memories found (λ e. cc e)
              (recorded s h))))
  ]

  pub delete_row-IsSound :
      (draws : String → Draw) (actor : Option String) (m : Memory) (s : Store)
      → find_where (has_memory_id m.id) s.memories ≡ some m
      → IsSound s
      → IsSound (delete_row sha256 draws actor m s)
  unfolding delete_row append_memory_history
  delete_row-IsSound draws actor m s found h =
      emit-IsSound (draws m.id) m.project_id memory_delete m.id _ _ (
        sound _ (
          IsRecorded-update m.id m (bury (draws m.id).now (m.version + 1)) s.history _ (λ r. refl)
            (λ r. omega arith) refl (omega arith) s.memories found (λ e. (refl, refl, refl))
            (recorded s h)))

  pub delete_targets-IsSound :
      (draws : String → Draw) (actor : Option String) (targets : List String) (s s' : Store)
      → delete_targets sha256 draws actor targets s ≡ ok s'
      → IsSound s
      → IsSound s'
  unfolding delete_targets get_memory
  delete_targets-IsSound draws actor [] s s' e h = subst IsSound (ground (arith, e)) h
  delete_targets-IsSound draws actor (i ∷ targets) s s' e h =
      elim (Option-cases (find_where (has_memory_id i) s.memories)) [
        | inl n ↦ ground (arith, rw (n, delete_targets) at e)
        | inr (m, f) ↦
            delete_targets-IsSound draws actor targets (delete_row sha256 draws actor m s) s'
              (rw (f, delete_targets) at e)
              (delete_row-IsSound draws actor m s (find_where_own memory_key i s.memories m f) h)
      ]
