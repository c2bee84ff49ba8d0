-- ===== src/Memory/Stays.antt =====
-- db.py: a deleted memory is what is found under its id after a write of one memory.
use memoratum.Base.{
  ℕ, is_blank, strip, len, ◌≡◌, ◌⊎◌, inl, inr, refl, ap, sym, ◌∙◌, subst, String, true, false,
  Option, none, some, [], ◌∷◌, ◌++◌, ◌||◌, ◌==◌, ltb, eq_iff, arith, All-imp, Bool-cases,
  Option-cases,
}
use memoratum.Json.{Fields, end, field, str}
use memoratum.Table.{find_where, select_where}
use memoratum.Table.Keyed.{only_found, find_where-append}
use memoratum.Outbox.{EventType, memory_add, memory_update, memory_categorize}
use memoratum.Memory.Tables.{
  Memory, is_deleted, Event, event_add, event_update, Store, Draw, Columns, has_memory_id,
  get_memory, emit, append_memory_history,
}
use memoratum.Memory.Operations.{
  Change, changed, categorized, write_change, write_category, new_memory, memory_data, is_input,
  has_fact, set_memory, add_memory, create_memory, ensure_fact_memory, ensure_input_memory,
  update_row, update_memory, categorize_row, categorize_memory,
}
use memoratum.Memory.Versions.{memory_key, emit_lem}
use memoratum.Memory.Lifecycle.{IsSound}
use memoratum.Memory.Elsewhere.{set_memory-other, found_differs, Elsewhere}

-- The deleted memory is the one that is found under the id.
unfoldable pub Stays : String → Memory → Store → Type 0
Stays i m s = find_where (has_memory_id i) s.memories ≡ some m

module _ (sha256 : String → String) (i : String) (m : Memory) (d : is_deleted m.state ≡ true) where
  pub elsewhere : (s : Store) → IsSound s → Stays i m s → Elsewhere i s.memories
  unfolding IsSound Stays
  elsewhere s v h =
      All-imp (λ r. (r.id == i) ≡ true → r ≡ m)
        (λ r. is_deleted r.state ≡ false → (r.id == i) ≡ false) (λ r same alive. other r same alive)
        s.memories (only_found memory_key i s.memories m v.0 h)
    where
      other :
          (r : Memory)
          → ((r.id == i) ≡ true → r ≡ m)
          → is_deleted r.state ≡ false
          → (r.id == i) ≡ false
      other r same alive = elim (Bool-cases (r.id == i)) [
        | inl e ↦
            ground
              (arith, alive, subst (λ (x : Memory). is_deleted x.state ≡ true) (sym (same e)) d)
        | inr e ↦ e
      ]

  pub alive_other :
      (j : String) (s : Store) (r : Memory)
      → Stays i m s
      → find_where (has_memory_id j) s.memories ≡ some r
      → is_deleted r.state ≡ false
      → (j == i) ≡ false
  unfolding Stays
  alive_other j s r h f a = elim (Bool-cases (j == i)) [
    | inl e ↦
        let same : m ≡ r = ground (
          arith,
          sym h ∙ ap (λ k. find_where (has_memory_id k) s.memories) (sym ((eq_iff j i).0 e)) ∙ f,
        ) in
        ground (arith, a, subst (λ (x : Memory). is_deleted x.state ≡ true) same d)
    | inr e ↦ e
  ]

  -- What an operation finds is another memory or this one.
  own_or_other :
      (j : String) (s : Store) (r : Memory)
      → Stays i m s
      → find_where (has_memory_id j) s.memories ≡ some r
      → ((r.id == i) ≡ false) ⊎ (is_deleted r.state ≡ true)
  unfolding Stays
  own_or_other j s r h f = elim (Bool-cases (is_deleted r.state)) [
    | inl e ↦ inr e
    | inr e ↦ inl (found_differs i j s.memories r f (alive_other j s r h f e))
  ]

  emit-Stays :
      (draw : Draw) (project : Option String) (event : EventType) (k : String) (details : Fields)
      (s : Store)
      → Stays i m s
      → Stays i m (emit draw project event k details s)
  unfolding Stays
  emit-Stays draw project event k details s h =
      ap (find_where (has_memory_id i)) (emit_lem draw project event k details s).0 ∙ h

  append-Stays :
      (draw : Draw) (k : String) (event : Event) (version : ℕ) (old new : Option String)
      (metadata : Fields) (actor hash : Option String) (s : Store)
      → Stays i m s
      → Stays i m (append_memory_history sha256 draw k event version old new metadata actor hash s)
  unfolding append_memory_history Stays
  append-Stays draw k event version old new metadata actor hash s h = h

  set_memory-Stays :
      (k : String) (f : Memory → Memory) (s : Store)
      → ((r : Memory) → (f r).id ≡ r.id)
      → (k == i) ≡ false
      → Stays i m s
      → Stays i m (set_memory k f s)
  unfolding Stays
  set_memory-Stays k f s same o h = set_memory-other i k f s.memories same o ∙ h

  insert-Stays :
      (r : Memory) (s : Store)
      → Stays i m s
      → Stays i m (record s { memories = s.memories ++ r ∷ [] })
  unfolding Stays
  insert-Stays r s h = find_where-append memory_key i s.memories (r ∷ []) m h

  add_memory-Stays :
      (draw : Draw) (actor : Option String) (c : Columns) (s : Store)
      → Stays i m s
      → Stays i m (add_memory sha256 draw actor c s)
  unfolding add_memory
  add_memory-Stays draw actor c s h =
      let n = new_memory draw c in
      emit-Stays draw c.project_id memory_add draw.memory (memory_data c.text n.metadata)
        (append_memory_history sha256 draw draw.memory event_add 1 none (some c.text) n.metadata
          actor none (record s { memories = s.memories ++ n ∷ [] }))
        (append-Stays draw draw.memory event_add 1 none (some c.text) n.metadata actor none
          (record s { memories = s.memories ++ n ∷ [] }) (insert-Stays n s h))

  pub create_memory-Stays :
      (draw : Draw) (actor : Option String) (c : Columns) (s : Store)
      → Stays i m s
      → Stays i m (create_memory sha256 draw actor c s).1
  unfolding create_memory
  create_memory-Stays draw actor c s h = elim (Bool-cases (is_blank c.text)) [
    | inl e ↦ rw (e, create_memory) h
    | inr e ↦ rw (e, create_memory) (add_memory-Stays draw actor c s h)
  ]

  pub ensure_fact_memory-Stays :
      (draw : Draw) (f : String) (c : Columns) (s : Store)
      → Stays i m s
      → Stays i m (ensure_fact_memory sha256 draw f c s).1
  unfolding ensure_fact_memory
  ensure_fact_memory-Stays draw f c s h = elim (Option-cases (find_where (has_fact f) s.memories)) [
    | inl n ↦
        rw (n, ensure_fact_memory) (add_memory-Stays draw none (record c { fact_id = some f }) s h)
    | inr (r, e) ↦ rw (e, ensure_fact_memory) h
  ]

  pub ensure_input_memory-Stays :
      (draw : Draw) (doc : String) (c : Columns) (s : Store)
      → Stays i m s
      → Stays i m (ensure_input_memory sha256 draw doc c s).1
  unfolding ensure_input_memory
  ensure_input_memory-Stays draw doc c s h =
      elim (Option-cases
        (find_where (λ r. r.text == c.text) (select_where (is_input doc) s.memories))) [
          | inl n ↦
              rw (n, ensure_input_memory)
                (create_memory-Stays draw none (record c { document_id = some doc }) s h)
          | inr (r, e) ↦ rw (e, ensure_input_memory) h
        ]

  update_row-Stays :
      (draw : Draw) (actor : Option String) (c : Change) (r : Memory) (s : Store)
      → ((r.id == i) ≡ false) ⊎ (is_deleted r.state ≡ true)
      → Stays i m s
      → Stays i m (update_row sha256 draw actor c r s).1
  unfolding update_row
  update_row-Stays draw actor c r s (inr e) h = rw (e, update_row) h
  update_row-Stays draw actor c r s (inl o) h = elim (Bool-cases (is_deleted r.state)) [
    | inl e ↦ rw (e, update_row) h
    | inr e ↦ elim (Bool-cases (is_blank (changed draw.now c r).text)) [
      | inl b ↦ rw (e, update_row, b) h
      | inr b ↦
          rw (e, update_row, b)
            (let n = changed draw.now c r in
              let t = set_memory r.id (write_change n) s in
              emit-Stays draw r.project_id memory_update r.id (memory_data n.text n.metadata)
                (append_memory_history sha256 draw r.id event_update n.version (some r.text)
                  (some n.text) n.metadata actor none t)
                (append-Stays draw r.id event_update n.version (some r.text) (some n.text)
                  n.metadata actor none t
                  (set_memory-Stays r.id (write_change n) s (λ x. refl) o h)))
    ]
  ]

  categorize_row-Stays :
      (draw : Draw) (actor : Option String) (category : String) (r : Memory) (s : Store)
      → ((r.id == i) ≡ false) ⊎ (is_deleted r.state ≡ true)
      → Stays i m s
      → Stays i m (categorize_row sha256 draw actor category r s).1
  unfolding categorize_row
  categorize_row-Stays draw actor category r s (inr e) h = rw (e, categorize_row) h
  categorize_row-Stays draw actor category r s (inl o) h = elim (Bool-cases (is_deleted r.state)) [
    | inl e ↦ rw (e, categorize_row) h
    | inr e ↦
        rw (e, categorize_row)
          (let n = categorized draw.now category r in
            let t = set_memory r.id (write_category n) s in
            emit-Stays draw r.project_id memory_categorize r.id
              (field "category" (str category) end)
              (append_memory_history sha256 draw r.id event_update n.version (some r.text)
                (some r.text) n.metadata actor none t)
              (append-Stays draw r.id event_update n.version (some r.text) (some r.text) n.metadata
                actor none t (set_memory-Stays r.id (write_category n) s (λ x. refl) o h)))
  ]

  pub update_memory-Stays :
      (draw : Draw) (j : String) (actor : Option String) (c : Change) (s : Store)
      → Stays i m s
      → Stays i m (update_memory sha256 draw j actor c s).1
  unfolding update_memory get_memory
  update_memory-Stays draw j actor c s h =
      elim (Option-cases (find_where (has_memory_id j) s.memories)) [
        | inl n ↦ rw (n, update_memory) h
        | inr (r, f) ↦
            rw (f, update_memory) (update_row-Stays draw actor c r s (own_or_other j s r h f) h)
      ]

  pub categorize_memory-Stays :
      (draw : Draw) (j : String) (actor : Option String) (category : String) (s : Store)
      → Stays i m s
      → Stays i m (categorize_memory sha256 draw j actor category s).1
  unfolding categorize_memory get_memory
  categorize_memory-Stays draw j actor category s h =
      elim (Bool-cases (is_blank category || ltb 200 (len (strip category)))) [
        | inl b ↦ rw (b, categorize_memory) h
        | inr b ↦ elim (Option-cases (find_where (has_memory_id j) s.memories)) [
          | inl n ↦ rw (b, categorize_memory, n) h
          | inr (r, f) ↦
              rw (b, categorize_memory, f)
                (categorize_row-Stays draw actor (strip category) r s (own_or_other j s r h f) h)
        ]
      ]
