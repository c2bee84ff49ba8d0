-- ===== src/Memory/Final.antt =====
-- db.py: what the operations on memories do to a memory that is deleted.
use memoratum.Base.{
  is_blank, strip, len, ◌≡◌, inl, inr, refl, ◌∙◌, String, Bool, true, false, Option, none, some,
  List, [], ◌∷◌, ◌||◌, ◌==◌, ltb, Bool-cases, Option-cases, if◌then◌else◌,
}
use memoratum.Table.{find_where}
use memoratum.Memory.Tables.{
  Memory, is_deleted, Store, Result, ok, error, missing, invalid, Draw, has_memory_id, get_memory,
}
use memoratum.Memory.Operations.{
  Change, update_row, update_memory, categorize_row, categorize_memory,
}
use memoratum.Memory.Linked.{
  linked_memory_ids, delete_targets, report_of, delete_linked, soft_delete_memory,
}
use memoratum.Memory.Lifecycle.{IsSound}
use memoratum.Memory.Runs.{
  Op, create, ensure_fact, ensure_input, update, categorize, soft_delete, committed, apply, run_ops,
  AllFresh, apply-IsSound,
}
use memoratum.Memory.Elsewhere.{delete_targets-other, Elsewhere, Others, linked_memory_ids-Others}
use memoratum.Memory.Stays.{
  elsewhere, alive_other, create_memory-Stays, ensure_fact_memory-Stays, ensure_input_memory-Stays,
  update_memory-Stays, categorize_memory-Stays, Stays,
}

module _ (sha256 : String → String) (i : String) (m : Memory) (d : is_deleted m.state ≡ true) where
  report_of-Stays :
      (draws : String → Draw) (actor : Option String) (j : String) (ids : List String) (s : Store)
      (r : Result Store)
      → Others i (j ∷ ids)
      → delete_targets sha256 draws actor (j ∷ ids) s ≡ r
      → Stays i m s
      → Stays i m (committed s (report_of sha256 draws actor j ids r))
  unfolding Stays
  report_of-Stays draws actor j ids s (error e) o g h = h
  report_of-Stays draws actor j ids s (ok t) o g h =
      delete_targets-other i sha256 draws actor (j ∷ ids) s t o g ∙ h

  delete_linked-Stays :
      (draws : String → Draw) (actor : Option String) (j : String) (s : Store)
      (r : Result (Option (List String)))
      → Elsewhere i s.memories
      → (j == i) ≡ false
      → linked_memory_ids j s ≡ r
      → Stays i m s
      → Stays i m (committed s (delete_linked sha256 draws actor j r s))
  delete_linked-Stays draws actor j s (error e) k o g h = h
  delete_linked-Stays draws actor j s (ok none) k o g h = h
  delete_linked-Stays draws actor j s (ok (some ids)) k o g h =
      report_of-Stays draws actor j ids s (delete_targets sha256 draws actor (j ∷ ids) s)
        (o, linked_memory_ids-Others i j s ids k g) refl h

  soft_delete_memory-Stays :
      (draws : String → Draw) (actor : Option String) (j : String) (linked : Bool) (s : Store)
      → Elsewhere i s.memories
      → Stays i m s
      → Stays i m (committed s (soft_delete_memory sha256 draws actor j linked s))
  unfolding soft_delete_memory get_memory
  soft_delete_memory-Stays draws actor j linked s k h =
      elim (Option-cases (find_where (has_memory_id j) s.memories)) [
        | inl n ↦ rw (n, soft_delete_memory) h
        | inr (r, f) ↦ elim (Bool-cases (is_deleted r.state)) [
          | inl e ↦ rw (f, soft_delete_memory, e) h
          | inr e ↦
              let o = alive_other sha256 i m d j s r h f e in
              elim (Bool-cases linked) [
                | inl l ↦
                    rw (f, soft_delete_memory, e, l)
                      (delete_linked-Stays draws actor j s (linked_memory_ids j s) k o refl h)
                | inr l ↦
                    rw (f, soft_delete_memory, e, l)
                      (report_of-Stays draws actor j [] s
                        (delete_targets sha256 draws actor (j ∷ []) s) (o, tt) refl h)
              ]
        ]
      ]

  update_refused :
      (draw : Draw) (actor : Option String) (c : Change) (s : Store)
      → find_where (has_memory_id i) s.memories ≡ some m
      → update_memory sha256 draw i actor c s ≡ (error missing, s)
  unfolding update_memory get_memory update_row
  update_refused draw actor c s h = rw (h, update_memory, d) refl

  categorize_refused :
      (draw : Draw) (actor : Option String) (category : String) (s : Store)
      → find_where (has_memory_id i) s.memories ≡ some m
      → categorize_memory sha256 draw i actor category s ≡ (
        (if is_blank category || ltb 200 (len (strip category))
            then error invalid
            else error missing),
        s,
      )
  unfolding categorize_memory get_memory categorize_row
  categorize_refused draw actor category s h =
      elim (Bool-cases (is_blank category || ltb 200 (len (strip category)))) [
        | inl b ↦ rw (b, categorize_memory) refl
        | inr b ↦ rw (b, categorize_memory, h, d) refl
      ]

  soft_delete_refused :
      (draws : String → Draw) (actor : Option String) (linked : Bool) (s : Store)
      → find_where (has_memory_id i) s.memories ≡ some m
      → soft_delete_memory sha256 draws actor i linked s
        ≡ ok (
            some
              (record { memory_id = i; deleted = false; cascade_count = 0; deleted_ids = none }, s))
  unfolding soft_delete_memory get_memory
  soft_delete_refused draws actor linked s h = rw (h, soft_delete_memory, d) refl

  apply-Stays : (o : Op) (s : Store) → IsSound s → Stays i m s → Stays i m (apply sha256 o s)
  unfolding apply
  apply-Stays (create draw actor c) s v h = create_memory-Stays sha256 i m d draw actor c s h
  apply-Stays (ensure_fact draw f c) s v h = ensure_fact_memory-Stays sha256 i m d draw f c s h
  apply-Stays (ensure_input draw doc c) s v h =
      ensure_input_memory-Stays sha256 i m d draw doc c s h
  apply-Stays (update draw j actor c) s v h = update_memory-Stays sha256 i m d draw j actor c s h
  apply-Stays (categorize draw j actor g) s v h =
      categorize_memory-Stays sha256 i m d draw j actor g s h
  apply-Stays (soft_delete draws actor j l) s v h =
      soft_delete_memory-Stays draws actor j l s (elsewhere sha256 i m d s v h) h

  run_ops-Stays :
      (os : List Op) (s : Store)
      → AllFresh sha256 os s
      → IsSound s
      → Stays i m s
      → Stays i m (run_ops sha256 os s)
  unfolding run_ops
  run_ops-Stays [] s f v h = h
  run_ops-Stays (o ∷ os) s f v h =
      run_ops-Stays os (apply sha256 o s) f.1 (apply-IsSound sha256 o s f.0 v) (apply-Stays o s v h)

  -- In a sound store a deleted memory is final. After any operations on memories, of those in Memory/Runs.antt, whose
  -- new ids are fresh, its row is the one that it was, and in the store that they leave an update answers the KeyError,
  -- a categorization the KeyError, or the ValueError if the category is blank or too long, and another deletion that it
  -- deleted nothing; the three leave the store as it is.
  pub deleted_is_final :
      (os : List Op) (s : Store)
      → IsSound s
      → AllFresh sha256 os s
      → find_where (has_memory_id i) s.memories ≡ some m
      → (draw : Draw) (draws : String → Draw) (actor : Option String) (c : Change)
        (category : String) (linked : Bool)
      → (find_where (has_memory_id i) (run_ops sha256 os s).memories ≡ some m)
        × (update_memory sha256 draw i actor c (run_ops sha256 os s)
            ≡ (error missing, run_ops sha256 os s))
        × (categorize_memory sha256 draw i actor category (run_ops sha256 os s) ≡ (
          (if is_blank category || ltb 200 (len (strip category))
              then error invalid
              else error missing),
          run_ops sha256 os s,
        ))
        × (soft_delete_memory sha256 draws actor i linked (run_ops sha256 os s)
            ≡ ok (
                some (
                  record { memory_id = i; deleted = false; cascade_count = 0; deleted_ids = none },
                  run_ops sha256 os s,
                )))
  unfolding Stays
  deleted_is_final os s v f h draw draws actor c category linked =
      let stays = run_ops-Stays os s f v h in
      (
        stays,
        update_refused draw actor c (run_ops sha256 os s) stays,
        categorize_refused draw actor category (run_ops sha256 os s) stays,
        soft_delete_refused draws actor linked (run_ops sha256 os s) stays,
      )
