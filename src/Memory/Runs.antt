-- ===== src/Memory/Runs.antt =====
-- db.py: histories of operations on memories. What an operation raises leaves the store as it was.
use memoratum.Base.{
  is_blank, strip, len, ◌≡◌, refl, String, Bool, Option, none, some, List, [], ◌∷◌, ltb, ◌||◌,
  Bool-cases, Option-cases, inl, inr,
}
use memoratum.Table.{find_where}
use memoratum.Table.Keyed.{find_where_own}
use memoratum.Memory.Tables.{
  is_deleted, Store, Result, ok, error, Draw, Columns, has_memory_id, get_memory,
}
use memoratum.Memory.Operations.{
  Change, create_memory, ensure_fact_memory, ensure_input_memory, update_memory, categorize_memory,
}
use memoratum.Memory.Linked.{
  Report, linked_memory_ids, delete_targets, report_of, delete_linked, soft_delete_memory,
}
use memoratum.Memory.Versions.{memory_key}
use memoratum.Memory.Lifecycle.{
  IsSound, IsFresh, create_memory-IsSound, ensure_fact_memory-IsSound, ensure_input_memory-IsSound,
  update_row-IsSound, categorize_row-IsSound, delete_targets-IsSound,
}

-- The operations that write memories, with what they draw.
pub data Op : Type 0 where
  create : Draw → Option String → Columns → Op
  ensure_fact : Draw → String → Columns → Op
  ensure_input : Draw → String → Columns → Op
  update : Draw → String → Option String → Change → Op
  categorize : Draw → String → Option String → String → Op
  soft_delete : (String → Draw) → Option String → String → Bool → Op

-- An operation that raises is rolled back.
abbrev pub committed : Store → Result (Option (Report × Store)) → Store
committed s (error e) = s
committed s (ok none) = s
committed s (ok (some (r, s'))) = s'

module _ (sha256 : String → String) where
  unfoldable pub apply : Op → Store → Store
  apply (create draw actor c) s = (create_memory sha256 draw actor c s).1
  apply (ensure_fact draw f c) s = (ensure_fact_memory sha256 draw f c s).1
  apply (ensure_input draw doc c) s = (ensure_input_memory sha256 draw doc c s).1
  apply (update draw i actor c) s = (update_memory sha256 draw i actor c s).1
  apply (categorize draw i actor category) s = (categorize_memory sha256 draw i actor category s).1
  apply (soft_delete draws actor i linked) s =
      committed s (soft_delete_memory sha256 draws actor i linked s)

  unfoldable pub run_ops : List Op → Store → Store
  run_ops [] s = s
  run_ops (o ∷ os) s = run_ops os (apply o s)

  abbrev pub DrawsFresh : Op → Store → Type 0
  DrawsFresh (create draw _ _) s = IsFresh draw.memory s
  DrawsFresh (ensure_fact draw _ _) s = IsFresh draw.memory s
  DrawsFresh (ensure_input draw _ _) s = IsFresh draw.memory s
  DrawsFresh _ s = Unit

  abbrev pub AllFresh : List Op → Store → Type 0
  AllFresh [] s = Unit
  AllFresh (o ∷ os) s = DrawsFresh o s × AllFresh os (apply o s)

  update_memory-IsSound :
      (draw : Draw) (i : String) (actor : Option String) (c : Change) (s : Store)
      → IsSound s
      → IsSound (update_memory sha256 draw i actor c s).1
  unfolding update_memory get_memory
  update_memory-IsSound draw i actor c s h =
      elim (Option-cases (find_where (has_memory_id i) s.memories)) [
        | inl n ↦ rw (n, update_memory) h
        | inr (m, f) ↦
            rw (f, update_memory)
              (update_row-IsSound sha256 draw actor c m s
                (find_where_own memory_key i s.memories m f) h)
      ]

  categorize_memory-IsSound :
      (draw : Draw) (i : String) (actor : Option String) (category : String) (s : Store)
      → IsSound s
      → IsSound (categorize_memory sha256 draw i actor category s).1
  unfolding categorize_memory get_memory
  categorize_memory-IsSound draw i actor category s h =
      elim (Bool-cases (is_blank category || ltb 200 (len (strip category)))) [
        | inl b ↦ rw (b, categorize_memory) h
        | inr b ↦ elim (Option-cases (find_where (has_memory_id i) s.memories)) [
          | inl n ↦ rw (b, categorize_memory, n) h
          | inr (m, f) ↦
              rw (b, categorize_memory, f)
                (categorize_row-IsSound sha256 draw actor (strip category) m s
                  (find_where_own memory_key i s.memories m f) h)
        ]
      ]

  report_of-IsSound :
      (draws : String → Draw) (actor : Option String) (i : String) (ids : List String) (s : Store)
      (r : Result Store)
      → delete_targets sha256 draws actor (i ∷ ids) s ≡ r
      → IsSound s
      → IsSound (committed s (report_of sha256 draws actor i ids r))
  report_of-IsSound draws actor i ids s (error f) e h = h
  report_of-IsSound draws actor i ids s (ok s') e h =
      delete_targets-IsSound sha256 draws actor (i ∷ ids) s s' e h

  delete_linked-IsSound :
      (draws : String → Draw) (actor : Option String) (i : String)
      (r : Result (Option (List String))) (s : Store)
      → IsSound s
      → IsSound (committed s (delete_linked sha256 draws actor i r s))
  delete_linked-IsSound draws actor i (error e) s h = h
  delete_linked-IsSound draws actor i (ok none) s h = h
  delete_linked-IsSound draws actor i (ok (some ids)) s h =
      report_of-IsSound draws actor i ids s (delete_targets sha256 draws actor (i ∷ ids) s) refl h

  soft_delete_memory-IsSound :
      (draws : String → Draw) (actor : Option String) (i : String) (linked : Bool) (s : Store)
      → IsSound s
      → IsSound (committed s (soft_delete_memory sha256 draws actor i linked s))
  unfolding soft_delete_memory get_memory
  soft_delete_memory-IsSound draws actor i linked s h =
      elim (Option-cases (find_where (has_memory_id i) s.memories)) [
        | inl n ↦ rw (n, soft_delete_memory) h
        | inr (m, f) ↦ elim (Bool-cases (is_deleted m.state)) [
          | inl d ↦ rw (f, soft_delete_memory, d) h
          | inr d ↦ elim (Bool-cases linked) [
            | inl l ↦
                rw (f, soft_delete_memory, d, l)
                  (delete_linked-IsSound draws actor i (linked_memory_ids i s) s h)
            | inr l ↦
                rw (f, soft_delete_memory, d, l)
                  (report_of-IsSound draws actor i [] s
                    (delete_targets sha256 draws actor (i ∷ []) s) refl h)
          ]
        ]
      ]

  pub apply-IsSound : (o : Op) (s : Store) → DrawsFresh o s → IsSound s → IsSound (apply o s)
  unfolding apply
  apply-IsSound (create draw actor c) s f h = create_memory-IsSound sha256 draw actor c s f h
  apply-IsSound (ensure_fact draw g c) s f h = ensure_fact_memory-IsSound sha256 draw g c s f h
  apply-IsSound (ensure_input draw doc c) s f h =
      ensure_input_memory-IsSound sha256 draw doc c s f h
  apply-IsSound (update draw i actor c) s f h = update_memory-IsSound draw i actor c s h
  apply-IsSound (categorize draw i actor g) s f h = categorize_memory-IsSound draw i actor g s h
  apply-IsSound (soft_delete draws actor i l) s f h = soft_delete_memory-IsSound draws actor i l s h

  -- After any operations on a sound store whose new ids are fresh, the store is sound: the ids of the memories are
  -- a primary key, the history of a memory at version n has exactly the versions 1, ..., n in that order, and the
  -- row of a deletion has no text and no metadata.
  pub run_ops-IsSound :
      (os : List Op) (s : Store) → AllFresh os s → IsSound s → IsSound (run_ops os s)
  unfolding run_ops
  run_ops-IsSound [] s f h = h
  run_ops-IsSound (o ∷ os) s f h = run_ops-IsSound os (apply o s) f.1 (apply-IsSound o s f.0 h)
