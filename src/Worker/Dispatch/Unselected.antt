-- ===== src/Worker/Dispatch/Unselected.antt =====
-- worker.py: deleting memories leaves those alone that are not asked for.
use memoratum.Base.{
  ℕ, String, Bool, true, false, ◌&&◌, Option, none, some, List, [], ◌∷◌, ◌==◌, ◌≡◌, refl, ap, ◌∙◌,
  subst, Bool-cases, inl, inr, All, All-imp,
}
use memoratum.Table.{find_where, select_where, order_with}
use memoratum.Table.Laws.{All-select_where}
use memoratum.Table.Keyed.{Keyed, only_found}
use memoratum.Table.Rows.{passing, All-order_with, both}
use memoratum.Memory.Tables.{
  Memory, Store, Result, ok, error, Draw, is_deleted, has_memory_id, get_memory,
}
use memoratum.Memory.Operations.{list_all_memories, is_listed, memory_before}
use memoratum.Memory.Linked.{soft_delete_memory, delete_row, delete_targets, report_of}
use memoratum.Memory.Runs.{committed}
use memoratum.Memory.Elsewhere.{get_memory-found, found_differs, delete_row-other}
use memoratum.Purge.Prune.{Expired, raises, out_of_fuel, expired, expire_memories, and_id}
use memoratum.Worker.Dispatch.{is_selected, end_delete, selected_memories, delete_all_memories}

module _ (sha256 : String → String) (draws : String → Draw) (i : String) where
  abbrev found : Store → Option Memory
  found s = find_where (has_memory_id i) s.memories

  delete_targets-one :
      (m : Memory) (j : String) (s : Store)
      → get_memory j s ≡ ok m
      → (m.id == i) ≡ false
      → delete_targets sha256 draws none (j ∷ []) s ≡ ok (delete_row sha256 draws none m s)
  unfolding delete_targets
  delete_targets-one m j s h ne = rw (h, delete_targets)

  deleted_other :
      (j : String) (s : Store) (r : Result Memory)
      → (j == i) ≡ false
      → get_memory j s ≡ r
      → found (committed s (soft_delete_memory sha256 draws none j false s)) ≡ found s
  unfolding soft_delete_memory
  deleted_other j s (error e) ne g = rw (soft_delete_memory, g) refl
  deleted_other j s (ok m) ne g = elim (Bool-cases (is_deleted m.state)) [
    | inl d ↦ rw (soft_delete_memory, g, d) refl
    | inr d ↦
        rw (soft_delete_memory, g, d)
          (let differs = found_differs i j s.memories m (get_memory-found j s m g) ne in
            ap (λ r. found (committed s (report_of sha256 draws none j [] r)))
              (delete_targets-one m j s g differs)
            ∙ delete_row-other i sha256 draws none m s differs)
  ]

  soft_delete_memory-other :
      (j : String) (s : Store)
      → (j == i) ≡ false
      → found (committed s (soft_delete_memory sha256 draws none j false s)) ≡ found s
  soft_delete_memory-other j s ne = deleted_other j s (get_memory j s) ne refl

  -- What the loop leaves, if it ends, has the memory as it was.
  abbrev Keeps : Store → Expired → Type 0
  Keeps s (raises e) = Unit
  Keeps s out_of_fuel = Unit
  Keeps s (expired ids t) = found t ≡ found s

  and_id-Keeps :
      (s : Store) (j : String) (b : Bool) (e : Expired) → Keeps s e → Keeps s (and_id j b e)
  and_id-Keeps s j true (expired ids t) h = h
  and_id-Keeps s j false (expired ids t) h = h
  and_id-Keeps s j true (raises e) h = tt
  and_id-Keeps s j false (raises e) h = tt
  and_id-Keeps s j true out_of_fuel h = tt
  and_id-Keeps s j false out_of_fuel h = tt

  Keeps-trans : (s t : Store) (e : Expired) → found t ≡ found s → Keeps t e → Keeps s e
  Keeps-trans s t (raises x) h k = tt
  Keeps-trans s t out_of_fuel h k = tt
  Keeps-trans s t (expired ids u) h k = k ∙ h

  expire_memories-Keeps :
      (ms : List Memory) (s : Store)
      → All (λ m. (m.id == i) ≡ false) ms
      → Keeps s (expire_memories sha256 draws ms s)
  unfolding expire_memories
  expire_memories-Keeps [] s h = refl
  expire_memories-Keeps (m ∷ ms) s h =
      elim (soft_delete_memory sha256 draws none m.id false s)
          as (λ r.
            found (committed s r) ≡ found s
            → Keeps s (elim r [
              | error e ↦ raises e
              | ok none ↦ out_of_fuel
              | ok (some (report, t)) ↦
                  and_id m.id report.deleted (expire_memories sha256 draws ms t)
            ])) [
              | error e ↦ (λ k. tt)
              | ok none ↦ (λ k. tt)
              | ok (some (report, t)) ↦ (λ k.
                  and_id-Keeps s m.id report.deleted (expire_memories sha256 draws ms t) (
                    Keeps-trans s t (expire_memories sha256 draws ms t) k
                      (expire_memories-Keeps ms t h.1)))
            ]
        (soft_delete_memory-other m.id s h.0)

  Keeps-ends :
      (remove : List String → Option String) (s : Store) (e : Expired)
      → Keeps s e
      → found ((end_delete remove s e).1) ≡ found s
  Keeps-ends remove s (raises e) h = refl
  Keeps-ends remove s out_of_fuel h = refl
  Keeps-ends remove s (expired [] t) h = h
  Keeps-ends remove s (expired (j ∷ js) t) h = h

  module _ (now : ℕ) (org project : Option String) (filters : List (String × String)) (m : Memory)
      (u : (is_listed now org project false true m && is_selected filters m) ≡ false) where
    abbrev listed : Memory → Bool
    listed = is_listed now org project false true

    not_both : (l c : Bool) → l ≡ true → c ≡ true → (l && c) ≡ false → true ≡ false
    not_both l c x y h = cc

    differs :
        (r : Memory)
        → listed r ≡ true
        → ((r.id == i) ≡ true → r ≡ m)
        → is_selected filters r ≡ true
        → (r.id == i) ≡ false
    differs r a same b = elim (Bool-cases (r.id == i)) [
      | inl e ↦
          e
          ∙ not_both (listed m) (is_selected filters m) (subst (λ x. listed x ≡ true) (same e) a)
              (subst (λ x. is_selected filters x ≡ true) (same e) b) u
      | inr e ↦ e
    ]

    listed-other :
        (rs : List Memory)
        → Keyed (λ r. r.id) rs
        → find_where (has_memory_id i) rs ≡ some m
        → All (λ r. is_selected filters r ≡ true → (r.id == i) ≡ false) (select_where listed rs)
    listed-other rs k f =
        All-imp _ _ (λ r h. differs r h.0 h.1) (select_where listed rs)
          (both (λ r. listed r ≡ true) (λ r. (r.id == i) ≡ true → r ≡ m) (select_where listed rs)
            (passing listed rs)
            (All-select_where (λ r. (r.id == i) ≡ true → r ≡ m) listed rs
              (only_found (λ r. r.id) i rs m k f)))

    selected-other :
        (s : Store)
        → Keyed (λ r. r.id) s.memories
        → found s ≡ some m
        → All (λ r. (r.id == i) ≡ false) (selected_memories now org project filters s)
    unfolding list_all_memories
    selected-other s k f =
        let rows = order_with memory_before (select_where listed s.memories) in
        All-imp _ _ (λ r h. h.1 h.0) (select_where (is_selected filters) rows)
          (both (λ r. is_selected filters r ≡ true)
            (λ r. is_selected filters r ≡ true → (r.id == i) ≡ false)
            (select_where (is_selected filters) rows) (passing (is_selected filters) rows)
            (All-select_where (λ r. is_selected filters r ≡ true → (r.id == i) ≡ false)
              (is_selected filters) rows
              (All-order_with (λ r. is_selected filters r ≡ true → (r.id == i) ≡ false)
                memory_before (select_where listed s.memories) (listed-other s.memories k f))))

  -- After the job that deletes all memories that match, a memory that is not listed for the
  -- organisation and the project of the job, or that a filter does not match, is as it was, however
  -- the job ends; ids of memories are unique.
  pub delete_all_memories-found :
      (remove : List String → Option String) (now : ℕ) (org project : Option String)
      (filters : List (String × String)) (m : Memory) (s : Store)
      → Keyed (λ r. r.id) s.memories
      → found s ≡ some m
      → (is_listed now org project false true m && is_selected filters m) ≡ false
      → found ((delete_all_memories sha256 draws remove now org project filters s).1) ≡ some m
  unfolding delete_all_memories
  delete_all_memories-found remove now org project filters m s k f u =
      Keeps-ends remove s
        (expire_memories sha256 draws (selected_memories now org project filters s) s)
        (expire_memories-Keeps (selected_memories now org project filters s) s
          (selected-other now org project filters m u s k f))
      ∙ f
