-- ===== src/Memory/Deletion.antt =====
-- db.py: the walk over superseded facts ends.
use memoratum.Base.{
  ℕ, zero, suc, ◌+◌, ◌≤◌, ◌≡◌, refl, String, Bool, false, not, Option, none, some, List, [], ◌∷◌,
  eq_refl, length, arith, Bool-cases, Option-cases, inl, inr,
}
use memoratum.Table.{find_where, count_where, order_with}
use memoratum.Memory.Tables.{Memory, Fact, Store, ok, has_memory_id, get_memory}
use memoratum.Memory.Linked.{
  has_text, older_facts, is_kept_projection, visit, walk, root, linked_memory_ids, text_before,
}

unseen : List String → List Memory → ℕ
unseen seen ms = count_where (λ (m : Memory). not (has_text m.id seen)) ms

unseen-le :
    (i : String) (seen : List String) (ms : List Memory) → unseen (i ∷ seen) ms ≤ unseen seen ms
unfolding unseen count_where has_text
unseen-le i seen [] = omega arith
unseen-le i seen (m ∷ ms) = ground (arith, unseen-le i seen ms)

-- A memory that is seen for the first time is one less to see.
unseen-lt :
    (p : Memory → Bool) (seen : List String) (ms : List Memory) (m : Memory)
    → find_where p ms ≡ some m
    → has_text m.id seen ≡ false
    → suc (unseen (m.id ∷ seen) ms) ≤ unseen seen ms
unfolding unseen count_where has_text find_where
unseen-lt p seen [] m h e = ground (arith, h)
unseen-lt p seen (r ∷ ms) m h e = elim (Bool-cases (p r)) [
  | inl t ↦ ground (arith, t, h, e, eq_refl r.id, unseen-le m.id seen ms)
  | inr t ↦ ground (arith, unseen-lt p seen ms m (ground (arith, t, h)) e)
]

size : List Memory → List String × List String → ℕ
unfolding unseen
size ms w = length w.0 + unseen w.1 ms

visit-le :
    (ms : List Memory) (fs : List Fact) (frontier seen : List String)
    → size ms (visit ms fs (frontier, seen)) ≤ size ms (frontier, seen)
unfolding visit size
visit-le ms [] frontier seen = omega arith
visit-le ms (f ∷ fs) frontier seen = elim (Option-cases (find_where (is_kept_projection f.id) ms)) [
  | inl n ↦ rw (n, visit) (visit-le ms fs frontier seen)
  | inr (m, h) ↦ elim (Bool-cases (has_text m.id seen)) [
    | inl t ↦ rw (h, visit, t) (visit-le ms fs frontier seen)
    | inr t ↦
        rw (h, visit, t)
          (omega (
            arith,
            visit-le ms fs (f.id ∷ frontier) (m.id ∷ seen),
            unseen-lt (is_kept_projection f.id) seen ms m h t,
          ))
  ]
]

count_where-le : (p : Memory → Bool) (ms : List Memory) → count_where p ms ≤ length ms
unfolding count_where
count_where-le p [] = omega arith
count_where-le p (m ∷ ms) = ground (arith, count_where-le p ms)

walk_ends :
    (n : ℕ) (s : Store) (w : List String × List String)
    → size s.memories w ≤ n
    → (ids : List String) × (walk n s w ≡ some ids)
unfolding walk size
walk_ends n s ([], seen) h = (seen, refl)
walk_ends zero s (f ∷ frontier, seen) h = ground (arith, h)
walk_ends (suc n) s (f ∷ frontier, seen) h =
    walk_ends n s (visit s.memories (older_facts f s) (frontier, seen))
      (omega (arith, h, visit-le s.memories (older_facts f s) frontier seen))

root-le : (f : Option String) → length (root f) ≤ 1
root-le none = omega arith
root-le (some f) = ground arith

-- The walk over the superseded facts of an existing memory ends: as many steps as there are memories, and one
-- more, are enough.
pub linked_memory_ids_ends :
    (i : String) (s : Store) (m : Memory)
    → find_where (has_memory_id i) s.memories ≡ some m
    → (ids : List String) × (linked_memory_ids i s ≡ ok (some ids))
unfolding linked_memory_ids get_memory size unseen
linked_memory_ids_ends i s m h =
    let (ids, e) =
      walk_ends (length s.memories + 1) s (root m.fact_id, [])
        (omega (
          arith,
          root-le m.fact_id,
          count_where-le (λ (m : Memory). not (has_text m.id [])) s.memories,
        )) in
    (order_with text_before ids, rw (h, linked_memory_ids, e) refl)
