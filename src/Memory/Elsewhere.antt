-- ===== src/Memory/Elsewhere.antt =====
-- db.py: deleting some memories, with the ones linked to them, leaves another one as it is.
use memoratum.Base.{
  ℕ, zero, suc, ◌+◌, ◌≡◌, inl, inr, refl, ap, sym, ◌∙◌, subst, String, true, false, Option, none,
  some, List, [], ◌∷◌, ◌==◌, eq_iff, arith, length, All, Bool-cases, Option-cases,
}
use memoratum.Json.{end, field, bool}
use memoratum.Table.{find_where, update_where, order_with}
use memoratum.Table.Laws.{find_where-update_where_other, All-find_where}
use memoratum.Table.Keyed.{found_key}
use memoratum.Table.Rows.{All-order_with}
use memoratum.Outbox.{memory_delete}
use memoratum.Memory.Tables.{
  Memory, is_deleted, event_delete, Fact, Store, ok, Draw, has_memory_id, get_memory,
  append_memory_history,
}
use memoratum.Memory.Operations.{set_memory}
use memoratum.Memory.Linked.{
  has_text, is_kept_projection, older_facts, visit, walk, root, text_before, linked_memory_ids,
  bury, delete_row, delete_targets,
}
use memoratum.Memory.Versions.{memory_key, emit_lem}

pub get_memory-found :
    (j : String) (s : Store) (r : Memory)
    → get_memory j s ≡ ok r
    → find_where (has_memory_id j) s.memories ≡ some r
unfolding get_memory
get_memory-found j s r g = elim (Option-cases (find_where (has_memory_id j) s.memories)) [
  | inl n ↦ ground (arith, n, g)
  | inr (k, f) ↦ let same : k ≡ r = ground (arith, f, g) in f ∙ ap some same
]

module _ (i : String) where
  -- A write of another row leaves what is found under the id.
  pub set_memory-other :
      (k : String) (f : Memory → Memory) (ms : List Memory)
      → ((r : Memory) → (f r).id ≡ r.id)
      → (k == i) ≡ false
      → find_where (has_memory_id i) (update_where (has_memory_id k) f ms)
        ≡ find_where (has_memory_id i) ms
  set_memory-other k f ms same ne =
      find_where-update_where_other (has_memory_id k) f (has_memory_id i) (λ r e. other r e)
        (λ r e. subst (λ x. (x == i) ≡ false) (sym (same r)) (other r e)) ms
    where
      other : (r : Memory) → (r.id == k) ≡ true → (r.id == i) ≡ false
      other r e = subst (λ x. (x == i) ≡ false) (sym ((eq_iff r.id k).0 e)) ne

  pub found_differs :
      (j : String) (ms : List Memory) (r : Memory)
      → find_where (has_memory_id j) ms ≡ some r
      → (j == i) ≡ false
      → (r.id == i) ≡ false
  found_differs j ms r f ne = subst (λ x. (x == i) ≡ false) (sym (found_key memory_key j ms r f)) ne

  module _ (sha256 : String → String) (draws : String → Draw) (actor : Option String) where
    pub delete_row-other :
        (r : Memory) (s : Store)
        → (r.id == i) ≡ false
        → find_where (has_memory_id i) (delete_row sha256 draws actor r s).memories
          ≡ find_where (has_memory_id i) s.memories
    unfolding delete_row append_memory_history
    delete_row-other r s ne =
        let draw = draws r.id in
        let gone = bury draw.now (r.version + 1) in
        ap (find_where (has_memory_id i))
          (emit_lem draw r.project_id memory_delete r.id (field "deleted" (bool true) end) (
            append_memory_history sha256 draw r.id event_delete (r.version + 1) none none end actor
              (some (sha256 r.text)) (set_memory r.id gone s))).0
        ∙ set_memory-other r.id gone s.memories (λ x. refl) ne

    pub delete_targets-other :
        (js : List String) (s t : Store)
        → All (λ j. (j == i) ≡ false) js
        → delete_targets sha256 draws actor js s ≡ ok t
        → find_where (has_memory_id i) t.memories ≡ find_where (has_memory_id i) s.memories
    unfolding delete_targets get_memory
    delete_targets-other [] s t o e =
        let same : s ≡ t = ground (arith, e) in
        ap (λ (x : Store). find_where (has_memory_id i) x.memories) (sym same)
    delete_targets-other (j ∷ js) s t o e =
        elim (Option-cases (find_where (has_memory_id j) s.memories)) [
          | inl n ↦ ground (arith, rw (n, delete_targets) at e)
          | inr (r, f) ↦
              delete_targets-other js (delete_row sha256 draws actor r s) t o.1
                (rw (f, delete_targets) at e)
              ∙ delete_row-other r s (found_differs j s.memories r f o.0)
        ]

  -- A memory that is kept is another one than a deleted one that has the id.
  abbrev pub Elsewhere : List Memory → Type 0
  Elsewhere ms = All (λ r. is_deleted r.state ≡ false → (r.id == i) ≡ false) ms

  abbrev pub Others : List String → Type 0
  Others js = All (λ j. (j == i) ≡ false) js

  kept_alive :
      (f : String) (ms : List Memory) (r : Memory)
      → find_where (is_kept_projection f) ms ≡ some r
      → is_deleted r.state ≡ false
  unfolding find_where
  kept_alive f [] r h = cc
  kept_alive f (m ∷ ms) r h = elim (Bool-cases (is_kept_projection f m)) [
    | inl e ↦
        let same : m ≡ r = ground (arith, e, h) in
        subst (λ (x : Memory). is_deleted x.state ≡ false) same (ground (arith, e))
    | inr e ↦ kept_alive f ms r (ground (arith, e, h))
  ]

  visit-Others :
      (ms : List Memory) (fs : List Fact) (frontier seen : List String)
      → Elsewhere ms
      → Others seen
      → Others (visit ms fs (frontier, seen)).1
  unfolding visit
  visit-Others ms [] frontier seen h o = o
  visit-Others ms (f ∷ fs) frontier seen h o =
      elim (Option-cases (find_where (is_kept_projection f.id) ms)) [
        | inl n ↦ rw (n, visit) (visit-Others ms fs frontier seen h o)
        | inr (r, k) ↦ elim (Bool-cases (has_text r.id seen)) [
          | inl t ↦ rw (k, visit, t) (visit-Others ms fs frontier seen h o)
          | inr t ↦
              rw (k, visit, t)
                (visit-Others ms fs (f.id ∷ frontier) (r.id ∷ seen) h (
                  All-find_where (λ r. is_deleted r.state ≡ false → (r.id == i) ≡ false)
                      (is_kept_projection f.id) ms r h k (kept_alive f.id ms r k),
                  o,
                ))
        ]
      ]

  walk-Others :
      (n : ℕ) (s : Store) (w : List String × List String) (ids : List String)
      → Elsewhere s.memories
      → Others w.1
      → walk n s w ≡ some ids
      → Others ids
  unfolding walk
  walk-Others n s ([], seen) ids h o e =
      let same : seen ≡ ids = ground (arith, e) in subst Others same o
  walk-Others zero s (f ∷ frontier, seen) ids h o e = ground (arith, e)
  walk-Others (suc n) s (f ∷ frontier, seen) ids h o e =
      walk-Others n s (visit s.memories (older_facts f s) (frontier, seen)) ids h
        (visit-Others s.memories (older_facts f s) frontier seen h o) e

  pub linked_memory_ids-Others :
      (j : String) (s : Store) (ids : List String)
      → Elsewhere s.memories
      → linked_memory_ids j s ≡ ok (some ids)
      → Others ids
  unfolding linked_memory_ids get_memory
  linked_memory_ids-Others j s ids h e =
      elim (Option-cases (find_where (has_memory_id j) s.memories)) [
        | inl n ↦ ground (arith, rw (n, linked_memory_ids) at e)
        | inr (r, f) ↦ elim (Option-cases (walk (length s.memories + 1) s (root r.fact_id, []))) [
          | inl n ↦ ground (arith, rw (f, linked_memory_ids, n) at e)
          | inr (js, g) ↦
              let same : order_with text_before js ≡ ids =
                ground (arith, rw (f, linked_memory_ids, g) at e) in
              subst Others same (
                All-order_with (λ j. (j == i) ≡ false) text_before js
                  (walk-Others (length s.memories + 1) s (root r.fact_id, []) js h tt g))
        ]
      ]
