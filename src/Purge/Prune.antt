-- ===== src/Purge/Prune.antt =====
-- db.py: `prune_expired`. Ids of vectors are texts; `digits` writes the id of a
-- chunk as the column does.
use memoratum.Base.{
  ℕ, String, Bool, true, false, ◌&&◌, ◌||◌, ◌⊎◌, not, Option, none, some, List, [], ◌∷◌, ◌==◌, leb,
  length, if◌then◌else◌, is_some, ◌≡◌, All, Bool-cases, inl, inr,
}
use memoratum.Table.{select_where, find_where, delete_where, count_where}
use memoratum.Table.Laws.{All-update_where}
use memoratum.Documents.{Document}
use memoratum.Memory.Tables.{Memory, Fact, Store, ok, error, Failure, Draw, is_deleted}
use memoratum.Memory.Linked.{soft_delete_memory}
use memoratum.Purge.{
  World, Point, delete_facts, delete_documents, without_facts, is_blocked, forget_source,
  document_in,
}
use memoratum.Purge.Successors.{IsBlocked, blocking_row, no_blocking_row}
use memoratum.Purge.Erased.{delete_where-none}

-- expires_at IS NOT NULL AND expires_at <= ?
abbrev pub is_past : ℕ → Option ℕ → Bool
is_past now none = false
is_past now (some t) = leb t now

abbrev pub is_expired_memory : ℕ → Memory → Bool
is_expired_memory now m = not (is_deleted m.state) && is_past now m.expires_at

unfoldable pub has_text_id : List String → String → Bool
has_text_id [] i = false
has_text_id (j ∷ is) i = if j == i then true else has_text_id is i

-- The end of the loop over the expired memories: an exception, or the ids that it deleted. The walk
-- that may run out of fuel belongs to the deletion of linked memories, which is not asked for.
pub data Expired : Type 0 where
  raises : Failure → Expired
  out_of_fuel : Expired
  expired : List String → Store → Expired

abbrev pub and_id : String → Bool → Expired → Expired
and_id i true (expired is s) = expired (i ∷ is) s
and_id i _ e = e

pub data Pruned : Type 0 where
  raised : Failure → Pruned
  stuck integrity_error : Pruned
  pruned : ℕ → ℕ → ℕ → World → Pruned

-- What a prune leaves: neither a fact nor a document that has expired.
abbrev pub IsPruned : ℕ → World → Type 0
IsPruned now w =
    All (λ f. is_past now f.expires_at ≡ false) w.store.facts
    × All (λ d. is_past now d.expires_at ≡ false) w.documents

module _ (sha256 : String → String) (draws : String → Draw) where
  unfoldable pub expire_memories : List Memory → Store → Expired
  unfolding soft_delete_memory
  expire_memories [] s = expired [] s
  expire_memories (m ∷ ms) s = elim (soft_delete_memory sha256 draws none m.id false s) [
    | error e ↦ raises e
    | ok none ↦ out_of_fuel
    | ok (some (report, t)) ↦ and_id m.id report.deleted (expire_memories ms t)
  ]

module _ (sha256 : String → String) (draws : String → Draw) (digits : ℕ → String) where
  -- The vectors of the deleted memories and of the chunks of expired documents.
  abbrev pub is_stale_point : ℕ → List String → World → Point → Bool
  is_stale_point now ids w p =
      has_text_id ids p.id
      || is_some (
          find_where
            (λ c.
              digits c.id == p.id
              && document_in (λ d. is_past now d.expires_at) w.documents (some c.document_id))
            w.chunks)

  abbrev pub prune_documents : ℕ → ℕ → ℕ → Option World → Pruned
  prune_documents now memories facts none = integrity_error
  prune_documents now memories facts (some w) =
      pruned memories facts (count_where (λ d. is_past now d.expires_at) w.documents)
        (delete_documents (λ d. is_past now d.expires_at) w)

  abbrev pub prune_rows : ℕ → Expired → World → Pruned
  prune_rows now (raises e) w = raised e
  prune_rows now out_of_fuel w = stuck
  prune_rows now (expired ids s) w =
      let cleaned = record w {
        store = s;
        points = delete_where (is_stale_point now ids w) w.points;
      } in
      prune_documents now (length ids) (count_where (λ f. is_past now f.expires_at) s.facts)
        (delete_facts (λ f. is_past now f.expires_at) cleaned)

  -- On an exception nothing is committed.
  unfoldable pub prune_expired : ℕ → World → Pruned
  unfolding expire_memories delete_facts delete_documents has_text_id
  prune_expired now w =
      prune_rows now
        (expire_memories sha256 draws (select_where (is_expired_memory now) w.store.memories)
          w.store)
        w

  -- Once the expired memories are deleted: if a fact that stays names an expired fact of the table as its successor,
  -- prune_expired ends in an IntegrityError. If no fact does, it succeeds, counts the memories that it deleted, the
  -- expired facts and the expired documents, and leaves neither a fact nor a document that has expired.
  pub prune_expired_lem :
      (now : ℕ) (w : World) (ids : List String) (s : Store)
      → expire_memories sha256 draws (select_where (is_expired_memory now) w.store.memories) w.store
        ≡ expired ids s
      → (IsBlocked (λ f. is_past now f.expires_at) s.facts
          × (prune_expired now w ≡ integrity_error))
        ⊎ (¬ (IsBlocked (λ f. is_past now f.expires_at) s.facts)
            × (v : World) × (prune_expired now w
                ≡ pruned
                    (length ids)
                    (count_where (λ f. is_past now f.expires_at) s.facts)
                    (count_where (λ d. is_past now d.expires_at) w.documents)
                    v)
            × IsPruned now v)
  unfolding prune_expired delete_facts delete_documents
  prune_expired_lem now w ids s h =
      let past_fact = λ (f : Fact). is_past now f.expires_at in
      let past_document = λ (d : Document). is_past now d.expires_at in
      let cleaned = record w {
        store = s;
        points = delete_where (is_stale_point now ids w) w.points;
      } in
      let left = delete_documents past_document (without_facts past_fact cleaned) in
      let facts = delete_where-none past_fact s.facts in
      elim (Bool-cases (is_blocked past_fact s.facts)) [
        | inl e ↦ inl (blocking_row past_fact s.facts e, rw (h, prune_expired, e))
        | inr e ↦ inr (
          no_blocking_row past_fact s.facts e,
          left,
          rw (h, prune_expired, e),
          (
            All-update_where (λ (f : Fact). past_fact f ≡ false) _ forget_source (λ f _ x. x)
                (delete_where past_fact s.facts) facts,
            delete_where-none past_document w.documents,
          ),
        )
      ]
