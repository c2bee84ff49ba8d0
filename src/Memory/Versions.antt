-- ===== src/Memory/Versions.antt =====
-- db.py: the history of each memory numbers its versions, and a deletion leaves no text in its row.
use memoratum.Base.{
  ℕ, zero, suc, ◌≡◌, refl, ap, sym, ◌∙◌, subst, String, Bool, true, false, Option, none, some, List,
  [], ◌∷◌, ◌++◌, map, ◌==◌, eq_iff, eq_refl, arith, All, All-append, Bool-cases, Option-cases, inl,
  inr,
}
use memoratum.Json.{Fields, end}
use memoratum.Table.{select_where, find_where, update_where}
use memoratum.Table.Keyed.{Keyed, Keyed-update_where, Keyed-append, only_found}
use memoratum.Outbox.{EventType, record_event}
use memoratum.Memory.Tables.{Memory, event_delete, HistoryRow, Store, Draw, has_memory_id, emit}

abbrev pub memory_key : Memory → String
memory_key m = m.id

abbrev pub is_of : String → HistoryRow → Bool
is_of i h = h.memory_id == i

abbrev pub versions : String → List HistoryRow → List ℕ
versions i hs = map (λ (h : HistoryRow). h.version) (select_where (is_of i) hs)

-- 1, 2, ..., n
abbrev pub upto : ℕ → List ℕ
upto zero = []
upto (suc n) = upto n ++ suc n ∷ []

abbrev pub IsRedacted : HistoryRow → Type 0
IsRedacted h =
    h.event ≡ event_delete → (h.old_text ≡ none) × (h.new_text ≡ none) × (h.metadata ≡ end)

abbrev pub IsRecorded : List Memory → List HistoryRow → Type 0
IsRecorded ms hs =
    Keyed memory_key ms
    × All (λ (m : Memory). versions m.id hs ≡ upto m.version) ms
    × All IsRedacted hs

versions-append_same :
    (i : String) (hs : List HistoryRow) (h : HistoryRow)
    → (h.memory_id == i) ≡ true
    → versions i (hs ++ h ∷ []) ≡ versions i hs ++ h.version ∷ []
unfolding select_where
versions-append_same i [] h e = rw e refl
versions-append_same i (g ∷ gs) h e = elim (Bool-cases (g.memory_id == i)) [
  | inl t ↦ rw t (ap (λ vs. g.version ∷ vs) (versions-append_same i gs h e))
  | inr t ↦ rw t (versions-append_same i gs h e)
]

versions-append_other :
    (i : String) (hs : List HistoryRow) (h : HistoryRow)
    → (h.memory_id == i) ≡ false
    → versions i (hs ++ h ∷ []) ≡ versions i hs
unfolding select_where
versions-append_other i [] h e = rw e refl
versions-append_other i (g ∷ gs) h e = elim (Bool-cases (g.memory_id == i)) [
  | inl t ↦ rw t (ap (λ vs. g.version ∷ vs) (versions-append_other i gs h e))
  | inr t ↦ rw t (versions-append_other i gs h e)
]

Counted : List HistoryRow → Memory → Type 0
Counted hs m = versions m.id hs ≡ upto m.version

module _ (i : String) (m : Memory) (f : Memory → Memory) (hs : List HistoryRow) (h : HistoryRow)
    (same : (r : Memory) → (f r).id ≡ r.id) (next : (r : Memory) → (f r).version ≡ suc m.version)
    (of : h.memory_id ≡ i) (number : h.version ≡ suc m.version) where
  Counted-same :
      (r : Memory) → (r.id == i) ≡ true → r ≡ m → Counted hs r → Counted (hs ++ h ∷ []) (f r)
  unfolding Counted
  Counted-same r e u c =
      subst (λ x. versions x (hs ++ h ∷ []) ≡ upto (f r).version) (sym (same r))
        (subst (λ n. versions r.id (hs ++ h ∷ []) ≡ upto n) (sym (next r))
          (versions-append_same r.id hs h (rw of (rw ((eq_iff r.id i).0 e) (eq_refl i)))
            ∙ ap (λ n. versions r.id hs ++ n ∷ []) number
            ∙ ap (λ vs. vs ++ suc m.version ∷ []) (c ∙ ap (λ (x : Memory). upto x.version) u)))

  Counted-other : (r : Memory) → (r.id == i) ≡ false → Counted hs r → Counted (hs ++ h ∷ []) r
  unfolding Counted
  Counted-other r e c =
      versions-append_other r.id hs h
        (ground (arith, of, e, eq_iff h.memory_id r.id, eq_iff r.id i))
      ∙ c

  update_where-Counted :
      (rs : List Memory)
      → All (λ (s : Memory). (s.id == i) ≡ true → s ≡ m) rs
      → All (Counted hs) rs
      → All (Counted (hs ++ h ∷ [])) (update_where (has_memory_id i) f rs)
  unfolding update_where
  update_where-Counted [] u c = tt
  update_where-Counted (r ∷ rs) u c = elim (Bool-cases (r.id == i)) [
    | inl e ↦ rw e (Counted-same r e (u.0 e) c.0, update_where-Counted rs u.1 c.1)
    | inr e ↦ rw e (Counted-other r e c.0, update_where-Counted rs u.1 c.1)
  ]

  -- A new version of one memory, with its row in the history.
  pub IsRecorded-update :
      (ms : List Memory)
      → find_where (has_memory_id i) ms ≡ some m
      → IsRedacted h
      → IsRecorded ms hs
      → IsRecorded (update_where (has_memory_id i) f ms) (hs ++ h ∷ [])
  unfolding Counted
  IsRecorded-update ms found red (k, c, t) = (
    Keyed-update_where memory_key (has_memory_id i) f same ms k,
    update_where-Counted ms (only_found memory_key i ms m k found) c,
    All-append IsRedacted hs (h ∷ []) t (red, tt),
  )

differ_of_none :
    (i : String) (ms : List Memory)
    → find_where (has_memory_id i) ms ≡ none
    → All (λ (m : Memory). (m.id == i) ≡ false) ms
unfolding find_where
differ_of_none i [] h = tt
differ_of_none i (m ∷ ms) h = elim (Bool-cases (m.id == i)) [
  | inl e ↦ ground (arith, e)
  | inr e ↦ (e, differ_of_none i ms (ground arith))
]

counted_before :
    (i : String) (hs : List HistoryRow) (h : HistoryRow) (ms : List Memory)
    → h.memory_id ≡ i
    → All (λ (m : Memory). (m.id == i) ≡ false) ms
    → All (λ (m : Memory). versions m.id hs ≡ upto m.version) ms
    → All (λ (m : Memory). versions m.id (hs ++ h ∷ []) ≡ upto m.version) ms
counted_before i hs h [] e d c = tt
counted_before i hs h (m ∷ ms) e d c = (
  versions-append_other m.id hs h (ground (arith, e, d.0, eq_iff h.memory_id m.id, eq_iff m.id i))
      ∙ c.0,
  counted_before i hs h ms e d.1 c.1,
)

-- A new memory, at version 1, with the first row of its history.
pub IsRecorded-insert :
    (n : Memory) (h : HistoryRow) (ms : List Memory) (hs : List HistoryRow)
    → find_where (has_memory_id n.id) ms ≡ none
    → versions n.id hs ≡ []
    → n.version ≡ 1
    → h.memory_id ≡ n.id
    → h.version ≡ 1
    → IsRedacted h
    → IsRecorded ms hs
    → IsRecorded (ms ++ n ∷ []) (hs ++ h ∷ [])
IsRecorded-insert n h ms hs fresh empty one of number red (k, c, t) = (
  Keyed-append memory_key ms n fresh k,
  All-append (λ (m : Memory). versions m.id (hs ++ h ∷ []) ≡ upto m.version) ms (n ∷ [])
      (counted_before n.id hs h ms of (differ_of_none n.id ms fresh) c)
      (
        versions-append_same n.id hs h (rw of (eq_refl n.id))
            ∙ ap (λ vs. vs ++ h.version ∷ []) empty
            ∙ ap (λ v. v ∷ []) number
            ∙ ap upto (sym one),
        tt,
      ),
  All-append IsRedacted hs (h ∷ []) t (red, tt),
)

-- An event changes the outbox alone.
pub emit_lem :
    (draw : Draw) (project : Option String) (event : EventType) (i : String) (details : Fields)
    (s : Store)
    → ((emit draw project event i details s).memories ≡ s.memories)
      × ((emit draw project event i details s).history ≡ s.history)
      × ((emit draw project event i details s).facts ≡ s.facts)
unfolding emit
emit_lem draw project event i details s =
    elim (Option-cases
      (record_event draw.delivery draw.event draw.now project event (some i) details s.outbox)) [
        | inl e ↦ rw (e, emit) (refl, refl, refl)
        | inr (r, e) ↦ rw (e, emit) (refl, refl, refl)
      ]
