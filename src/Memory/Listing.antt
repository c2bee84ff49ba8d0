-- ===== src/Memory/Listing.antt =====
-- facts.py and db.py: what the listings return.
use memoratum.Base.{
  ℕ, ◌≡◌, refl, ap, ◌∙◌, String, Bool, true, false, Option, none, some, List, [], ◌∷◌, length,
  arith, All, All-imp, opt_eq, opt_eq_iff,
}
use memoratum.Json.{Json, end}
use memoratum.Table.{select_where}
use memoratum.Table.Rows.{All-order_with, passing, length-order_by, length-select_where}
use memoratum.Memory.Tables.{Memory, Fact, Store, is_deleted}
use memoratum.Memory.Operations.{memory_before, is_listed, is_unexpired, list_all_memories}
use memoratum.Memory.Facts.{is_visible, list_facts, count_facts, matches}

select_every :
    (equal : Json → Json → Bool) (fs : List Fact)
    → select_where (λ (f : Fact). matches equal f.metadata end) fs ≡ fs
unfolding select_where matches
select_every equal [] = refl
select_every equal (f ∷ fs) = ap (λ gs. f ∷ gs) (select_every equal fs)

-- With no filters and no page, `list_facts` returns as many facts as `count_facts` counts, for every tag, type,
-- organization and project, with the superseded facts or without.
pub list_facts-count_facts :
    (equal : Json → Json → Bool) (now : ℕ) (superseded : Bool)
    (memory_type org project : Option String) (tag : String) (fs : List Fact)
    → length (list_facts now superseded memory_type org project equal tag end none 0 fs)
      ≡ count_facts now superseded memory_type org project tag fs
unfolding list_facts count_facts
list_facts-count_facts equal now superseded memory_type org project tag fs =
    ap length (select_every equal _)
    ∙ length-order_by (λ (f : Fact). f.created_at) _
    ∙ length-select_where (is_visible now superseded memory_type org project tag) fs

-- A listing for one organization and one project, without deleted and expired memories, has none of another
-- organization or project, none that is deleted and none that has expired.
pub list_all_memories-scope :
    (now : ℕ) (org project : String) (s : Store)
    → All
        (λ (m : Memory).
          (m.org_id ≡ some org)
          × (m.project_id ≡ some project)
          × (is_deleted m.state ≡ false)
          × (is_unexpired now m.expires_at ≡ true))
        (list_all_memories now (some org) (some project) false false s)
unfolding list_all_memories
list_all_memories-scope now org project s = All-order_with _ memory_before _ (
    scoped (select_where (is_listed now (some org) (some project) false false) s.memories)
      (passing (is_listed now (some org) (some project) false false) s.memories))
  where
    listed :
        (m : Memory)
        → is_listed now (some org) (some project) false false m ≡ true
        → (m.org_id ≡ some org)
          × (m.project_id ≡ some project)
          × (is_deleted m.state ≡ false)
          × (is_unexpired now m.expires_at ≡ true)
    listed m h =
        let o : opt_eq m.org_id (some org) ≡ true = ground (arith, h) in
        let p : opt_eq m.project_id (some project) ≡ true = ground (arith, h) in
        (
          (opt_eq_iff m.org_id (some org)).0 o,
          (opt_eq_iff m.project_id (some project)).0 p,
          ground (arith, h),
          ground (arith, h),
        )

    scoped :
        (ms : List Memory)
        → All (λ m. is_listed now (some org) (some project) false false m ≡ true) ms
        → All
            (λ (m : Memory).
              (m.org_id ≡ some org)
              × (m.project_id ≡ some project)
              × (is_deleted m.state ≡ false)
              × (is_unexpired now m.expires_at ≡ true))
            ms
    scoped ms = All-imp _ _ listed ms
