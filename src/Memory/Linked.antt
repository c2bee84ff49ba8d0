-- ===== src/Memory/Linked.antt =====
-- db.py, `linked_memory_ids` and `soft_delete_memory`. The frontier is a stack, its top at the head. The walk runs
-- on fuel; `none` is that the fuel ran out.
use Prim.Native.String.{compare}
use Prim.Native.Nat.{Ordering}
use memoratum.Base.{
  ℕ, zero, suc, ◌+◌, String, Bool, true, false, ◌&&◌, not, Option, none, some, List, [], ◌∷◌, ◌==◌,
  leb, if◌then◌else◌, opt_eq, length,
}
use memoratum.Json.{end, field, bool}
use memoratum.Table.{select_where, find_where, order_with}
use memoratum.Outbox.{memory_delete}
use memoratum.Memory.Tables.{
  Memory, deleted, is_deleted, event_delete, Fact, Store, Result, ok, error, Draw, get_memory, emit,
  append_memory_history,
}
use memoratum.Memory.Operations.{has_fact, set_memory}

unfoldable pub has_text : String → List String → Bool
has_text i [] = false
has_text i (j ∷ js) = let rest = has_text i js in if j == i then true else rest

-- ORDER BY created_at DESC
abbrev pub newer : Fact → Fact → Bool
newer f g = leb g.created_at f.created_at

unfoldable pub older_facts : String → Store → List Fact
older_facts f s = order_with newer (select_where (λ g. opt_eq g.superseded_by (some f)) s.facts)

abbrev pub is_kept_projection : String → Memory → Bool
is_kept_projection f m = has_fact f m && not (is_deleted m.state)

unfoldable pub visit :
    List Memory → List Fact → List String × List String → List String × List String
visit ms [] w = w
visit ms (f ∷ fs) (frontier, seen) = elim (find_where (is_kept_projection f.id) ms) [
  | none ↦ visit ms fs (frontier, seen)
  | some m ↦
      if has_text m.id seen
      then visit ms fs (frontier, seen)
      else visit ms fs (f.id ∷ frontier, m.id ∷ seen)
]

unfoldable pub walk : ℕ → Store → List String × List String → Option (List String)
walk n s ([], seen) = some seen
walk zero s (f ∷ frontier, seen) = none
walk (suc n) s (f ∷ frontier, seen) = walk n s (visit s.memories (older_facts f s) (frontier, seen))

abbrev pub text_before : String → String → Bool
text_before a b = elim (compare a b) [ Ordering.gt ↦ false | _ ↦ true ]

abbrev pub sorted : Option (List String) → Option (List String)
sorted none = none
sorted (some ids) = some (order_with text_before ids)

abbrev pub root : Option String → List String
root none = []
root (some f) = if f == "" then [] else f ∷ []

unfoldable pub linked_memory_ids : String → Store → Result (Option (List String))
unfolding walk get_memory
linked_memory_ids i s = elim (get_memory i s) [
  | error e ↦ error e
  | ok m ↦ ok (sorted (walk (length s.memories + 1) s (root m.fact_id, [])))
]

pub record Report : Type 0 where
  pub memory_id : String
  pub deleted : Bool
  pub cascade_count : ℕ
  pub deleted_ids : Option (List String)

abbrev pub bury : ℕ → ℕ → Memory → Memory
bury now version m = record m { state = deleted; version = version; updated_at = now }

module _ (sha256 : String → String) (draws : String → Draw) (actor : Option String) where
  unfoldable pub delete_row : Memory → Store → Store
  unfolding emit append_memory_history
  delete_row m s =
      let draw = draws m.id in
      emit draw m.project_id memory_delete m.id (field "deleted" (bool true) end) (
        append_memory_history sha256 draw m.id event_delete (m.version + 1) none none end actor
          (some (sha256 m.text)) (set_memory m.id (bury draw.now (m.version + 1)) s))

  -- An error is raised to the caller, who rolls back.
  unfoldable pub delete_targets : List String → Store → Result Store
  unfolding delete_row get_memory
  delete_targets [] s = ok s
  delete_targets (i ∷ is) s = elim (get_memory i s) [
    | error e ↦ error e
    | ok m ↦ delete_targets is (delete_row m s)
  ]

  abbrev pub report_of : String → List String → Result Store → Result (Option (Report × Store))
  report_of i ids (error e) = error e
  report_of i ids (ok s) = ok (
      some (
        record {
          memory_id = i;
          deleted = true;
          cascade_count = length ids;
          deleted_ids = some (i ∷ ids);
        },
        s,
      ))

  abbrev pub delete_linked :
      String → Result (Option (List String)) → Store → Result (Option (Report × Store))
  delete_linked i (error e) s = error e
  delete_linked i (ok none) s = ok none
  delete_linked i (ok (some ids)) s = report_of i ids (delete_targets (i ∷ ids) s)

  -- `ok none` is that the walk ran out of fuel.
  unfoldable pub soft_delete_memory : String → Bool → Store → Result (Option (Report × Store))
  unfolding delete_targets linked_memory_ids get_memory
  soft_delete_memory i linked s = elim (get_memory i s) [
    | error e ↦ error e
    | ok m ↦
        if is_deleted m.state
        then ok (
            some
              (record { memory_id = i; deleted = false; cascade_count = 0; deleted_ids = none }, s))
        else if linked
        then delete_linked i (linked_memory_ids i s) s
        else report_of i [] (delete_targets (i ∷ []) s)
  ]
