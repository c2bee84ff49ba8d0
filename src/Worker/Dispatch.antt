-- ===== src/Worker/Dispatch.antt =====
-- worker.py: the job `delete_all_memories`. Its loop over the selected memories is the one that a
-- prune runs over the expired ones. What the vector store raises for ids is an argument.
pub mod Unselected
mod Tests
use Prim.Native.String
use memoratum.Base.{
  ℕ, String, Bool, true, false, ◌&&◌, ◌||◌, Option, none, some, List, [], ◌∷◌, ◌==◌, if◌then◌else◌,
  is_some, strip_prefix,
}
use memoratum.Table.{select_where}
use memoratum.Documents.{Reply, returned, raised}
use memoratum.Memory.Tables.{Memory, Store, Failure, missing, invalid, Draw}
use memoratum.Memory.Operations.{list_all_memories}
use memoratum.Purge.Prune.{Expired, raises, out_of_fuel, expired, expire_memories}

-- f"mem0:{key}:"
abbrev pub tag_prefix : String → String
tag_prefix key = String.◌++◌ "mem0:" (String.◌++◌ key ":")

-- The loop over the filters; its `else` is the `true` at the end.
unfoldable pub matches_filters : List (String × String) → String → Bool
unfolding strip_prefix
matches_filters [] tag = true
matches_filters ((key, value) ∷ filters) tag =
    is_some (strip_prefix (tag_prefix key) tag)
    && (value == "*" || tag == String.◌++◌ (tag_prefix key) value)
    && matches_filters filters tag

abbrev pub is_selected : List (String × String) → Memory → Bool
is_selected filters m = matches_filters filters m.container_tag

abbrev pub error_name : Failure → String
error_name missing = "KeyError"
error_name invalid = "ValueError"

abbrev pub after_delete : List String → Option String → Reply (List String)
after_delete ids none = returned ids
after_delete ids (some e) = raised e

-- The transaction is rolled back on an exception; the vectors go behind its commit. Without linked
-- memories no walk runs, so that the fuel of one does not run out.
abbrev pub end_delete :
    (List String → Option String) → Store → Expired → Reply (List String) × Store
end_delete remove s (raises e) = (raised (error_name e), s)
end_delete remove s out_of_fuel = (raised "RuntimeError", s)
end_delete remove s (expired [] t) = (returned [], t)
end_delete remove s (expired (i ∷ is) t) = (after_delete (i ∷ is) (remove (i ∷ is)), t)

-- Memories that are deleted are not listed, memories that have expired are.
abbrev pub selected_memories :
    ℕ → Option String → Option String → List (String × String) → Store → List Memory
selected_memories now org project filters s =
    select_where (is_selected filters) (list_all_memories now org project false true s)

module _ (sha256 : String → String) (draws : String → Draw)
    (remove : List String → Option String) where
  unfoldable pub delete_all_memories :
      ℕ
      → Option String
      → Option String
      → List (String × String)
      → Store
      → Reply (List String) × Store
  unfolding list_all_memories matches_filters expire_memories
  delete_all_memories now org project filters s =
      end_delete remove s
        (expire_memories sha256 draws (selected_memories now org project filters s) s)
