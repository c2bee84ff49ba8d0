-- ===== src/Memory/Tests.antt =====
-- Memories and facts at concrete stores.
use memoratum.Base.{
  ℕ, String, ◌≡◌, refl, true, false, Option, none, some, List, is_blank, strip, len, ltb, ◌||◌,
  if◌then◌else◌, arith, [], ◌∷◌, suc, map, ap, ◌==◌,
}
use memoratum.Json.{end, field, str}
use memoratum.Table.{find_where, select_where, order_with, first_row}
use memoratum.Table.Keyed.{Keyed}
use memoratum.Memory.Tables.{
  Memory, deleted, Event, event_add, event_delete, HistoryRow, Fact, Store, ok, error, missing,
  invalid, Draw, Columns, has_memory_id,
}
use memoratum.Memory.Operations.{Change, new_memory, update_memory, categorize_memory}
use memoratum.Memory.Linked.{soft_delete_memory}
use memoratum.Memory.Facts.{NewFact, has_fact_id, same_fact, new_fact, close}
use memoratum.Memory.Lifecycle.{IsSound}
use memoratum.Memory.Runs.{Op, create, update, soft_delete, run_ops, run_ops-IsSound}
use memoratum.Memory.Final.{deleted_is_final}
use memoratum.Memory.Supersession.{fact_key, current_count, facts_after, add_fact-new}

abbrev digest : String → String
digest t = t

abbrev draw : String → ℕ → Draw
draw i t = record { memory = i; history = "h"; event = "e"; delivery = λ w. ("d", "j"); now = t }

abbrev columns : Columns
columns = record {
  text = "likes tea";
  container_tag = "ana";
  metadata = field "user_id" (str "x") end;
  org_id = some "o";
  document_id = none;
  fact_id = none;
  expires_at = none;
  project_id = some "p";
}

abbrev empty : Store
empty = record {
  memories = [];
  history = [];
  facts = [];
  outbox = record { projects = "p" ∷ []; webhooks = []; events = []; deliveries = []; jobs = [] };
}

abbrev change : Change
change = record { text = some "likes coffee"; metadata = end; timestamp = none; expires_at = none }

abbrev day : List Op
day =
    create (draw "m" 10) none columns
    ∷ update (draw "x" 20) "m" none change
    ∷ soft_delete (λ i. draw i 30) none "m" true
    ∷ []

no_memory : find_where (has_memory_id "m") empty.memories ≡ none
unfolding find_where
no_memory = refl

no_history : select_where (λ (h : HistoryRow). h.memory_id == "m") empty.history ≡ []
unfolding select_where
no_history = refl

empty-IsSound : IsSound empty
unfolding IsSound
empty-IsSound = (tt, tt, tt)

run_ops-IsSound_example : IsSound (run_ops digest day empty)
run_ops-IsSound_example =
    run_ops-IsSound digest day empty
      ((no_memory, ap (map (λ (h : HistoryRow). h.version)) no_history), (tt, (tt, tt)))
      empty-IsSound

abbrev gone : Memory
gone = record (new_memory (draw "m" 10) columns) { state = deleted; version = 2 }

abbrev row : Event → ℕ → Option String → HistoryRow
row event version text = record {
  id = "h";
  memory_id = "m";
  event = event;
  old_text = none;
  new_text = text;
  metadata = end;
  version = version;
  actor_key_hash = none;
  created_at = 10;
  content_hash = none;
  updated_at = 10;
}

abbrev buried : Store
buried = record empty {
  memories = gone ∷ [];
  history = row event_add 1 (some "likes tea") ∷ row event_delete 2 none ∷ [];
}

buried-IsSound : IsSound buried
unfolding IsSound select_where
buried-IsSound = ((tt, tt), (refl, tt), ((λ e. ground arith), ((λ e. (refl, refl, refl)), tt)))

find_gone : find_where (has_memory_id "m") buried.memories ≡ some gone
unfolding find_where
find_gone = refl

-- Another memory is made, and the deletion of this one is asked for again.
abbrev next_day : List Op
next_day =
    create (draw "n" 40) none columns
    ∷ update (draw "x" 50) "m" none change
    ∷ soft_delete (λ i. draw i 60) none "m" true
    ∷ []

deleted_is_final_example :
    (find_where (has_memory_id "m") (run_ops digest next_day buried).memories ≡ some gone)
    × (update_memory digest (draw "m" 70) "m" none change (run_ops digest next_day buried)
        ≡ (error missing, run_ops digest next_day buried))
    × (categorize_memory digest (draw "m" 70) "m" none "drinks" (run_ops digest next_day buried) ≡ (
      (if is_blank "drinks" || ltb 200 (len (strip "drinks"))
          then error invalid
          else error missing),
      run_ops digest next_day buried,
    ))
    × (soft_delete_memory digest (λ i. draw i 70) none "m" true (run_ops digest next_day buried)
        ≡ ok (
            some (
              record { memory_id = "m"; deleted = false; cascade_count = 0; deleted_ids = none },
              run_ops digest next_day buried,
            )))
deleted_is_final_example =
    deleted_is_final digest "m" gone refl next_day buried buried-IsSound
      ((unfold find_where in refl, unfold select_where in refl), (tt, (tt, tt))) find_gone
      (draw "m" 70) (λ i. draw i 70) none change "drinks" true

abbrev lives_in : String → NewFact
lives_in town = record {
  container_tag = "ana";
  subject = "ana";
  predicate = "lives_in";
  object = town;
  document_id = none;
  metadata = end;
  expires_at = none;
  memory_type = "semantic";
  org_id = none;
  project_id = none;
}

abbrev closed_fact : Fact
closed_fact = close 20 "f2" (new_fact "f1" 10 (lives_in "Porto"))

-- Ana lived in Porto until time 20, and in Faro since.
abbrev moved : Store
moved = record empty { facts = closed_fact ∷ new_fact "f2" 20 (lives_in "Faro") ∷ [] }

no_third : find_where (has_fact_id "f3") moved.facts ≡ none
unfolding find_where
no_third = refl

not_same : same_fact (lives_in "Lagos") moved.facts ≡ none
unfolding same_fact select_where order_with first_row
not_same = refl

add_fact-new_example :
    (current_count
        (lives_in "Lagos")
        (facts_after digest (draw "m" 30) "f3" true (lives_in "Lagos") moved)
      ≡ 1)
    × (current_count
          (lives_in "Lagos")
          (facts_after digest (draw "m" 30) "f3" false (lives_in "Lagos") moved)
        ≡ suc (current_count (lives_in "Lagos") moved.facts))
add_fact-new_example =
    add_fact-new digest (draw "m" 30) "f3" (lives_in "Lagos") moved no_third not_same

moved-Keyed : Keyed fact_key moved.facts
moved-Keyed = ((refl, tt), (tt, tt))

same_closed : same_fact (lives_in "Porto") moved.facts ≡ some closed_fact
unfolding same_fact select_where order_with first_row
same_closed = refl
