-- ===== src/Worker/Tests.antt =====
-- A job whose handler raises at its first attempt.
use memoratum.Base.{◌≡◌, refl, none, some, [], ◌∷◌}
use memoratum.Json.{end}
use memoratum.Table.{select_where, find_where, update_where, count_where, order_by, first_row}
use memoratum.Jobs.{Job, Queue, fresh_job, start, decode, has_id, claim, heartbeat, get, extend}
use memoratum.Worker.{Outcome, raised, run_once}
use memoratum.Worker.Laws.{IsSettled, final_status, run_once_lem}

abbrev broken : Job → Queue → Outcome × Queue
broken j q = (raised "boom", q)

abbrev todo : Job
todo = fresh_job "a" 10 "ingest" end none

abbrev taken : Job
taken = decode (start 20 300 "w" todo)

take_todo : (claim 20 300 "w" (todo ∷ [])).0 ≡ some taken
unfolding claim select_where order_by first_row update_where count_where get find_where
take_todo = refl

find_taken :
    find_where
      (has_id "a")
      (broken taken (heartbeat 21 300 "a" (claim 20 300 "w" (todo ∷ [])).1).1).1
    ≡ some (extend 21 300 (start 20 300 "w" todo))
unfolding claim heartbeat select_where order_by first_row update_where count_where get find_where
find_taken = refl

run_once_lem_example :
    ((run_once broken 300 "w" 20 21 30 (todo ∷ [])).0 ≡ some "a")
    × IsSettled
        (final_status (raised "boom") 1)
        (extend 21 300 (start 20 300 "w" todo))
        (find_where (has_id "a") (run_once broken 300 "w" 20 21 30 (todo ∷ [])).1)
run_once_lem_example =
    run_once_lem broken 300 "w" 20 21 30 (todo ∷ []) taken (extend 21 300 (start 20 300 "w" todo))
      take_todo find_taken
