-- ===== src/Jobs.antt =====
-- jobs.py: the durable job queue. The `jobs` table is a list of rows, and each function takes the
-- reading of `time.time()` (and, for `enqueue`, the fresh uuid) as an argument.
pub mod Claim
pub mod Steps
pub mod Invariant
pub mod Lease
pub mod History
pub mod LostClaim
mod Tests
use Prim.Native.String
use memoratum.Base.{
  ℕ, zero, suc, ◌+◌, String, Bool, true, false, ◌&&◌, ◌||◌, Option, none, some, List, [], ◌∷◌, ◌++◌,
  map, ◌==◌, leb, ltb, eqb, if◌then◌else◌, min, max,
}
use memoratum.Json.{Fields, end, get_text}
use memoratum.Table.{select_where, find_where, update_where, count_where, order_by, first_row}

pub data Status : Type 0 where
  queued running done failed cancelled : Status

abbrev pub is_queued : Status → Bool
is_queued queued = true
is_queued _ = false

abbrev pub is_running : Status → Bool
is_running running = true
is_running _ = false

-- One row of the table.
pub record Job : Type 0 where
  pub id : String
  pub kind : String
  pub payload : Fields
  pub project_id : Option String
  pub status : Status
  pub attempts : ℕ
  pub result : Option Fields
  pub error : Option String
  pub worker : Option String
  pub created_at : ℕ
  pub updated_at : ℕ
  pub run_after : ℕ
  pub lease_expires_at : ℕ
  pub heartbeat_at : Option ℕ

abbrev pub Queue : Type 0
Queue = List Job

-- What `int(os.environ[...].strip())` gives: nothing set, no integer, or an integer.
pub data EnvInt : Type 0 where
  blank malformed : EnvInt
  negative : ℕ → EnvInt
  integer : ℕ → EnvInt

abbrev pub default_lease_seconds : ℕ
default_lease_seconds = 300

unfoldable pub lease_seconds : EnvInt → ℕ
lease_seconds blank = default_lease_seconds
lease_seconds malformed = default_lease_seconds
lease_seconds (negative n) = 30
lease_seconds (integer n) = max 30 (min 86400 n)

abbrev pub has_id : String → Job → Bool
has_id i j = j.id == i

abbrev or_zero : Option ℕ → ℕ
or_zero none = 0
or_zero (some n) = n

unfoldable pub clear_lease : String → ℕ → Queue → Queue
clear_lease i now =
    update_where (has_id i)
      (λ j. record j { lease_expires_at = 0; heartbeat_at = none; updated_at = now })

abbrev pub fresh_job : String → ℕ → String → Fields → Option ℕ → Job
fresh_job i now kind payload run_after = record {
  id = i;
  kind = kind;
  payload = payload;
  project_id = get_text "project_id" payload;
  status = queued;
  attempts = 0;
  result = none;
  error = none;
  worker = none;
  created_at = now;
  updated_at = now;
  run_after = or_zero run_after;
  lease_expires_at = 0;
  heartbeat_at = none;
}

unfoldable pub enqueue : String → ℕ → String → Fields → Option ℕ → Queue → String × Queue
enqueue i now kind payload run_after q = (i, q ++ fresh_job i now kind payload run_after ∷ [])

abbrev or_empty : Option Fields → Fields
or_empty none = end
or_empty (some fs) = fs

-- `get` decodes the row: a missing result reads as `{}`.
abbrev pub decode : Job → Job
decode j = record j { result = some (or_empty j.result) }

unfoldable pub get : String → Queue → Option Job
get i q = elim (find_where (has_id i) q) [ none ↦ none | some j ↦ some (decode j) ]

abbrev pub is_due : ℕ → Job → Bool
is_due now j = is_queued j.status && leb j.run_after now

abbrev pub start : ℕ → ℕ → String → Job → Job
start now ttl worker j = record j {
  status = running;
  worker = some worker;
  attempts = j.attempts + 1;
  lease_expires_at = now + ttl;
  heartbeat_at = some now;
  updated_at = now;
}

abbrev pub is_queued_id : String → Job → Bool
is_queued_id i j = j.id == i && is_queued j.status

-- The UPDATE of `claim` for the row that its SELECT found.
claim_row : ℕ → ℕ → String → Option Job → Queue → Option Job × Queue
unfolding get
claim_row now ttl worker none q = (none, q)
claim_row now ttl worker (some row) q =
    let changed = count_where (is_queued_id row.id) q in
    let q' = update_where (is_queued_id row.id) (start now ttl worker) q in
    (if eqb changed 0 then none else get row.id q', q')

-- BEGIN IMMEDIATE makes the SELECT and the UPDATE one step.
unfoldable pub claim : ℕ → ℕ → String → Queue → Option Job × Queue
unfolding claim_row
claim now ttl worker q =
    claim_row now ttl worker
      (first_row (order_by (λ j. j.created_at) (select_where (is_due now) q))) q

-- A running job whose lease has not lapsed, and one whose lease has.
abbrev pub is_live : ℕ → Job → Bool
is_live now j = is_running j.status && leb now j.lease_expires_at

abbrev pub is_stale : ℕ → Job → Bool
is_stale now j = is_running j.status && ltb j.lease_expires_at now

abbrev pub extend : ℕ → ℕ → Job → Job
extend now ttl j = record j {
  lease_expires_at = max j.lease_expires_at (now + ttl);
  heartbeat_at = some now;
  updated_at = now;
}

unfoldable pub heartbeat : ℕ → ℕ → String → Queue → Bool × Queue
heartbeat now ttl i q =
    let p = λ (j : Job). has_id i j && is_live now j in
    (eqb (count_where p q) 1, update_where p (extend now ttl) q)

abbrev pub back_to_queue : ℕ → Job → Job
back_to_queue now j = record j {
  status = queued;
  worker = none;
  lease_expires_at = 0;
  heartbeat_at = none;
  updated_at = now;
}

-- The update with no stale row changes nothing, as the early return does.
unfoldable pub reap_stale : ℕ → Queue → List (String × String) × Queue
reap_stale now q = (
  map (λ j. (j.id, j.kind)) (select_where (is_stale now) q),
  update_where (is_stale now) (back_to_queue now) q,
)

unfoldable pub complete : ℕ → String → Option Fields → Queue → Queue
unfolding clear_lease
complete now i result q = clear_lease i now (
    update_where (has_id i)
      (λ j. record j { status = done; result = some (or_empty result); updated_at = now }) q)

abbrev pub is_running_row : Option Job → Bool
is_running_row none = false
is_running_row (some j) = is_running j.status

abbrev pub renew : ℕ → ℕ → Fields → Job → Job
renew now ttl result j = record j {
  result = some result;
  updated_at = now;
  heartbeat_at = some now;
  lease_expires_at = now + ttl;
}

abbrev pub note : ℕ → Fields → Job → Job
note now result j = record j { result = some result; updated_at = now }

unfoldable pub update_result : ℕ → ℕ → String → Fields → Queue → Queue
update_result now ttl i result q =
    if is_running_row (find_where (has_id i) q)
    then update_where (has_id i) (renew now ttl result) q
    else update_where (has_id i) (note now result) q

-- error[:n]
unfoldable pub cut : ℕ → String → String
cut zero s = ""
cut (suc n) String.[] = ""
cut (suc n) (String.◌∷◌ c s) = String.◌∷◌ c (cut n s)

unfoldable pub fail : ℕ → String → String → Queue → Queue
unfolding clear_lease cut
fail now i error q = clear_lease i now (
    update_where (has_id i)
      (λ j. record j { status = failed; error = some (cut 2000 error); updated_at = now }) q)

unfoldable pub requeue : ℕ → String → Option ℕ → Queue → Queue
requeue now i run_after =
    update_where (has_id i) (λ j. record (back_to_queue now j) { run_after = or_zero run_after })

abbrev pub is_cancellable : ℕ → Job → Bool
is_cancellable now j = is_queued j.status || is_stale now j

abbrev pub cancel_row : ℕ → Job → Job
cancel_row now j = record (back_to_queue now j) { status = cancelled }

unfoldable pub cancel : ℕ → String → Queue → Bool × Queue
cancel now i q =
    let p = λ (j : Job). has_id i j && is_cancellable now j in
    (eqb (count_where p q) 1, update_where p (cancel_row now) q)

unfoldable pub is_stuck : ℕ → String → Queue → Bool
is_stuck now i q = elim (find_where (has_id i) q) [ none ↦ false | some j ↦ is_stale now j ]

unfoldable pub pending : Queue → List Job
pending q = order_by (λ j. j.created_at) (select_where (λ j. is_queued j.status) q)
