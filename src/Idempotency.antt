-- ===== src/Idempotency.antt =====
-- db.py and app.py: idempotency keys. A claim either inserts the row of a scope and key or reads it; the insert fails
-- by the primary key. `hash` is `canonical_request_hash`.
pub mod Protocol
mod Tests
use memoratum.Base.{
  is_blank, len, ℕ, ◌+◌, max, String, Bool, true, false, ◌&&◌, ◌||◌, Option, none, some, List, [],
  ◌∷◌, ◌++◌, ◌==◌, leb, ltb, eqb, if◌then◌else◌,
}
use memoratum.Json.{Json, end, field, obj, str}
use memoratum.Table.{find_where, update_where, delete_where, count_where}

pub data Progress : Type 0 where
  in_flight finished : Progress

-- A row of `idempotency_keys`; `finished` is the status 'done'.
pub record Entry : Type 0 where
  pub scope : String
  pub key : String
  pub request_hash : String
  pub status : Progress
  pub response : Option Json
  pub job_id : Option String
  pub created_at : ℕ
  pub expires_at : ℕ

pub data ClaimStatus : Type 0 where
  claimed conflict replay busy : ClaimStatus

pub record Claim : Type 0 where
  pub status : ClaimStatus
  pub request_hash : String
  pub response : Option Json
  pub job_id : Option String
  pub scope : String
  pub key : String

abbrev pub has_key : String → String → Entry → Bool
has_key scope key e = (e.scope == scope) && (e.key == key)

abbrev pub is_expired : ℕ → Entry → Bool
is_expired now e = leb e.expires_at now

abbrev pub new_entry : ℕ → String → String → String → ℕ → Entry
new_entry now scope key hash expires_in = record {
  scope = scope;
  key = key;
  request_hash = hash;
  status = in_flight;
  response = none;
  job_id = none;
  created_at = now;
  expires_at = now + max 60 expires_in;
}

-- The status of the claim for a row with the same request.
abbrev pub claim_status : Progress → ClaimStatus
claim_status finished = replay
claim_status in_flight = busy

abbrev pub read_claim : String → Entry → Claim
read_claim hash e =
    if e.request_hash == hash
    then record {
      status = claim_status e.status;
      request_hash = e.request_hash;
      response = e.response;
      job_id = e.job_id;
      scope = e.scope;
      key = e.key;
    }
    else record {
      status = conflict;
      request_hash = e.request_hash;
      response = none;
      job_id = none;
      scope = "";
      key = "";
    }

abbrev pub new_claim : String → String → String → Claim
new_claim scope key hash = record {
  status = claimed;
  request_hash = hash;
  response = none;
  job_id = none;
  scope = scope;
  key = key;
}

unfoldable pub claim_row :
    ℕ → String → String → String → ℕ → Option Entry → List Entry → Claim × List Entry
claim_row now scope key hash expires_in (some e) es = (read_claim hash e, es)
claim_row now scope key hash expires_in none es =
    (new_claim scope key hash, es ++ new_entry now scope key hash expires_in ∷ [])

unfoldable pub claim_idempotency :
    ℕ → String → String → String → ℕ → List Entry → Claim × List Entry
unfolding claim_row
claim_idempotency now scope key hash expires_in es =
    let kept = delete_where (is_expired now) es in
    claim_row now scope key hash expires_in (find_where (has_key scope key) kept) kept

abbrev pub has_claim : String → String → String → Entry → Bool
has_claim scope key hash e = has_key scope key e && (e.request_hash == hash)

abbrev pub finish : Json → Option String → Entry → Entry
finish response job e = record e { status = finished; response = some response; job_id = job }

-- `none` is the RuntimeError.
unfoldable pub complete_idempotency :
    String → String → String → Json → Option String → List Entry → Option (List Entry)
complete_idempotency scope key hash response job es =
    if eqb (count_where (has_claim scope key hash) es) 1
    then some (update_where (has_claim scope key hash) (finish response job) es)
    else none

unfoldable pub release_idempotency : String → String → List Entry → List Entry
release_idempotency scope key es = delete_where (has_key scope key) es

unfoldable pub get_idempotency : String → String → List Entry → Option Entry
get_idempotency scope key es = find_where (has_key scope key) es

-- What a route gets: no key, a claim to work under or to replay, or an error response.
pub data Begun : Type 0 where
  unkeyed : Begun
  begun : Claim → Begun
  validation_error idempotency_conflict idempotency_in_flight : Begun

abbrev answer_claim : Claim → ClaimStatus → Begun
answer_claim c claimed = begun c
answer_claim c replay = begun c
answer_claim c conflict = idempotency_conflict
answer_claim c busy = idempotency_in_flight

module _ (hash : Json → String) where
  abbrev pub request_of : String → Json → Json
  request_of operation payload =
      obj (field "operation" (str operation) (field "payload" payload end))

  -- `_begin_idempotency` with the scope of its caller.
  unfoldable pub begin_idempotency :
      ℕ → String → Option String → String → Json → List Entry → Begun × List Entry
  unfolding claim_idempotency is_blank len
  begin_idempotency now scope none operation payload es = (unkeyed, es)
  begin_idempotency now scope (some key) operation payload es =
      let c = claim_idempotency now scope key (hash (request_of operation payload)) 86400 es in
      if is_blank key || ltb 256 (len key)
      then (validation_error, es)
      else (answer_claim c.0 c.0.status, c.1)

abbrev pub finish_claim :
    ClaimStatus → Claim → Json → Option String → List Entry → Option (List Entry)
finish_claim claimed c response job es =
    complete_idempotency c.scope c.key c.request_hash response job es
finish_claim _ c response job es = some es

-- `_finish_idempotency`; `none` is the RuntimeError.
unfoldable pub finish_idempotency :
    Option Claim → Json → Option String → List Entry → Option (List Entry)
unfolding complete_idempotency
finish_idempotency none response job es = some es
finish_idempotency (some c) response job es = finish_claim c.status c response job es
