-- ===== src/Retention/Tests.antt =====
-- A sweep of small tables.
use memoratum.Base.{ℕ, ◌≡◌, refl, [], ◌∷◌, none, some, false, arith}
use memoratum.Json.{end}
use memoratum.Table.{find_where}
use memoratum.Jobs.{fresh_job}
use memoratum.Outbox.{Delivery, succeeded, memory_add}
use memoratum.Keys.{ApiKey, RevokedKey, has_hash, revokes, lookup_key}
use memoratum.Retention.{Timed, default_policies, sweep}
use memoratum.Retention.Laws.{SameWork, sweep-SameWork, IsLinked, key_store, sweep-lookup_key}

abbrev sent : Delivery
sent = record {
  id = "d";
  event_id = "e";
  webhook_id = "w";
  project_id = "p";
  event_type = memory_add;
  memory_id = none;
  payload = end;
  status = succeeded;
  attempts = 1;
  next_attempt_at = none;
  last_error = none;
  response_status = some 200;
  created_at = 10;
  updated_at = 11;
}

abbrev revocation : RevokedKey
revocation = record { key_hash = "secret"; revoked_at = 20 }

abbrev tables : Timed
tables = record {
  deliveries = sent ∷ [];
  events =
      record {
        id = "e";
        project_id = "p";
        event_type = memory_add;
        memory_id = none;
        payload = end;
        created_at = 10;
      }
      ∷ [];
  history = [];
  jobs = fresh_job "j" 5 "ingest" end none ∷ [];
  links = [];
  keys = [];
  audit = [];
  revoked = revocation ∷ [];
}

-- A year later.
abbrev later : ℕ
later = 31536000

sweep-SameWork_example : SameWork tables (sweep later false default_policies none tables).1
sweep-SameWork_example = sweep-SameWork later false default_policies none tables

tables-IsLinked : IsLinked tables
unfolding find_where
tables-IsLinked = (refl, tt)

abbrev api_key : ApiKey
api_key = record {
  key_hash = "secret";
  container_tag = none;
  created_at = 1;
  org_id = none;
  project_id = none;
  role = "OWNER";
}

find_api_key : find_where (has_hash "secret") (api_key ∷ []) ≡ some api_key
unfolding find_where
find_api_key = refl

find_revocation : find_where (revokes "secret") tables.revoked ≡ some revocation
unfolding find_where
find_revocation = refl

sweep-lookup_key_example :
    (lookup_key (λ t. t) "secret" (key_store (api_key ∷ []) tables) ≡ none)
    × (lookup_key
          (λ t. t)
          "secret"
          (key_store (api_key ∷ []) (sweep later false default_policies none tables).1)
        ≡ some api_key)
sweep-lookup_key_example =
    sweep-lookup_key (λ t. t) "secret" later 90 default_policies (api_key ∷ []) api_key revocation
      tables find_api_key find_revocation refl ((λ e. omega arith), tt)
