-- ===== src/Access/Tests.antt =====
-- Authorization on a concrete server. The identity stands in for SHA-256.
use memoratum.Base.{◌+◌, ◌≡◌, refl, true, false, Option, none, some, [], ◌∷◌, String, arith}
use memoratum.Table.{find_where, count_where, update_where}
use memoratum.Keys.{ApiKey, KeyStore, new_key, lookup_key, revoke_key}
use memoratum.Access.{
  Server, Project, Usage, Database, Grant, granted, denied, ok, http, key_grant, bearer, scope_of,
  scope_allows, may_access, may_access_row, is_admin, actor_from_scope,
}
use memoratum.Access.Metering.{search, record_usage, fresh_usage}
use memoratum.Access.Gate.{
  authorize, given_or, grant_project, grant_org, require_project_write, has_project, meter, settle,
  in_project, bound_org, project_scope_error, scope_error, grant_error, role_error,
}
use memoratum.Access.Spec.{Covers}
use memoratum.Access.Isolation.{
  InProject, MeteredOnly, authorize_sound, authorize-MeteredOnly, scope_of-revoked,
  may_access_row-bound,
}
use memoratum.Access.Projects.{IsOwner, require_project_write-IsOwner}
use memoratum.Access.Accounting.{total_requests, total_chars, IsUnique, record_usage_once}

abbrev server : Server
server = record { api_key = "root"; sha256 = λ s. s; verify = none }

abbrev owner_key : ApiKey
owner_key = new_key "mm_b" 5 (some "docs") none (some "p1") "OWNER"

abbrev store : KeyStore
store = record { api_keys = owner_key ∷ []; revoked_keys = [] }

abbrev db : Database
db = record {
  keys = store;
  projects =
      record { id = "p1"; org_id = "acme"; deleting = false }
      ∷ record { id = "p2"; org_id = "acme"; deleting = true }
      ∷ [];
  members = [];
  usage = [];
}

abbrev owner : Option String
owner = some "Bearer mm_b"

owner_scope : scope_of server store owner ≡ granted (key_grant owner_key)
unfolding scope_of lookup_key find_where bearer
owner_scope = refl

-- The Mem0 form of the header names the same credential.
token_scope : scope_of server store (some "Token mm_b") ≡ granted (key_grant owner_key)
unfolding scope_of lookup_key find_where bearer
token_scope = refl

owner_searches : (authorize server 7 owner "docs" none none search 4 db).0 ≡ ok (some "acme")
unfolding authorize scope_of lookup_key find_where bearer settle in_project bound_org scope_allows
    record_usage actor_from_scope meter
owner_searches = refl

other_tag : (authorize server 7 owner "mail" none none search 4 db).0 ≡ http 403 "FORBIDDEN"
unfolding authorize scope_of lookup_key find_where bearer settle in_project bound_org scope_allows
    record_usage actor_from_scope meter
other_tag = refl

authorize_sound_example :
    let scope = scope_of server store owner in
    let effective = given_or none (grant_project scope) in
    Covers scope (some "docs") (some "acme") effective
    × InProject db.projects effective (given_or none (grant_org scope)) (some "acme")
authorize_sound_example =
    authorize_sound server 7 owner "docs" none none search 4 db (some "acme") refl owner_searches

authorize-MeteredOnly_example :
    MeteredOnly db (authorize server 7 owner "mail" none none search 4 db)
authorize-MeteredOnly_example = authorize-MeteredOnly server 7 owner "mail" none none search 4 db

scope_of-revoked_example :
    scope_of server (revoke_key server.sha256 "mm_b" 9 store).1 owner ≡ denied
unfolding bearer revoke_key find_where
scope_of-revoked_example = scope_of-revoked server store 9 owner "mm_b" refl refl refl refl

abbrev asked : Option String
asked = some "p1"

may_access_row-bound_example : asked ≡ some "p1"
unfolding may_access_row may_access scope_of scope_allows lookup_key find_where bearer
may_access_row-bound_example =
    may_access_row-bound server db owner "docs" none asked (key_grant owner_key) "p1" owner_scope
      refl refl

require_project_write-IsOwner_example :
    (p : Project) × (find_where (has_project "p1") db.projects ≡ some p)
    × ((g : Grant) × (scope_of server store owner ≡ granted g) × IsOwner db "p1" g)
unfolding require_project_write project_scope_error scope_error grant_error role_error is_admin
    scope_of lookup_key find_where bearer
require_project_write-IsOwner_example =
    require_project_write-IsOwner server db owner "p1" refl refl refl

abbrev counted : Usage
counted = fresh_usage 1 "mm_b" "docs" "" "p1" search 4

counted-IsUnique : IsUnique (counted ∷ [])
unfolding count_where
counted-IsUnique k t o p = ground arith

abbrev counted_twice : Usage
counted_twice = record counted { requests = 2; searches = 2; input_chars = 9; updated_at = 3 }

second_search :
    record_usage 3 (some "mm_b") (some "docs") none (some "p1") search 5 (counted ∷ [])
    ≡ some (counted_twice ∷ [])
unfolding record_usage find_where update_where
second_search = refl

record_usage_once_example :
    (total_requests (counted_twice ∷ []) ≡ total_requests (counted ∷ []) + 1)
    × (total_chars (counted_twice ∷ []) ≡ total_chars (counted ∷ []) + 5)
record_usage_once_example =
    record_usage_once 3 (some "mm_b") (some "docs") none (some "p1") search 5 (counted ∷ [])
      (counted_twice ∷ []) counted-IsUnique second_search
