-- ===== src/Access/Gate.antt =====
-- `authorize`, `effective_project` and the project guards of app.py.
use memoratum.Base.{
  ℕ, String, Bool, true, false, ◌&&◌, ◌||◌, not, Option, none, some, List, ◌==◌, if◌then◌else◌,
  is_some, opt_eq, is_truthy, or_else,
}
use memoratum.Table.{find_where}
use memoratum.Keys.{lookup_key}
use memoratum.Access.{
  Server, Project, Member, Database, Grant, Scope, denied, granted, Answer, ok, http, fault,
  auth_enabled, bearer, is_admin, scope_of, actor_from_scope, scope_allows, is_member,
}
use memoratum.Access.Metering.{Operation, record_usage}

abbrev pub has_project : String → Project → Bool
has_project i p = p.id == i

-- `meter`, and the answer that the request then gets.
unfoldable pub meter :
    ℕ
    → Option String
    → Option String
    → Option String
    → Option String
    → Operation
    → ℕ
    → Database
    → Answer (Option String) × Database
meter now key tag org project operation chars d =
    elim (record_usage now key tag org project operation chars d.usage) [
      | none ↦ (fault, d)
      | some usage ↦ (ok org, record d { usage = usage })
    ]

-- The organization of a live project, for a server with no authentication.
unfoldable pub open_org : Option Project → Option String → Answer (Option String)
open_org none org = http 404 "project not found"
open_org (some p) org =
    if p.deleting
    then http 409 "project deletion is in progress"
    else if is_some org && not (opt_eq org (some p.org_id))
    then http 422 "project does not belong to org_id"
    else ok (some p.org_id)

-- The organization of a live project, for an authenticated caller.
unfoldable pub bound_org : Option Project → Option String → Answer (Option String)
bound_org none org = http 404 "project not found"
bound_org (some p) org =
    if p.deleting
    then http 409 "project deletion is in progress"
    else if is_some org && not (opt_eq org (some p.org_id))
    then http 403 "FORBIDDEN"
    else ok (some p.org_id)

-- The project lookup is skipped where no project is in effect.
unfoldable pub in_project :
    (Option Project → Option String → Answer (Option String))
    → List Project
    → Option String
    → Option String
    → Answer (Option String)
in_project check projects none org = ok org
in_project check projects (some i) org = check (find_where (has_project i) projects) org

abbrev pub grant_org : Scope → Option String
grant_org (granted g) = g.org_id
grant_org _ = none

abbrev pub grant_project : Scope → Option String
grant_project (granted g) = g.project_id
grant_project _ = none

-- x if x is not None else y
abbrev pub given_or : Option String → Option String → Option String
given_or none y = y
given_or (some x) y = some x

abbrev pub is_denied : Scope → Bool
is_denied denied = true
is_denied _ = false

-- The part of `authorize` behind the checks.
unfoldable pub settle :
    Server
    → ℕ
    → Option String
    → Scope
    → String
    → Option String
    → Operation
    → ℕ
    → Database
    → Answer (Option String)
    → Answer (Option String) × Database
unfolding meter
settle v now h scope tag project operation chars d (http code detail) = (http code detail, d)
settle v now h scope tag project operation chars d fault = (fault, d)
settle v now h scope tag project operation chars d (ok org) =
    if not (scope_allows scope (some tag) org project)
    then (http 403 "FORBIDDEN", d)
    else meter now (actor_from_scope v h scope).1 (some tag) org project operation chars d

unfoldable pub open_settle :
    Server
    → ℕ
    → Option String
    → String
    → Option String
    → Operation
    → ℕ
    → Database
    → Answer (Option String)
    → Answer (Option String) × Database
unfolding meter
open_settle v now h tag project operation chars d (http code detail) = (http code detail, d)
open_settle v now h tag project operation chars d fault = (fault, d)
open_settle v now h tag project operation chars d (ok org) =
    meter now (actor_from_scope v h (scope_of v d.keys h)).1 (some tag) org project operation chars
      d

unfoldable pub authorize :
    Server
    → ℕ
    → Option String
    → String
    → Option String
    → Option String
    → Operation
    → ℕ
    → Database
    → Answer (Option String) × Database
authorize v now h tag org project operation chars d =
    let scope = scope_of v d.keys h in
    let effective = given_or project (grant_project scope) in
    if not (auth_enabled v)
    then open_settle v now h tag project operation chars d
        (in_project open_org d.projects project org)
    else if is_denied scope
    then (http 401 "UNAUTHORIZED", d)
    else settle v now h scope tag effective operation chars d
        (in_project bound_org d.projects effective (given_or org (grant_org scope)))

-- `bound`, where a project id that is the empty text counts as none.
abbrev pub bound_project : Scope → Option String → Option String
bound_project scope requested = or_else (grant_project scope) requested

unfoldable pub project_answer :
    Option String → String → Option String → Option Project → Answer (Option String)
project_answer bound i org none = http 404 "project not found"
project_answer bound i org (some p) =
    if p.deleting
    then http 409 "project deletion is in progress"
    else if is_truthy bound && not (opt_eq bound (some i))
    then http 403 "FORBIDDEN"
    else if is_some org && not (opt_eq org (some p.org_id))
    then http 422 "project does not belong to org_id"
    else ok (some p.id)

unfoldable pub resolve_project :
    Option String → Option String → List Project → Option String → Answer (Option String)
unfolding project_answer
resolve_project bound org projects none = ok none
resolve_project bound org projects (some i) =
    project_answer bound i org (find_where (has_project i) projects)

unfoldable pub effective_project :
    Server → Database → Option String → Option String → Option String → Answer (Option String)
unfolding resolve_project
effective_project v d h requested requested_org =
    let scope = scope_of v d.keys h in
    resolve_project (grant_project scope) requested_org d.projects (bound_project scope requested)

-- A refusal is the code and the status of the error body; no refusal is `None`.
abbrev pub Refusal : Type 0
Refusal = Option (String × ℕ)

unfoldable pub admin_error : Server → Database → Option String → Refusal
admin_error v d h = if not (auth_enabled v) || is_admin v h then none else elim (bearer h) [
  | none ↦ some ("UNAUTHORIZED", 401)
  | some raw ↦
      if is_some (lookup_key v.sha256 raw d.keys)
      then some ("FORBIDDEN", 403)
      else some ("UNAUTHORIZED", 401)
]

unfoldable pub role_error : Bool → Option String → Refusal
role_error owner_only role =
    if not (opt_eq role (some "OWNER") || opt_eq role (some "READER"))
    then some ("UNAUTHORIZED", 401)
    else if owner_only && not (opt_eq role (some "OWNER"))
    then some ("FORBIDDEN", 403)
    else none

unfoldable pub membership_error : Bool → Option Member → Refusal
unfolding role_error
membership_error owner_only none = some ("FORBIDDEN", 403)
membership_error owner_only (some m) = role_error owner_only (some m.role)

unfoldable pub grant_error : Database → String → String → Bool → Grant → Refusal
unfolding role_error membership_error
grant_error d org project owner_only g =
    let identity = or_else g.identity_email g.identity_subject in
    if is_some g.org_id && not (opt_eq g.org_id (some org))
    then some ("NOT_FOUND", 404)
    else if is_truthy identity
    then if is_some g.project_id && not (opt_eq g.project_id (some project))
      then some ("NOT_FOUND", 404)
      else membership_error owner_only (find_where (is_member project identity) d.members)
    else if not (opt_eq g.project_id (some project))
    then some ("FORBIDDEN", 403)
    else role_error owner_only g.identity_role

unfoldable pub scope_error : Database → String → String → Bool → Scope → Refusal
scope_error d org project owner_only (granted g) = grant_error d org project owner_only g
scope_error d org project owner_only _ = some ("UNAUTHORIZED", 401)

unfoldable pub project_scope_error :
    Server → Database → Option String → String → String → Bool → Refusal
project_scope_error v d h org project owner_only =
    if not (auth_enabled v) || is_admin v h
    then none
    else scope_error d org project owner_only (scope_of v d.keys h)

unfoldable pub require_project_write : Server → Database → Option String → Option String → Refusal
require_project_write v d h none = none
require_project_write v d h (some project) = elim (find_where (has_project project) d.projects) [
  | none ↦ some ("NOT_FOUND", 404)
  | some p ↦ project_scope_error v d h p.org_id project true
]
