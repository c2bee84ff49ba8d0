-- ===== src/Access/Isolation.antt =====
-- What an authorized request may touch.
use memoratum.Base.{
  ◌≡◌, ◌⊎◌, inl, inr, refl, ℕ, true, false, Option, none, some, String, List, arith, opt_eq_iff,
  Bool-cases, Option-cases, ◌==◌,
}
use memoratum.Table.{find_where}
use memoratum.Keys.{KeyStore, revoke_key}
use memoratum.Keys.Laws.{lookup-revoke}
use memoratum.Access.{
  Scope, denied, granted, Grant, Server, Project, Database, Answer, ok, http, fault, auth_enabled,
  scope_of, scope_allows, bearer, identified, may_access, may_access_row, actor_from_scope,
}
use memoratum.Access.Metering.{Operation, record_usage}
use memoratum.Access.Gate.{
  has_project, meter, bound_org, in_project, settle, open_settle, authorize, given_or, grant_org,
  grant_project, is_denied,
}
use memoratum.Access.Spec.{Covers, scope_allows-Covers}

-- The project in effect is live and owns the organization that the request gets; with no project the
-- request gets the organization that it asked for.
abbrev pub InProject : List Project → Option String → Option String → Option String → Type 0
InProject projects none asked org = org ≡ asked
InProject projects (some i) asked org =
    (p : Project) × (find_where (has_project i) projects ≡ some p)
    × (p.deleting ≡ false)
    × (org ≡ some p.org_id)

in_project-InProject :
    (projects : List Project) (effective asked org : Option String)
    → in_project bound_org projects effective asked ≡ ok org
    → InProject projects effective asked org
unfolding in_project bound_org
in_project-InProject projects none asked org h = ground arith
in_project-InProject projects (some i) asked org h =
    elim (Option-cases (find_where (has_project i) projects)) [
      | inl e ↦ ground arith
      | inr (p, e) ↦ (p, e, ground arith, ground arith)
    ]

settle-ok :
    (v : Server) (now : ℕ) (h : Option String) (s : Scope) (tag : String) (project : Option String)
    (operation : Operation) (chars : ℕ) (d : Database) (a : Answer (Option String))
    (org : Option String)
    → (settle v now h s tag project operation chars d a).0 ≡ ok org
    → (a ≡ ok org) × (scope_allows s (some tag) org project ≡ true)
unfolding settle
settle-ok v now h s tag project operation chars d (http c t) org e = ground arith
settle-ok v now h s tag project operation chars d fault org e = ground arith
settle-ok v now h s tag project operation chars d (ok o) org e = ground arith

-- A request that passes `authorize` on a server with authentication has a scope that covers its tag,
-- the organization that it gets and the project in effect, which is the one it names or else the
-- one its credential is bound to. That project exists, is not being deleted, and owns the
-- organization; with no project, the organization is the one asked for, or else the credential's.
pub authorize_sound :
    (v : Server) (now : ℕ) (h : Option String) (tag : String) (asked project : Option String)
    (operation : Operation) (chars : ℕ) (d : Database) (org : Option String)
    → auth_enabled v ≡ true
    → (authorize v now h tag asked project operation chars d).0 ≡ ok org
    → let scope = scope_of v d.keys h in
      let effective = given_or project (grant_project scope) in
      Covers scope (some tag) org effective
      × InProject d.projects effective (given_or asked (grant_org scope)) org
unfolding authorize
authorize_sound v now h tag asked project operation chars d org on e =
    let scope = scope_of v d.keys h in
    let effective = given_or project (grant_project scope) in
    elim (Bool-cases (is_denied scope)) [
      | inl no_one ↦ absurd (ground arith)
      | inr someone ↦
          let (found, allowed) =
            settle-ok v now h scope tag effective operation chars d
              (in_project bound_org d.projects effective (given_or asked (grant_org scope))) org
              (ground arith) in
          (
            (scope_allows-Covers scope (some tag) org effective).0 allowed,
            in_project-InProject d.projects effective (given_or asked (grant_org scope)) org found,
          )
    ]

-- A request is answered with an organization, or the database is as it was.
abbrev pub MeteredOnly : Database → Answer (Option String) × Database → Type 0
MeteredOnly d r = ((org : Option String) × (r.0 ≡ ok org)) ⊎ (r.1 ≡ d)

meter-MeteredOnly :
    (now : ℕ) (key tag org project : Option String) (operation : Operation) (chars : ℕ)
    (d : Database)
    → MeteredOnly d (meter now key tag org project operation chars d)
unfolding meter
meter-MeteredOnly now key tag org project operation chars d =
    elim (Option-cases (record_usage now key tag org project operation chars d.usage)) [
      | inl e ↦ inr (ground arith)
      | inr (u, e) ↦ inl (org, ground arith)
    ]

settle-MeteredOnly :
    (v : Server) (now : ℕ) (h : Option String) (s : Scope) (tag : String) (project : Option String)
    (operation : Operation) (chars : ℕ) (d : Database) (a : Answer (Option String))
    → MeteredOnly d (settle v now h s tag project operation chars d a)
unfolding settle
settle-MeteredOnly v now h s tag project operation chars d (http c t) = inr refl
settle-MeteredOnly v now h s tag project operation chars d fault = inr refl
settle-MeteredOnly v now h s tag project operation chars d (ok o) =
    elim (Bool-cases (scope_allows s (some tag) o project)) [
      | inl e ↦
          rw e (
            meter-MeteredOnly now (actor_from_scope v h s).1 (some tag) o project operation chars d)
      | inr e ↦ rw e (inr refl)
    ]

open_settle-MeteredOnly :
    (v : Server) (now : ℕ) (h : Option String) (tag : String) (project : Option String)
    (operation : Operation) (chars : ℕ) (d : Database) (a : Answer (Option String))
    → MeteredOnly d (open_settle v now h tag project operation chars d a)
unfolding open_settle
open_settle-MeteredOnly v now h tag project operation chars d (http c t) = inr refl
open_settle-MeteredOnly v now h tag project operation chars d fault = inr refl
open_settle-MeteredOnly v now h tag project operation chars d (ok o) =
    meter-MeteredOnly now (actor_from_scope v h (scope_of v d.keys h)).1 (some tag) o project
      operation chars d

-- With or without authentication, a request that `authorize` refuses, for whatever reason, is not
-- metered: the database is as it was.
pub authorize-MeteredOnly :
    (v : Server) (now : ℕ) (h : Option String) (tag : String) (asked project : Option String)
    (operation : Operation) (chars : ℕ) (d : Database)
    → MeteredOnly d (authorize v now h tag asked project operation chars d)
unfolding authorize
authorize-MeteredOnly v now h tag asked project operation chars d =
    elim (Bool-cases (auth_enabled v)) [
      | inr off ↦ rw off (open_settle-MeteredOnly v now h tag project operation chars d _)
      | inl on ↦ elim (Bool-cases (is_denied (scope_of v d.keys h))) [
        | inl no_one ↦ rw (on, no_one) (inr refl)
        | inr someone ↦ rw (on, someone) (settle-MeteredOnly v now h _ tag _ operation chars d _)
      ]
    ]

-- Once a key is revoked, a request that carries it has no scope, unless the key is the server's own or
-- the identity provider vouches for it.
pub scope_of-revoked :
    (v : Server) (s : KeyStore) (now : ℕ) (h : Option String) (raw : String)
    → bearer h ≡ some raw
    → (raw == v.api_key) ≡ false
    → identified v.verify raw ≡ none
    → (revoke_key v.sha256 raw now s).0 ≡ true
    → scope_of v (revoke_key v.sha256 raw now s).1 h ≡ denied
unfolding scope_of
scope_of-revoked v s now h raw b other unknown revoked =
    ground (arith, lookup-revoke v.sha256 raw now s)

-- A caller whose credential is bound to a project is given rows of that project alone: membership in
-- another one does not help.
pub may_access_row-bound :
    (v : Server) (d : Database) (h : Option String) (tag : String) (org project : Option String)
    (g : Grant) (bound : String)
    → scope_of v d.keys h ≡ granted g
    → g.project_id ≡ some bound
    → may_access_row v d h tag org project ≡ true
    → project ≡ some bound
unfolding may_access_row may_access scope_allows
may_access_row-bound v d h tag org project g bound s b e =
    ground (arith, opt_eq_iff g.project_id project)
