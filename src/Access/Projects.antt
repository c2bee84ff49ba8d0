-- ===== src/Access/Projects.antt =====
-- The guards in front of a project's own data.
use memoratum.Base.{
  ◌≡◌, ◌⊎◌, inl, inr, refl, true, false, Option, none, some, String, List, [], ◌∷◌, arith,
  opt_eq_iff, eq_iff, Bool-cases, Option-cases, is_truthy, or_else,
}
use memoratum.Table.{find_where}
use memoratum.Access.{
  Scope, denied, admin, granted, Grant, Server, Project, Member, Database, ok, auth_enabled,
  scope_of, is_admin, is_member,
}
use memoratum.Access.Gate.{
  has_project, grant_project, effective_project, resolve_project, bound_project,
  require_project_write, project_scope_error, scope_error, grant_error, role_error,
}

-- The id that the project lookup returns is the one that it looked for.
found_project :
    (i : String) (projects : List Project) (p : Project)
    → find_where (has_project i) projects ≡ some p
    → p.id ≡ i
unfolding find_where
found_project i [] p h = cc
found_project i (q ∷ ps) p h = ground (arith, eq_iff q.id i, found_project i ps p)

resolve-bound :
    (bound : Option String) (org : Option String) (projects : List Project) (i r : String)
    → resolve_project bound org projects (some i) ≡ ok (some r)
    → (r ≡ i)
      × ((p : Project) × (find_where (has_project i) projects ≡ some p)
          × (p.deleting ≡ false)
          × ((org ≡ none) ⊎ (org ≡ some p.org_id)))
unfolding resolve_project
resolve-bound bound org projects i r h = elim (Option-cases (find_where (has_project i) projects)) [
  | inl e ↦ absurd (ground arith)
  | inr (p, e) ↦ (
    ground (arith, found_project i projects p),
    (p, e, ground arith, ground (arith, opt_eq_iff org (some p.org_id))),
  )
]

-- The project that `effective_project` answers with is live and belongs to the organization that
-- the caller named, if any. For a caller bound to a project it is that one, whatever was requested.
pub effective_project_sound :
    (v : Server) (d : Database) (h requested org : Option String) (r : String)
    → effective_project v d h requested org ≡ ok (some r)
    → (bound_project (scope_of v d.keys h) requested ≡ some r)
      × ((p : Project) × (find_where (has_project r) d.projects ≡ some p)
          × (p.deleting ≡ false)
          × ((org ≡ none) ⊎ (org ≡ some p.org_id)))
unfolding effective_project
effective_project_sound v d h requested org r e =
    elim (Option-cases (bound_project (scope_of v d.keys h) requested)) [
      | inl none_bound ↦ absurd (ground arith)
      | inr (i, b) ↦
          let (same, there) =
            resolve-bound (grant_project (scope_of v d.keys h)) org d.projects i r (ground arith) in
          (cc (b, same), rw same there)
    ]

-- The caller's role in a project: an identity has that of its membership row, and a local key the
-- one that it was issued with, if it is bound to that very project.
abbrev pub IsOwner : Database → String → Grant → Type 0
IsOwner d project g =
    (is_truthy (or_else g.identity_email g.identity_subject) ≡ true)
      × ((m : Member) × (find_where
              (is_member project (or_else g.identity_email g.identity_subject)) d.members
            ≡ some m)
          × (m.role ≡ "OWNER"))
    ⊎ (is_truthy (or_else g.identity_email g.identity_subject) ≡ false)
      × ((g.project_id ≡ some project) × (g.identity_role ≡ some "OWNER"))

role_error-owner : (role : Option String) → role_error true role ≡ none → role ≡ some "OWNER"
unfolding role_error
role_error-owner role h = ground (arith, opt_eq_iff role (some "OWNER"))

grant_error-IsOwner :
    (d : Database) (org project : String) (g : Grant)
    → grant_error d org project true g ≡ none
    → IsOwner d project g
unfolding grant_error
grant_error-IsOwner d org project g h =
    let identity = or_else g.identity_email g.identity_subject in
    elim (Bool-cases (is_truthy identity)) [
      | inl named ↦ elim (Option-cases (find_where (is_member project identity) d.members)) [
        | inl e ↦ absurd (ground arith)
        | inr (m, e) ↦ inl (named, (m, e, ground (arith, role_error-owner (some m.role))))
      ]
      | inr local ↦ inr (
        local,
        (
          ground (arith, opt_eq_iff g.project_id (some project)),
          role_error-owner g.identity_role (ground arith),
        ),
      )
    ]

scope_error-IsOwner :
    (d : Database) (org project : String) (s : Scope)
    → scope_error d org project true s ≡ none
    → (g : Grant) × (s ≡ granted g) × IsOwner d project g
unfolding scope_error
scope_error-IsOwner d org project (granted g) h = (g, refl, grant_error-IsOwner d org project g h)
scope_error-IsOwner d org project denied h = absurd (ground arith)
scope_error-IsOwner d org project admin h = absurd (ground arith)

-- On a server with authentication, whoever may write to a project without the server's own key is an
-- owner of an existing project: by membership, if the caller is an identity, and else by a key that
-- is bound to the project and has the role.
pub require_project_write-IsOwner :
    (v : Server) (d : Database) (h : Option String) (project : String)
    → auth_enabled v ≡ true
    → is_admin v h ≡ false
    → require_project_write v d h (some project) ≡ none
    → (p : Project) × (find_where (has_project project) d.projects ≡ some p)
      × ((g : Grant) × (scope_of v d.keys h ≡ granted g) × IsOwner d project g)
unfolding require_project_write project_scope_error
require_project_write-IsOwner v d h project on other e =
    elim (Option-cases (find_where (has_project project) d.projects)) [
      | inl missing ↦ absurd (ground arith)
      | inr (p, found) ↦
          (p, found, scope_error-IsOwner d p.org_id project (scope_of v d.keys h) (ground arith))
    ]
