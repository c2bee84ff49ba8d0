-- ===== src/Access/Spec.antt =====
-- What a scope covers, as a predicate, and that the tests decide it.
use memoratum.Base.{◌≡◌, ◌≢◌, ◌↔◌, refl, true, Option, none, some, String, arith, opt_eq_iff}
use memoratum.Access.{Scope, denied, admin, granted, scope_allows, unbound_or}

-- A constraint of the scope is absent, or the value is the one that it names.
abbrev pub Binds : Option String → Option String → Type 0
Binds none y = Unit
Binds (some x) y = some x ≡ y

-- With a tag all three constraints bind. With none, the caller must be bound to the very project.
abbrev pub Covers : Scope → Option String → Option String → Option String → Type 0
Covers admin tag org project = Unit
Covers denied tag org project = ⊥
Covers (granted g) none org project = (g.project_id ≢ none) × (g.project_id ≡ project)
Covers (granted g) (some tag) org project =
    Binds g.container_tag (some tag) × Binds g.org_id org × Binds g.project_id project

pub unbound_or-Binds : (x y : Option String) → (unbound_or x y ≡ true) ↔ Binds x y
unbound_or-Binds none y = ((λ _. tt), (λ _. refl))
unbound_or-Binds (some x) y = opt_eq_iff (some x) y

-- `scope_allows` answers true exactly where the scope covers the tag, organization and project.
pub scope_allows-Covers :
    (s : Scope) (tag org project : Option String)
    → (scope_allows s tag org project ≡ true) ↔ Covers s tag org project
unfolding scope_allows
scope_allows-Covers admin tag org project = ((λ _. tt), (λ _. refl))
scope_allows-Covers denied tag org project = ((λ h. cc), (λ h. absurd h))
scope_allows-Covers (granted g) none org project = (
  (λ h. ground (arith, opt_eq_iff g.project_id project)),
  (λ h. ground (arith, opt_eq_iff g.project_id project)),
)
scope_allows-Covers (granted g) (some tag) org project = (
  (λ h. (
    (unbound_or-Binds g.container_tag (some tag)).0 (ground arith),
    (unbound_or-Binds g.org_id org).0 (ground arith),
    (unbound_or-Binds g.project_id project).0 (ground arith),
  )),
  (λ h. rw (
    (unbound_or-Binds g.container_tag (some tag)).1 h.0,
    (unbound_or-Binds g.org_id org).1 h.1,
    (unbound_or-Binds g.project_id project).1 h.2,
  )),
)
