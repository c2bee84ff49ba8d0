-- ===== src/Access.antt =====
-- The authorization of app.py: who a request is (`scope_of`), what it may touch (`scope_allows`,
-- `may_access`, `authorize`, `effective_project`, `_project_scope_error`), and the usage row that
-- an authorized request writes. What the embedding application injects, and SHA-256, are fields
-- of `Server`.
pub mod Metering
pub mod Gate
pub mod Spec
pub mod Isolation
pub mod Projects
pub mod Accounting
mod Tests
use memoratum.Base.{
  ℕ, ◌+◌, String, Bool, true, false, ◌&&◌, ◌||◌, not, Option, none, some, List, [], ◌∷◌, ◌++◌, ◌==◌,
  if◌then◌else◌, is_some, opt_eq, strip_prefix, is_truthy, or_else, or_blank,
}
use memoratum.Table.{find_where, update_where}
use memoratum.Keys.{ApiKey, KeyStore, lookup_key}

-- auth.py
pub record Identity : Type 0 where
  pub subject : String
  pub container_tag : Option String
  pub org_id : Option String
  pub project_id : Option String
  pub email : Option String
  pub role : Option String

-- What a call of `IdentityProvider.verify` may do.
pub data Verdict : Type 0 where
  raises : Verdict
  answers : Option Identity → Verdict

pub record Server : Type 0 where
  pub api_key : String
  pub sha256 : String → String
  pub verify : Option (String → Verdict)

pub record Project : Type 0 where
  pub id : String
  pub org_id : String
  pub deleting : Bool

pub record Member : Type 0 where
  pub project_id : String
  pub email : String
  pub role : String

pub record Usage : Type 0 where
  pub key_hash : String
  pub container_tag : String
  pub org_id : String
  pub project_id : String
  pub requests : ℕ
  pub searches : ℕ
  pub document_writes : ℕ
  pub fact_writes : ℕ
  pub input_chars : ℕ
  pub created_at : ℕ
  pub updated_at : ℕ

pub record Database : Type 0 where
  pub keys : KeyStore
  pub projects : List Project
  pub members : List Member
  pub usage : List Usage

pub record Grant : Type 0 where
  pub key_hash : String
  pub container_tag : Option String
  pub org_id : Option String
  pub project_id : Option String
  pub identity_subject : Option String
  pub identity_email : Option String
  pub identity_role : Option String

-- `False`, `True`, or the dictionary of a scoped caller.
pub data Scope : Type 0 where
  denied admin : Scope
  granted : Grant → Scope

-- `HTTPException(status_code, detail)`, or an exception that is none.
pub data Answer {ℓ} (A : Type ℓ) : Type ℓ where
  ok : A → Answer A
  http : ℕ → String → Answer A
  fault : Answer A

-- settings.auth_enabled
abbrev pub auth_enabled : Server → Bool
auth_enabled v = not (v.api_key == "")

-- `_compat_auth_header`, and the text behind "Bearer " in what it returns.
unfoldable pub bearer : Option String → Option String
unfolding strip_prefix
bearer none = none
bearer (some h) = elim (strip_prefix "Token " h) [
  | none ↦ strip_prefix "Bearer " h
  | some raw ↦ some raw
]

unfoldable pub is_admin : Server → Option String → Bool
unfolding bearer
is_admin v h = auth_enabled v && elim (bearer h) [ none ↦ false | some raw ↦ raw == v.api_key ]

abbrev pub identified : Option (String → Verdict) → String → Option Identity
identified none raw = none
identified (some verify) raw = elim (verify raw) [ raises ↦ none | answers i ↦ i ]

abbrev pub key_grant : ApiKey → Grant
key_grant k = record {
  key_hash = k.key_hash;
  container_tag = k.container_tag;
  org_id = k.org_id;
  project_id = k.project_id;
  identity_subject = none;
  identity_email = none;
  identity_role = some k.role;
}

abbrev pub identity_grant : String → Identity → Grant
identity_grant hash i = record {
  key_hash = hash;
  container_tag = i.container_tag;
  org_id = i.org_id;
  project_id = i.project_id;
  identity_subject = some i.subject;
  identity_email = i.email;
  identity_role = i.role;
}

key_scope : Option ApiKey → Scope
key_scope none = denied
key_scope (some k) = granted (key_grant k)

identity_scope : Server → KeyStore → String → Option Identity → Scope
unfolding key_scope
identity_scope v s raw (some i) = granted (identity_grant (v.sha256 raw) i)
identity_scope v s raw none = key_scope (lookup_key v.sha256 raw s)

unfoldable pub scope_of : Server → KeyStore → Option String → Scope
unfolding bearer identity_scope
scope_of v s h = elim (bearer h) [
  | none ↦ denied
  | some raw ↦ if raw == v.api_key then admin else identity_scope v s raw (identified v.verify raw)
]

-- `actor_from_scope`: the kind of the caller and the hash of its credential.
unfoldable pub actor_from_scope : Server → Option String → Scope → String × Option String
unfolding bearer
actor_from_scope v h denied = ("anonymous", none)
actor_from_scope v h admin = elim (bearer h) [
  | none ↦ ("anonymous", none)
  | some raw ↦ ("admin", some (v.sha256 raw))
]
actor_from_scope v h (granted g) = elim (bearer h) [
  | none ↦ ("anonymous", none)
  | some raw ↦ (if is_truthy g.identity_subject then "oidc" else "key", some g.key_hash)
]

-- x is None or x == y
abbrev pub unbound_or : Option String → Option String → Bool
unbound_or none y = true
unbound_or (some x) y = opt_eq (some x) y

unfoldable pub scope_allows : Scope → Option String → Option String → Option String → Bool
scope_allows admin tag org project = true
scope_allows denied tag org project = false
scope_allows (granted g) none org project = is_some g.project_id && opt_eq g.project_id project
scope_allows (granted g) (some tag) org project =
    unbound_or g.container_tag (some tag)
    && unbound_or g.org_id org
    && unbound_or g.project_id project

abbrev pub is_member : String → Option String → Member → Bool
is_member project email m = m.project_id == project && opt_eq (some m.email) email

-- The membership clause of `may_access`, for a call with no tag.
member_access : Database → Grant → Option String → Option String → Option String → Bool
member_access d g (some tag) org project = false
member_access d g none org none = false
member_access d g none org (some project) =
    let identity = or_else g.identity_email g.identity_subject in
    not (project == "")
    && is_truthy identity
    && (opt_eq org none || opt_eq g.org_id none || opt_eq g.org_id org)
    && is_some (find_where (is_member project identity) d.members)

unfoldable pub may_access :
    Server → Database → Option String → Option String → Option String → Option String → Bool
unfolding member_access
may_access v d h tag org project =
    let scope = scope_of v d.keys h in
    scope_allows scope tag org project
    || elim scope [ denied ↦ false | admin ↦ false | granted g ↦ member_access d g tag org project ]

-- `_may_access`
unfoldable pub may_access_row :
    Server → Database → Option String → String → Option String → Option String → Bool
may_access_row v d h tag org project =
    may_access v d h (some tag) org project && elim (scope_of v d.keys h) [
      | denied ↦ true
      | admin ↦ true
      | granted g ↦ if is_some g.project_id then opt_eq g.project_id project else true
    ]
