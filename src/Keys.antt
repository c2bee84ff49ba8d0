-- ===== src/Keys.antt =====
-- The API keys of db.py: `create_api_key`, `lookup_key` and `revoke_key` over the tables `api_keys`
-- and `revoked_keys`. The SHA-256 of a key is the parameter `sha256`.
pub mod Laws
mod Tests
use memoratum.Base.{
  ℕ, String, Bool, true, false, ◌||◌, Option, none, some, List, [], ◌∷◌, ◌++◌, ◌==◌, if◌then◌else◌,
  is_some, is_none,
}
use memoratum.Table.{find_where}

pub record ApiKey : Type 0 where
  pub key_hash : String
  pub container_tag : Option String
  pub created_at : ℕ
  pub org_id : Option String
  pub project_id : Option String
  pub role : String

pub record RevokedKey : Type 0 where
  pub key_hash : String
  pub revoked_at : ℕ

pub record KeyStore : Type 0 where
  pub api_keys : List ApiKey
  pub revoked_keys : List RevokedKey

abbrev pub has_hash : String → ApiKey → Bool
has_hash h k = k.key_hash == h

abbrev pub revokes : String → RevokedKey → Bool
revokes h r = r.key_hash == h

abbrev pub new_key : String → ℕ → Option String → Option String → Option String → String → ApiKey
new_key hash now tag org project role = record {
  key_hash = hash;
  container_tag = tag;
  created_at = now;
  org_id = org;
  project_id = project;
  role = role;
}

module _ (sha256 : String → String) where
  -- `raw` is "mm_" and the token that `secrets` drew; `none` is the ValueError.
  unfoldable pub create_api_key :
      String
      → ℕ
      → Option String
      → Option String
      → Option String
      → String
      → KeyStore
      → Option (String × KeyStore)
  create_api_key raw now tag org project role s =
      if role == "OWNER" || role == "READER"
      then some (
        raw,
        record s { api_keys = s.api_keys ++ new_key (sha256 raw) now tag org project role ∷ [] },
      )
      else none

  unfoldable pub lookup_key : String → KeyStore → Option ApiKey
  lookup_key raw s =
      if is_some (find_where (revokes (sha256 raw)) s.revoked_keys)
      then none
      else find_where (has_hash (sha256 raw)) s.api_keys

  -- INSERT OR IGNORE leaves the row of an earlier revocation.
  unfoldable pub revoke_key : String → ℕ → KeyStore → Bool × KeyStore
  revoke_key raw now s =
      if is_none (find_where (has_hash (sha256 raw)) s.api_keys)
      then (false, s)
      else if is_some (find_where (revokes (sha256 raw)) s.revoked_keys)
      then (true, s)
      else (
        true,
        record s {
          revoked_keys = s.revoked_keys ++ record { key_hash = sha256 raw; revoked_at = now } ∷ [];
        },
      )
