-- ===== src/Keys/Laws.antt =====
-- A key works from its creation until it is revoked.
use memoratum.Base.{
  ℕ, ◌≡◌, refl, true, Option, none, some, List, [], ◌∷◌, ◌++◌, String, arith, eq_refl, is_some,
}
use memoratum.Table.{find_where}
use memoratum.Keys.{
  ApiKey, RevokedKey, KeyStore, has_hash, revokes, new_key, create_api_key, lookup_key, revoke_key,
}

find_appended :
    (h : String) (now : ℕ) (rs : List RevokedKey)
    → is_some (find_where (revokes h) (rs ++ record { key_hash = h; revoked_at = now } ∷ [])) ≡ true
unfolding find_where
find_appended h now [] = ground (arith, eq_refl h)
find_appended h now (r ∷ rs) = ground (arith, find_appended h now rs)

find_appended_key :
    (k : ApiKey) (ks : List ApiKey)
    → find_where (has_hash k.key_hash) ks ≡ none
    → find_where (has_hash k.key_hash) (ks ++ k ∷ []) ≡ some k
unfolding find_where
find_appended_key k [] h = ground (arith, eq_refl k.key_hash)
find_appended_key k (r ∷ ks) h = ground (arith, find_appended_key k ks)

module _ (sha256 : String → String) where
  -- A key that is created with a hash that no key has and no revocation names is found with the
  -- tag, organization, project and role that it was created with.
  pub lookup-create :
      (raw : String) (now : ℕ) (tag org project : Option String) (role : String) (s s' : KeyStore)
      → find_where (has_hash (sha256 raw)) s.api_keys ≡ none
      → find_where (revokes (sha256 raw)) s.revoked_keys ≡ none
      → create_api_key sha256 raw now tag org project role s ≡ some (raw, s')
      → (k : ApiKey) × (lookup_key sha256 raw s' ≡ some k)
        × (k.container_tag ≡ tag)
        × (k.org_id ≡ org)
        × (k.project_id ≡ project)
        × (k.role ≡ role)
  unfolding create_api_key lookup_key
  lookup-create raw now tag org project role s s' fresh live made = (
    new_key (sha256 raw) now tag org project role,
    ground (arith, find_appended_key (new_key (sha256 raw) now tag org project role) s.api_keys),
    refl,
    refl,
    refl,
    refl,
  )

  -- Once `revoke_key` has answered true the key is unknown, whatever the tables held.
  pub lookup-revoke :
      (raw : String) (now : ℕ) (s : KeyStore)
      → (revoke_key sha256 raw now s).0 ≡ true
      → lookup_key sha256 raw (revoke_key sha256 raw now s).1 ≡ none
  unfolding revoke_key lookup_key
  lookup-revoke raw now s h = ground (arith, find_appended (sha256 raw) now s.revoked_keys)
