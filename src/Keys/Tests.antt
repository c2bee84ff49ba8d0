-- ===== src/Keys/Tests.antt =====
-- Keys at a concrete table. The identity stands in for SHA-256.
use memoratum.Base.{◌≡◌, refl, none, some, [], ◌∷◌, String}
use memoratum.Table.{find_where}
use memoratum.Keys.{KeyStore, create_api_key, lookup_key, revoke_key, new_key}
use memoratum.Keys.Laws.{lookup-revoke}

abbrev hash : String → String
hash s = s

abbrev one_key : KeyStore
one_key = record {
  api_keys = new_key "mm_a" 1 (some "docs") none none "READER" ∷ [];
  revoked_keys = [];
}

abbrev two_keys : KeyStore
two_keys = record {
  api_keys =
      new_key "mm_a" 1 (some "docs") none none "READER"
      ∷ new_key "mm_b" 5 (some "docs") none (some "p1") "OWNER"
      ∷ [];
  revoked_keys = [];
}

create_second :
    create_api_key hash "mm_b" 5 (some "docs") none (some "p1") "OWNER" one_key
    ≡ some ("mm_b", two_keys)
unfolding create_api_key
create_second = refl

lookup-revoke_example : lookup_key hash "mm_a" (revoke_key hash "mm_a" 9 two_keys).1 ≡ none
unfolding revoke_key find_where
lookup-revoke_example = lookup-revoke hash "mm_a" 9 two_keys refl
