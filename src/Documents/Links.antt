-- ===== src/Documents/Links.antt =====
-- db.py and app.py: share links, and the public route that serves a document to the holder of a
-- token. `hash_key` is SHA-256 and stays an argument; only the hash of a token is stored.
pub mod Revoked
use memoratum.Base.{
  ℕ, String, Bool, true, false, ◌&&◌, ◌||◌, Option, none, some, List, [], ◌∷◌, ◌++◌, ◌==◌, ltb,
  is_none, is_some, if◌then◌else◌,
}
use memoratum.Table.{find_where, update_where, count_where}
use memoratum.Retention.{ShareLink}
use memoratum.Documents.{Document, Library, get_document, has_document_id}

abbrev pub has_link_id : String → ShareLink → Bool
has_link_id i k = k.id == i

abbrev pub has_token : String → ShareLink → Bool
has_token h k = k.token_hash == h

unfoldable pub get_share_link : String → Library → Option ShareLink
get_share_link i l = find_where (has_link_id i) l.links

unfoldable pub get_share_link_by_token : String → Library → Option ShareLink
get_share_link_by_token h l = find_where (has_token h) l.links

abbrev pub new_link : String → ℕ → String → String → Option String → ℕ → ShareLink
new_link i now token_hash document_id created_by expires_at = record {
  id = i;
  token_hash = token_hash;
  document_id = document_id;
  created_by = created_by;
  created_at = now;
  expires_at = expires_at;
  revoked_at = none;
}

-- `none` is the IntegrityError: the id or the hash is there already, or the document is not. The
-- row that is read back is the one that was inserted.
unfoldable pub create_share_link :
    String → ℕ → String → String → Option String → ℕ → Library → Option (ShareLink × Library)
unfolding get_share_link get_share_link_by_token get_document
create_share_link i now token_hash document_id created_by expires_at l =
    let link = new_link i now token_hash document_id created_by expires_at in
    if is_some (get_share_link i l)
      || is_some (get_share_link_by_token token_hash l)
      || is_none (get_document document_id l)
    then none
    else some (link, record l { links = l.links ++ link ∷ [] })

abbrev pub is_open : String → ShareLink → Bool
is_open i k = k.id == i && is_none k.revoked_at

abbrev pub revoked : ℕ → ShareLink → ShareLink
revoked now k = record k { revoked_at = some now }

-- Whether a row was changed, and the tables.
unfoldable pub revoke_share_link : String → ℕ → Library → Bool × Library
revoke_share_link i now l = (
  ltb 0 (count_where (is_open i) l.links),
  record l { links = update_where (is_open i) (revoked now) l.links },
)

-- _active_share_link
abbrev pub is_active_link : ℕ → ShareLink → Bool
is_active_link now k = is_none k.revoked_at && ltb now k.expires_at

-- The columns that the route answers.
pub record SharedDocument : Type 0 where
  pub id : String
  pub container_tag : String
  pub content : String
  pub created_at : ℕ
  pub expires_at : ℕ

abbrev pub shared : ShareLink → Option Document → Option SharedDocument
shared k none = none
shared k (some d) = some (record {
  id = d.id;
  container_tag = d.container_tag;
  content = d.content;
  created_at = d.created_at;
  expires_at = k.expires_at;
})

unfoldable pub serve : ℕ → Option ShareLink → Library → Option SharedDocument
unfolding get_document
serve now none l = none
serve now (some k) l =
    if is_active_link now k then shared k (get_document k.document_id l) else none

-- GET /v1/share/{token}; `none` is the error 404.
unfoldable pub read_share : (String → String) → ℕ → String → Library → Option SharedDocument
unfolding serve get_share_link_by_token
read_share hash_key now token l = serve now (get_share_link_by_token (hash_key token) l) l
