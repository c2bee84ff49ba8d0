-- ===== src/Documents.antt =====
-- db.py: the tables of documents, chunks and share links, and the operations on them. A row that is
-- not there is `none`, the KeyError of the source. `fact_embeddings` is the column `embedding` of
-- the table of facts, in rowid order.
pub mod Scopes
pub mod Links
pub mod Ingest
mod Tests
use memoratum.Base.{
  ℕ, zero, suc, ◌+◌, max, String, Bool, true, false, ◌&&◌, Option, none, some, List, [], ◌∷◌, ◌++◌,
  ◌==◌, if◌then◌else◌, opt_eq, is_some, is_none, ltb,
}
use memoratum.Json.{Fields, end}
use memoratum.Table.{find_where, update_where, delete_where, count_where}
use memoratum.Outbox.{Outbox}
use memoratum.Retention.{ShareLink}

-- The statuses that the code writes.
pub data DocumentStatus : Type 0 where
  queued done failed : DocumentStatus

pub record Document : Type 0 where
  pub id : String
  pub container_tag : String
  pub custom_id : Option String
  pub content : String
  pub status : DocumentStatus
  pub created_at : ℕ
  pub updated_at : ℕ
  pub metadata : Fields
  pub dreamed_at : Option ℕ
  pub expires_at : Option ℕ
  pub org_id : Option String
  pub project_id : Option String

-- An embedding is the list of its bytes.
pub record Chunk : Type 0 where
  pub id : ℕ
  pub document_id : String
  pub idx : ℕ
  pub text : String
  pub embedding : Option (List ℕ)
  pub created_at : ℕ

pub record Library : Type 0 where
  pub documents : List Document
  pub chunks : List Chunk
  pub links : List ShareLink
  pub fact_embeddings : List (Option (List ℕ))
  pub outbox : Outbox

-- The arguments of `create_document`.
pub record Upload : Type 0 where
  pub container_tag : String
  pub content : String
  pub custom_id : Option String
  pub metadata : Fields
  pub expires_at : Option ℕ
  pub org_id : Option String
  pub project_id : Option String

abbrev pub has_document_id : String → Document → Bool
has_document_id i d = d.id == i

abbrev pub chunk_of : String → Chunk → Bool
chunk_of i c = c.document_id == i

unfoldable pub get_document : String → Library → Option Document
get_document i l = find_where (has_document_id i) l.documents

-- The document of a custom id within its tag, organization and project.
abbrev pub in_upload_scope : String → Upload → Document → Bool
in_upload_scope custom u d =
    d.container_tag == u.container_tag
    && opt_eq d.custom_id (some custom)
    && opt_eq d.org_id u.org_id
    && opt_eq d.project_id u.project_id

abbrev pub refreshed : ℕ → Upload → Document → Document
refreshed now u d = record d {
  content = u.content;
  status = queued;
  updated_at = now;
  metadata = u.metadata;
  dreamed_at = none;
  expires_at = u.expires_at;
  org_id = u.org_id;
  project_id = u.project_id;
}

abbrev pub new_document : String → ℕ → Upload → Document
new_document i now u = record {
  id = i;
  container_tag = u.container_tag;
  custom_id = u.custom_id;
  content = u.content;
  status = queued;
  created_at = now;
  updated_at = now;
  metadata = u.metadata;
  dreamed_at = none;
  expires_at = u.expires_at;
  org_id = u.org_id;
  project_id = u.project_id;
}

abbrev pub set_document : String → (Document → Document) → Library → Library
set_document i f l = record l { documents = update_where (has_document_id i) f l.documents }

abbrev pub drop_chunks : String → Library → Library
drop_chunks i l = record l { chunks = delete_where (chunk_of i) l.chunks }

abbrev pub read_back : String → Library → Option Document × Library
read_back i l = (get_document i l, l)

abbrev pub insert_document : String → ℕ → Upload → Library → Option Document × Library
insert_document i now u l =
    read_back i (record l { documents = l.documents ++ new_document i now u ∷ [] })

abbrev pub refresh_document : ℕ → Upload → Document → Library → Option Document × Library
refresh_document now u d l =
    read_back d.id (drop_chunks d.id (set_document d.id (refreshed now u) l))

unfoldable pub named_document : Option String → Upload → Library → Option Document
named_document none u l = none
named_document (some custom) u l = find_where (in_upload_scope custom u) l.documents

-- The row that the arguments name by a custom id, if there is one.
unfoldable pub existing_document : Upload → Library → Option Document
unfolding named_document
existing_document u l = named_document u.custom_id u l

-- `i` is the uuid that it draws.
unfoldable pub create_document : String → ℕ → Upload → Library → Option Document × Library
unfolding existing_document get_document
create_document i now u l = elim (existing_document u l) [
  | none ↦ insert_document i now u l
  | some d ↦ refresh_document now u d l
]

abbrev or_old {ℓ} : {A : Type ℓ} → Option A → A → A
or_old none a = a
or_old (some b) a = b

abbrev pub replaced : ℕ → Option String → Option Fields → Document → Document → Document
replaced now content metadata old d = record d {
  content = or_old content old.content;
  metadata = or_old metadata old.metadata;
  status = queued;
  updated_at = now;
  dreamed_at = none;
}

unfoldable pub update_document :
    String → ℕ → Option String → Option Fields → Library → Option Document × Library
unfolding get_document
update_document i now content metadata l = elim (get_document i l) [
  | none ↦ (none, l)
  | some old ↦ read_back i (drop_chunks i (set_document i (replaced now content metadata old) l))
]

abbrev pub with_status : ℕ → DocumentStatus → Document → Document
with_status now s d = record d { status = s; updated_at = now }

unfoldable pub set_status : String → ℕ → DocumentStatus → Library → Library
set_status i now s l = set_document i (with_status now s) l

-- The rowid after the highest one.
unfoldable pub next_id : List Chunk → ℕ
next_id [] = 1
next_id (c ∷ cs) = max (suc c.id) (next_id cs)

-- What a call that may raise ends with; an exception is the name of its type.
pub data Reply {ℓ} (A : Type ℓ) : Type ℓ where
  returned : A → Reply A
  raised : String → Reply A

abbrev pub new_chunk : String → ℕ → ℕ → String → List ℕ → List Chunk → Chunk
new_chunk i now idx text embedding cs = record {
  id = next_id cs;
  document_id = i;
  idx = idx;
  text = text;
  embedding = some embedding;
  created_at = now;
}

abbrev pub add_id : ℕ → Reply (List ℕ) → Reply (List ℕ)
add_id n (returned ids) = returned (n ∷ ids)
add_id n (raised e) = raised e

-- The rows that the loop inserts from the index `idx` on. With too few embeddings it raises behind
-- the rows that it has inserted.
unfoldable pub insert_chunks :
    String → ℕ → ℕ → List String → List (List ℕ) → List Chunk → Reply (List ℕ) × List Chunk
unfolding next_id
insert_chunks i now idx [] es cs = (returned [], cs)
insert_chunks i now idx (t ∷ ts) [] cs = (raised "IndexError", cs)
insert_chunks i now idx (t ∷ ts) (e ∷ es) cs =
    let rest = insert_chunks i now (suc idx) ts es (cs ++ new_chunk i now idx t e cs ∷ []) in
    (add_id (next_id cs) rest.0, rest.1)

unfoldable pub add_chunks :
    String → ℕ → List String → List (List ℕ) → Library → Reply (List ℕ) × Library
unfolding insert_chunks
add_chunks i now texts es l =
    let done = insert_chunks i now 0 texts es l.chunks in (done.0, record l { chunks = done.1 })
