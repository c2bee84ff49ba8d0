-- ===== src/Documents/Tests.antt =====
-- Documents, their runs and their links at concrete tables.
use memoratum.Base.{
  ℕ, ◌≤◌, String, ◌≡◌, refl, Option, none, some, List, [], ◌∷◌, ◌++◌, if◌then◌else◌, ◌==◌, arith,
}
use memoratum.Json.{end}
use memoratum.Table.{count_where, find_where, update_where}
use memoratum.Outbox.{Webhook}
use memoratum.Retention.{ShareLink}
use memoratum.Documents.{
  Document, Library, Upload, Reply, returned, new_document, create_document, get_document,
  add_chunks, done,
}
use memoratum.Documents.Scopes.{named, create_document-named}
use memoratum.Documents.Ingest.{
  Draw, ChunkRecord, check_dimensions, is_queued, texts_of, process_document, process_all,
}
use memoratum.Documents.Ingest.Turns.{process_all-ends}
use memoratum.Documents.Ingest.Outcomes.{chunk_texts, retry_repeats}
use memoratum.Documents.Links.{
  SharedDocument, read_share, revoke_share_link, get_share_link_by_token,
}
use memoratum.Documents.Links.Revoked.{
  IsGranted, read_share-IsGranted, revoke_share_link-read_share,
}

abbrev upload : Upload
upload = record {
  container_tag = "t";
  content = "text";
  custom_id = some "c";
  metadata = end;
  expires_at = none;
  org_id = none;
  project_id = none;
}

abbrev stored_document : Document
stored_document = new_document "d" 5 upload

abbrev link : ShareLink
link = record {
  id = "k";
  token_hash = "hash of token";
  document_id = "d";
  created_by = none;
  created_at = 6;
  expires_at = 60;
  revoked_at = none;
}

abbrev library : Library
library = record {
  documents = stored_document ∷ [];
  chunks = [];
  links = link ∷ [];
  fact_embeddings = [];
  outbox = record { projects = []; webhooks = []; events = []; deliveries = []; jobs = [] };
}

abbrev fresh_ids : Webhook → String × String
fresh_ids w = ("delivery", "job")

abbrev draw : Draw
draw = record { event = "e"; delivery = fresh_ids; now = 7 }

-- Numbers stand for the numbers of a vector.
abbrev four_bytes : ℕ → List ℕ
four_bytes n = n ∷ 0 ∷ 0 ∷ 0 ∷ []

abbrev embed_all : List String → Reply (List (List ℕ))
embed_all ts = returned ((1 ∷ 2 ∷ []) ∷ [])

abbrev refuses : List (ChunkRecord ℕ) → Option String
refuses rs = some "ConnectionError"

create_document-named_example : named "c" upload (create_document "e" 8 upload library).1 ≤ 1
create_document-named_example =
    create_document-named "e" 8 upload "c" upload library (tt, tt)
      (unfold named count_where in ground arith)

process_all-ends_example :
    ((process_all ℕ four_bytes embed_all none (draw ∷ draw ∷ []) library).0
      ≡ some (count_where is_queued library.documents))
    × (count_where is_queued
          (process_all ℕ four_bytes embed_all none (draw ∷ draw ∷ []) library).1.documents
        ≡ 0)
process_all-ends_example =
    process_all-ends ℕ four_bytes embed_all none (draw ∷ draw ∷ []) library (tt, tt)
      (unfold count_where in ground arith)

abbrev after_failure : Library
after_failure = (process_document ℕ four_bytes embed_all (some refuses) draw "d" library).1

retry_repeats_example :
    chunk_texts "d" (process_document ℕ four_bytes embed_all none draw "d" after_failure).1.chunks
    ≡ chunk_texts "d" [] ++ (texts_of stored_document ++ texts_of stored_document)
retry_repeats_example =
    retry_repeats ℕ four_bytes embed_all refuses none draw draw "d" library stored_document
      (record stored_document { status = done; updated_at = 7 }) ((1 ∷ 2 ∷ []) ∷ [])
      (unfold get_document find_where in refl)
      (unfold texts_of check_dimensions add_chunks in (refl, refl, (1 ∷ [], refl)))
      (unfold process_document find_where update_where in refl)

abbrev hash_token : String → String
hash_token token = if token == "token" then "hash of token" else ""

abbrev shared_answer : SharedDocument
shared_answer = record {
  id = "d";
  container_tag = "t";
  content = "text";
  created_at = 5;
  expires_at = 60;
}

served : read_share hash_token 10 "token" library ≡ some shared_answer
unfolding read_share find_where
served = refl

expired : read_share hash_token 60 "token" library ≡ none
unfolding read_share find_where
expired = refl

read_share-IsGranted_example : IsGranted hash_token 10 "token" library shared_answer
read_share-IsGranted_example =
    read_share-IsGranted hash_token 10 "token" library shared_answer
      (unfold read_share find_where in refl)

revoke_share_link-read_share_example :
    read_share hash_token 10 "token" (revoke_share_link "k" 9 library).1 ≡ none
revoke_share_link-read_share_example =
    revoke_share_link-read_share hash_token "k" 9 10 "token" library link
      (unfold get_share_link_by_token find_where in refl)
