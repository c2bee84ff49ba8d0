-- ===== src/Documents/Ingest.antt =====
-- ingest.py: a queued document becomes chunks with embeddings. The embedder and the vector store
-- are arguments: what they answer to a call, or the type of the exception that they raise. `pack`
-- is `struct.pack` of one number, `upsert` the call of the store, if
-- there is one.
pub mod Outcomes
pub mod Turns
use memoratum.Base.{
  ℕ, suc, ◌*◌, String, Bool, true, false, ◌&&◌, ◌||◌, not, Option, none, some, List, [], ◌∷◌, ◌++◌,
  ◌==◌, eqb, if◌then◌else◌, length, map, is_truthy, or_blank,
}
use memoratum.Json.{Json, Fields, end, field, str, num}
use memoratum.Table.{select_where, order_by, first_row}
use memoratum.Chunking.Markdown.{Piece, split_markdown}
use memoratum.Memory.Text.{set_field}
use memoratum.Outbox.{
  Webhook, EventType, ingest_job_partially_completed, ingest_job_failed, record_event,
}
use memoratum.Documents.{
  DocumentStatus, queued, done, failed, Document, Chunk, Library, Reply, returned, raised,
  get_document, set_status, add_chunks,
}

-- The uuids of the event that a failure records, and the clock.
pub record Draw : Type 0 where
  pub event : String
  pub delivery : Webhook → String × String
  pub now : ℕ

pub record ChunkRecord (Float : Type 0) : Type 0 where
  pub id : ℕ
  pub vector : List Float
  pub text : String
  pub container_tag : String
  pub org_id : Option String
  pub project_id : Option String
  pub metadata : Fields
  pub created_at : ℕ

abbrev pub is_queued : Document → Bool
is_queued d = elim d.status [ queued ↦ true | _ ↦ false ]

abbrev pub is_failed : Document → Bool
is_failed d = elim d.status [ failed ↦ true | _ ↦ false ]

unfoldable pub texts_of : Document → List String
unfolding split_markdown
texts_of d =
    let texts = map (λ (p : Piece). p.text) (split_markdown 1500 d.content) in
    elim texts [ [] ↦ d.content ∷ [] | t ∷ ts ↦ t ∷ ts ]

abbrev pub first_embedding : List (Option (List ℕ)) → Option (List ℕ)
first_embedding [] = none
first_embedding (e ∷ es) = e

abbrev pub failure_status : List ℕ → String
failure_status [] = "failed"
failure_status (i ∷ ids) = "partially_completed"

abbrev pub failure_data : Document → String → List ℕ → Fields
failure_data d error ids = field "document_id" (str d.id) (
    field "status" (str (failure_status ids)) (
      field "container_tag" (str d.container_tag)
        (field "error_type" (str error) (field "indexed_chunks" (num (length ids)) end))))

abbrev pub failure_event : List ℕ → EventType
failure_event [] = ingest_job_failed
failure_event (i ∷ ids) = ingest_job_partially_completed

-- if previous_status != "failed" and doc.get("project_id"): record_event(...)
unfoldable pub announce : Draw → Document → String → List ℕ → Library → Library
unfolding record_event
announce draw d error ids l =
    if not (is_failed d) && is_truthy d.project_id
    then elim (record_event draw.delivery draw.event draw.now d.project_id (failure_event ids) none
        (failure_data d error ids) l.outbox) [ none ↦ l | some (_, o) ↦ record l { outbox = o } ]
    else l

-- The handler of every exception: `d` is the row that was read at the start.
unfoldable pub give_up : Draw → Document → String → List ℕ → Library → Reply Document × Library
unfolding announce set_status
give_up draw d error ids l =
    (raised error, announce draw d error ids (set_status d.id draw.now failed l))

abbrev pub answer : Option Document → Reply Document
answer none = raised "KeyError"
answer (some d) = returned d

abbrev pub document_or_status : Reply Document → String → Library → Option Document
document_or_status (returned d) i l = some d
document_or_status (raised e) i l = get_document i l

abbrev pub add_turn : Option ℕ → Option ℕ
add_turn none = none
add_turn (some n) = some (suc n)

abbrev pub tally : Option (Option Document) × Library → Option ℕ × Library → Option ℕ × Library
tally (none, l) rest = (some 0, l)
tally (some d, l) rest = (add_turn rest.0, rest.1)

module _ (Float : Type 0) (pack : Float → List ℕ) (embed : List String → Reply (List (List Float)))
    (upsert : Option (List (ChunkRecord Float) → Option String)) where
  unfoldable pub packed : List Float → List ℕ
  packed [] = []
  packed (x ∷ xs) = pack x ++ packed xs

  -- What the test of one table raises: its first embedding has another length.
  unfoldable pub dimension_error : List (List Float) → Option (List ℕ) → Option String
  dimension_error vs none = none
  dimension_error [] (some b) = some "IndexError"
  dimension_error (v ∷ vs) (some b) =
      if eqb (length b) (length v * 4) then none else some "RuntimeError"

  unfoldable pub check_dimensions : List (List Float) → Library → Option String
  unfolding dimension_error
  check_dimensions vs l =
      elim (dimension_error vs (first_embedding (map (λ (c : Chunk). c.embedding) l.chunks))) [
        | some e ↦ some e
        | none ↦ dimension_error vs (first_embedding l.fact_embeddings)
      ]

  abbrev pub chunk_record : Document → ℕ → ℕ → String → List Float → ChunkRecord Float
  chunk_record d now i text v = record {
    id = i;
    vector = v;
    text = text;
    container_tag = d.container_tag;
    org_id = d.org_id;
    project_id = d.project_id;
    metadata = set_field "document_id" (str d.id) d.metadata;
    created_at = now;
  }

  -- zip(chunk_ids, texts, vecs, strict=True)
  unfoldable pub chunk_records :
      Document → ℕ → List ℕ → List String → List (List Float) → Option (List (ChunkRecord Float))
  unfolding set_field
  chunk_records d now [] [] [] = some []
  chunk_records d now (i ∷ is) (t ∷ ts) (v ∷ vs) = elim (chunk_records d now is ts vs) [
    | none ↦ none
    | some rs ↦ some (chunk_record d now i t v ∷ rs)
  ]
  chunk_records d now _ _ _ = none

  abbrev send :
      Option (List (ChunkRecord Float)) → (List (ChunkRecord Float) → Option String) → Option String
  send none store = some "ValueError"
  send (some rs) store = store rs

  -- What the vector store raises, if there is a store.
  unfoldable pub index_chunks :
      Document → ℕ → List ℕ → List String → List (List Float) → Option String
  unfolding chunk_records
  index_chunks d now ids ts vs = elim upsert [
    | none ↦ none
    | some store ↦ send (chunk_records d now ids ts vs) store
  ]

  abbrev pub indexed : Draw → Document → List ℕ → Option String → Library → Reply Document × Library
  indexed draw d ids (some e) l = give_up draw d e ids l
  indexed draw d ids none l =
      let m = set_status d.id draw.now done l in (answer (get_document d.id m), m)

  abbrev pub stored :
      Draw
      → Document
      → List String
      → List (List Float)
      → Reply (List ℕ)
      → Library
      → Reply Document × Library
  stored draw d ts vs (raised e) l = give_up draw d e [] l
  stored draw d ts vs (returned ids) l = indexed draw d ids (index_chunks d draw.now ids ts vs) l

  abbrev pub checked :
      Draw
      → Document
      → List String
      → List (List Float)
      → Option String
      → Library
      → Reply Document × Library
  checked draw d ts vs (some e) l = give_up draw d e [] l
  checked draw d ts vs none l =
      let added = add_chunks d.id draw.now ts (map packed vs) l in
      stored draw d ts vs added.0 added.1

  abbrev pub embedded :
      Draw → Document → List String → Reply (List (List Float)) → Library → Reply Document × Library
  embedded draw d ts (raised e) l = give_up draw d e [] l
  embedded draw d ts (returned vs) l = checked draw d ts vs (check_dimensions vs l) l

  unfoldable pub process_document : Draw → String → Library → Reply Document × Library
  unfolding texts_of get_document check_dimensions add_chunks packed index_chunks set_status give_up
  process_document draw i l = elim (get_document i l) [
    | none ↦ (raised "KeyError", l)
    | some d ↦ embedded draw d (texts_of d) (embed (texts_of d)) l
  ]

  unfoldable pub take_turn : Draw → Option Document → Library → Option (Option Document) × Library
  unfolding process_document get_document
  take_turn draw none l = (none, l)
  take_turn draw (some d) l =
      let turn = process_document draw d.id l in
      (some (document_or_status turn.0 d.id turn.1), turn.1)

  -- The queued document that was created first; an exception is answered by its row.
  unfoldable pub process_one : Draw → Library → Option (Option Document) × Library
  unfolding take_turn
  process_one draw l =
      let queue = select_where is_queued l.documents in
      take_turn draw (first_row (order_by (λ (d : Document). d.created_at) queue)) l

  -- The loop, a draw for each turn: how many documents it has processed, or `none` if the draws run
  -- out.
  unfoldable pub process_all : List Draw → Library → Option ℕ × Library
  unfolding process_one
  process_all [] l = (none, l)
  process_all (draw ∷ draws) l =
      let turn = process_one draw l in let rest = process_all draws turn.1 in tally turn rest
