-- ===== src/Documents/Ingest/Turns.antt =====
-- ingest.py: every turn of the queue settles the document that it takes, so the loop ends.
use memoratum.Base.{
  ℕ, suc, ◌<◌, String, true, false, ◌&&◌, not, Option, none, some, List, [], ◌∷◌, ◌≡◌, refl, sym,
  ap, ◌∙◌, arith, Bool-cases, Option-cases, inl, inr, All, length, map, is_truthy,
}
use memoratum.Table.{update_where, select_where, count_where, order_by, first_row}
use memoratum.Table.First.{first_row-IsFirst}
use memoratum.Table.Keyed.{Keyed, find_where_of_Memᴰ, Keyed-update_where}
use memoratum.Table.Rows.{count_where-update_where}
use memoratum.Outbox.{Outbox, record_event}
use memoratum.Documents.{
  DocumentStatus, done, failed, Document, Library, Reply, returned, raised, has_document_id,
  get_document, with_status, set_status, add_chunks,
}
use memoratum.Documents.Ingest.{
  Draw, ChunkRecord, is_queued, texts_of, failure_event, failure_data, announce, give_up, packed,
  check_dimensions, index_chunks, indexed, stored, checked, embedded, process_document, take_turn,
  process_one, add_turn, process_all, is_failed,
}

no_queued : (ds : List Document) → All (λ d. is_queued d ≡ false) ds → count_where is_queued ds ≡ 0
unfolding count_where
no_queued [] h = refl
no_queued (d ∷ ds) h = ground (arith, h.0, no_queued ds h.1)

-- The run has written the status of the document `d`, which is queued no more, and left the other
-- columns and the other documents as they were.
abbrev pub IsSettled : ℕ → Document → Library → Library → Type 0
IsSettled now d l m =
    (s : DocumentStatus) × (is_queued (with_status now s d) ≡ false)
    × (m.documents ≡ update_where (has_document_id d.id) (with_status now s) l.documents)

-- A failure's event goes to the outbox, and nowhere else.
pub announce-outbox :
    (draw : Draw) (d : Document) (error : String) (ids : List ℕ) (l : Library)
    → (o : Outbox) × (announce draw d error ids l ≡ record l { outbox = o })
unfolding announce
announce-outbox draw d error ids l =
    elim (Bool-cases (not (is_failed d) && is_truthy d.project_id)) [
      | inr e ↦ (l.outbox, rw e)
      | inl e ↦
          elim (Option-cases (
            record_event draw.delivery draw.event draw.now d.project_id (failure_event ids) none
              (failure_data d error ids) l.outbox)) [
                | inl n ↦ (l.outbox, rw (e, n))
                | inr ((r, o), n) ↦ (o, rw (e, n))
              ]
    ]

give_up-IsSettled :
    (draw : Draw) (d : Document) (error : String) (ids : List ℕ) (l : Library)
    → IsSettled draw.now d l (give_up draw d error ids l).1
unfolding give_up set_status
give_up-IsSettled draw d error ids l =
    let (o, e) = announce-outbox draw d error ids (set_status d.id draw.now failed l) in
    (failed, refl, ap (λ (x : Library). x.documents) e)

add_chunks-documents :
    (i : String) (now : ℕ) (ts : List String) (es : List (List ℕ)) (l : Library)
    → (add_chunks i now ts es l).1.documents ≡ l.documents
unfolding add_chunks
add_chunks-documents i now ts es l = refl

module _ (Float : Type 0) (pack : Float → List ℕ) (embed : List String → Reply (List (List Float)))
    (upsert : Option (List (ChunkRecord Float) → Option String)) where
  indexed-IsSettled :
      (draw : Draw) (d : Document) (ids : List ℕ) (e : Option String) (l : Library)
      → IsSettled draw.now d l (indexed Float pack embed upsert draw d ids e l).1
  unfolding set_status
  indexed-IsSettled draw d ids (some e) l = give_up-IsSettled draw d e ids l
  indexed-IsSettled draw d ids none l = (done, refl, refl)

  stored-IsSettled :
      (draw : Draw) (d : Document) (ts : List String) (vs : List (List Float)) (r : Reply (List ℕ))
      (l : Library)
      → IsSettled draw.now d l (stored Float pack embed upsert draw d ts vs r l).1
  stored-IsSettled draw d ts vs (raised e) l = give_up-IsSettled draw d e [] l
  stored-IsSettled draw d ts vs (returned ids) l =
      indexed-IsSettled draw d ids (index_chunks Float pack embed upsert d draw.now ids ts vs) l

  checked-IsSettled :
      (draw : Draw) (d : Document) (ts : List String) (vs : List (List Float)) (e : Option String)
      (l : Library)
      → IsSettled draw.now d l (checked Float pack embed upsert draw d ts vs e l).1
  unfolding add_chunks
  checked-IsSettled draw d ts vs (some e) l = give_up-IsSettled draw d e [] l
  checked-IsSettled draw d ts vs none l =
      let added = add_chunks d.id draw.now ts (map (packed Float pack embed upsert) vs) l in
      stored-IsSettled draw d ts vs added.0 added.1

  embedded-IsSettled :
      (draw : Draw) (d : Document) (ts : List String) (r : Reply (List (List Float))) (l : Library)
      → IsSettled draw.now d l (embedded Float pack embed upsert draw d ts r l).1
  embedded-IsSettled draw d ts (raised e) l = give_up-IsSettled draw d e [] l
  embedded-IsSettled draw d ts (returned vs) l =
      checked-IsSettled draw d ts vs (check_dimensions Float pack embed upsert vs l) l

  pub process_document-IsSettled :
      (draw : Draw) (i : String) (l : Library) (d : Document)
      → get_document i l ≡ some d
      → IsSettled draw.now d l (process_document Float pack embed upsert draw i l).1
  unfolding process_document update_where
  process_document-IsSettled draw i l d h =
      rw (h, process_document) (embedded-IsSettled draw d (texts_of d) (embed (texts_of d)) l)

  settled-count :
      (now : ℕ) (l m : Library) (d : Document)
      → Keyed (λ (x : Document). x.id) l.documents
      → get_document d.id l ≡ some d
      → is_queued d ≡ true
      → IsSettled now d l m
      → suc (count_where is_queued m.documents) ≡ count_where is_queued l.documents
  unfolding get_document
  settled-count now l m d k h q (s, e, w) = ground (
    arith,
    e,
    q,
    ap (count_where is_queued) w,
    count_where-update_where (λ (x : Document). x.id) is_queued d.id (with_status now s) l.documents
        d k h,
  )

  settled-Keyed :
      (now : ℕ) (l m : Library) (d : Document)
      → Keyed (λ (x : Document). x.id) l.documents
      → IsSettled now d l m
      → Keyed (λ (x : Document). x.id) m.documents
  settled-Keyed now l m d k (s, e, w) = rw w (
      Keyed-update_where (λ (x : Document). x.id) (has_document_id d.id) (with_status now s)
        (λ x. refl) l.documents k)

  -- With a draw for each queued document and one more, the loop ends: it has processed each of
  -- them, and none is queued behind it.
  pub process_all-ends :
      (draws : List Draw) (l : Library)
      → Keyed (λ (x : Document). x.id) l.documents
      → count_where is_queued l.documents < length draws
      → ((process_all Float pack embed upsert draws l).0 ≡ some (count_where is_queued l.documents))
        × (count_where is_queued (process_all Float pack embed upsert draws l).1.documents ≡ 0)
  unfolding process_all process_one take_turn
  process_all-ends [] l k h = absurd (omega (arith, h))
  process_all-ends (draw ∷ draws) l k h =
      let queue = select_where is_queued l.documents in
      let found = first_row-IsFirst is_queued (λ (d : Document). d.created_at) l.documents in
      elim (Option-cases (first_row (order_by (λ (d : Document). d.created_at) queue))) [
        | inl e ↦
            let none_left = no_queued l.documents (rw e at found) in
            rw e (ap some (sym none_left), none_left)
        | inr (d, e) ↦
            let (q, _, mem) = rw e at found in
            let m = (process_document Float pack embed upsert draw d.id l).1 in
            let here = find_where_of_Memᴰ (λ (x : Document). x.id) d l.documents k mem in
            let settled = process_document-IsSettled draw d.id l d here in
            let less = settled-count draw.now l m d k here q settled in
            let (n, zero_left) =
              process_all-ends draws m (settled-Keyed draw.now l m d k settled)
                (omega (arith, less, h)) in
            rw e (ap add_turn n ∙ ap some less, zero_left)
      ]
