-- ===== src/Documents/Ingest/Outcomes.antt =====
-- ingest.py: which chunks a document has behind a run. A run adds to those that are there.
use memoratum.Base.{
  ℕ, suc, String, Option, none, some, List, [], ◌∷◌, ◌++◌, ◌≡◌, ◌≢◌, refl, sym, ap, ◌∙◌, eq_refl,
  Bool-cases, inl, inr, map, append-nil, append_assoc, if◌then◌else◌,
}
use memoratum.Table.{find_where, update_where, select_where}
use memoratum.Table.Keyed.{find_where-update_where}
use memoratum.Documents.{
  DocumentStatus, failed, Document, Chunk, Library, Reply, returned, raised, has_document_id,
  chunk_of, get_document, with_status, set_status, new_chunk, next_id, add_id, insert_chunks,
  add_chunks,
}
use memoratum.Documents.Ingest.{
  Draw, ChunkRecord, texts_of, give_up, packed, check_dimensions, index_chunks, indexed, stored,
  checked, embedded, process_document,
}
use memoratum.Documents.Ingest.Turns.{process_document-IsSettled, announce-outbox}

-- The texts of a document's chunks, in rowid order.
unfoldable pub chunk_texts : String → List Chunk → List String
unfolding select_where
chunk_texts i cs = map (λ (c : Chunk). c.text) (select_where (chunk_of i) cs)

chunk_texts-append :
    (i : String) (cs : List Chunk) (c : Chunk)
    → c.document_id ≡ i
    → chunk_texts i (cs ++ c ∷ []) ≡ chunk_texts i cs ++ c.text ∷ []
unfolding chunk_texts select_where
chunk_texts-append i [] c h = rw (h, eq_refl i)
chunk_texts-append i (b ∷ cs) c h = elim (Bool-cases (chunk_of i b)) [
  | inl e ↦ rw (e, chunk_texts-append i cs c h)
  | inr e ↦ rw (e, chunk_texts-append i cs c h)
]

raised≢returned {ℓ} : {A : Type ℓ} (e : String) (a : A) → raised e ≢ returned a
raised≢returned e a h = cc

returned-add_id :
    (n : ℕ) (r : Reply (List ℕ)) (ids : List ℕ)
    → add_id n r ≡ returned ids
    → (more : List ℕ) × (r ≡ returned more)
returned-add_id n (returned more) ids h = (more, refl)
returned-add_id n (raised e) ids h = absurd (raised≢returned e ids h)

insert_chunks-texts :
    (i : String) (now idx : ℕ) (ts : List String) (es : List (List ℕ)) (cs : List Chunk)
    (ids : List ℕ)
    → (insert_chunks i now idx ts es cs).0 ≡ returned ids
    → chunk_texts i (insert_chunks i now idx ts es cs).1 ≡ chunk_texts i cs ++ ts
unfolding insert_chunks
insert_chunks-texts i now idx [] es cs ids h = sym (append-nil (chunk_texts i cs))
insert_chunks-texts i now idx (t ∷ ts) [] cs ids h = absurd (raised≢returned "IndexError" ids h)
insert_chunks-texts i now idx (t ∷ ts) (e ∷ es) cs ids h =
    let c = new_chunk i now idx t e cs in
    let rest = insert_chunks i now (suc idx) ts es (cs ++ c ∷ []) in
    let (more, k) = returned-add_id (next_id cs) rest.0 ids h in
    insert_chunks-texts i now (suc idx) ts es (cs ++ c ∷ []) more k
    ∙ ap (λ xs. xs ++ ts) (chunk_texts-append i cs c refl)
    ∙ append_assoc (chunk_texts i cs) (t ∷ []) ts

give_up-chunks :
    (draw : Draw) (d : Document) (error : String) (ids : List ℕ) (l : Library)
    → (give_up draw d error ids l).1.chunks ≡ l.chunks
unfolding give_up set_status
give_up-chunks draw d error ids l =
    let (o, e) = announce-outbox draw d error ids (set_status d.id draw.now failed l) in
    ap (λ (x : Library). x.chunks) e

-- The row with its new status is what the next run reads.
found_settled :
    (i : String) (now : ℕ) (s : DocumentStatus) (l m : Library) (d : Document)
    → get_document i l ≡ some d
    → m.documents ≡ update_where (has_document_id d.id) (with_status now s) l.documents
    → get_document i m ≡ some (with_status now s d)
unfolding get_document
found_settled i now s l m d h w =
    ap (find_where (has_document_id i)) w
    ∙ find_where-update_where (λ (x : Document). x.id) i (has_document_id d.id) (with_status now s)
        (λ x. refl) l.documents d h
    ∙ ap (λ b. some (if b then with_status now s d else d)) (eq_refl d.id)

module _ (Float : Type 0) (pack : Float → List ℕ) (embed : List String → Reply (List (List Float)))
    (upsert : Option (List (ChunkRecord Float) → Option String)) where
  indexed-chunks :
      (draw : Draw) (d : Document) (ids : List ℕ) (e : Option String) (l : Library)
      → (indexed Float pack embed upsert draw d ids e l).1.chunks ≡ l.chunks
  unfolding set_status
  indexed-chunks draw d ids (some e) l = give_up-chunks draw d e ids l
  indexed-chunks draw d ids none l = refl

  stored-chunks :
      (draw : Draw) (d : Document) (ts : List String) (vs : List (List Float)) (r : Reply (List ℕ))
      (l : Library)
      → (stored Float pack embed upsert draw d ts vs r l).1.chunks ≡ l.chunks
  stored-chunks draw d ts vs (raised e) l = give_up-chunks draw d e [] l
  stored-chunks draw d ts vs (returned ids) l =
      indexed-chunks draw d ids (index_chunks Float pack embed upsert d draw.now ids ts vs) l

  -- The run has inserted all of its chunks.
  abbrev pub Inserted : ℕ → Document → Library → List (List Float) → Type 0
  Inserted now d l vs =
      (embed (texts_of d) ≡ returned vs)
      × (check_dimensions Float pack embed upsert vs l ≡ none)
      × ((ids : List ℕ) × ((add_chunks d.id now (texts_of d)
              (map (packed Float pack embed upsert) vs) l).0
            ≡ returned ids))

  -- Whatever the store answers, the chunks are behind those that the document had.
  pub Inserted-chunks :
      (draw : Draw) (i : String) (l : Library) (d : Document) (vs : List (List Float))
      → get_document i l ≡ some d
      → Inserted draw.now d l vs
      → chunk_texts d.id (process_document Float pack embed upsert draw i l).1.chunks
        ≡ chunk_texts d.id l.chunks ++ texts_of d
  unfolding add_chunks process_document chunk_texts
  Inserted-chunks draw i l d vs h (e, c, (ids, a)) =
      let es = map (packed Float pack embed upsert) vs in
      let added = add_chunks d.id draw.now (texts_of d) es l in
      rw (h, process_document, e, c)
        (ap (chunk_texts d.id) (stored-chunks draw d (texts_of d) vs added.0 added.1)
          ∙ insert_chunks-texts d.id draw.now 0 (texts_of d) es l.chunks ids a)

  -- What holds of a run holds of its steps on the row that it reads.
  ran-embedded :
      (draw : Draw) (i : String) (l : Library) (d : Document)
      → get_document i l ≡ some d
      → (P : Reply Document × Library → Type 0)
      → P (process_document Float pack embed upsert draw i l)
      → P (embedded Float pack embed upsert draw d (texts_of d) (embed (texts_of d)) l)
  unfolding process_document
  ran-embedded draw i l d h P p = rw (h, process_document) at p

  stored-returned :
      (draw : Draw) (d x : Document) (ts : List String) (vs : List (List Float))
      (r : Reply (List ℕ)) (l : Library)
      → (stored Float pack embed upsert draw d ts vs r l).0 ≡ returned x
      → (ids : List ℕ) × (r ≡ returned ids)
  unfolding give_up
  stored-returned draw d x ts vs (raised e) l h = absurd (raised≢returned e x h)
  stored-returned draw d x ts vs (returned ids) l h = (ids, refl)

  checked-returned :
      (draw : Draw) (d x : Document) (ts : List String) (vs : List (List Float)) (e : Option String)
      (l : Library)
      → (checked Float pack embed upsert draw d ts vs e l).0 ≡ returned x
      → (e ≡ none)
        × ((ids : List ℕ) × ((add_chunks d.id draw.now ts
                (map (packed Float pack embed upsert) vs)
                l).0
              ≡ returned ids))
  unfolding give_up
  checked-returned draw d x ts vs (some e) l h = absurd (raised≢returned e x h)
  checked-returned draw d x ts vs none l h =
      let added = add_chunks d.id draw.now ts (map (packed Float pack embed upsert) vs) l in
      (refl, stored-returned draw d x ts vs added.0 added.1 h)

  embedded-returned :
      (draw : Draw) (d x : Document) (r : Reply (List (List Float))) (l : Library)
      → (embedded Float pack embed upsert draw d (texts_of d) r l).0 ≡ returned x
      → (vs : List (List Float)) × (r ≡ returned vs)
        × (check_dimensions Float pack embed upsert vs l ≡ none)
        × ((ids : List ℕ) × ((add_chunks d.id draw.now
                (texts_of d)
                (map (packed Float pack embed upsert) vs)
                l).0
              ≡ returned ids))
  unfolding give_up
  embedded-returned draw d x (raised e) l h = absurd (raised≢returned e x h)
  embedded-returned draw d x (returned vs) l h =
      let (c, ids) =
        checked-returned draw d x (texts_of d) vs (check_dimensions Float pack embed upsert vs l) l
          h in
      (vs, refl, c, ids)

  -- A run that returns adds the document's texts, in order, to the chunks that it had.
  pub process_document-returned :
      (draw : Draw) (i : String) (l : Library) (d x : Document)
      → get_document i l ≡ some d
      → (process_document Float pack embed upsert draw i l).0 ≡ returned x
      → chunk_texts d.id (process_document Float pack embed upsert draw i l).1.chunks
        ≡ chunk_texts d.id l.chunks ++ texts_of d
  process_document-returned draw i l d x h r =
      let (vs, e, c, ids) =
        embedded-returned draw d x (embed (texts_of d)) l
          (ran-embedded draw i l d h (λ t. t.0 ≡ returned x) r) in
      Inserted-chunks draw i l d vs h (e, c, ids)

-- A run whose store raises has inserted its chunks already, so that the run that is tried again
-- and returns gives the document each of them twice.
pub retry_repeats :
    (Float : Type 0) (pack : Float → List ℕ) (embed : List String → Reply (List (List Float)))
    (store : List (ChunkRecord Float) → Option String)
    (other : Option (List (ChunkRecord Float) → Option String)) (first second : Draw) (i : String)
    (l : Library) (d x : Document) (vs : List (List Float))
    → get_document i l ≡ some d
    → Inserted Float pack embed (some store) first.now d l vs
    → (process_document Float pack embed other second i
        (process_document Float pack embed (some store) first i l).1).0
      ≡ returned x
    → chunk_texts d.id
        (process_document Float pack embed other second i
          (process_document Float pack embed (some store) first i l).1).1.chunks
      ≡ chunk_texts d.id l.chunks ++ (texts_of d ++ texts_of d)
unfolding texts_of chunk_texts
retry_repeats Float pack embed store other first second i l d x vs h a r =
    let m = (process_document Float pack embed (some store) first i l).1 in
    let (s, q, w) = process_document-IsSettled Float pack embed (some store) first i l d h in
    let again = found_settled i first.now s l m d h w in
    process_document-returned Float pack embed other second i m (with_status first.now s d) x again
      r
    ∙ ap (λ xs. xs ++ texts_of d) (Inserted-chunks Float pack embed (some store) first i l d vs h a)
    ∙ append_assoc (chunk_texts d.id l.chunks) (texts_of d) (texts_of d)
