-- ===== src/Documents/Scopes.antt =====
-- db.py: a custom id names one document within its tag, organization and project.
use mathlib.Core.List.{Memᴰ}
use memoratum.Base.{
  ℕ, ◌≤◌, String, Bool, true, ◌&&◌, none, some, List, [], ◌∷◌, ◌==◌, ◌≡◌, ◌≢◌, refl, sym, ap, ◌∙◌,
  eq_iff, arith, Bool-cases, inl, inr, opt_eq, opt_eq_iff, Option-cases,
}
use memoratum.Table.{find_where, count_where}
use memoratum.Table.Laws.{count_where-none}
use memoratum.Table.Keyed.{Keyed, find_where_of_Memᴰ}
use memoratum.Table.Rows.{bit, count_where-append, count_where-update_where}
use memoratum.Documents.{
  Document, Library, Upload, has_document_id, in_upload_scope, refreshed, new_document,
  named_document, existing_document, create_document, insert_document, refresh_document,
}

-- The number of documents that a custom id names in the scope of an upload.
unfoldable pub named : String → Upload → Library → ℕ
named custom v l = count_where (in_upload_scope custom v) l.documents

none≢some : {d : Document} → none ≢ some d
none≢some e = cc

find_where-Memᴰ :
    (p : Document → Bool) (ds : List Document) (d : Document) → find_where p ds ≡ some d → Memᴰ d ds
unfolding find_where
find_where-Memᴰ p [] d h = absurd (none≢some h)
find_where-Memᴰ p (e ∷ ds) d h = elim (Bool-cases (p e)) [
  | inl t ↦ Memᴰ.head (ground (arith, t, h))
  | inr t ↦ Memᴰ.tail (find_where-Memᴰ p ds d (ground (arith, t, h)))
]

find_where-passes :
    (p : Document → Bool) (ds : List Document) (d : Document)
    → find_where p ds ≡ some d
    → p d ≡ true
unfolding find_where
find_where-passes p [] d h = ground (arith, h)
find_where-passes p (e ∷ ds) d h = elim (Bool-cases (p e)) [
  | inl t ↦ ground (arith, t, h)
  | inr t ↦ find_where-passes p ds d (ground (arith, t, h))
]

found_by_id :
    (p : Document → Bool) (ds : List Document) (d : Document)
    → Keyed (λ (d : Document). d.id) ds
    → find_where p ds ≡ some d
    → find_where (has_document_id d.id) ds ≡ some d
found_by_id p ds d k h =
    find_where_of_Memᴰ (λ (d : Document). d.id) d ds k (find_where-Memᴰ p ds d h)

scope_parts : (a b c d : Bool) → (a && b && c && d) ≡ true → (c ≡ true) × (d ≡ true)
scope_parts a b c d h = (ground (arith, h), ground (arith, h))

-- Uploads into one scope name the same documents.
same_scope :
    (custom other : String) (i : String) (now : ℕ) (u v : Upload)
    → u.custom_id ≡ some custom
    → in_upload_scope other v (new_document i now u) ≡ true
    → (d : Document) → in_upload_scope custom u d ≡ in_upload_scope other v d
same_scope custom other i now u v e h d =
    let a = u.container_tag == v.container_tag in
    let b = opt_eq u.custom_id (some other) in
    let c = opt_eq u.org_id v.org_id in
    let (x, y) = scope_parts a b c (opt_eq u.project_id v.project_id) h in
    cc (
      (opt_eq_iff u.org_id v.org_id).0 x,
      (opt_eq_iff u.project_id v.project_id).0 y,
      (eq_iff u.container_tag v.container_tag).0 (ground (arith, h)),
      (opt_eq_iff u.custom_id (some other)).0 (ground (arith, h)),
      e,
    )

-- A row that is found in a scope stays in the scopes that it is in.
refreshed-in_upload_scope :
    (custom other : String) (now : ℕ) (u v : Upload) (d : Document)
    → in_upload_scope custom u d ≡ true
    → in_upload_scope other v (refreshed now u d) ≡ in_upload_scope other v d
refreshed-in_upload_scope custom other now u v d h =
    let (org, project) =
      scope_parts (d.container_tag == u.container_tag) (opt_eq d.custom_id (some custom))
        (opt_eq d.org_id u.org_id) (opt_eq d.project_id u.project_id) h in
    cc ((opt_eq_iff d.org_id u.org_id).0 org, (opt_eq_iff d.project_id u.project_id).0 project)

count_where-agree :
    (p q : Document → Bool)
    → ((d : Document) → p d ≡ q d)
    → (ds : List Document) → count_where p ds ≡ count_where q ds
unfolding count_where
count_where-agree p q same [] = refl
count_where-agree p q same (d ∷ ds) = rw (same d, count_where-agree p q same ds)

-- With no row for its custom id, the scope of an upload has no document.
nothing_named :
    (i : String) (now : ℕ) (u : Upload) (other : String) (v : Upload) (l : Library)
    → existing_document u l ≡ none
    → in_upload_scope other v (new_document i now u) ≡ true
    → count_where (in_upload_scope other v) l.documents ≡ 0
unfolding existing_document named_document
nothing_named i now u other v l h e = elim (Option-cases u.custom_id) [
  | inl n ↦ ground (arith, e, n)
  | inr (custom, c) ↦
      sym (
        count_where-agree (in_upload_scope custom u) (in_upload_scope other v)
          (same_scope custom other i now u v c e) l.documents)
      ∙ count_where-none (in_upload_scope custom u) (λ d. d) l.documents
          (ap (λ o. named_document o u l) (sym c) ∙ h)
]

existing_document-IsNamed :
    (u : Upload) (l : Library) (d : Document)
    → existing_document u l ≡ some d
    → (custom : String) × (u.custom_id ≡ some custom)
      × (find_where (in_upload_scope custom u) l.documents ≡ some d)
unfolding existing_document named_document
existing_document-IsNamed u l d h = elim (Option-cases u.custom_id) [
  | inl n ↦ absurd (none≢some (ap (λ o. named_document o u l) (sym n) ∙ h))
  | inr (custom, c) ↦ (custom, c, ap (λ o. named_document o u l) (sym c) ∙ h)
]

module _ (i : String) (now : ℕ) (u : Upload) where
  insert_document-named :
      (other : String) (v : Upload) (l : Library)
      → existing_document u l ≡ none
      → named other v l ≤ 1
      → named other v (insert_document i now u l).1 ≤ 1
  unfolding named
  insert_document-named other v l h k =
      let row = new_document i now u in
      let more = count_where-append (in_upload_scope other v) row l.documents in
      elim (Bool-cases (in_upload_scope other v row)) [
        | inr e ↦ ground (arith, more, e, k)
        | inl e ↦ ground (arith, more, e, nothing_named i now u other v l h e)
      ]

  refresh_document-named :
      (other : String) (v : Upload) (l : Library) (d : Document)
      → Keyed (λ (d : Document). d.id) l.documents
      → existing_document u l ≡ some d
      → named other v (refresh_document now u d l).1 ≡ named other v l
  unfolding named
  refresh_document-named other v l d k e =
      let (custom, _, h) = existing_document-IsNamed u l d e in
      let same =
        refreshed-in_upload_scope custom other now u v d
          (find_where-passes (in_upload_scope custom u) l.documents d h) in
      omega (
        arith,
        ap bit same,
        count_where-update_where (λ (x : Document). x.id) (in_upload_scope other v) d.id
            (refreshed now u) l.documents d k
            (found_by_id (in_upload_scope custom u) l.documents d k h),
      )

  -- Creating a document never gives a custom id a second document in one scope.
  pub create_document-named :
      (other : String) (v : Upload) (l : Library)
      → Keyed (λ (d : Document). d.id) l.documents
      → named other v l ≤ 1
      → named other v (create_document i now u l).1 ≤ 1
  unfolding create_document
  create_document-named other v l k h = elim (Option-cases (existing_document u l)) [
    | inl e ↦ rw (e, create_document) (insert_document-named other v l e h)
    | inr (d, e) ↦
        rw (e, create_document) (omega (arith, h, refresh_document-named other v l d k e))
  ]
