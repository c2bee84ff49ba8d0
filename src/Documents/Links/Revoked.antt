-- ===== src/Documents/Links/Revoked.antt =====
-- app.py: a token opens its link's document, and nothing behind the revocation of the link.
use memoratum.Base.{
  ℕ, ◌<◌, String, Bool, true, false, ◌&&◌, Option, none, some, ◌==◌, ltb, ◌≡◌, ◌≢◌, refl, sym, ap,
  ◌∙◌, arith, Bool-cases, Option-cases, inl, inr, is_none, if◌then◌else◌,
}
use memoratum.Table.Keyed.{find_where-update_where}
use memoratum.Retention.{ShareLink}
use memoratum.Documents.{Document, Library, get_document}
use memoratum.Documents.Links.{
  get_share_link_by_token, is_open, revoked, revoke_share_link, is_active_link, SharedDocument,
  shared, serve, read_share,
}

-- What an answer rests on: the token's link, still open, and the document that it names.
abbrev pub IsGranted : (String → String) → ℕ → String → Library → SharedDocument → Type 0
IsGranted hash_key now token l x =
    (k : ShareLink) × (d : Document) × (get_share_link_by_token (hash_key token) l ≡ some k)
    × (k.revoked_at ≡ none)
    × (now < k.expires_at)
    × (get_document k.document_id l ≡ some d)
    × (x.id ≡ d.id)
    × (x.content ≡ d.content)

nothing_shared : {x : SharedDocument} → none ≢ some x
nothing_shared h = cc

shared-IsGranted :
    (hash_key : String → String) (now : ℕ) (token : String) (l : Library) (x : SharedDocument)
    (k : ShareLink) (o : Option Document)
    → get_share_link_by_token (hash_key token) l ≡ some k
    → is_active_link now k ≡ true
    → get_document k.document_id l ≡ o
    → shared k o ≡ some x
    → IsGranted hash_key now token l x
shared-IsGranted hash_key now token l x k none t a g h = absurd (nothing_shared h)
shared-IsGranted hash_key now token l x k (some d) t a g h = (
  k,
  d,
  t,
  open_link k.revoked_at (ltb now k.expires_at) a,
  ground (arith, a),
  g,
  ground (arith, h),
  ground (arith, h),
)
  where
    open_link : (o : Option ℕ) (b : Bool) → (is_none o && b) ≡ true → o ≡ none
    open_link none b e = refl
    open_link (some n) b e = cc

served-IsGranted :
    (hash_key : String → String) (now : ℕ) (token : String) (l : Library) (x : SharedDocument)
    (o : Option ShareLink)
    → get_share_link_by_token (hash_key token) l ≡ o
    → serve now o l ≡ some x
    → IsGranted hash_key now token l x
unfolding serve
served-IsGranted hash_key now token l x none t h = absurd (nothing_shared h)
served-IsGranted hash_key now token l x (some k) t h = elim (Bool-cases (is_active_link now k)) [
  | inl e ↦
      shared-IsGranted hash_key now token l x k (get_document k.document_id l) t e refl (rw e at h)
  | inr e ↦ absurd (nothing_shared (rw e at h))
]

-- The public route serves a document only to the token of a link that names it, that is not
-- revoked and that has not expired.
pub read_share-IsGranted :
    (hash_key : String → String) (now : ℕ) (token : String) (l : Library) (x : SharedDocument)
    → read_share hash_key now token l ≡ some x
    → IsGranted hash_key now token l x
unfolding read_share
read_share-IsGranted hash_key now token l x h =
    served-IsGranted hash_key now token l x (get_share_link_by_token (hash_key token) l) refl h

closed :
    (now t : ℕ) (i : String) (k : ShareLink)
    → (k.id == i) ≡ true
    → is_active_link now (if is_open i k then revoked t k else k) ≡ false
closed now t i k e = elim (Option-cases k.revoked_at) [
  | inl n ↦ ground (arith, e, n)
  | inr (u, n) ↦ ground (arith, e, n)
]

kept_open :
    (t : ℕ) (i : String) (k : ShareLink)
    → (k.id == i) ≡ false
    → (if is_open i k then revoked t k else k) ≡ k
kept_open t i k e = rw e

serve-closed :
    (now : ℕ) (k : ShareLink) (l : Library)
    → is_active_link now k ≡ false
    → serve now (some k) l ≡ none
unfolding serve
serve-closed now k l e = rw e

module _ (hash_key : String → String) (i : String) (revoked_at : ℕ) where
  -- Serving reads the documents, which a revocation leaves alone.
  serve-same :
      (now : ℕ) (k : ShareLink) (l : Library)
      → serve now (some k) (revoke_share_link i revoked_at l).1 ≡ serve now (some k) l
  unfolding serve revoke_share_link get_document
  serve-same now k l = refl

  token_after :
      (h : String) (l : Library) (k : ShareLink)
      → get_share_link_by_token h l ≡ some k
      → get_share_link_by_token h (revoke_share_link i revoked_at l).1
        ≡ some (if is_open i k then revoked revoked_at k else k)
  unfolding get_share_link_by_token revoke_share_link
  token_after h l k e =
      find_where-update_where (λ (k : ShareLink). k.token_hash) h (is_open i) (revoked revoked_at)
        (λ k. refl) l.links k e

  -- Behind the revocation of a link its token opens nothing, at any time, and the tokens of the
  -- other links open what they did.
  pub revoke_share_link-read_share :
      (now : ℕ) (token : String) (l : Library) (k : ShareLink)
      → get_share_link_by_token (hash_key token) l ≡ some k
      → read_share hash_key now token (revoke_share_link i revoked_at l).1
        ≡ (if k.id == i then none else read_share hash_key now token l)
  unfolding read_share
  revoke_share_link-read_share now token l k e =
      let m = (revoke_share_link i revoked_at l).1 in
      let left = if is_open i k then revoked revoked_at k else k in
      let opens = ap (λ o. serve now o m) (token_after (hash_key token) l k e) in
      elim (Bool-cases (k.id == i)) [
        | inl t ↦
            opens
            ∙ serve-closed now left m (closed now revoked_at i k t)
            ∙ ap (λ b. if b then none else serve now (get_share_link_by_token (hash_key token) l) l)
                (sym t)
        | inr t ↦
            opens
            ∙ ap (λ r. serve now (some r) m) (kept_open revoked_at i k t)
            ∙ serve-same now k l
            ∙ ap (λ o. serve now o l) (sym e)
            ∙ ap (λ b. if b then none else serve now (get_share_link_by_token (hash_key token) l) l)
                (sym t)
      ]
