-- ===== src/Purge/Others.antt =====
-- db.py: a purge leaves the rows of the other projects, and forgets the revocations of the keys of
-- its own.
use memoratum.Base.{
  String, Bool, true, false, Option, none, some, List, [], ◌∷◌, ◌==◌, ◌≡◌, ◌≢◌, refl, sym, ap, ◌∙◌,
  subst, eq_iff, eq_excl, arith, Bool-cases, inl, inr,
}
use memoratum.Table.{select_where, find_where, delete_where}
use memoratum.Table.Rows.{select_where-delete_where}
use memoratum.Keys.{ApiKey, RevokedKey, KeyStore, has_hash, revokes, lookup_key}
use memoratum.Idempotency.{Entry}
use memoratum.Access.{Project}
use memoratum.Purge.{
  World, purged, Counts, owns, drop_key, drop_keys, project_keys, purge_rest, purge_project,
  delete_memories, without_facts, delete_documents, delete_webhooks, delete_events, delete_project,
  remove_project,
}
use memoratum.Purge.Erased.{purge_project-steps, purge_project-api_keys, of_project}

-- The rows of the project in the tables that no foreign key changes from outside.
abbrev pub SameRows : String → World → World → Type 0
SameRows q v w =
    (select_where (λ d. owns q d.project_id) v.documents
      ≡ select_where (λ d. owns q d.project_id) w.documents)
    × (select_where (λ p. owns q p.project_id) v.points
        ≡ select_where (λ p. owns q p.project_id) w.points)
    × (select_where (λ u. u.project_id == q) v.usage
        ≡ select_where (λ u. u.project_id == q) w.usage)
    × (select_where (λ m. m.project_id == q) v.members
        ≡ select_where (λ m. m.project_id == q) w.members)
    × (select_where (λ p. p.id == q) v.projects ≡ select_where (λ p. p.id == q) w.projects)
    × (select_where (λ h. h.project_id == q) v.store.outbox.webhooks
        ≡ select_where (λ h. h.project_id == q) w.store.outbox.webhooks)
    × (select_where (λ e. e.project_id == q) v.store.outbox.events
        ≡ select_where (λ e. e.project_id == q) w.store.outbox.events)

owns_excl :
    (q project : String) (o : Option String)
    → q ≢ project
    → owns q o ≡ true
    → owns project o ≡ false
owns_excl q project none ne h = refl
owns_excl q project (some k) ne h = eq_excl k q project ne h

module _ (project q : String) (other : q ≢ project) where
  purge_rest-SameRows :
      (preserved : Option String) (w : World) → SameRows q (purge_rest project preserved w) w
  unfolding purge_rest delete_documents delete_project delete_webhooks delete_events remove_project
  purge_rest-SameRows preserved w = (
    select_where-delete_where _ _ (λ d. owns_excl q project d.project_id other) w.documents,
    select_where-delete_where _ _ (λ d. owns_excl q project d.project_id other) w.points,
    select_where-delete_where _ _ (λ d. eq_excl d.project_id q project other) w.usage,
    select_where-delete_where _ _ (λ d. eq_excl d.project_id q project other) _
        ∙ select_where-delete_where _ _ (λ d. eq_excl d.project_id q project other) w.members,
    select_where-delete_where _ _ (λ d. eq_excl d.id q project other) w.projects,
    select_where-delete_where _ _ (λ d. eq_excl d.project_id q project other) _
        ∙ select_where-delete_where _ _ (λ d. eq_excl d.project_id q project other)
            w.store.outbox.webhooks,
    select_where-delete_where _ _ (λ d. eq_excl d.project_id q project other) w.store.outbox.events,
  )

-- Dropping keys writes two tables.
drop_keys-tables :
    (ks : List ApiKey) (w : World)
    → (es : List Entry) × (s : KeyStore) × (drop_keys ks w ≡ record w { entries = es; keys = s })
unfolding drop_keys
drop_keys-tables [] w = (w.entries, w.keys, refl)
drop_keys-tables (k ∷ ks) w = let (es, s, h) = drop_keys-tables ks (drop_key k w) in (es, s, h)

module _ (project : String) (org preserved : Option String) (w v : World) (c : Counts)
    (row : Project) (found : find_where (λ q. q.id == project) w.projects ≡ some row)
    (done : purge_project project org preserved w ≡ purged c v) where
  -- A purge leaves the other projects' documents, vectors, usage, members, webhooks and events.
  pub purge_project-SameRows : (q : String) → q ≢ project → SameRows q v w
  unfolding delete_memories
  purge_project-SameRows q other =
      let (es, s, e) = drop_keys-tables (project_keys project w) w in
      let before = λ (x : World).
        without_facts (of_project project) (delete_memories (λ m. owns project m.project_id) x) in
      subst (λ x. SameRows q x w) (purge_project-steps project org preserved w v c row found done)
        (subst (λ x. SameRows q (purge_rest project preserved (before x)) w) (sym e)
          (purge_rest-SameRows project q other preserved
            (before (record w { entries = es; keys = s }))))

find_where-gone :
    (h : String) (rs : List RevokedKey)
    → find_where (revokes h) (delete_where (revokes h) rs) ≡ none
unfolding find_where delete_where
find_where-gone h [] = refl
find_where-gone h (r ∷ rs) = ground (arith, find_where-gone h rs)

find_where-still_none :
    (p q : RevokedKey → Bool) (rs : List RevokedKey)
    → find_where q rs ≡ none
    → find_where q (delete_where p rs) ≡ none
unfolding find_where delete_where
find_where-still_none p q [] e = refl
find_where-still_none p q (r ∷ rs) e = ground (arith, e, find_where-still_none p q rs)

drop_keys-still_none :
    (h : String) (ks : List ApiKey) (w : World)
    → find_where (revokes h) w.keys.revoked_keys ≡ none
    → find_where (revokes h) (drop_keys ks w).keys.revoked_keys ≡ none
unfolding drop_keys
drop_keys-still_none h [] w e = e
drop_keys-still_none h (k ∷ ks) w e =
    drop_keys-still_none h ks (drop_key k w)
      (find_where-still_none (revokes k.key_hash) (revokes h) w.keys.revoked_keys e)

drop_keys-gone :
    (p : ApiKey → Bool) (h : String) (ks : List ApiKey) (k : ApiKey) (w : World)
    → find_where (has_hash h) ks ≡ some k
    → p k ≡ true
    → find_where (revokes h) (drop_keys (select_where p ks) w).keys.revoked_keys ≡ none
unfolding drop_keys find_where select_where
drop_keys-gone p h [] k w e t = ground (arith, e)
drop_keys-gone p h (r ∷ ks) k w e t = elim (Bool-cases (r.key_hash == h)) [
  | inl s ↦
      let same : r ≡ k = ground (arith, e, s) in
      let kept : p r ≡ true = ap p same ∙ t in
      let gone =
        subst (λ x. find_where (revokes h) (delete_where (revokes x) w.keys.revoked_keys) ≡ none)
          (sym ((eq_iff r.key_hash h).0 s)) (find_where-gone h w.keys.revoked_keys) in
      rw kept (drop_keys-still_none h (select_where p ks) (drop_key r w) gone)
  | inr s ↦
      let later : find_where (has_hash h) ks ≡ some k = ground (arith, e, s) in
      elim (Bool-cases (p r)) [
        | inl u ↦ rw u (drop_keys-gone p h ks k (drop_key r w) later t)
        | inr u ↦ rw u (drop_keys-gone p h ks k w later t)
      ]
]

-- Purging a project makes each of its keys valid, revoked or not: the revocations go, the keys stay.
pub purge_project-lookup_key :
    (sha256 : String → String) (raw project : String) (org preserved : Option String) (w v : World)
    (c : Counts) (row : Project) (k : ApiKey)
    → find_where (λ q. q.id == project) w.projects ≡ some row
    → purge_project project org preserved w ≡ purged c v
    → find_where (has_hash (sha256 raw)) w.keys.api_keys ≡ some k
    → owns project k.project_id ≡ true
    → lookup_key sha256 raw v.keys ≡ some k
unfolding lookup_key delete_memories purge_rest delete_documents delete_project
purge_project-lookup_key sha256 raw project org preserved w v c row k found done key owned =
    let steps = purge_project-steps project org preserved w v c row found done in
    let gone =
      ap (λ (x : World). find_where (revokes (sha256 raw)) x.keys.revoked_keys) (sym steps)
      ∙ drop_keys-gone (λ k. owns project k.project_id) (sha256 raw) w.keys.api_keys k w key
          owned in
    let kept =
      ap (find_where (has_hash (sha256 raw)))
        (purge_project-api_keys project org preserved w v c row found done)
      ∙ key in
    rw (gone, kept)
