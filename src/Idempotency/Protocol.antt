-- ===== src/Idempotency/Protocol.antt =====
-- db.py: what later requests with the same key get while a claim is held, after it is completed, and after it is
-- released.
use memoratum.Base.{
  ℕ, ◌+◌, ◌<◌, max, ◌≡◌, refl, ap, sym, ◌∙◌, String, Bool, true, false, Option, none, some, List,
  [], ◌∷◌, ◌++◌, ◌==◌, eq_refl, if◌then◌else◌, arith, Option-cases, inl, inr,
}
use memoratum.Json.{Json}
use memoratum.Table.{find_where, update_where, delete_where, count_where}
use memoratum.Idempotency.{
  Entry, claimed, conflict, busy, replay, Claim, has_key, is_expired, new_entry, read_claim,
  new_claim, claim_row, claim_idempotency, has_claim, finish, complete_idempotency,
  release_idempotency,
}

module _ {A : Type 0} (q : A → Bool) where
  -- The one row that passes the test stands at the end.
  find_where-last :
      (p : A → Bool) (r : A) (rs : List A)
      → find_where q rs ≡ none
      → q r ≡ true
      → p r ≡ false
      → find_where q (delete_where p (rs ++ r ∷ [])) ≡ some r
  unfolding find_where delete_where
  find_where-last p r [] h a b = rw (b, a) refl
  find_where-last p r (s ∷ rs) h a b = ground (arith, h, find_where-last p r rs)

  delete_where-last :
      (r : A) (rs : List A)
      → find_where q rs ≡ none
      → q r ≡ true
      → delete_where q (rs ++ r ∷ []) ≡ rs
  unfolding find_where delete_where
  delete_where-last r [] h a = rw a refl
  delete_where-last r (s ∷ rs) h a = ground (arith, h, delete_where-last r rs)

  update_where-last :
      (m : A → Bool) (f : A → A) (r : A) (rs : List A)
      → ((s : A) → m s ≡ true → q s ≡ true)
      → find_where q rs ≡ none
      → m r ≡ true
      → update_where m f (rs ++ r ∷ []) ≡ rs ++ f r ∷ []
  unfolding find_where update_where
  update_where-last m f r [] i h a = rw a refl
  update_where-last m f r (s ∷ rs) i h a = ground (arith, h, i s, update_where-last m f r rs i)

  count_where-last :
      (m : A → Bool) (r : A) (rs : List A)
      → ((s : A) → m s ≡ true → q s ≡ true)
      → find_where q rs ≡ none
      → m r ≡ true
      → count_where m (rs ++ r ∷ []) ≡ 1
  unfolding find_where count_where
  count_where-last m r [] i h a = rw a refl
  count_where-last m r (s ∷ rs) i h a = ground (arith, h, i s, count_where-last m r rs i)

  find_where-delete_where-none :
      (p : A → Bool) (rs : List A)
      → find_where q rs ≡ none
      → find_where q (delete_where p rs) ≡ none
  unfolding find_where delete_where
  find_where-delete_where-none p [] h = refl
  find_where-delete_where-none p (s ∷ rs) h = ground (arith, h, find_where-delete_where-none p rs)

has_claim-has_key :
    (scope key hash : String) (e : Entry)
    → has_claim scope key hash e ≡ true
    → has_key scope key e ≡ true
has_claim-has_key scope key hash e h = ground (arith, h)

claim_found :
    (now : ℕ) (scope key hash : String) (expires_in : ℕ) (es : List Entry) (e : Entry)
    → find_where (has_key scope key) (delete_where (is_expired now) es) ≡ some e
    → (claim_idempotency now scope key hash expires_in es).0 ≡ read_claim hash e
unfolding claim_idempotency claim_row
claim_found now scope key hash expires_in es e h =
    ap (λ o. (claim_row now scope key hash expires_in o (delete_where (is_expired now) es)).0) h

claim_absent :
    (now : ℕ) (scope key hash : String) (expires_in : ℕ) (es : List Entry)
    → find_where (has_key scope key) (delete_where (is_expired now) es) ≡ none
    → claim_idempotency now scope key hash expires_in es ≡ (
      new_claim scope key hash,
      delete_where (is_expired now) es ++ new_entry now scope key hash expires_in ∷ [],
    )
unfolding claim_idempotency claim_row
claim_absent now scope key hash expires_in es h =
    ap (λ o. claim_row now scope key hash expires_in o (delete_where (is_expired now) es)) h

module _ (now : ℕ) (scope key hash : String) (expires_in : ℕ) (es : List Entry)
    (c : (claim_idempotency now scope key hash expires_in es).0.status ≡ claimed) where
  kept : List Entry
  kept = delete_where (is_expired now) es

  absent : find_where (has_key scope key) kept ≡ none
  unfolding kept
  absent = elim (Option-cases (find_where (has_key scope key) (delete_where (is_expired now) es))) [
    | inl n ↦ n
    | inr (e, f) ↦ ground (
      arith,
      ap (λ (x : Claim). x.status) (sym (claim_found now scope key hash expires_in es e f)) ∙ c,
    )
  ]

  entry : Entry
  entry = new_entry now scope key hash expires_in

  held : List Entry
  held = (claim_idempotency now scope key hash expires_in es).1

  held_lem : held ≡ kept ++ entry ∷ []
  unfolding held kept entry
  held_lem =
      ap (λ (r : Claim × List Entry). r.1) (claim_absent now scope key hash expires_in es absent)

  entry-has_key : has_key scope key entry ≡ true
  unfolding entry
  entry-has_key = ground (arith, eq_refl scope, eq_refl key)

  entry-has_claim : has_claim scope key hash entry ≡ true
  unfolding entry
  entry-has_claim = ground (arith, eq_refl scope, eq_refl key, eq_refl hash)

  still_there :
      (later : ℕ) (e : Entry)
      → later < now + max 60 expires_in
      → has_key scope key e ≡ true
      → e.expires_at ≡ now + max 60 expires_in
      → find_where (has_key scope key) (delete_where (is_expired later) (kept ++ e ∷ [])) ≡ some e
  still_there later e l k x =
      find_where-last (has_key scope key) (is_expired later) e kept absent k (ground (arith, l, x))

  -- Until a claim expires, at least a minute after it was made, a request with the same scope and key is told that
  -- the first is in progress if the two requests are the same, and that they conflict if not.
  pub claim-claim_idempotency :
      (later : ℕ) (hash' : String) (expires_in' : ℕ)
      → later < now + max 60 expires_in
      → (claim_idempotency later scope key hash' expires_in'
          (claim_idempotency now scope key hash expires_in es).1).0.status
        ≡ (if hash == hash' then busy else conflict)
  unfolding held entry
  claim-claim_idempotency later hash' expires_in' l =
      ap (λ es. (claim_idempotency later scope key hash' expires_in' es).0.status) held_lem
      ∙ ap (λ (x : Claim). x.status)
          (claim_found later scope key hash' expires_in' (kept ++ entry ∷ []) entry
            (still_there later entry l entry-has_key refl))
      ∙ branch
    where
      branch : (read_claim hash' entry).status ≡ (if hash == hash' then busy else conflict)
      branch = ground arith

  -- Whoever holds a claim can complete it. Until it expires, the same request is told that it is a replay and gets
  -- the response and the job that it was completed with; another request with the same key is told that it
  -- conflicts, and gets neither.
  pub complete-claim_idempotency :
      (response : Json) (job : Option String) (later : ℕ) (hash' : String) (expires_in' : ℕ)
      → later < now + max 60 expires_in
      → (t : List Entry) × (complete_idempotency scope key hash response job
            (claim_idempotency now scope key hash expires_in es).1
          ≡ some t)
        × ((claim_idempotency later scope key hash' expires_in' t).0 ≡ (
            if hash == hash'
            then record {
              status = replay;
              request_hash = hash;
              response = some response;
              job_id = job;
              scope = scope;
              key = key;
            }
            else record {
              status = conflict;
              request_hash = hash;
              response = none;
              job_id = none;
              scope = "";
              key = "";
            }))
  unfolding complete_idempotency held entry
  complete-claim_idempotency response job later hash' expires_in' l =
      let one : count_where (has_claim scope key hash) held ≡ 1 =
        ap (count_where (has_claim scope key hash)) held_lem
        ∙ count_where-last (has_key scope key) (has_claim scope key hash) entry kept
            (has_claim-has_key scope key hash) absent entry-has_claim in
      (
        update_where (has_claim scope key hash) (finish response job) held,
        rw one refl,
        ap (λ es. (claim_idempotency later scope key hash' expires_in' es).0)
              (ap (update_where (has_claim scope key hash) (finish response job)) held_lem
                ∙ update_where-last (has_key scope key) (has_claim scope key hash)
                    (finish response job) entry kept (has_claim-has_key scope key hash) absent
                    entry-has_claim)
            ∙ claim_found later scope key hash' expires_in' (kept ++ finish response job entry ∷ [])
                (finish response job entry)
                (still_there later (finish response job entry) l entry-has_key refl),
      )

  -- Releasing a claim leaves the table without its row: the key can be claimed at once, by any request.
  pub release-claim_idempotency :
      (later : ℕ) (hash' : String) (expires_in' : ℕ)
      → (claim_idempotency later scope key hash' expires_in'
          (release_idempotency scope key (claim_idempotency now scope key hash expires_in es).1)).0
        ≡ new_claim scope key hash'
  unfolding release_idempotency held
  release-claim_idempotency later hash' expires_in' =
      ap (λ es. (claim_idempotency later scope key hash' expires_in' es).0)
        (ap (delete_where (has_key scope key)) held_lem
          ∙ delete_where-last (has_key scope key) entry kept absent entry-has_key)
      ∙ ap (λ (r : Claim × List Entry). r.0)
          (claim_absent later scope key hash' expires_in' kept
            (find_where-delete_where-none (has_key scope key) (is_expired later) kept absent))
