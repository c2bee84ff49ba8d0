-- ===== src/Access/Accounting.antt =====
-- Each authorized request is counted exactly once.
use memoratum.Base.{
  ◌≡◌, inl, inr, refl, ℕ, ◌+◌, ◌≤◌, Bool, true, Option, some, String, List, [], ◌∷◌, ◌++◌, arith,
  is_some, Bool-cases, or_blank,
}
use memoratum.Table.{find_where, update_where, count_where}
use memoratum.Access.{Usage}
use memoratum.Access.Metering.{
  Operation, record_usage, same_counter, add_usage, fresh_usage, blank_or_anonymous,
}

-- SUM(requests)
abbrev pub total_requests : List Usage → ℕ
total_requests [] = 0
total_requests (u ∷ us) = u.requests + total_requests us

abbrev pub total_chars : List Usage → ℕ
total_chars [] = 0
total_chars (u ∷ us) = u.input_chars + total_chars us

-- UNIQUE(key_hash, container_tag, org_id, project_id)
abbrev pub IsUnique : List Usage → Type 0
IsUnique us = (k t o p : String) → count_where (same_counter k t o p) us ≤ 1

total_requests-append :
    (us : List Usage) (u : Usage) → total_requests (us ++ u ∷ []) ≡ total_requests us + u.requests
total_requests-append [] u = omega arith
total_requests-append (v ∷ us) u = omega (arith, total_requests-append us u)

total_chars-append :
    (us : List Usage) (u : Usage) → total_chars (us ++ u ∷ []) ≡ total_chars us + u.input_chars
total_chars-append [] u = omega arith
total_chars-append (v ∷ us) u = omega (arith, total_chars-append us u)

module _ (p : Usage → Bool) (f : Usage → Usage) where
  total_requests-update :
      ((u : Usage) → (f u).requests ≡ u.requests + 1)
      → (us : List Usage)
      → total_requests (update_where p f us) ≡ total_requests us + count_where p us
  unfolding update_where count_where
  total_requests-update one [] = omega arith
  total_requests-update one (u ∷ us) = ground (arith, one u, total_requests-update one us)

  total_chars-update :
      (n : ℕ)
      → ((u : Usage) → (f u).input_chars ≡ u.input_chars + n)
      → (us : List Usage) → count_where p us ≡ 1
      → total_chars (update_where p f us) ≡ total_chars us + n
  unfolding update_where count_where
  total_chars-update n more [] h = absurd (omega arith)
  total_chars-update n more (u ∷ us) h = elim (Bool-cases (p u)) [
    | inl e ↦ ground (arith, more u, untouched us)
    | inr e ↦ ground (arith, total_chars-update n more us)
  ]
    where
      untouched :
          (us : List Usage)
          → count_where p us ≡ 0
          → total_chars (update_where p f us) ≡ total_chars us
      untouched [] h = refl
      untouched (u ∷ us) h = ground (arith, untouched us)

count_found :
    (p : Usage → Bool) (us : List Usage) → is_some (find_where p us) ≡ true → 1 ≤ count_where p us
unfolding find_where count_where
count_found p [] h = cc
count_found p (u ∷ us) h = ground (arith, count_found p us)

-- With the table's unique index, a request that is metered adds one to the sum of the requests over
-- all rows and its characters to theirs, whether its row is new or not.
pub record_usage_once :
    (now : ℕ) (key tag org project : Option String) (operation : Operation) (chars : ℕ)
    (us us' : List Usage)
    → IsUnique us
    → record_usage now key tag org project operation chars us ≡ some us'
    → (total_requests us' ≡ total_requests us + 1) × (total_chars us' ≡ total_chars us + chars)
unfolding record_usage
record_usage_once now key tag org project operation chars us us' unique h =
    let k = blank_or_anonymous key in
    let same = same_counter k (or_blank tag) (or_blank org) (or_blank project) in
    let fresh =
      fresh_usage now k (or_blank tag) (or_blank org) (or_blank project) operation chars in
    elim (Bool-cases (is_some (find_where same us))) [
      | inl old ↦
          let one : count_where same us ≡ 1 = omega (
            arith,
            unique k (or_blank tag) (or_blank org) (or_blank project),
            count_found same us old,
          ) in
          (
            ground
                (arith, total_requests-update same (add_usage now operation chars) (λ u. refl) us),
            ground (
              arith,
              total_chars-update same (add_usage now operation chars) chars (λ u. refl) us one,
            ),
          )
      | inr new ↦ (
        ground (arith, total_requests-append us fresh),
        ground (arith, total_chars-append us fresh),
      )
    ]
