-- ===== src/Table/Laws.antt =====
-- Laws of the table operations.
use memoratum.Base.{
  ℕ, ◌≡◌, refl, Bool, true, false, none, some, List, [], ◌∷◌, arith, subst, leb, Bool-cases, All,
  length, inl, inr,
}
use memoratum.Table.{
  select_where, find_where, update_where, delete_where, count_where, insert_by, order_by,
}

module _ {ℓ} {A : Type ℓ} (p : A → Bool) (f : A → A) where
  -- After an update that keeps its own test, a lookup by that test finds the updated row.
  pub find_where-update_where_self :
      ((r : A) → p r ≡ true → p (f r) ≡ true)
      → (rs : List A) (r : A) → find_where p rs ≡ some r
      → find_where p (update_where p f rs) ≡ some (f r)
  unfolding find_where update_where
  find_where-update_where_self keep [] r h = cc
  find_where-update_where_self keep (s ∷ rs) r h =
      ground (arith, keep s, find_where-update_where_self keep rs r)

  pub find_where-update_where-none :
      (rs : List A) → find_where p rs ≡ none → update_where p f rs ≡ rs
  unfolding find_where update_where
  find_where-update_where-none [] h = refl
  find_where-update_where-none (s ∷ rs) h = ground (arith, find_where-update_where-none rs)

  pub count_where-none : (rs : List A) → find_where p rs ≡ none → count_where p rs ≡ 0
  unfolding find_where count_where
  count_where-none [] h = refl
  count_where-none (s ∷ rs) h = ground (arith, count_where-none rs)

  pub length-update_where : (rs : List A) → length (update_where p f rs) ≡ length rs
  unfolding update_where
  length-update_where [] = refl
  length-update_where (s ∷ rs) = omega (arith, length-update_where rs)

  -- A lookup by a test that the update neither touches nor brings about finds what it found.
  pub find_where-update_where_other :
      (q : A → Bool)
      → ((r : A) → p r ≡ true → q r ≡ false)
      → ((r : A) → p r ≡ true → q (f r) ≡ false)
      → (rs : List A) → find_where q (update_where p f rs) ≡ find_where q rs
  unfolding find_where update_where
  find_where-update_where_other q a b [] = refl
  find_where-update_where_other q a b (s ∷ rs) =
      ground (arith, a s, b s, find_where-update_where_other q a b rs)

module _ {ℓ} {A : Type ℓ} (p : A → Bool) (f g : A → A) where
  -- Two updates under one test that the first keeps are one.
  pub update_where-update_where :
      ((r : A) → p (g r) ≡ p r)
      → (rs : List A) → update_where p f (update_where p g rs) ≡ update_where p (λ r. f (g r)) rs
  unfolding update_where
  update_where-update_where keep [] = refl
  update_where-update_where keep (r ∷ rs) =
      ground (arith, keep r, update_where-update_where keep rs)

module _ {ℓ κ} {A : Type ℓ} (P : A → Type κ) where
  pub All-update_where :
      (p : A → Bool) (f : A → A)
      → ((r : A) → p r ≡ true → P r → P (f r))
      → (rs : List A) → All P rs
      → All P (update_where p f rs)
  unfolding update_where
  All-update_where p f step [] h = tt
  All-update_where p f step (r ∷ rs) h = elim (Bool-cases (p r)) [
    | inl e ↦ rw e (step r e h.0, All-update_where p f step rs h.1)
    | inr e ↦ rw e (h.0, All-update_where p f step rs h.1)
  ]

  -- The same where the step is known of the rows themselves.
  pub All-update_where_of :
      (p : A → Bool) (f : A → A) (rs : List A)
      → All (λ r. p r ≡ true → P (f r)) rs
      → All P rs
      → All P (update_where p f rs)
  unfolding update_where
  All-update_where_of p f [] a h = tt
  All-update_where_of p f (r ∷ rs) a h = elim (Bool-cases (p r)) [
    | inl e ↦ rw e (a.0 e, All-update_where_of p f rs a.1 h.1)
    | inr e ↦ rw e (h.0, All-update_where_of p f rs a.1 h.1)
  ]

  pub All-find_where :
      (p : A → Bool) (rs : List A) (r : A) → All P rs → find_where p rs ≡ some r → P r
  unfolding find_where
  All-find_where p [] r h e = cc
  All-find_where p (s ∷ rs) r h e = elim (Bool-cases (p s)) [
    | inl t ↦ subst P (cc) h.0
    | inr t ↦ All-find_where p rs r h.1 (ground arith)
  ]

  pub All-delete_where : (p : A → Bool) (rs : List A) → All P rs → All P (delete_where p rs)
  unfolding delete_where
  All-delete_where p [] h = tt
  All-delete_where p (r ∷ rs) h = elim (Bool-cases (p r)) [
    | inl e ↦ rw e (All-delete_where p rs h.1)
    | inr e ↦ rw e (h.0, All-delete_where p rs h.1)
  ]

  pub All-select_where : (p : A → Bool) (rs : List A) → All P rs → All P (select_where p rs)
  unfolding select_where
  All-select_where p [] h = tt
  All-select_where p (r ∷ rs) h = elim (Bool-cases (p r)) [
    | inl e ↦ rw e (h.0, All-select_where p rs h.1)
    | inr e ↦ rw e (All-select_where p rs h.1)
  ]

  All-insert_by : (key : A → ℕ) (r : A) (rs : List A) → P r → All P rs → All P (insert_by key r rs)
  unfolding insert_by
  All-insert_by key r [] h k = (h, tt)
  All-insert_by key r (s ∷ rs) h k = elim (Bool-cases (leb (key r) (key s))) [
    | inl e ↦ rw e (h, k)
    | inr e ↦ rw e (k.0, All-insert_by key r rs h k.1)
  ]

  pub All-order_by : (key : A → ℕ) (rs : List A) → All P rs → All P (order_by key rs)
  unfolding order_by
  All-order_by key [] h = tt
  All-order_by key (r ∷ rs) h = All-insert_by key r (order_by key rs) h.0 (All-order_by key rs h.1)
