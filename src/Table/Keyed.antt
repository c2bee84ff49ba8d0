-- ===== src/Table/Keyed.antt =====
-- PRIMARY KEY: no two rows have the same text for a key.
use mathlib.Core.List.{Memᴰ}
use memoratum.Base.{
  ◌&&◌, ◌≡◌, refl, sym, subst, Bool, true, false, none, some, List, [], ◌∷◌, ◌++◌, String, ◌==◌,
  eq_iff, eq_refl, arith, if◌then◌else◌, Bool-cases, All, All-append, inl, inr,
}
use memoratum.Table.{find_where, update_where, count_where}

module _ {ℓ} {A : Type ℓ} (key : A → String) where
  abbrev pub Keyed : List A → Type 0
  Keyed [] = Unit
  Keyed (r ∷ rs) = All (λ s. (key s == key r) ≡ false) rs × Keyed rs

  All-differ-update_where :
      (p : A → Bool) (f : A → A) (k : String)
      → ((r : A) → key (f r) ≡ key r)
      → (rs : List A) → All (λ s. (key s == k) ≡ false) rs
      → All (λ s. (key s == k) ≡ false) (update_where p f rs)
  unfolding update_where
  All-differ-update_where p f k same [] h = tt
  All-differ-update_where p f k same (r ∷ rs) h = elim (Bool-cases (p r)) [
    | inl e ↦ rw (e, same r) (h.0, All-differ-update_where p f k same rs h.1)
    | inr e ↦ rw e (h.0, All-differ-update_where p f k same rs h.1)
  ]

  -- An update that leaves the key alone keeps the primary key.
  pub Keyed-update_where :
      (p : A → Bool) (f : A → A)
      → ((r : A) → key (f r) ≡ key r)
      → (rs : List A) → Keyed rs
      → Keyed (update_where p f rs)
  unfolding update_where
  Keyed-update_where p f same [] h = tt
  Keyed-update_where p f same (r ∷ rs) h = elim (Bool-cases (p r)) [
    | inl e ↦
        rw (e, same r)
          (All-differ-update_where p f (key r) same rs h.0, Keyed-update_where p f same rs h.1)
    | inr e ↦
        rw e (All-differ-update_where p f (key r) same rs h.0, Keyed-update_where p f same rs h.1)
  ]

  -- A row whose key is not there may be appended.
  pub Keyed-append :
      (rs : List A) (r : A)
      → find_where (λ s. key s == key r) rs ≡ none
      → Keyed rs
      → Keyed (rs ++ r ∷ [])
  unfolding find_where
  Keyed-append [] r h k = (tt, tt)
  Keyed-append (s ∷ rs) r h k = (
    All-append (λ t. (key t == key s) ≡ false) rs (r ∷ []) k.0
        (ground (arith, eq_iff (key s) (key r), eq_iff (key r) (key s)), tt),
    Keyed-append rs r (ground arith) k.1,
  )

  none_differ :
      (k : String) (rs : List A)
      → All (λ s. (key s == k) ≡ false) rs
      → find_where (λ s. key s == k) rs ≡ none
  unfolding find_where
  none_differ k [] h = refl
  none_differ k (s ∷ rs) h = ground (arith, none_differ k rs h.1)

  differ-Memᴰ :
      (k : String) (r : A) (rs : List A)
      → All (λ s. (key s == k) ≡ false) rs
      → Memᴰ r rs
      → (key r == k) ≡ false
  differ-Memᴰ k r [] h m = elim m [ ]
  differ-Memᴰ k r (s ∷ rs) h (Memᴰ.head e) = subst (λ x. (key x == k) ≡ false) (sym e) h.0
  differ-Memᴰ k r (s ∷ rs) h (Memᴰ.tail m) = differ-Memᴰ k r rs h.1 m

  -- A row of the table is what a lookup by its key finds.
  pub find_where_of_Memᴰ :
      (r : A) (rs : List A) → Keyed rs → Memᴰ r rs → find_where (λ s. key s == key r) rs ≡ some r
  unfolding find_where
  find_where_of_Memᴰ r [] k m = elim m [ ]
  find_where_of_Memᴰ r (s ∷ rs) k (Memᴰ.head e) =
      subst (λ x. find_where (λ t. key t == key x) (s ∷ rs) ≡ some x) (sym e)
        (ground (arith, eq_refl (key s)))
  find_where_of_Memᴰ r (s ∷ rs) k (Memᴰ.tail m) = ground (
    arith,
    differ-Memᴰ (key s) r rs k.0 m,
    eq_iff (key s) (key r),
    eq_iff (key r) (key s),
    find_where_of_Memᴰ r rs k.1 m,
  )

  -- The row that a lookup by key finds is the only one with that key.
  pub only_found :
      (i : String) (rs : List A) (r : A)
      → Keyed rs
      → find_where (λ s. key s == i) rs ≡ some r
      → All (λ s. (key s == i) ≡ true → s ≡ r) rs
  unfolding find_where
  only_found i [] r k h = tt
  only_found i (s ∷ rs) r k h = elim (Bool-cases (key s == i)) [
    | inl e ↦ ((λ _. ground arith), others i s rs e k.0)
    | inr e ↦ ((λ t. ground arith), only_found i rs r k.1 (ground arith))
  ]
    where
      others :
          (i : String) (s : A) (rs : List A)
          → (key s == i) ≡ true
          → All (λ t. (key t == key s) ≡ false) rs
          → All (λ t. (key t == i) ≡ true → t ≡ r) rs
      others i s [] e h = tt
      others i s (t ∷ rs) e h = (
        (λ u. ground (arith, eq_iff (key s) i, eq_iff (key t) i, eq_iff (key t) (key s))),
        others i s rs e h.1,
      )

  count_differ :
      (i : String) (t : A → Bool) (rs : List A)
      → All (λ s. (key s == i) ≡ false) rs
      → count_where (λ s. (key s == i) && t s) rs ≡ 0
  unfolding count_where
  count_differ i t [] h = refl
  count_differ i t (s ∷ rs) h = ground (arith, count_differ i t rs h.1)

  same_key :
      (i k : String) (rs : List A)
      → (k == i) ≡ true
      → All (λ s. (key s == k) ≡ false) rs
      → All (λ s. (key s == i) ≡ false) rs
  same_key i k rs e h = subst (λ x. All (λ s. (key s == x) ≡ false) rs) ((eq_iff k i).0 e) h

  -- The rowcount of a guarded update of one row is 1 if the guard holds of the row, and 0 if not.
  pub count_where-Keyed :
      (i : String) (t : A → Bool) (rs : List A) (r : A)
      → Keyed rs
      → find_where (λ s. key s == i) rs ≡ some r
      → count_where (λ s. (key s == i) && t s) rs ≡ (if t r then 1 else 0)
  unfolding find_where count_where
  count_where-Keyed i t [] r k h = cc
  count_where-Keyed i t (s ∷ rs) r k h = elim (Bool-cases (key s == i)) [
    | inl e ↦ ground (arith, count_differ i t rs (same_key i (key s) rs e k.0))
    | inr e ↦ ground (arith, count_where-Keyed i t rs r k.1)
  ]

  -- A lookup by key after any update that leaves the keys alone.
  pub find_where-update_where :
      (i : String) (p : A → Bool) (f : A → A)
      → ((r : A) → key (f r) ≡ key r)
      → (rs : List A) (r : A) → find_where (λ s. key s == i) rs ≡ some r
      → find_where (λ s. key s == i) (update_where p f rs) ≡ some (if p r then f r else r)
  unfolding find_where update_where
  find_where-update_where i p f same [] r h = cc
  find_where-update_where i p f same (s ∷ rs) r h =
      ground (arith, same s, find_where-update_where i p f same rs r)

  pub find_where-append :
      (i : String) (rs ss : List A) (r : A)
      → find_where (λ s. key s == i) rs ≡ some r
      → find_where (λ s. key s == i) (rs ++ ss) ≡ some r
  unfolding find_where
  find_where-append i [] ss r h = cc
  find_where-append i (s ∷ rs) ss r h = ground (arith, find_where-append i rs ss r)

  pub found_key :
      (i : String) (rs : List A) (r : A) → find_where (λ s. key s == i) rs ≡ some r → key r ≡ i
  unfolding find_where
  found_key i [] r h = cc
  found_key i (s ∷ rs) r h = elim (Bool-cases (key s == i)) [
    | inl e ↦ subst (λ x. key x ≡ i) (ground (arith, h, e)) ((eq_iff (key s) i).0 e)
    | inr e ↦ found_key i rs r (ground (arith, h, e))
  ]

  -- A row that is found by a key is found by its own.
  pub find_where_own :
      (i : String) (rs : List A) (r : A)
      → find_where (λ s. key s == i) rs ≡ some r
      → find_where (λ s. key s == key r) rs ≡ some r
  find_where_own i rs r h =
      subst (λ k. find_where (λ s. key s == k) rs ≡ some r) (sym (found_key i rs r h)) h
