-- ===== src/Table/Rows.antt =====
-- Rows of a table as the results of `SELECT`, and updates of one row.
use mathlib.Core.List.{Memᴰ}
use memoratum.Base.{
  suc, ◌+◌, ◌≡◌, refl, subst, Bool, true, false, some, List, [], ◌∷◌, ◌++◌, String, ◌==◌, eq_iff,
  arith, if◌then◌else◌, Bool-cases, All, All-imp, ℕ, length, ap, ◌∙◌, inl, inr,
}
use memoratum.Table.{
  insert_by, order_by, select_where, find_where, update_where, delete_where, count_where,
  insert_with, order_with, first_row,
}
use memoratum.Table.Laws.{All-select_where}
use memoratum.Table.Keyed.{Keyed, find_where_of_Memᴰ}

module _ {ℓ} {A : Type ℓ} where
  pub members : (rs : List A) → All (λ r. Memᴰ r rs) rs
  members [] = tt
  members (r ∷ rs) = (
    Memᴰ.head refl,
    All-imp (λ s. Memᴰ s rs) (λ s. Memᴰ s (r ∷ rs)) (λ s m. Memᴰ.tail m) rs (members rs),
  )

  pub passing : (p : A → Bool) (rs : List A) → All (λ r. p r ≡ true) (select_where p rs)
  unfolding select_where
  passing p [] = tt
  passing p (r ∷ rs) = elim (Bool-cases (p r)) [
    | inl e ↦ rw e (e, passing p rs)
    | inr e ↦ rw e (passing p rs)
  ]

  pub both : (P Q : A → Type 0) (rs : List A) → All P rs → All Q rs → All (λ r. P r × Q r) rs
  both P Q [] h k = tt
  both P Q (r ∷ rs) h k = ((h.0, k.0), both P Q rs h.1 k.1)

  pub count_where-append :
      (p : A → Bool) (r : A) (rs : List A)
      → count_where p (rs ++ r ∷ []) ≡ (if p r then suc (count_where p rs) else count_where p rs)
  unfolding count_where
  count_where-append p r [] = refl
  count_where-append p r (s ∷ rs) = ground (arith, count_where-append p r rs)

module _ {ℓ κ} {A : Type ℓ} (P : A → Type κ) where
  pub All-insert_with :
      (before : A → A → Bool) (r : A) (rs : List A)
      → P r
      → All P rs
      → All P (insert_with before r rs)
  unfolding insert_with
  All-insert_with before r [] h k = (h, tt)
  All-insert_with before r (s ∷ rs) h k = elim (Bool-cases (before r s)) [
    | inl e ↦ rw e (h, k)
    | inr e ↦ rw e (k.0, All-insert_with before r rs h k.1)
  ]

  pub All-order_with :
      (before : A → A → Bool) (rs : List A) → All P rs → All P (order_with before rs)
  unfolding order_with
  All-order_with before [] h = tt
  All-order_with before (r ∷ rs) h =
      All-insert_with before r (order_with before rs) h.0 (All-order_with before rs h.1)

  pub All-first_row : (rs : List A) (r : A) → All P rs → first_row rs ≡ some r → P r
  unfolding first_row
  All-first_row [] r h e = ground (arith, e)
  All-first_row (s ∷ rs) r h e = subst P (ground (arith, e)) h.0

abbrev pub bit : Bool → ℕ
bit true = 1
bit false = 0

module _ {A : Type 0} (key : A → String) where
  -- The first row of an ordered selection passes the test, and is what a lookup by its key finds.
  pub first_row-select_where :
      (p : A → Bool) (before : A → A → Bool) (rs : List A) (r : A)
      → Keyed key rs
      → first_row (order_with before (select_where p rs)) ≡ some r
      → (p r ≡ true) × (find_where (λ s. key s == key r) rs ≡ some r)
  first_row-select_where p before rs r k e =
      let own =
        All-imp (λ s. Memᴰ s rs) (λ s. find_where (λ t. key t == key s) rs ≡ some s)
          (λ s m. find_where_of_Memᴰ key s rs k m) rs (members rs) in
      All-first_row (λ r. (p r ≡ true) × (find_where (λ s. key s == key r) rs ≡ some r))
        (order_with before (select_where p rs)) r
        (All-order_with _ before (select_where p rs) (
          both (λ r. p r ≡ true) (λ r. find_where (λ s. key s == key r) rs ≡ some r)
            (select_where p rs) (passing p rs)
            (All-select_where (λ s. find_where (λ t. key t == key s) rs ≡ some s) p rs own)))
        e

  pub update_where-differ :
      (i : String) (f : A → A) (rs : List A)
      → All (λ s. (key s == i) ≡ false) rs
      → update_where (λ s. key s == i) f rs ≡ rs
  unfolding update_where
  update_where-differ i f [] h = refl
  update_where-differ i f (s ∷ rs) h = ground (arith, h.0, update_where-differ i f rs h.1)

  -- An update of one row changes the count by what it changes of the row's answer to the test.
  pub count_where-update_where :
      (p : A → Bool) (i : String) (f : A → A) (rs : List A) (r : A)
      → Keyed key rs
      → find_where (λ s. key s == i) rs ≡ some r
      → count_where p (update_where (λ s. key s == i) f rs) + bit (p r)
        ≡ count_where p rs + bit (p (f r))
  unfolding count_where update_where find_where
  count_where-update_where p i f [] r k h = ground (arith, h)
  count_where-update_where p i f (s ∷ rs) r k h = elim (Bool-cases (key s == i)) [
    | inl e ↦
        let same : s ≡ r = ground (arith, e, h) in
        let rest =
          update_where-differ i f rs
            (subst (λ x. All (λ s. (key s == x) ≡ false) rs) ((eq_iff (key s) i).0 e) k.0) in
        rw (e, rest, same) (ground arith)
    | inr e ↦ ground (arith, e, count_where-update_where p i f rs r k.1 (ground (arith, e, h)))
  ]

  -- An update of one row that makes it pass the test.
  pub count_where-update_one :
      (p : A → Bool) (i : String) (f : A → A) (rs : List A) (r : A)
      → Keyed key rs
      → find_where (λ s. key s == i) rs ≡ some r
      → p r ≡ false
      → p (f r) ≡ true
      → count_where p (update_where (λ s. key s == i) f rs) ≡ suc (count_where p rs)
  count_where-update_one p i f rs r k h a b =
      ground (arith, count_where-update_where p i f rs r k h, a, b)

module _ {ℓ} {A : Type ℓ} where
  length-insert_by :
      (key : A → ℕ) (r : A) (rs : List A) → length (insert_by key r rs) ≡ suc (length rs)
  unfolding insert_by
  length-insert_by key r [] = refl
  length-insert_by key r (s ∷ rs) = ground (arith, length-insert_by key r rs)

  pub length-order_by : (key : A → ℕ) (rs : List A) → length (order_by key rs) ≡ length rs
  unfolding order_by
  length-order_by key [] = refl
  length-order_by key (r ∷ rs) =
      length-insert_by key r (order_by key rs) ∙ ap suc (length-order_by key rs)

  pub length-select_where :
      (p : A → Bool) (rs : List A) → length (select_where p rs) ≡ count_where p rs
  unfolding select_where count_where
  length-select_where p [] = refl
  length-select_where p (r ∷ rs) = ground (arith, length-select_where p rs)

module _ {A : Type 0} (p q : A → Bool) where
  pub find_where-delete_where :
      ((r : A) → q r ≡ true → p r ≡ false)
      → (rs : List A) → find_where q (delete_where p rs) ≡ find_where q rs
  unfolding find_where delete_where
  find_where-delete_where keep [] = refl
  find_where-delete_where keep (r ∷ rs) = ground (arith, keep r, find_where-delete_where keep rs)

  pub select_where-delete_where :
      ((r : A) → q r ≡ true → p r ≡ false)
      → (rs : List A) → select_where q (delete_where p rs) ≡ select_where q rs
  unfolding select_where delete_where
  select_where-delete_where keep [] = refl
  select_where-delete_where keep (r ∷ rs) =
      ground (arith, keep r, select_where-delete_where keep rs)
