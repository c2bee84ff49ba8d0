-- ===== src/Table/Counting.antt =====
-- How many rows pass a test after an update or a deletion of one row, and the order of a selection.
use memoratum.Base.{
  suc, ◌≡◌, refl, ap, ◌∙◌, subst, String, Bool, true, false, some, List, [], ◌∷◌, length, ◌==◌,
  eq_iff, arith, All, Bool-cases, inl, inr,
}
use memoratum.Table.{
  select_where, find_where, update_where, delete_where, count_where, insert_with, order_with,
}
use memoratum.Table.Laws.{All-delete_where, All-select_where}
use memoratum.Table.Rows.{count_where-update_where, All-insert_with, All-order_with}
use memoratum.Table.Keyed.{Keyed}

module _ {A : Type 0} (key : A → String) where
  delete_where-differ :
      (i : String) (rs : List A)
      → All (λ s. (key s == i) ≡ false) rs
      → delete_where (λ s. key s == i) rs ≡ rs
  unfolding delete_where
  delete_where-differ i [] h = refl
  delete_where-differ i (s ∷ rs) h = ground (arith, h.0, delete_where-differ i rs h.1)

  differ_from :
      (i : String) (s : A) (rs : List A)
      → (key s == i) ≡ true
      → All (λ t. (key t == key s) ≡ false) rs
      → All (λ t. (key t == i) ≡ false) rs
  differ_from i s rs e h =
      subst (λ x. All (λ t. (key t == x) ≡ false) rs) ((eq_iff (key s) i).0 e) h

  -- Deleting a row that passes the test leaves one less.
  pub count_where-delete_where :
      (p : A → Bool) (i : String) (rs : List A) (r : A)
      → Keyed key rs
      → find_where (λ s. key s == i) rs ≡ some r
      → p r ≡ true
      → suc (count_where p (delete_where (λ s. key s == i) rs)) ≡ count_where p rs
  unfolding count_where delete_where find_where
  count_where-delete_where p i [] r k h a = ground (arith, h)
  count_where-delete_where p i (s ∷ rs) r k h a = elim (Bool-cases (key s == i)) [
    | inl e ↦
        let same : s ≡ r = ground (arith, e, h) in
        rw (e, delete_where-differ i rs (differ_from i s rs e k.0)) (ground (arith, a, same))
    | inr e ↦ ground (arith, e, count_where-delete_where p i rs r k.1 (ground (arith, e, h)) a)
  ]

  -- An update of a row that passes the test before and after.
  pub count_where-update_kept :
      (p : A → Bool) (i : String) (f : A → A) (rs : List A) (r : A)
      → Keyed key rs
      → find_where (λ s. key s == i) rs ≡ some r
      → p r ≡ true
      → p (f r) ≡ true
      → count_where p (update_where (λ s. key s == i) f rs) ≡ count_where p rs
  count_where-update_kept p i f rs r k h a b =
      ground (arith, count_where-update_where key p i f rs r k h, a, b)

  pub Keyed-delete_where :
      (p : A → Bool) (rs : List A) → Keyed key rs → Keyed key (delete_where p rs)
  unfolding delete_where
  Keyed-delete_where p [] k = tt
  Keyed-delete_where p (r ∷ rs) k = elim (Bool-cases (p r)) [
    | inl e ↦ rw e (Keyed-delete_where p rs k.1)
    | inr e ↦ rw e (All-delete_where _ p rs k.0, Keyed-delete_where p rs k.1)
  ]

  pub Keyed-select_where :
      (p : A → Bool) (rs : List A) → Keyed key rs → Keyed key (select_where p rs)
  unfolding select_where
  Keyed-select_where p [] k = tt
  Keyed-select_where p (r ∷ rs) k = elim (Bool-cases (p r)) [
    | inl e ↦ rw e (All-select_where _ p rs k.0, Keyed-select_where p rs k.1)
    | inr e ↦ rw e (Keyed-select_where p rs k.1)
  ]

  Keyed-insert_with :
      (before : A → A → Bool) (r : A) (rs : List A)
      → All (λ s. (key s == key r) ≡ false) rs
      → Keyed key rs
      → Keyed key (insert_with before r rs)
  unfolding insert_with
  Keyed-insert_with before r [] d k = (tt, tt)
  Keyed-insert_with before r (s ∷ rs) d k = elim (Bool-cases (before r s)) [
    | inl e ↦ rw e (d, k)
    | inr e ↦ rw e (
      All-insert_with (λ t. (key t == key s) ≡ false) before r rs
          (ground (arith, d.0, eq_iff (key r) (key s), eq_iff (key s) (key r))) k.0,
      Keyed-insert_with before r rs d.1 k.1,
    )
  ]

  pub Keyed-order_with :
      (before : A → A → Bool) (rs : List A) → Keyed key rs → Keyed key (order_with before rs)
  unfolding order_with
  Keyed-order_with before [] k = tt
  Keyed-order_with before (r ∷ rs) k =
      Keyed-insert_with before r (order_with before rs)
        (All-order_with (λ s. (key s == key r) ≡ false) before rs k.0)
        (Keyed-order_with before rs k.1)

module _ {A : Type 0} where
  length-insert_with :
      (before : A → A → Bool) (r : A) (rs : List A)
      → length (insert_with before r rs) ≡ suc (length rs)
  unfolding insert_with
  length-insert_with before r [] = refl
  length-insert_with before r (s ∷ rs) = ground (arith, length-insert_with before r rs)

  pub length-order_with :
      (before : A → A → Bool) (rs : List A) → length (order_with before rs) ≡ length rs
  unfolding order_with
  length-order_with before [] = refl
  length-order_with before (r ∷ rs) =
      length-insert_with before r (order_with before rs) ∙ ap suc (length-order_with before rs)

  -- An update that changes no row's answer to the test.
  pub count_where-update_same :
      (p q : A → Bool) (f : A → A)
      → ((r : A) → p (f r) ≡ p r)
      → (rs : List A) → count_where p (update_where q f rs) ≡ count_where p rs
  unfolding count_where update_where
  count_where-update_same p q f same [] = refl
  count_where-update_same p q f same (r ∷ rs) =
      ground (arith, same r, count_where-update_same p q f same rs)
