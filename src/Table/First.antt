-- ===== src/Table/First.antt =====
-- What `SELECT ... WHERE p ORDER BY key LIMIT 1` returns.
use mathlib.Core.List.{Memᴰ}
use memoratum.Base.{
  ℕ, ◌≤◌, ◌≡◌, refl, Bool, true, false, Option, none, some, List, [], ◌∷◌, arith, leb,
  if◌then◌else◌, Bool-cases, All, inl, inr,
}
use memoratum.Table.{select_where, insert_by, order_by, first_row}

module _ {A : Type 0} (p : A → Bool) (key : A → ℕ) where
  -- No row passes the test, or the row passes it and has the least key of those that do.
  abbrev pub IsFirst : List A → Option A → Type 0
  IsFirst rs none = All (λ s. p s ≡ false) rs
  IsFirst rs (some r) = (p r ≡ true) × All (λ s. p s ≡ true → key r ≤ key s) rs × Memᴰ r rs

  abbrev pick : A → Option A → A
  pick r none = r
  pick r (some s) = if leb (key r) (key s) then r else s

  first_row-insert_by :
      (r : A) (rs : List A) → first_row (insert_by key r rs) ≡ some (pick r (first_row rs))
  unfolding first_row insert_by
  first_row-insert_by r [] = refl
  first_row-insert_by r (s ∷ rs) = ground arith

  weaken :
      (n m : ℕ) (rs : List A)
      → n ≤ m
      → All (λ s. p s ≡ true → m ≤ key s) rs
      → All (λ s. p s ≡ true → n ≤ key s) rs
  weaken n m [] h a = tt
  weaken n m (s ∷ rs) h a = ((λ e. ground (arith, a.0 e)), weaken n m rs h a.1)

  vacuous : (n : ℕ) (rs : List A) → All (λ s. p s ≡ false) rs → All (λ s. p s ≡ true → n ≤ key s) rs
  vacuous n [] a = tt
  vacuous n (s ∷ rs) a = ((λ e. ground (arith, a.0)), vacuous n rs a.1)

  skip : (r : A) (rs : List A) (o : Option A) → p r ≡ false → IsFirst rs o → IsFirst (r ∷ rs) o
  skip r rs none e h = (e, h)
  skip r rs (some s) e h = (h.0, ((λ t. ground (arith, e)), h.1), Memᴰ.tail h.2)

  choose :
      (r s : A) (rs : List A) (b : Bool)
      → leb (key r) (key s) ≡ b
      → p r ≡ true
      → IsFirst rs (some s)
      → IsFirst (r ∷ rs) (some (if b then r else s))
  choose r s rs true t e h =
      (e, ((λ u. ground arith), weaken (key r) (key s) rs (ground arith) h.1), Memᴰ.head refl)
  choose r s rs false t e h = (h.0, ((λ u. ground arith), h.1), Memᴰ.tail h.2)

  keep :
      (r : A) (rs : List A) (o : Option A)
      → p r ≡ true
      → IsFirst rs o
      → IsFirst (r ∷ rs) (some (pick r o))
  keep r rs none e h = (e, ((λ t. ground arith), vacuous (key r) rs h), Memᴰ.head refl)
  keep r rs (some s) e h = choose r s rs (leb (key r) (key s)) refl e h

  pub first_row-IsFirst : (rs : List A) → IsFirst rs (first_row (order_by key (select_where p rs)))
  unfolding select_where order_by first_row
  first_row-IsFirst [] = tt
  first_row-IsFirst (r ∷ rs) = elim (Bool-cases (p r)) [
    | inl e ↦ rw e (
        rw (first_row-insert_by r (order_by key (select_where p rs)))
          (keep r rs (first_row (order_by key (select_where p rs))) e (first_row-IsFirst rs)))
    | inr e ↦
        rw e (skip r rs (first_row (order_by key (select_where p rs))) e (first_row-IsFirst rs))
  ]
