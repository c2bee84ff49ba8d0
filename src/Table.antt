-- ===== src/Table.antt =====
-- SQL over one table: a table is the list of its rows in rowid order, a `WHERE` clause a Boolean
-- test. The laws are in the module below.
pub mod Laws
pub mod First
pub mod Keyed
pub mod Rows
pub mod Counting
use memoratum.Base.{
  ℕ, suc, Bool, true, false, Option, none, some, List, [], ◌∷◌, leb, if◌then◌else◌,
}

module _ {ℓ} {A : Type ℓ} where
  -- SELECT ... WHERE p
  unfoldable pub select_where : (A → Bool) → List A → List A
  select_where p [] = []
  select_where p (r ∷ rs) = let rest = select_where p rs in if p r then r ∷ rest else rest

  -- fetchone()
  unfoldable pub find_where : (A → Bool) → List A → Option A
  find_where p [] = none
  find_where p (r ∷ rs) = if p r then some r else find_where p rs

  -- UPDATE ... SET f WHERE p
  unfoldable pub update_where : (A → Bool) → (A → A) → List A → List A
  update_where p f [] = []
  update_where p f (r ∷ rs) = (if p r then f r else r) ∷ update_where p f rs

  -- DELETE ... WHERE p
  unfoldable pub delete_where : (A → Bool) → List A → List A
  delete_where p [] = []
  delete_where p (r ∷ rs) = let rest = delete_where p rs in if p r then rest else r ∷ rest

  -- SELECT COUNT(*) WHERE p, and the rowcount of an update or a deletion
  unfoldable pub count_where : (A → Bool) → List A → ℕ
  count_where p [] = 0
  count_where p (r ∷ rs) = let rest = count_where p rs in if p r then suc rest else rest

  insert_by : (A → ℕ) → A → List A → List A
  insert_by key r [] = r ∷ []
  insert_by key r (s ∷ rs) = if leb (key r) (key s) then r ∷ s ∷ rs else s ∷ insert_by key r rs

  -- ORDER BY key; rows with equal keys stay in rowid order.
  unfoldable pub order_by : (A → ℕ) → List A → List A
  unfolding insert_by
  order_by key [] = []
  order_by key (r ∷ rs) = insert_by key r (order_by key rs)

  -- LIMIT 1
  unfoldable pub first_row : List A → Option A
  first_row [] = none
  first_row (r ∷ rs) = some r

  pub insert_with : (A → A → Bool) → A → List A → List A
  insert_with before r [] = r ∷ []
  insert_with before r (s ∷ rs) = if before r s then r ∷ s ∷ rs else s ∷ insert_with before r rs

  -- ORDER BY several columns: `before r s` is that `r` may stand in front of `s`.
  unfoldable pub order_with : (A → A → Bool) → List A → List A
  unfolding insert_with
  order_with before [] = []
  order_with before (r ∷ rs) = insert_with before r (order_with before rs)
