-- ===== src/Purge/Successors.antt =====
-- db.py: the foreign key `facts.superseded_by`, which has no action on a deletion.
use mathlib.Core.List.{Memᴰ}
use memoratum.Base.{
  String, Bool, true, false, ◌&&◌, not, Option, none, some, List, [], ◌∷◌, ◌==◌, ◌≡◌, refl, sym,
  ◌∙◌, ap, subst, arith, is_some, Bool-cases, inl, inr, eq_iff, eq_refl,
}
use memoratum.Table.{find_where}
use memoratum.Memory.Tables.{Fact}
use memoratum.Purge.{fact_in, is_blocked}

-- Some fact that stays names a fact of the table that goes as its successor.
abbrev pub IsBlocked : (Fact → Bool) → List Fact → Type 0
IsBlocked p fs =
    (f : Fact) × (g : Fact) × Memᴰ f fs
    × Memᴰ g fs
    × (p f ≡ false)
    × (p g ≡ true)
    × (f.superseded_by ≡ some g.id)

module _ {ℓ} {A : Type ℓ} (q : A → Bool) where
  passing_row :
      (rs : List A) → is_some (find_where q rs) ≡ true → (r : A) × Memᴰ r rs × (q r ≡ true)
  unfolding find_where
  passing_row [] h = ground (arith, h)
  passing_row (r ∷ rs) h = elim (Bool-cases (q r)) [
    | inl e ↦ (r, Memᴰ.head refl, e)
    | inr e ↦ let (s, m, t) = passing_row rs (ground (arith, e, h)) in (s, Memᴰ.tail m, t)
  ]

  finds_row : (r : A) (rs : List A) → Memᴰ r rs → q r ≡ true → is_some (find_where q rs) ≡ true
  unfolding find_where
  finds_row r [] m e = elim m [ ]
  finds_row r (s ∷ rs) (Memᴰ.head u) e = rw (ap q (sym u) ∙ e) refl
  finds_row r (s ∷ rs) (Memᴰ.tail m) e = ground (arith, finds_row r rs m e)

successor_row :
    (p : Fact → Bool) (fs : List Fact) (o : Option String)
    → fact_in p fs o ≡ true
    → (g : Fact) × Memᴰ g fs × (p g ≡ true) × (o ≡ some g.id)
successor_row p fs none h = ground (arith, h)
successor_row p fs (some i) h =
    let (g, m, t) = passing_row (λ f. f.id == i && p f) fs h in
    (g, m, ground (arith, t), ap some (sym ((eq_iff g.id i).0 (ground (arith, t)))))

pub blocking_row : (p : Fact → Bool) (fs : List Fact) → is_blocked p fs ≡ true → IsBlocked p fs
unfolding is_blocked
blocking_row p fs h =
    let (f, m, t) = passing_row (λ f. not (p f) && fact_in p fs f.superseded_by) fs h in
    let (g, n, u, e) = successor_row p fs f.superseded_by (ground (arith, t)) in
    (f, g, m, n, ground (arith, t), u, e)

pub no_blocking_row :
    (p : Fact → Bool) (fs : List Fact) → is_blocked p fs ≡ false → ¬ (IsBlocked p fs)
unfolding is_blocked
no_blocking_row p fs h (f, g, m, n, a, b, e) =
    let goes : fact_in p fs f.superseded_by ≡ true =
      subst (λ o. fact_in p fs o ≡ true) (sym e)
        (finds_row (λ k. k.id == g.id && p k) g fs n (ground (arith, eq_refl g.id, b))) in
    cc (
      h,
      finds_row (λ k. not (p k) && fact_in p fs k.superseded_by) f fs m (ground (arith, a, goes)),
    )
