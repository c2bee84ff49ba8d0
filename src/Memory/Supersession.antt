-- ===== src/Memory/Supersession.antt =====
-- facts.py: which facts of a relation are current after `add_fact`.
use memoratum.Base.{
  ℕ, suc, ◌≡◌, refl, ap, sym, ◌∙◌, subst, String, Bool, true, false, Option, none, some, List, [],
  ◌∷◌, ◌++◌, ◌==◌, eq_iff, eq_refl, opt_eq_iff, is_some, if◌then◌else◌, arith, All, Bool-cases,
  Option-cases, inl, inr,
}
use memoratum.Table.{select_where, find_where, update_where, count_where}
use memoratum.Table.Keyed.{Keyed}
use memoratum.Table.Rows.{count_where-append, first_row-select_where, count_where-update_one}
use memoratum.Memory.Tables.{Fact, Store, Draw, Columns, event_add, append_memory_history}
use memoratum.Outbox.{memory_add}
use memoratum.Memory.Operations.{new_memory, memory_data, add_memory, ensure_fact_memory, has_fact}
use memoratum.Memory.Linked.{newer}
use memoratum.Memory.Facts.{
  NewFact, is_same, is_current, has_fact_id, revive, close, new_fact, close_all, same_fact,
  assert_again, assert_new, add_found, add_fact,
}
use memoratum.Memory.Versions.{emit_lem}

abbrev pub fact_key : Fact → String
fact_key f = f.id

-- How many facts of the relation are current.
abbrev pub current_count : NewFact → List Fact → ℕ
current_count a fs = count_where (is_current a) fs

in_rows : String → List Fact → Bool
in_rows i [] = false
in_rows i (c ∷ cs) = let rest = in_rows i cs in if i == c.id then true else rest

-- A fact that is current is one of those that are still to be closed.
Covered : NewFact → List Fact → Fact → Type 0
Covered a cs f = is_current a f ≡ true → in_rows f.id cs ≡ true

Covered-more :
    (a : NewFact) (c : Fact) (cs fs : List Fact)
    → All (Covered a cs) fs
    → All (Covered a (c ∷ cs)) fs
unfolding Covered in_rows
Covered-more a c cs [] h = tt
Covered-more a c cs (f ∷ fs) h = ((λ e. ground (arith, h.0 e)), Covered-more a c cs fs h.1)

Covered-head : (a : NewFact) (f : Fact) (cs : List Fact) → Covered a (f ∷ cs) f
unfolding Covered in_rows
Covered-head a f cs t = ground (arith, eq_refl f.id)

Covered-not : (a : NewFact) (f : Fact) (cs : List Fact) → is_current a f ≡ false → Covered a cs f
unfolding Covered
Covered-not a f cs e t = ground (arith, e, t)

select_yes :
    (p : Fact → Bool) (f : Fact) (fs : List Fact)
    → p f ≡ true
    → select_where p (f ∷ fs) ≡ f ∷ select_where p fs
unfolding select_where
select_yes p f fs e = rw e refl

select_no :
    (p : Fact → Bool) (f : Fact) (fs : List Fact)
    → p f ≡ false
    → select_where p (f ∷ fs) ≡ select_where p fs
unfolding select_where
select_no p f fs e = rw e refl

select_where-Covered :
    (a : NewFact) (fs : List Fact) → All (Covered a (select_where (is_current a) fs)) fs
select_where-Covered a [] = tt
select_where-Covered a (f ∷ fs) = elim (Bool-cases (is_current a f)) [
  | inl e ↦
      subst (λ cs. All (Covered a cs) (f ∷ fs)) (sym (select_yes (is_current a) f fs e))
        (
          Covered-head a f (select_where (is_current a) fs),
          Covered-more a f (select_where (is_current a) fs) fs (select_where-Covered a fs),
        )
  | inr e ↦
      subst (λ cs. All (Covered a cs) (f ∷ fs)) (sym (select_no (is_current a) f fs e))
        (Covered-not a f (select_where (is_current a) fs) e, select_where-Covered a fs)
]

closed_step :
    (a : NewFact) (now : ℕ) (by : String) (c : Fact) (cs fs : List Fact)
    → All (Covered a (c ∷ cs)) fs
    → All (Covered a cs) (update_where (has_fact_id c.id) (close now by) fs)
unfolding Covered in_rows update_where
closed_step a now by c cs [] h = tt
closed_step a now by c cs (f ∷ fs) h = elim (Bool-cases (f.id == c.id)) [
  | inl e ↦ rw e ((λ t. ground (arith, t)), closed_step a now by c cs fs h.1)
  | inr e ↦ rw e ((λ t. ground (arith, e, h.0 t)), closed_step a now by c cs fs h.1)
]

none_current : (a : NewFact) (fs : List Fact) → All (Covered a []) fs → current_count a fs ≡ 0
unfolding Covered in_rows count_where
none_current a [] h = refl
none_current a (f ∷ fs) h = elim (Bool-cases (is_current a f)) [
  | inl e ↦ ground (arith, h.0 e)
  | inr e ↦ ground (arith, e, none_current a fs h.1)
]

close_all-current :
    (a : NewFact) (now : ℕ) (by : String) (cs fs : List Fact)
    → All (Covered a cs) fs
    → current_count a (close_all now by cs fs) ≡ 0
unfolding close_all
close_all-current a now by [] fs h = none_current a fs h
close_all-current a now by (c ∷ cs) fs h =
    close_all-current a now by cs _ (closed_step a now by c cs fs h)

update_where-append :
    (p : Fact → Bool) (f : Fact → Fact) (n : Fact) (fs : List Fact)
    → p n ≡ false
    → update_where p f (fs ++ n ∷ []) ≡ update_where p f fs ++ n ∷ []
unfolding update_where
update_where-append p f n [] h = rw h refl
update_where-append p f n (g ∷ gs) h =
    ap (λ hs. (if p g then f g else g) ∷ hs) (update_where-append p f n gs h)

close_all-append :
    (now : ℕ) (by : String) (n : Fact) (cs fs : List Fact)
    → All (λ (c : Fact). (n.id == c.id) ≡ false) cs
    → close_all now by cs (fs ++ n ∷ []) ≡ close_all now by cs fs ++ n ∷ []
unfolding close_all
close_all-append now by n [] fs h = refl
close_all-append now by n (c ∷ cs) fs h =
    ap (close_all now by cs) (update_where-append (has_fact_id c.id) (close now by) n fs h.0)
    ∙ close_all-append now by n cs _ h.1

differ_selected :
    (i : String) (p : Fact → Bool) (fs : List Fact)
    → find_where (has_fact_id i) fs ≡ none
    → All (λ (c : Fact). (i == c.id) ≡ false) (select_where p fs)
unfolding find_where select_where
differ_selected i p [] h = tt
differ_selected i p (f ∷ fs) h = elim (Bool-cases (f.id == i)) [
  | inl e ↦ ground (arith, e, h)
  | inr e ↦ elim (Bool-cases (p f)) [
    | inl t ↦ rw t (
      ground (arith, e, eq_iff i f.id, eq_iff f.id i),
      differ_selected i p fs (ground (arith, e, h)),
    )
    | inr t ↦ rw t (differ_selected i p fs (ground (arith, e, h)))
  ]
]

is_current-new : (i : String) (now : ℕ) (a : NewFact) → is_current a (new_fact i now a) ≡ true
is_current-new i now a = ground (
  arith,
  eq_refl a.container_tag,
  (opt_eq_iff a.org_id a.org_id).1 refl,
  (opt_eq_iff a.project_id a.project_id).1 refl,
  eq_refl a.subject,
  eq_refl a.predicate,
)

assert_new-current :
    (i : String) (now : ℕ) (a : NewFact) (fs : List Fact)
    → find_where (has_fact_id i) fs ≡ none
    → current_count a (assert_new i now true a fs) ≡ 1
unfolding assert_new
assert_new-current i now a fs fresh =
    ap (current_count a) (
      close_all-append now i (new_fact i now a) (select_where (is_current a) fs) fs
        (differ_selected i (is_current a) fs fresh))
    ∙ count_where-append (is_current a) (new_fact i now a)
        (close_all now i (select_where (is_current a) fs) fs)
    ∙ rw (is_current-new i now a) (
        ap suc (
          close_all-current a now i (select_where (is_current a) fs) fs
            (select_where-Covered a fs)))

assert_new-coexist :
    (i : String) (now : ℕ) (a : NewFact) (fs : List Fact)
    → current_count a (assert_new i now false a fs) ≡ suc (current_count a fs)
unfolding assert_new
assert_new-coexist i now a fs =
    count_where-append (is_current a) (new_fact i now a) fs ∙ rw (is_current-new i now a) refl

assert_again-current :
    (a : NewFact) (f : Fact) (fs : List Fact)
    → Keyed fact_key fs
    → same_fact a fs ≡ some f
    → is_some f.valid_to ≡ true
    → current_count a (assert_again f fs) ≡ suc (current_count a fs)
unfolding same_fact assert_again
assert_again-current a f fs k h v =
    let (same, found) = first_row-select_where fact_key (is_same a) newer fs f k h in
    rw v (
      count_where-update_one fact_key (is_current a) f.id revive fs f k found (ground (arith, v))
        (ground (arith, same)))

add_memory-facts :
    (sha256 : String → String) (draw : Draw) (actor : Option String) (c : Columns) (s : Store)
    → (add_memory sha256 draw actor c s).facts ≡ s.facts
unfolding add_memory append_memory_history
add_memory-facts sha256 draw actor c s =
    (emit_lem draw c.project_id memory_add draw.memory
      (memory_data c.text (new_memory draw c).metadata)
      (append_memory_history sha256 draw draw.memory event_add 1 none (some c.text)
        (new_memory draw c).metadata actor none
        (record s { memories = s.memories ++ new_memory draw c ∷ [] }))).2

-- The projection into a memory leaves the facts alone.
ensure_fact_memory-facts :
    (sha256 : String → String) (draw : Draw) (f : String) (c : Columns) (s : Store)
    → (ensure_fact_memory sha256 draw f c s).1.facts ≡ s.facts
unfolding ensure_fact_memory
ensure_fact_memory-facts sha256 draw f c s =
    elim (Option-cases (find_where (has_fact f) s.memories)) [
      | inl e ↦
          rw (e, ensure_fact_memory)
            (add_memory-facts sha256 draw none (record c { fact_id = some f }) s)
      | inr (m, e) ↦ rw (e, ensure_fact_memory) refl
    ]

abbrev pub facts_after : (String → String) → Draw → String → Bool → NewFact → Store → List Fact
facts_after sha256 draw i supersede a s = (add_fact sha256 draw i supersede a s).1.facts

module _ (sha256 : String → String) (draw : Draw) (i : String) (a : NewFact) (s : Store) where
  added_new :
      (supersede : Bool)
      → same_fact a s.facts ≡ none
      → facts_after sha256 draw i supersede a s ≡ assert_new i draw.now supersede a s.facts
  unfolding add_fact add_found
  added_new supersede h =
      ap (λ o. (add_found sha256 draw i supersede a o s).1.facts) h
      ∙ ensure_fact_memory-facts sha256 draw _ _ _

  added_again :
      (supersede : Bool) (f : Fact)
      → same_fact a s.facts ≡ some f
      → facts_after sha256 draw i supersede a s ≡ assert_again f s.facts
  unfolding add_fact add_found
  added_again supersede f h =
      ap (λ o. (add_found sha256 draw i supersede a o s).1.facts) h
      ∙ ensure_fact_memory-facts sha256 draw _ _ _

  -- Adding a triple that the table does not have, under a fresh id: with `supersede` exactly one fact of its
  -- relation is current afterwards, however many were before; without it there is one more than before.
  pub add_fact-new :
      find_where (has_fact_id i) s.facts ≡ none
      → same_fact a s.facts ≡ none
      → (current_count a (facts_after sha256 draw i true a s) ≡ 1)
        × (current_count a (facts_after sha256 draw i false a s) ≡ suc (current_count a s.facts))
  add_fact-new fresh h = (
    ap (current_count a) (added_new true h) ∙ assert_new-current i draw.now a s.facts fresh,
    ap (current_count a) (added_new false h) ∙ assert_new-coexist i draw.now a s.facts,
  )

  -- Adding a triple whose latest row has been closed revives that row and closes none, whether or not
  -- `supersede` is set: its relation has one current fact more than before.
  pub add_fact-revived :
      (supersede : Bool) (f : Fact)
      → Keyed fact_key s.facts
      → same_fact a s.facts ≡ some f
      → is_some f.valid_to ≡ true
      → current_count a (facts_after sha256 draw i supersede a s) ≡ suc (current_count a s.facts)
  add_fact-revived supersede f k h v =
      ap (current_count a) (added_again supersede f h) ∙ assert_again-current a f s.facts k h v
