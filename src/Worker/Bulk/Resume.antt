-- ===== src/Worker/Bulk/Resume.antt =====
-- worker.py: a bulk job that is run again goes on where it stopped.
use memoratum.Base.{
  ℕ, suc, ◌+◌, ◌≤◌, ◌<◌, String, true, Option, none, some, List, [], ◌∷◌, ◌++◌, eqb, ◌≡◌, refl, sym,
  ap, ◌∙◌, subst, arith, All, length, append_assoc, append-nil,
}
use memoratum.Json.{Items, nil, cons, Fields, num, obj, get_field}
use memoratum.Memory.Tables.{Store}
use memoratum.Worker.Bulk.Indexes.{run_item-index}
use memoratum.Worker.Bulk.{
  BulkOperation, Payload, Vectors, has_index, prior_item, is_terminal, finished_item, run_item,
  to_items, no_object, Batch, take_item, bulk_step, bulk_loop, bulk_memories, bulk_result,
}

-- The items have the indexes from `i` on.
abbrev Numbered : ℕ → List Fields → Type 0
Numbered i [] = Unit
Numbered i (f ∷ fs) = (get_field "index" f ≡ some (num i)) × Numbered (suc i) fs

-- The items of an earlier attempt name these, from the index `i` on.
abbrev Covers : Items → ℕ → List Fields → Type 0
Covers prior i [] = Unit
Covers prior i (f ∷ fs) = (prior_item i prior ≡ some f) × Covers prior (suc i) fs

has_index-Numbered :
    (i j : ℕ) (f : Fields) → get_field "index" f ≡ some (num i) → has_index j f ≡ eqb i j
has_index-Numbered i j f h = rw (h, has_index)

prior_item-before :
    (i j : ℕ) (fs : List Fields) → Numbered i fs → j < i → prior_item j (to_items fs) ≡ none
unfolding prior_item
prior_item-before i j [] h k = refl
prior_item-before i j (f ∷ fs) h k =
    rw (prior_item-before (suc i) j fs h.1 (omega (arith, k)), has_index-Numbered i j f h.0)
      (ground (arith, k))

prior_item-behind :
    (i j : ℕ) (fs : List Fields)
    → Numbered i fs
    → i + length fs ≤ j
    → prior_item j (to_items fs) ≡ none
unfolding prior_item
prior_item-behind i j [] h k = refl
prior_item-behind i j (f ∷ fs) h k =
    rw (prior_item-behind (suc i) j fs h.1 (omega (arith, k)), has_index-Numbered i j f h.0)
      (ground (arith, k))

Covers-cons :
    (g : Fields) (fs : List Fields) (prior : Items) (i : ℕ)
    → Covers prior i fs
    → Covers (cons (obj g) prior) i fs
unfolding prior_item
Covers-cons g [] prior i h = tt
Covers-cons g (f ∷ fs) prior i h = (rw h.0, Covers-cons g fs prior (suc i) h.1)

to_items-Covers : (i : ℕ) (fs : List Fields) → Numbered i fs → Covers (to_items fs) i fs
unfolding prior_item
to_items-Covers i [] h = tt
to_items-Covers i (f ∷ fs) h = (
  rw (prior_item-before (suc i) i fs h.1 (omega arith), has_index-Numbered i i f h.0)
      (ground arith),
  Covers-cons f fs (to_items fs) (suc i) (to_items-Covers (suc i) fs h.1),
)

appended : (p fs : List Fields) (f : Fields) → (p ++ f ∷ []) ++ fs ≡ p ++ f ∷ fs
appended p fs f = append_assoc p (f ∷ []) fs

finished_item-Covers :
    (i : ℕ) (prior : Items) (f : Fields)
    → prior_item i prior ≡ some f
    → is_terminal f ≡ true
    → finished_item i prior ≡ some f
unfolding finished_item
finished_item-Covers i prior f h t = rw (h, t)

finished_item-none :
    (i : ℕ) (prior : Items) → prior_item i prior ≡ none → finished_item i prior ≡ none
unfolding finished_item
finished_item-none i prior h = rw h

module _ (sha256 : String → String) (payload : Payload) (vectors : Option Vectors) (b : Batch) where
  abbrev loop : Items → ℕ → List (Option BulkOperation) → List Fields → Store → List Fields × Store
  loop prior i ops p s = bulk_loop sha256 payload vectors b prior i ops p s

  -- A run with nothing finished before adds one item for each operation; a run that has them all
  -- finished adds the same ones and touches no table.
  abbrev Adds : ℕ → List (Option BulkOperation) → List Fields → Store → List Fields → Type 0
  Adds i ops p s fs =
      ((loop nil i ops p s).0 ≡ p ++ fs)
      × Numbered i fs
      × (length fs ≡ length ops)
      × ((prior : Items)
          → Covers prior i fs
          → All (λ f. is_terminal f ≡ true) fs
          → (t : Store) → loop prior i ops p t ≡ (p ++ fs, t))

  step : Items → ℕ → Option BulkOperation → List Fields → Store → List Fields × Store
  step prior i op p s = bulk_step sha256 payload vectors b prior i op p s

  -- What a step adds, and that it adds the same if an earlier attempt has finished its item.
  step-adds :
      (i : ℕ) (op : Option BulkOperation) (p : List Fields) (s : Store)
      → (f : Fields) × ((step nil i op p s).0 ≡ p ++ f ∷ [])
        × (get_field "index" f ≡ some (num i))
        × ((prior : Items)
            → prior_item i prior ≡ some f
            → is_terminal f ≡ true
            → (t : Store) → step prior i op p t ≡ (p ++ f ∷ [], t))
  unfolding step bulk_step take_item get_field
  step-adds i none p s = (no_object i, refl, refl, (λ prior c a t. refl))
  step-adds i (some op) p s =
      let f = (run_item sha256 payload vectors (b.draws i) i op s).0 in
      (
        f,
        refl,
        run_item-index sha256 payload vectors (b.draws i) i op s,
        (λ prior c a t.
            ap (λ o. take_item sha256 payload vectors b o i op p t)
              (finished_item-Covers i prior f c a)),
      )

  step-beyond :
      (prior : Items) (i : ℕ) (op : Option BulkOperation) (p : List Fields) (s : Store)
      → prior_item i prior ≡ none
      → step prior i op p s ≡ step nil i op p s
  unfolding step bulk_step
  step-beyond prior i none p s h = refl
  step-beyond prior i (some op) p s h =
      ap (λ o. take_item sha256 payload vectors b o i op p s) (finished_item-none i prior h)

  loop-Adds :
      (i : ℕ) (ops : List (Option BulkOperation)) (p : List Fields) (s : Store)
      → (fs : List Fields) × Adds i ops p s fs
  unfolding bulk_loop step
  loop-Adds i [] p s =
      ([], (sym (append-nil p), tt, refl, (λ prior c a t. ap (λ x. (x, t)) (sym (append-nil p)))))
  loop-Adds i (op ∷ ops) p s =
      let (f, e, n, skip) = step-adds i op p s in
      let next = step nil i op p s in
      let (fs, (es, ns, l, skips)) = loop-Adds (suc i) ops next.0 next.1 in
      let whole = ap (λ x. x ++ fs) e ∙ appended p fs f in
      (
        f ∷ fs,
        (
          es ∙ whole,
          (n, ns),
          ap suc l,
          (λ prior c a t.
              ap (λ r. loop prior (suc i) ops r.0 r.1)
                (skip prior c.0 a.0 t ∙ ap (λ x. (x, t)) (sym e))
              ∙ skips prior c.1 a.1 t
              ∙ ap (λ x. (x, t)) whole),
        ),
      )

  loop-beyond :
      (prior : Items) (i : ℕ) (ops : List (Option BulkOperation)) (p : List Fields) (s : Store)
      → ((j : ℕ) → i ≤ j → prior_item j prior ≡ none)
      → loop prior i ops p s ≡ loop nil i ops p s
  unfolding bulk_loop step
  loop-beyond prior i [] p s h = refl
  loop-beyond prior i (op ∷ ops) p s h =
      let next = step nil i op p s in
      ap (λ r. loop prior (suc i) ops r.0 r.1) (step-beyond prior i op p s (h i (omega arith)))
      ∙ loop-beyond prior (suc i) ops next.0 next.1 (λ j k. h j (omega (arith, k)))

  loop-append :
      (prior : Items) (i : ℕ) (xs ys : List (Option BulkOperation)) (p : List Fields) (s : Store)
      → loop prior i (xs ++ ys) p s
        ≡ loop prior (i + length xs) ys (loop prior i xs p s).0 (loop prior i xs p s).1
  unfolding bulk_loop step
  loop-append prior i [] ys p s = ap (λ k. loop prior k ys p s) (omega arith)
  loop-append prior i (op ∷ xs) ys p s =
      let next = step prior i op p s in
      let done = loop prior (suc i) xs next.0 next.1 in
      loop-append prior (suc i) xs ys next.0 next.1
      ∙ ap (λ k. loop prior k ys done.0 done.1) (omega arith)

  -- A bulk job that stopped behind its first operations and is run again from the items that it
  -- saved ends as if it had not stopped, if each of these items was finished.
  pub bulk_memories-resume :
      (first rest : List (Option BulkOperation)) (s : Store)
      → All (λ f. is_terminal f ≡ true) (bulk_loop sha256 payload vectors b nil 0 first [] s).0
      → bulk_memories sha256 payload vectors b
          (to_items (bulk_loop sha256 payload vectors b nil 0 first [] s).0)
          (first ++ rest)
          (bulk_loop sha256 payload vectors b nil 0 first [] s).1
        ≡ bulk_memories sha256 payload vectors b nil (first ++ rest) s
  unfolding bulk_memories
  bulk_memories-resume first rest s h =
      let (fs, (e, n, l, skip)) = loop-Adds 0 first [] s in
      let (items, t) = loop nil 0 first [] s in
      let prior = to_items items in
      let cover = subst (λ x. Covers (to_items x) 0 fs) (sym e) (to_items-Covers 0 fs n) in
      let skipped = skip prior cover (subst (All (λ f. is_terminal f ≡ true)) e h) t in
      let behind = λ (j : ℕ) (k : length first ≤ j).
        subst (λ x. prior_item j (to_items x) ≡ none) (sym e)
          (prior_item-behind 0 j fs n (omega (arith, l, k))) in
      ap (λ r. (bulk_result b.total r.0, r.1))
        (loop-append prior 0 first rest [] t
          ∙ ap (λ r. loop prior (0 + length first) rest r.0 r.1)
              (skipped ∙ ap (λ x. (x, t)) (sym e))
          ∙ loop-beyond prior (0 + length first) rest items t (λ j k. behind j (omega (arith, k)))
          ∙ sym (loop-append nil 0 first rest [] s))
