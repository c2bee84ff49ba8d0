-- ===== src/Memory/Facts.antt =====
-- facts.py: the temporal facts. `add_fact` runs in one transaction and projects its fact into a memory.
use Prim.Native.String
use memoratum.Base.{
  ℕ, String, Bool, true, ◌&&◌, ◌||◌, not, Option, none, some, List, [], ◌∷◌, ◌++◌, ◌==◌, eqb,
  if◌then◌else◌, is_some, is_none, opt_eq,
}
use memoratum.Json.{Json, Fields, end, field, get_field}
use memoratum.Table.{
  select_where, find_where, update_where, delete_where, count_where, order_by, order_with,
  first_row,
}
use memoratum.Memory.Tables.{Memory, Fact, Store, Result, ok, error, missing, Draw, Columns}
use memoratum.Memory.Operations.{ensure_fact_memory, is_unexpired, optional, page}
use memoratum.Memory.Linked.{newer}

-- The arguments of `add_fact`.
pub record NewFact : Type 0 where
  pub container_tag : String
  pub subject : String
  pub predicate : String
  pub object : String
  pub document_id : Option String
  pub metadata : Fields
  pub expires_at : Option ℕ
  pub memory_type : String
  pub org_id : Option String
  pub project_id : Option String

-- container_tag, org and project are those of the call; `IS NULL` where the call has none.
abbrev pub in_scope : NewFact → Fact → Bool
in_scope a f =
    (f.container_tag == a.container_tag)
    && opt_eq f.org_id a.org_id
    && opt_eq f.project_id a.project_id

abbrev pub same_relation : NewFact → Fact → Bool
same_relation a f = in_scope a f && (f.subject == a.subject) && (f.predicate == a.predicate)

abbrev pub is_same : NewFact → Fact → Bool
is_same a f = same_relation a f && (f.object == a.object)

abbrev pub is_current : NewFact → Fact → Bool
is_current a f = same_relation a f && is_none f.valid_to

abbrev pub has_fact_id : String → Fact → Bool
has_fact_id i f = f.id == i

abbrev pub revive : Fact → Fact
revive f = record f { valid_to = none; superseded_by = none }

abbrev pub close : ℕ → String → Fact → Fact
close now by f = record f { valid_to = some now; superseded_by = some by }

abbrev pub new_fact : String → ℕ → NewFact → Fact
new_fact i now a = record {
  id = i;
  container_tag = a.container_tag;
  subject = a.subject;
  predicate = a.predicate;
  object = a.object;
  document_id = a.document_id;
  valid_from = now;
  valid_to = none;
  superseded_by = none;
  created_at = now;
  metadata = a.metadata;
  expires_at = a.expires_at;
  memory_type = a.memory_type;
  org_id = a.org_id;
  project_id = a.project_id;
}

-- The loop over the rows that were current; each is closed by its id.
unfoldable pub close_all : ℕ → String → List Fact → List Fact → List Fact
close_all now by [] fs = fs
close_all now by (c ∷ cs) fs =
    close_all now by cs (update_where (has_fact_id c.id) (close now by) fs)

-- f"{subject} {predicate} {object}"
abbrev pub sentence : String → String → String → String
sentence s p o = String.◌++◌ s (String.◌++◌ " " (String.◌++◌ p (String.◌++◌ " " o)))

abbrev pub projection : NewFact → String → Columns
projection a text = record {
  text = text;
  container_tag = a.container_tag;
  metadata = a.metadata;
  org_id = a.org_id;
  document_id = a.document_id;
  fact_id = none;
  expires_at = a.expires_at;
  project_id = a.project_id;
}

unfoldable pub get_fact : String → List Fact → Result Fact
get_fact i fs = elim (find_where (has_fact_id i) fs) [ none ↦ error missing | some f ↦ ok f ]

-- ORDER BY created_at DESC LIMIT 1
unfoldable pub same_fact : NewFact → List Fact → Option Fact
same_fact a fs = first_row (order_with newer (select_where (is_same a) fs))

-- What `add_fact` makes of the table, and the id of the fact it asserts: a fact that is there is asserted again,
-- and revived if it was closed; else a new one is inserted, which closes the current ones if `supersede` is set.
unfoldable pub assert_again : Fact → List Fact → List Fact
assert_again f fs = if is_some f.valid_to then update_where (has_fact_id f.id) revive fs else fs

unfoldable pub assert_new : String → ℕ → Bool → NewFact → List Fact → List Fact
unfolding close_all
assert_new i now supersede a fs =
    let inserted = fs ++ new_fact i now a ∷ [] in
    if supersede then close_all now i (select_where (is_current a) fs) inserted else inserted

module _ (sha256 : String → String) where
  unfoldable pub add_found :
      Draw → String → Bool → NewFact → Option Fact → Store → Result Fact × Store
  unfolding get_fact
  add_found draw i supersede a (some f) s =
      let s' =
        (ensure_fact_memory sha256 draw f.id
          (projection a (sentence f.subject f.predicate f.object))
          (record s { facts = assert_again f s.facts })).1 in
      (get_fact f.id s'.facts, s')
  add_found draw i supersede a none s =
      let s' =
        (ensure_fact_memory sha256 draw i (projection a (sentence a.subject a.predicate a.object))
          (record s { facts = assert_new i draw.now supersede a s.facts })).1 in
      (get_fact i s'.facts, s')

  unfoldable pub add_fact : Draw → String → Bool → NewFact → Store → Result Fact × Store
  unfolding add_found
  add_fact draw i supersede a s = add_found draw i supersede a (same_fact a s.facts) s

-- The foreign keys: a fact that another one names as its successor cannot go, and memories forget a fact that goes.
unfoldable pub delete_fact : String → Store → Option (Bool × Store)
delete_fact i s =
    if is_some (
        find_where (λ (f : Fact). opt_eq f.superseded_by (some i))
          (delete_where (has_fact_id i) s.facts))
      && is_some (find_where (has_fact_id i) s.facts)
    then none
    else some (
      not (eqb (count_where (has_fact_id i) s.facts) 0),
      record s {
        facts = delete_where (has_fact_id i) s.facts;
        memories =
            update_where (λ (m : Memory). opt_eq m.fact_id (some i))
              (λ (m : Memory). record m { fact_id = none }) s.memories;
      },
    )

module _ (equal : Json → Json → Bool) where
  -- all(meta.get(k) == v for k, v in filters.items())
  unfoldable pub matches : Fields → Fields → Bool
  unfolding get_field
  matches meta end = true
  matches meta (field k v fs) =
      let rest = matches meta fs in
      elim (get_field k meta) [ none ↦ equal Json.null v && rest | some w ↦ equal w v && rest ]

module _ (now : ℕ) (include_superseded : Bool) (memory_type org project : Option String) where
  abbrev pub is_visible : String → Fact → Bool
  is_visible tag f =
      (f.container_tag == tag)
      && (include_superseded || (is_none f.valid_to && is_unexpired now f.expires_at))
      && optional memory_type (some f.memory_type)
      && optional org f.org_id
      && optional project f.project_id

  -- The filters apply to the page.
  unfoldable pub list_facts :
      (Json → Json → Bool) → String → Fields → Option ℕ → ℕ → List Fact → List Fact
  unfolding matches
  list_facts equal tag filters limit offset fs =
      select_where (λ f. matches equal f.metadata filters)
        (page limit offset (order_by (λ f. f.created_at) (select_where (is_visible tag) fs)))

  unfoldable pub count_facts : String → List Fact → ℕ
  count_facts tag fs = count_where (is_visible tag) fs
