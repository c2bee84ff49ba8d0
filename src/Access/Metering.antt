-- ===== src/Access/Metering.antt =====
-- `record_usage` of db.py: the per-key usage row that an authorized request increments.
use memoratum.Base.{
  ℕ, ◌+◌, String, Bool, true, false, ◌&&◌, not, Option, none, some, List, [], ◌∷◌, ◌++◌, ◌==◌,
  if◌then◌else◌, is_some, or_blank,
}
use memoratum.Table.{find_where, update_where}
use memoratum.Access.{Usage}

-- The keys of `_USAGE_COLUMNS`; any other operation is a ValueError.
pub data Operation : Type 0 where
  request search document fact unknown : Operation

abbrev pub units_of : Operation → Operation → ℕ
units_of search search = 1
units_of document document = 1
units_of fact fact = 1
units_of _ _ = 0

abbrev pub same_counter : String → String → String → String → Usage → Bool
same_counter key tag org project u =
    u.key_hash == key && u.container_tag == tag && u.org_id == org && u.project_id == project

abbrev pub fresh_usage : ℕ → String → String → String → String → Operation → ℕ → Usage
fresh_usage now key tag org project operation chars = record {
  key_hash = key;
  container_tag = tag;
  org_id = org;
  project_id = project;
  requests = 1;
  searches = units_of search operation;
  document_writes = units_of document operation;
  fact_writes = units_of fact operation;
  input_chars = chars;
  created_at = now;
  updated_at = now;
}

abbrev pub add_usage : ℕ → Operation → ℕ → Usage → Usage
add_usage now operation chars u = record u {
  requests = u.requests + 1;
  searches = u.searches + units_of search operation;
  document_writes = u.document_writes + units_of document operation;
  fact_writes = u.fact_writes + units_of fact operation;
  input_chars = u.input_chars + chars;
  updated_at = now;
}

abbrev pub is_known : Operation → Bool
is_known unknown = false
is_known _ = true

abbrev pub blank_or_anonymous : Option String → String
blank_or_anonymous none = "anonymous"
blank_or_anonymous (some k) = if k == "" then "anonymous" else k

-- `record_usage` with one unit, the default that every caller keeps; `none` is the ValueError.
unfoldable pub record_usage :
    ℕ
    → Option String
    → Option String
    → Option String
    → Option String
    → Operation
    → ℕ
    → List Usage
    → Option (List Usage)
record_usage now key tag org project operation chars usage =
    let k = blank_or_anonymous key in
    let same = same_counter k (or_blank tag) (or_blank org) (or_blank project) in
    if not (is_known operation)
    then none
    else if is_some (find_where same usage)
    then some (update_where same (add_usage now operation chars) usage)
    else some (
        usage
        ++ fresh_usage now k (or_blank tag) (or_blank org) (or_blank project) operation chars ∷ [])
