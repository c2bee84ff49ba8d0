-- ===== src/Memory/Text.antt =====
-- db.py: the merging of metadata.
use memoratum.Base.{String, Bool, ◌||◌, ◌==◌, if◌then◌else◌}
use memoratum.Json.{Json, Fields, end, field}

-- _MEMORY_IDENTITY_KEYS
abbrev pub is_identity_key : String → Bool
is_identity_key k =
    (k == "user_id") || (k == "agent_id") || (k == "app_id") || (k == "run_id") || (k == "actor_id")

unfoldable pub clean_memory_metadata : Fields → Fields
clean_memory_metadata end = end
clean_memory_metadata (field k v fs) =
    let rest = clean_memory_metadata fs in if is_identity_key k then rest else field k v rest

-- d[k] = v
unfoldable pub set_field : String → Json → Fields → Fields
set_field k v end = field k v end
set_field k v (field j w fs) =
    let rest = set_field k v fs in if j == k then field j v fs else field j w rest

-- {**a, **b}
unfoldable pub merge_fields : Fields → Fields → Fields
unfolding set_field
merge_fields a end = a
merge_fields a (field k v fs) = merge_fields (set_field k v a) fs
