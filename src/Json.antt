-- ===== src/Json.antt =====
-- JSON values as Python holds them after `json.loads`. A column that stores `json.dumps(v)` is
-- modelled by `v` itself: dumping and loading return the same value.
use memoratum.Base.{String, Bool, ℕ, Option, none, some, ◌==◌, if◌then◌else◌}

mutual
  pub data Json : Type 0 where
    null : Json
    bool : Bool → Json
    num : ℕ → Json
    str : String → Json
    arr : Items → Json
    obj : Fields → Json

  pub data Items : Type 0 where
    nil : Items
    cons : Json → Items → Items

  pub data Fields : Type 0 where
    end : Fields
    field : String → Json → Fields → Fields

-- payload.get(key)
unfoldable pub get_field : String → Fields → Option Json
get_field k end = none
get_field k (field j v fs) = if j == k then some v else get_field k fs

-- value if isinstance(value, str) else None
unfoldable pub as_text : Option Json → Option String
as_text (some (str s)) = some s
as_text _ = none

-- payload.get(key) where only a text counts
unfoldable pub get_text : String → Fields → Option String
unfolding get_field as_text
get_text k fs = as_text (get_field k fs)
