-- ===== src/Models/Json.antt =====
-- models/base.py: the values that `JsonObject = dict[str, Any]` admits. A natural number is one, any
-- other number is kept as the text of its literal, an object of any other Python class as the text of its `repr`.
use sight_stalker.Prelude.{ℕ, Bool, Text, Option, none, some, ◌==◌, text_eq, if◌then◌else◌}

mutual
  pub data Json : Type 0 where
    null : Json
    boolean : Bool → Json
    natural : ℕ → Json
    number : Text → Json
    string : Text → Json
    array : Items → Json
    object : Fields → Json
    secret : Text → Json
    other : Text → Json

  pub data Items : Type 0 where
    nil : Items
    cons : Json → Items → Items

  pub data Fields : Type 0 where
    end : Fields
    field : Text → Json → Fields → Fields

-- `d[key] = value`, in insertion order.
unfoldable pub set_field : Text → Json → Fields → Fields
set_field k v end = field k v end
set_field k v (field j w d) = if k == j then field k v d else field j w (set_field k v d)

-- `d.get(key)`
unfoldable pub get_field : Text → Fields → Option Json
get_field k end = none
get_field k (field j w d) = if k == j then some w else get_field k d
