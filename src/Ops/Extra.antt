-- ===== src/Ops/Extra.antt =====
-- ops/runs.py: `_safe_extra`, the check of what a plan adds to the output.
pub mod Clean
use sight_stalker.Prelude.{Bool, true, false, ◌&&◌, Text, codes, Outcome, ok, raised, if◌then◌else◌}
use sight_stalker.Errors.{Exc}
use sight_stalker.Models.Json.{
  Json, Items, Fields, null, boolean, natural, number, string, array, object, secret, other, nil,
  cons, end, field,
}
use sight_stalker.Security.Redaction.{TextLibrary}
use sight_stalker.Security.Operator.{sanitize_operator_message}
use sight_stalker.Resilience.Native.{browser_runtime_error}
use sight_stalker.Ops.Modes.{raise_native}

-- `_is_json_safe`; the keys of `Fields` are texts.
unfoldable mutual
  pub is_json_safe : Json → Bool
  is_json_safe null = true
  is_json_safe (boolean b) = true
  is_json_safe (natural n) = true
  is_json_safe (number n) = true
  is_json_safe (string v) = true
  is_json_safe (array items) = are_items_safe items
  is_json_safe (object d) = are_fields_safe d
  is_json_safe (secret v) = false
  is_json_safe (other v) = false

  pub are_items_safe : Items → Bool
  are_items_safe nil = true
  are_items_safe (cons v items) = is_json_safe v && are_items_safe items

  pub are_fields_safe : Fields → Bool
  are_fields_safe end = true
  are_fields_safe (field key v d) = is_json_safe v && are_fields_safe d

module _ (lib : TextLibrary) where
  -- `_sanitize_extra_value`
  unfoldable mutual
    unfolding sanitize_operator_message

    pub sanitize_extra_value : Json → Json
    sanitize_extra_value (string v) = string (sanitize_operator_message lib v)
    sanitize_extra_value (array items) = array (sanitize_extra_items items)
    sanitize_extra_value (object d) = object (sanitize_extra_fields d)
    sanitize_extra_value null = null
    sanitize_extra_value (boolean b) = boolean b
    sanitize_extra_value (natural n) = natural n
    sanitize_extra_value (number n) = number n
    sanitize_extra_value (secret v) = secret v
    sanitize_extra_value (other v) = other v

    pub sanitize_extra_items : Items → Items
    sanitize_extra_items nil = nil
    sanitize_extra_items (cons v items) = cons (sanitize_extra_value v) (sanitize_extra_items items)

    pub sanitize_extra_fields : Fields → Fields
    sanitize_extra_fields end = end
    sanitize_extra_fields (field key v d) =
        field key (sanitize_extra_value v) (sanitize_extra_fields d)

  unfoldable pub safe_extra : Fields → Outcome Exc Fields
  unfolding are_fields_safe sanitize_extra_fields raise_native
  safe_extra extra =
      if are_fields_safe extra
      then ok (sanitize_extra_fields extra)
      else raised (
          raise_native lib browser_runtime_error
            (codes "plan produced non-JSON-safe output metadata"))
