-- ===== src/Persistence/Stored.antt =====
-- persistence/serialization.py: `canonical_json` and `decode_json_object`. The `json` module is a parameter: a
-- stored text is of an unknown type, since the code only passes it on.
use sight_stalker.Prelude.{
  ◌∙◌, [], ℕ, ◌≡◌, refl, Bool, true, false, ◌&&◌, some, Text, codes, Outcome, ok, raised, ◌>>=◌,
  text_le, text_le_refl, arith, ◌==◌, text_eq, nat_eq, not, if◌then◌else◌,
}
use mathlib.Core.Option
use sight_stalker.Errors.{Exc, plain, persistence_error, persistence_security_error}
use sight_stalker.Models.Json.{
  Json, Items, Fields, null, boolean, natural, number, string, array, object, secret, other, nil,
  cons, end, field, get_field,
}

-- `raise PersistenceIntegrityError(text)` and `raise PersistenceSecurityError(text)`
abbrev pub integrity_error : Text → Exc
integrity_error text = plain persistence_error (codes "PersistenceIntegrityError") text

abbrev pub security_error : Text → Exc
security_error text = plain persistence_security_error (codes "PersistenceSecurityError") text

-- An entry before the first key that is not smaller.
unfoldable pub insert_field : Text → Json → Fields → Fields
unfolding text_le
insert_field k v end = field k v end
insert_field k v (field j w d) =
    let rest = insert_field k v d in if text_le k j then field k v (field j w d) else field j w rest

-- What `sort_keys=True` writes.
unfoldable mutual
  unfolding insert_field

  pub sort_value : Json → Json
  sort_value (object d) = object (sort_fields d)
  sort_value (array items) = array (sort_items items)
  sort_value null = null
  sort_value (boolean b) = boolean b
  sort_value (natural n) = natural n
  sort_value (number n) = number n
  sort_value (string v) = string v
  sort_value (secret v) = secret v
  sort_value (other v) = other v

  pub sort_items : Items → Items
  sort_items nil = nil
  sort_items (cons v items) = cons (sort_value v) (sort_items items)

  pub sort_fields : Fields → Fields
  sort_fields end = end
  sort_fields (field k v d) = insert_field k (sort_value v) (sort_fields d)

-- What `json.dumps` accepts with `allow_nan=False`, where `is_finite` says it of the literal of a float.
unfoldable mutual
  pub is_encodable : (Text → Bool) → Json → Bool
  is_encodable is_finite (object d) = are_fields_encodable is_finite d
  is_encodable is_finite (array items) = are_items_encodable is_finite items
  is_encodable is_finite null = true
  is_encodable is_finite (boolean b) = true
  is_encodable is_finite (natural n) = true
  is_encodable is_finite (number n) = is_finite n
  is_encodable is_finite (string v) = true
  is_encodable is_finite (secret v) = false
  is_encodable is_finite (other v) = false

  pub are_items_encodable : (Text → Bool) → Items → Bool
  are_items_encodable is_finite nil = true
  are_items_encodable is_finite (cons v items) =
      is_encodable is_finite v && are_items_encodable is_finite items

  pub are_fields_encodable : (Text → Bool) → Fields → Bool
  are_fields_encodable is_finite end = true
  are_fields_encodable is_finite (field k v d) =
      is_encodable is_finite v && are_fields_encodable is_finite d

-- `json.dumps` with the arguments of `canonical_json`, `json.loads`, and the conversions of values that
-- are of another type than the one asked for.
pub record JsonLibrary : Type 1 where
  pub Stored : Type 0
  pub dumps : Json → Outcome Exc Stored
  pub loads : Stored → Outcome Exc Json
  pub is_finite : Text → Bool
  pub str_other : Json → Text
  pub int_other : Json → Outcome Exc ℕ
  pub float_other : Json → Outcome Exc Text
  pub bool_number : Text → Bool
  -- A value that can be encoded comes back with sorted keys.
  pub loads-dumps :
      (v : Json) → is_encodable is_finite v ≡ true → (dumps v >>= loads) ≡ ok (sort_value v)
  -- No other value is written.
  pub dumps_encodable :
      (v : Json) (text : Stored) → dumps v ≡ ok text → is_encodable is_finite v ≡ true

module _ (json : JsonLibrary) where
  invalid_as {ℓ} : {A : Type ℓ} → Text → Outcome Exc A → Outcome Exc A
  invalid_as text (ok a) = ok a
  invalid_as text (raised e) = raised (integrity_error text)

  -- `json.dumps` raises nothing but `TypeError` and `ValueError`.
  unfoldable pub canonical_json : Json → Outcome Exc json.Stored
  unfolding invalid_as
  canonical_json payload = invalid_as (codes "value is not JSON-serializable") (json.dumps payload)

  object_only : Json → Outcome Exc Fields
  object_only (object d) = ok d
  object_only _ = raised (integrity_error (codes "stored JSON is not an object"))

  unfoldable pub decode_json_object : json.Stored → Outcome Exc Fields
  unfolding invalid_as object_only
  decode_json_object text =
      invalid_as (codes "stored JSON is invalid") (json.loads text) >>= object_only

  written_as :
      (v : Json) (stored : Outcome Exc json.Stored) (text : json.Stored)
      → json.dumps v ≡ stored
      → invalid_as (codes "value is not JSON-serializable") stored ≡ ok text
      → json.dumps v ≡ ok text
  unfolding invalid_as
  written_as v (ok stored) text e h = e ∙ h
  written_as v (raised exc) text e h = cc

  -- What was written can be encoded.
  pub canonical_encodable :
      (d : Fields) (text : json.Stored)
      → canonical_json (object d) ≡ ok text
      → are_fields_encodable json.is_finite d ≡ true
  unfolding canonical_json is_encodable
  canonical_encodable d text h =
      json.dumps_encodable (object d) text
        (written_as (object d) (json.dumps (object d)) text refl h)

  decode_after :
      (d : Fields) (stored : Outcome Exc json.Stored)
      → (stored >>= json.loads) ≡ ok (object (sort_fields d))
      → (invalid_as (codes "value is not JSON-serializable") stored >>= decode_json_object)
        ≡ ok (sort_fields d)
  unfolding decode_json_object invalid_as object_only
  decode_after d (raised e) h = cc
  decode_after d (ok text) h = rw h refl

  -- An object comes back with sorted keys.
  pub decode-canonical :
      (d : Fields)
      → are_fields_encodable json.is_finite d ≡ true
      → (canonical_json (object d) >>= decode_json_object) ≡ ok (sort_fields d)
  unfolding canonical_json is_encodable sort_value
  decode-canonical d h = decode_after d (json.dumps (object d)) (json.loads-dumps (object d) h)

  -- `str(value)`, `int(value)`, `float(value)` and `bool(value)`
  unfoldable pub str_of : Json → Text
  str_of (string v) = v
  str_of v = json.str_other v

  unfoldable pub int_of : Json → Outcome Exc ℕ
  int_of (natural n) = ok n
  int_of (boolean true) = ok 1
  int_of (boolean false) = ok 0
  int_of v = json.int_other v

  unfoldable pub float_of : Json → Outcome Exc Text
  float_of (number n) = ok n
  float_of v = json.float_other v

  unfoldable pub bool_of : Json → Bool
  bool_of null = false
  bool_of (boolean b) = b
  bool_of (natural n) = not (nat_eq n 0)
  bool_of (number n) = json.bool_number n
  bool_of (string v) = not (v == [])
  bool_of (array nil) = false
  bool_of (array (cons v items)) = true
  bool_of (object end) = false
  bool_of (object (field k v d)) = true
  bool_of (secret v) = true
  bool_of (other v) = true

get_field-insert_field :
    (k j : Text) (v : Json) (d : Fields)
    → get_field k (insert_field j v d) ≡ (if k == j then some v else get_field k d)
unfolding insert_field get_field
get_field-insert_field k j v end = refl
get_field-insert_field k j v (field i w d) =
    ground (arith, text_le_refl j, get_field-insert_field k j v d)

-- Sorting does not change what stands under a key.
pub get_field-sort_fields :
    (k : Text) (d : Fields) → get_field k (sort_fields d) ≡ Option.map sort_value (get_field k d)
unfolding sort_fields get_field
get_field-sort_fields k end = refl
get_field-sort_fields k (field j v d) =
    ground
      (arith, get_field-insert_field k j (sort_value v) (sort_fields d), get_field-sort_fields k d)
