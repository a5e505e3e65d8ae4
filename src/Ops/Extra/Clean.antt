-- ===== src/Ops/Extra/Clean.antt =====
-- What `_safe_extra` lets through.
use sight_stalker.Prelude.{
  ◌≡◌, refl, ap, ◌≤◌, Bool, true, false, ◌&&◌, List, [], ◌∷◌, Text, Outcome, ok, raised, length,
  arith, Bool-cases, inl, inr,
}
use sight_stalker.Errors.{Exc}
use sight_stalker.Models.Json.{
  Json, Items, Fields, null, boolean, natural, number, string, array, object, secret, other, nil,
  cons, end, field,
}
use sight_stalker.Security.Redaction.{TextLibrary}
use sight_stalker.Security.Operator.Messages.{length-sanitize_operator_message}
use sight_stalker.Ops.Extra.{
  is_json_safe, are_items_safe, are_fields_safe, sanitize_extra_value, sanitize_extra_items,
  sanitize_extra_fields, safe_extra,
}

-- No value that is a text of more than 2003 characters, and none that is not JSON, at any depth. The
-- keys of objects are not looked at.
mutual
  pub IsClean : Json → Type 0
  IsClean (string v) = length v ≤ 2003
  IsClean (array items) = AreItemsClean items
  IsClean (object d) = AreFieldsClean d
  IsClean (secret v) = ⊥
  IsClean (other v) = ⊥
  IsClean null = Unit
  IsClean (boolean b) = Unit
  IsClean (natural n) = Unit
  IsClean (number n) = Unit

  pub AreItemsClean : Items → Type 0
  AreItemsClean nil = Unit
  AreItemsClean (cons v items) = IsClean v × AreItemsClean items

  pub AreFieldsClean : Fields → Type 0
  AreFieldsClean end = Unit
  AreFieldsClean (field key v d) = IsClean v × AreFieldsClean d

abbrev pub keys : Fields → List Text
keys end = []
keys (field key v d) = key ∷ keys d

and_left : (a b : Bool) → (a && b) ≡ true → a ≡ true
and_left a b h = ground arith

and_right : (a b : Bool) → (a && b) ≡ true → b ≡ true
and_right a b h = ground arith

module _ (lib : TextLibrary) where
  mutual
    unfolding IsClean is_json_safe sanitize_extra_value

    sanitize_extra_value-IsClean :
        (v : Json) → is_json_safe v ≡ true → IsClean (sanitize_extra_value lib v)
    sanitize_extra_value-IsClean (string v) h = length-sanitize_operator_message lib v
    sanitize_extra_value-IsClean (array items) h = sanitize_extra_items-AreItemsClean items h
    sanitize_extra_value-IsClean (object d) h = sanitize_extra_fields-AreFieldsClean d h
    sanitize_extra_value-IsClean (secret v) h = ground arith
    sanitize_extra_value-IsClean (other v) h = ground arith
    sanitize_extra_value-IsClean null h = tt
    sanitize_extra_value-IsClean (boolean b) h = tt
    sanitize_extra_value-IsClean (natural n) h = tt
    sanitize_extra_value-IsClean (number n) h = tt

    sanitize_extra_items-AreItemsClean :
        (items : Items)
        → are_items_safe items ≡ true
        → AreItemsClean (sanitize_extra_items lib items)
    sanitize_extra_items-AreItemsClean nil h = tt
    sanitize_extra_items-AreItemsClean (cons v items) h = (
      sanitize_extra_value-IsClean v (and_left (is_json_safe v) (are_items_safe items) h),
      sanitize_extra_items-AreItemsClean items
          (and_right (is_json_safe v) (are_items_safe items) h),
    )

    sanitize_extra_fields-AreFieldsClean :
        (d : Fields) → are_fields_safe d ≡ true → AreFieldsClean (sanitize_extra_fields lib d)
    sanitize_extra_fields-AreFieldsClean end h = tt
    sanitize_extra_fields-AreFieldsClean (field key v d) h = (
      sanitize_extra_value-IsClean v (and_left (is_json_safe v) (are_fields_safe d) h),
      sanitize_extra_fields-AreFieldsClean d (and_right (is_json_safe v) (are_fields_safe d) h),
    )

  keys-sanitize_extra_fields : (d : Fields) → keys (sanitize_extra_fields lib d) ≡ keys d
  unfolding sanitize_extra_fields
  keys-sanitize_extra_fields end = refl
  keys-sanitize_extra_fields (field key v d) = ap (λ ks. key ∷ ks) (keys-sanitize_extra_fields d)

  -- Clean, with the keys that the plan gave; refused only if it is not JSON.
  abbrev pub IsCleaned : Fields → Outcome Exc Fields → Type 0
  IsCleaned extra (ok out) = AreFieldsClean out × (keys out ≡ keys extra)
  IsCleaned extra (raised e) = are_fields_safe extra ≡ false

  -- In what `_safe_extra` returns no value, at any depth, is a text of more than 2003 characters or an
  -- object that is not JSON. Keys are not shortened: the outermost ones are those of the plan's extra
  -- output, in order. It raises only if that output holds an object that is not JSON.
  pub safe_extra-IsCleaned : (extra : Fields) → IsCleaned extra (safe_extra lib extra)
  unfolding safe_extra
  safe_extra-IsCleaned extra = elim (Bool-cases (are_fields_safe extra)) [
    | inl safe ↦
        rw safe (sanitize_extra_fields-AreFieldsClean extra safe, keys-sanitize_extra_fields extra)
    | inr unsafe ↦ rw unsafe unsafe
  ]
