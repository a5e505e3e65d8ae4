-- ===== src/Security/Mapping.antt =====
-- `redact_mapping` at every depth.
use sight_stalker.Prelude.{◌≡◌, refl, Bool, true, false, ◌||◌, some, if◌then◌else◌}
use mathlib.Core.Path.{ap, ◌∙◌, subst}
use mathlib.Core.Option.{some-injective}
use sight_stalker.Models.Json.{
  Json, Items, Fields, null, boolean, natural, number, string, array, object, secret, other, nil,
  cons, end, field,
}
use sight_stalker.Security.Redaction.{
  TextLibrary, redacted, is_sensitive_key, is_sensitive_header, redact_value, redact_items,
  redact_mapping,
}
use sight_stalker.Security.Operator.{
  sanitize_detail_value, sanitize_elements, sanitize_leaf_urls, sanitize_operator_details,
  redact_embedded_urls,
}

module _ (lib : TextLibrary) where
  -- No secret value is left, and each sensitive key, at every depth, has the value `<redacted>`.
  unfoldable mutual
    pub IsRedacted : Json → Type 0
    IsRedacted (secret value) = ⊥
    IsRedacted (object d) = AreFieldsRedacted d
    IsRedacted (array items) = AreItemsRedacted items
    IsRedacted (string value) = Unit
    IsRedacted null = Unit
    IsRedacted (boolean b) = Unit
    IsRedacted (natural n) = Unit
    IsRedacted (number n) = Unit
    IsRedacted (other v) = Unit

    pub AreItemsRedacted : Items → Type 0
    AreItemsRedacted nil = Unit
    AreItemsRedacted (cons v items) = IsRedacted v × AreItemsRedacted items

    pub AreFieldsRedacted : Fields → Type 0
    AreFieldsRedacted end = Unit
    AreFieldsRedacted (field key value d) =
        (is_sensitive_key lib key || is_sensitive_header lib key ≡ true → value ≡ string redacted)
        × IsRedacted value
        × AreFieldsRedacted d

  field-IsRedacted :
      (b : Bool) (v : Json)
      → IsRedacted v
      → (b ≡ true → (if b then string redacted else v) ≡ string redacted)
        × IsRedacted (if b then string redacted else v)
  unfolding IsRedacted
  field-IsRedacted true v h = (λ e. refl, tt)
  field-IsRedacted false v h = (λ e. cc, h)

  mutual
    unfolding IsRedacted redact_value

    redact_value-IsRedacted : (v : Json) → IsRedacted (redact_value lib v)
    redact_value-IsRedacted (secret value) = tt
    redact_value-IsRedacted (object d) = redact_mapping-AreFieldsRedacted d
    redact_value-IsRedacted (array items) = redact_items-AreItemsRedacted items
    redact_value-IsRedacted (string value) = tt
    redact_value-IsRedacted null = tt
    redact_value-IsRedacted (boolean b) = tt
    redact_value-IsRedacted (natural n) = tt
    redact_value-IsRedacted (number n) = tt
    redact_value-IsRedacted (other v) = tt

    redact_items-AreItemsRedacted : (items : Items) → AreItemsRedacted (redact_items lib items)
    redact_items-AreItemsRedacted nil = tt
    redact_items-AreItemsRedacted (cons v items) =
        (redact_value-IsRedacted v, redact_items-AreItemsRedacted items)

    redact_mapping-AreFieldsRedacted : (d : Fields) → AreFieldsRedacted (redact_mapping lib d)
    redact_mapping-AreFieldsRedacted end = tt
    redact_mapping-AreFieldsRedacted (field key value d) =
        let (hidden, inside) =
          field-IsRedacted (is_sensitive_key lib key || is_sensitive_header lib key)
            (redact_value lib value) (redact_value-IsRedacted value) in
        (hidden, inside, redact_mapping-AreFieldsRedacted d)

  redacted_marker : redact_embedded_urls redacted ≡ redacted
  unfolding redact_embedded_urls
  redacted_marker = refl

  detail_marker : (v : Json) → v ≡ string redacted → sanitize_detail_value v ≡ string redacted
  unfolding sanitize_detail_value
  detail_marker v e = ap sanitize_detail_value e ∙ ap string redacted_marker

  mutual
    unfolding IsRedacted sanitize_detail_value

    sanitize_detail-IsRedacted : (v : Json) → IsRedacted v → IsRedacted (sanitize_detail_value v)
    sanitize_detail-IsRedacted (secret value) h = h
    sanitize_detail-IsRedacted (object d) h = sanitize_leaf_urls-AreFieldsRedacted d h
    sanitize_detail-IsRedacted (array items) h = sanitize_elements-AreItemsRedacted items h
    sanitize_detail-IsRedacted (string value) h = tt
    sanitize_detail-IsRedacted null h = tt
    sanitize_detail-IsRedacted (boolean b) h = tt
    sanitize_detail-IsRedacted (natural n) h = tt
    sanitize_detail-IsRedacted (number n) h = tt
    sanitize_detail-IsRedacted (other v) h = tt

    sanitize_elements-AreItemsRedacted :
        (items : Items) → AreItemsRedacted items → AreItemsRedacted (sanitize_elements items)
    sanitize_elements-AreItemsRedacted nil h = tt
    sanitize_elements-AreItemsRedacted (cons v items) (h, k) =
        (sanitize_detail-IsRedacted v h, sanitize_elements-AreItemsRedacted items k)

    sanitize_leaf_urls-AreFieldsRedacted :
        (d : Fields) → AreFieldsRedacted d → AreFieldsRedacted (sanitize_leaf_urls d)
    sanitize_leaf_urls-AreFieldsRedacted end h = tt
    sanitize_leaf_urls-AreFieldsRedacted (field key value d) (hidden, h, k) = (
      λ e. detail_marker value (hidden e),
      sanitize_detail-IsRedacted value h,
      sanitize_leaf_urls-AreFieldsRedacted d k,
    )

  -- After `redact_mapping` no secret value is left anywhere in the mapping, and each key that
  -- `is_sensitive_key` or `is_sensitive_header` knows, at every depth, has the value `<redacted>`.
  pub redact_mapping-redacts : (d : Fields) → AreFieldsRedacted (redact_mapping lib d)
  redact_mapping-redacts d = redact_mapping-AreFieldsRedacted d

  -- The same holds of the details that an operator is shown, whose texts have gone through the URL
  -- sanitizer as well.
  pub sanitize_operator_details-redacts :
      (details redacted_details : Fields)
      → sanitize_operator_details lib (some details) ≡ some redacted_details
      → AreFieldsRedacted redacted_details
  unfolding sanitize_operator_details
  sanitize_operator_details-redacts details shown e =
      subst AreFieldsRedacted (some-injective _ _ e) (
        sanitize_leaf_urls-AreFieldsRedacted (redact_mapping lib details)
          (redact_mapping-AreFieldsRedacted details))
