-- ===== src/Security/Redaction.antt =====
-- security/redaction.py. What the `re` module and `str.lower` compute is a parameter.
use sight_stalker.Prelude.{
  Bool, ◌||◌, List, [], ◌∷◌, ◌++◌, Text, codes, contains, text_eq, nat_eq, if◌then◌else◌,
}
use mathlib.Core.List.{map}
use sight_stalker.Errors.{Exc, class_name, message}
use sight_stalker.Ids.{strip}
use sight_stalker.Models.Json.{
  Json, Items, Fields, natural, number, null, boolean, string, array, object, secret, other, nil,
  cons, end, field,
}

-- `str.lower`, and the substitutions by the compiled patterns of the two redaction modules, each with
-- the replacement that its one call site passes.
pub record TextLibrary : Type 0 where
  pub lower : Text → Text
  -- `TOKENISH_PATTERN.sub(lambda m: f"{m.group(1)}=<redacted>", value)`
  pub sub_tokenish : Text → Text
  -- `_AUTH_SCHEME_PATTERN.sub(lambda m: f"{m.group(1)} {_REDACTED}", text)`
  pub sub_auth_scheme : Text → Text
  -- `_OPERATOR_KV_PATTERN.sub(lambda m: f"{m.group(1)}={_REDACTED}", text)`
  pub sub_operator_kv : Text → Text

abbrev pub redacted : Text
redacted = codes "<redacted>"

pub sensitive_field_names : List Text
sensitive_field_names = map codes (
    "cookie" ∷ "cookies" ∷ "authorization" ∷ "proxy_authorization" ∷ "access_token"
    ∷ "refresh_token" ∷ "id_token" ∷ "token" ∷ "secret" ∷ "client_secret" ∷ "password"
    ∷ "passphrase" ∷ "api_key" ∷ "apikey" ∷ "private_key" ∷ "storage_state" ∷ "local_storage"
    ∷ "session_storage" ∷ [])

pub sensitive_header_names : List Text
sensitive_header_names =
    map codes ("authorization" ∷ "proxy-authorization" ∷ "cookie" ∷ "set-cookie" ∷ "x-api-key" ∷ [])

-- `.replace("-", "_")`
unfoldable pub dashes_to_underscores : Text → Text
dashes_to_underscores = map (λ c. if nat_eq c b'-' then b'_' else c)

module _ (lib : TextLibrary) where
  unfoldable pub is_sensitive_key : Text → Bool
  unfolding strip dashes_to_underscores sensitive_field_names text_eq
  is_sensitive_key key =
      contains sensitive_field_names (dashes_to_underscores (lib.lower (strip key)))

  unfoldable pub is_sensitive_header : Text → Bool
  unfolding strip sensitive_header_names text_eq
  is_sensitive_header key = contains sensitive_header_names (lib.lower (strip key))

  unfoldable pub redact_string : Text → Text
  redact_string value = lib.sub_tokenish value

  -- `redact_value` and `redact_mapping`
  unfoldable mutual
    unfolding redact_string

    pub redact_value : Json → Json
    redact_value (secret value) = string redacted
    redact_value (string value) = string (redact_string value)
    redact_value (object d) = object (redact_mapping d)
    redact_value (array items) = array (redact_items items)
    redact_value null = null
    redact_value (boolean b) = boolean b
    redact_value (natural n) = natural n
    redact_value (number n) = number n
    redact_value (other v) = other v

    pub redact_items : Items → Items
    redact_items nil = nil
    redact_items (cons v items) = cons (redact_value v) (redact_items items)

    pub redact_mapping : Fields → Fields
    redact_mapping end = end
    redact_mapping (field key value d) =
        field key
          (if is_sensitive_key key || is_sensitive_header key
            then string redacted
            else redact_value value)
          (redact_mapping d)

  -- `redact_exception`
  unfoldable pub redact_exception : Exc → Text
  unfolding redact_string
  redact_exception e = redact_string (class_name e ++ (codes ": " ++ message e))
