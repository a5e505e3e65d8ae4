-- ===== src/Security/Operator.antt =====
-- resilience/operator_redaction.py: the sanitizers of messages, titles and details.
pub mod Urls
pub mod Messages
use sight_stalker.Prelude.{
  ℕ, Bool, true, false, ◌&&◌, ◌||◌, List, [], ◌∷◌, ◌++◌, Option, none, some, Text, codes, leb, ltb,
  nat_eq, length, take, if◌then◌else◌,
}
use sight_stalker.Models.Json.{
  Json, Items, Fields, null, boolean, natural, number, string, array, object, secret, other, nil,
  cons, end, field,
}
use sight_stalker.Security.Redaction.{TextLibrary, redacted, redact_string, redact_mapping}

abbrev pub title_max_chars : ℕ
title_max_chars = 512

abbrev pub message_max_chars : ℕ
message_max_chars = 2000

-- The control characters, from both ranges, and DEL.
unfoldable pub is_control : ℕ → Bool
is_control c = ltb c 0x20 || (leb 0x7f c && leb c 0x9f)

unfoldable pub strip_control_chars : Text → Text
unfolding is_control
strip_control_chars [] = []
strip_control_chars (c ∷ text) =
    let rest = strip_control_chars text in if is_control c then rest else c ∷ rest

push_char : ℕ → List Text → List Text
push_char c [] = (c ∷ []) ∷ []
push_char c (word ∷ words) = (c ∷ word) ∷ words

-- `text.split(" ")`
pub split_spaces : Text → List Text
unfolding push_char
split_spaces [] = [] ∷ []
split_spaces (c ∷ text) =
    let rest = split_spaces text in if nat_eq c b' ' then [] ∷ rest else push_char c rest

-- `" ".join(words)`
pub join_spaces : List Text → Text
join_spaces [] = []
join_spaces (word ∷ []) = word
join_spaces (word ∷ next ∷ words) = word ++ (b' ' ∷ join_spaces (next ∷ words))

-- What follows the separator, if the text starts with it.
unfoldable pub after_prefix : Text → Text → Option Text
after_prefix [] text = some text
after_prefix (p ∷ prefix) [] = none
after_prefix (p ∷ prefix) (c ∷ text) = if nat_eq p c then after_prefix prefix text else none

prepend : ℕ → Option (Text × Text) → Option (Text × Text)
prepend c none = none
prepend c (some (before, after)) = some (c ∷ before, after)

first_cut : ℕ → Option Text → Option (Text × Text) → Option (Text × Text)
first_cut c none later = prepend c later
first_cut c (some after) later = some ([], after)

-- `text.partition("://")`: what stands before and after the first separator, if there is one.
pub partition_scheme : Text → Option (Text × Text)
unfolding first_cut prepend after_prefix
partition_scheme [] = none
partition_scheme (c ∷ text) =
    first_cut c (after_prefix (codes "://") (c ∷ text)) (partition_scheme text)

last_cut : ℕ → Text → Option Text → Option Text
last_cut c text none = if nat_eq c b'@' then some text else none
last_cut c text (some after) = some after

-- The last part of `text.rpartition("@")`, if there is an `@`.
pub after_last_at : Text → Option Text
unfolding last_cut
after_last_at [] = none
after_last_at (c ∷ text) = last_cut c text (after_last_at text)

hide_userinfo : Text → Text → Option Text → Text
hide_userinfo token scheme none = token
hide_userinfo token scheme (some host_part) =
    scheme ++ (codes "://" ++ (redacted ++ (codes "@" ++ host_part)))

redact_parts : Text → Option (Text × Text) → Text
redact_parts token none = token
redact_parts token (some (scheme, rest)) = hide_userinfo token scheme (after_last_at rest)

-- The body of the loop of `_redact_embedded_urls`; an `@` after the scheme is one in the token.
pub redact_token : Text → Text
unfolding redact_parts hide_userinfo after_last_at partition_scheme
redact_token token = redact_parts token (partition_scheme token)

pub map_words : (Text → Text) → List Text → List Text
map_words f [] = []
map_words f (word ∷ words) = f word ∷ map_words f words

unfoldable pub redact_embedded_urls : Text → Text
unfolding split_spaces join_spaces redact_token map_words
redact_embedded_urls text = join_spaces (map_words redact_token (split_spaces text))

unfoldable pub cap : Text → Text
cap text =
    if ltb message_max_chars (length text) then take message_max_chars text ++ codes "..." else text

-- `_sanitize_detail_value` and `_sanitize_leaf_urls`
unfoldable mutual
  unfolding redact_embedded_urls

  pub sanitize_detail_value : Json → Json
  sanitize_detail_value (string v) = string (redact_embedded_urls v)
  sanitize_detail_value (object d) = object (sanitize_leaf_urls d)
  sanitize_detail_value (array items) = array (sanitize_elements items)
  sanitize_detail_value (secret v) = secret v
  sanitize_detail_value null = null
  sanitize_detail_value (boolean b) = boolean b
  sanitize_detail_value (natural n) = natural n
  sanitize_detail_value (number n) = number n
  sanitize_detail_value (other v) = other v

  pub sanitize_elements : Items → Items
  sanitize_elements nil = nil
  sanitize_elements (cons v items) = cons (sanitize_detail_value v) (sanitize_elements items)

  pub sanitize_leaf_urls : Fields → Fields
  sanitize_leaf_urls end = end
  sanitize_leaf_urls (field key value d) =
      field key (sanitize_detail_value value) (sanitize_leaf_urls d)

module _ (lib : TextLibrary) where
  unfoldable pub sanitize_operator_message : Text → Text
  unfolding strip_control_chars redact_embedded_urls redact_string cap
  sanitize_operator_message value = cap (
      redact_string lib (
        lib.sub_operator_kv
          (lib.sub_auth_scheme (redact_embedded_urls (strip_control_chars value)))))

  cap_title : Text → Text
  cap_title text = if ltb title_max_chars (length text) then take title_max_chars text else text

  unfoldable pub sanitize_title_for_operator : Option Text → Option Text
  unfolding strip_control_chars redact_string cap_title
  sanitize_title_for_operator none = none
  sanitize_title_for_operator (some title) =
      some (cap_title (redact_string lib (strip_control_chars title)))

  unfoldable pub sanitize_operator_details : Option Fields → Option Fields
  unfolding redact_mapping sanitize_leaf_urls
  sanitize_operator_details none = none
  sanitize_operator_details (some details) = some (sanitize_leaf_urls (redact_mapping lib details))
