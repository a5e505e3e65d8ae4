-- ===== src/Security/Tests.antt =====
-- The redactors on a library whose substitutions change nothing.
use sight_stalker.Prelude.{◌≡◌, refl, ◌≤◌, codes, length, has_char, some, none, string_eq, text_eq}
use sight_stalker.Models.Json.{Fields, string, object, secret, end, field}
use sight_stalker.Security.Redaction.{
  redacted, is_sensitive_key, is_sensitive_header, redact_mapping,
}
use sight_stalker.Security.Fixture.{plain_library}
use sight_stalker.Security.Operator.{sanitize_operator_message, sanitize_operator_details}
use sight_stalker.Security.Mapping.{
  AreFieldsRedacted, redact_mapping-redacts, sanitize_operator_details-redacts,
}
use sight_stalker.Security.Operator.Urls.{url}
use sight_stalker.Security.Operator.Messages.{
  around, sanitize_operator_message-hides, length-sanitize_operator_message,
}

abbrev details : Fields
details = field (codes "password") (string (codes "hunter2")) (
    field (codes "proxy")
      (object (
        field (codes "server") (string (codes "http://u:p@h"))
          (field (codes "token") (secret (codes "t")) end)))
      end)

abbrev shown : Fields
shown = field (codes "password") (string redacted) (
    field (codes "proxy")
      (object (
        field (codes "server") (string (codes "http://<redacted>@h"))
          (field (codes "token") (string redacted) end)))
      end)

details_shown : sanitize_operator_details plain_library (some details) ≡ some shown
unfolding sanitize_operator_details is_sensitive_key is_sensitive_header
details_shown = refl

redact_mapping_example : AreFieldsRedacted plain_library (redact_mapping plain_library details)
redact_mapping_example = redact_mapping-redacts plain_library details

sanitize_operator_details_example : AreFieldsRedacted plain_library shown
sanitize_operator_details_example =
    sanitize_operator_details-redacts plain_library details shown details_shown

sanitize_operator_message_example :
    sanitize_operator_message plain_library (
      around
        (some (codes "cannot reach"))
        (url (codes "http") (codes "alice:pw") (codes "proxy"))
        none)
    ≡ sanitize_operator_message plain_library (
        around
          (some (codes "cannot reach"))
          (url (codes "http") (codes "bob:other") (codes "proxy"))
          none)
unfolding has_char
sanitize_operator_message_example =
    sanitize_operator_message-hides plain_library (some (codes "cannot reach")) (codes "http")
      (codes "alice:pw") (codes "bob:other") (codes "proxy") none refl refl refl refl refl refl

length_example : length (sanitize_operator_message plain_library (codes "failed")) ≤ 2003
length_example = length-sanitize_operator_message plain_library (codes "failed")

url_shown :
    sanitize_operator_message plain_library (codes "at http://alice:pw@proxy now")
    ≡ codes "at http://<redacted>@proxy now"
unfolding sanitize_operator_message
url_shown = refl
