-- ===== src/Security/Fixture.antt =====
-- A library whose substitutions change nothing, for the tests.
use sight_stalker.Security.Redaction.{TextLibrary}

abbrev pub plain_library : TextLibrary
plain_library = record {
  lower = λ text. text;
  sub_tokenish = λ text. text;
  sub_auth_scheme = λ text. text;
  sub_operator_kv = λ text. text;
}
