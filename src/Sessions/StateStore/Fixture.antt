-- ===== src/Sessions/StateStore/Fixture.antt =====
-- A codec for one dump and the reading of dumps, for the tests.
use native.Mathlib.Decide.{ℕ_discrete}
use sight_stalker.Prelude.{
  ◌≡◌, ap, sym, Option, none, some, Text, codes, Outcome, ok, raised, text_le,
}
use sight_stalker.Errors.{Exc}
use sight_stalker.Models.Browser.{BrowserState}
use sight_stalker.Models.Identifiers.{BrowserEngineName}
use sight_stalker.Models.Json.{
  Json, Items, Fields, nil, cons, array, boolean, string, object, end, field,
}
use sight_stalker.Models.Literals.{engine_of, engine_of-text}
use sight_stalker.Artifacts.Manager.{Codec, Encoded, encoded, invalid_value}
use sight_stalker.Persistence.Stored.{sort_value, sort_fields, insert_field}
use sight_stalker.Sessions.Manager.Fixture.{empty_state}
use sight_stalker.Sessions.StateStore.{state_fields}
use sight_stalker.Sessions.StateStore.Roundtrip.{sorted_state, StateCodecLaws}

json_discrete : Discrete Json
json_discrete = hlevel ℕ_discrete

-- A state with a cookie.
abbrev pub cookie_state : BrowserState
cookie_state = record empty_state {
  cookies =
      cons
        (object (
          field (codes "name") (string (codes "sid"))
            (field (codes "value") (string (codes "1")) end)))
        nil;
}

abbrev pub dumped : Json
dumped = object (state_fields cookie_state)

encode_if : {P : Type 0} → Dec P → Encoded
encode_if (yes p) = encoded (codes "{}")
encode_if (no n) = invalid_value

unfoldable pub encode_dump : Json → Encoded
unfolding json_discrete encode_if
encode_dump v = encode_if (json_discrete v dumped)

abbrev pub dump_codec : Codec
dump_codec = record {
  encode_json = encode_dump;
  decode_json = λ text. some (sort_value dumped);
  encode_text = λ text. some text;
  decode_text = λ text. some text;
}

with_engine :
    Items
    → Items
    → mathlib.Core.Bool.Bool
    → Text
    → Outcome Exc BrowserEngineName
    → Option BrowserState
with_engine cookies origins included version (raised e) = none
with_engine cookies origins included version (ok engine) = some (record {
  cookies = cookies;
  origins = origins;
  indexed_db_included = included;
  engine_name = engine;
  schema_version = version;
})

unfoldable pub read_dump : Fields → Option BrowserState
unfolding with_engine engine_of
read_dump
      (field _ (array cookies) (
        field _
          (string engine)
          (field _ (boolean included) (field _ (array origins) (field _ (string version) end))))) =
    with_engine cookies origins included version (engine_of engine)
read_dump _ = none

decoded_if :
    (v : Json) (d : Dec (v ≡ dumped)) (text : Text)
    → encode_if d ≡ encoded text
    → some (sort_value dumped) ≡ some (sort_value v)
unfolding encode_if
decoded_if v (yes p) text h = ap (λ u. some (sort_value u)) (sym p)
decoded_if v (no n) text h = cc

decode_encoded :
    (v : Json) (text : Text)
    → encode_dump v ≡ encoded text
    → some (sort_value dumped) ≡ some (sort_value v)
unfolding encode_dump
decode_encoded v text h = decoded_if v (json_discrete v dumped) text h

read_sorted :
    (state : BrowserState)
    → read_dump (sort_fields (state_fields state)) ≡ some (sorted_state state)
unfolding read_dump sort_fields sort_value state_fields text_le insert_field
read_sorted state = ap (with_engine _ _ _ _) (engine_of-text state.engine_name)

pub dump_laws : StateCodecLaws dump_codec read_dump
dump_laws = record {
  decode-encode = decode_encoded;
  validate-dump = λ d state made. read_sorted state;
}
