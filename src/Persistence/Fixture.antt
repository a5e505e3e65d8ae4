-- ===== src/Persistence/Fixture.antt =====
-- A JSON library whose stored texts are the values themselves, with sorted keys, for the tests.
use sight_stalker.Prelude.{
  Bool, false, ◌≡◌, refl, ap, true, [], Outcome, ok, raised, ◌>>=◌, codes, if◌then◌else◌,
}
use sight_stalker.Errors.{Exc, plain, value_error}
use sight_stalker.Models.Json.{Json}
use sight_stalker.Persistence.Stored.{JsonLibrary, sort_value, is_encodable}

abbrev encode_error : Exc
encode_error = plain value_error (codes "ValueError") (codes "not JSON")

abbrev pub dump_value : Json → Outcome Exc Json
dump_value v = if is_encodable (λ _. true) v then ok (sort_value v) else raised encode_error

pub load_dumped :
    (v : Json) → is_encodable (λ _. true) v ≡ true → (dump_value v >>= ok) ≡ ok (sort_value v)
load_dumped v h = ap (λ b. (if b then ok (sort_value v) else raised encode_error) >>= ok) h

pub dumped_encodable : (v text : Json) → dump_value v ≡ ok text → is_encodable (λ _. true) v ≡ true
dumped_encodable v text h = encodable_if (is_encodable (λ _. true) v) (sort_value v) text h
  where
    encodable_if :
        (b : Bool) (a t : Json)
        → ◌≡◌ {A = Outcome Exc Json} (if b then ok a else raised encode_error) (ok t)
        → b ≡ true
    encodable_if true a t e = refl
    encodable_if false a t e = cc

abbrev pub plain_json : JsonLibrary
plain_json = record {
  Stored = Json;
  dumps = dump_value;
  loads = ok;
  is_finite = λ _. true;
  str_other = λ _. [];
  int_other = λ _. ok 0;
  float_other = λ _. ok [];
  bool_number = λ _. true;
  loads-dumps = load_dumped;
  dumps_encodable = dumped_encodable;
}
