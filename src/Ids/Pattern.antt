-- ===== src/Ids/Pattern.antt =====
-- Minted identifiers meet the patterns of models/identifiers.py.
use sight_stalker.Prelude.{
  ℕ, ◌≤◌, ◌≡◌, refl, ap, ◌∙◌, Bool, true, false, ◌&&◌, ◌||◌, [], ◌∷◌, ◌++◌, arith, Text, codes,
  Bool-cases, inl, inr, leb, take, all, length, length-append, length-take-le, all-append, all-take,
  if◌then◌else◌,
}
use sight_stalker.Models.Identifiers.{
  is_alnum, is_id_char, id_body, matches_id, session_prefix, run_prefix, profile_prefix,
  context_prefix, artifact_prefix,
}
use sight_stalker.Ids.{
  is_space, drop_while, keep_unless_last, drop_end_while, strip, collapse, is_dash, or_fallback,
  safe_prefix, new_profile_id, new_session_id, new_run_id, new_context_id, new_artifact_id,
}

abbrev is_hex : ℕ → Bool
is_hex c = (leb b'0' c && leb c b'9') || (leb b'a' c && leb c b'f')

-- What `secrets.token_hex` returns for `n` digits.
abbrev pub IsHex : ℕ → Text → Type 0
IsHex n hex = (length hex ≡ n) × (all is_hex hex ≡ true)

abbrev starts_alnum : Text → Bool
starts_alnum [] = false
starts_alnum (c ∷ text) = is_alnum c

-- Empty, or starting with a letter or digit.
abbrev heads_alnum : Text → Bool
heads_alnum [] = true
heads_alnum (c ∷ text) = is_alnum c

is_hex-is_id_char : (c : ℕ) → is_hex c ≡ true → is_id_char c ≡ true
unfolding is_id_char
is_hex-is_id_char c h = ground arith

all_hex-all_id_char : (hex : Text) → all is_hex hex ≡ true → all is_id_char hex ≡ true
all_hex-all_id_char [] h = refl
all_hex-all_id_char (c ∷ hex) h = ground (arith, is_hex-is_id_char c, all_hex-all_id_char hex)

is_id_char-not_space : (c : ℕ) → is_id_char c ≡ true → is_space c ≡ false
unfolding is_id_char is_space
is_id_char-not_space c h = ground arith

id_char-not_dash : (c : ℕ) → is_id_char c ≡ true → is_dash c ≡ false → is_alnum c ≡ true
unfolding is_id_char is_dash
id_char-not_dash c h d = ground arith

underscore-is_id_char : is_id_char b'_' ≡ true
unfolding is_id_char
underscore-is_id_char = refl

all-collapse_run :
    (inside : Bool) (text : Text)
    → all is_id_char text ≡ true
    → all is_id_char ((if inside then [] else b'_' ∷ []) ++ text) ≡ true
all-collapse_run true text h = h
all-collapse_run false text h = rw underscore-is_id_char h

all-collapse : (inside : Bool) (text : Text) → all is_id_char (collapse inside text) ≡ true
unfolding collapse
all-collapse inside [] = refl
all-collapse inside (c ∷ text) = elim (Bool-cases (is_id_char c)) [
  | inl keep ↦ rw (keep, keep) (all-collapse false text)
  | inr drop ↦ rw (drop) (all-collapse_run inside _ (all-collapse true text))
]

all-drop_while :
    (p q : ℕ → Bool) (text : Text) → all q text ≡ true → all q (drop_while p text) ≡ true
unfolding drop_while
all-drop_while p q [] h = refl
all-drop_while p q (c ∷ text) h = ground (arith, all-drop_while p q text)

heads_alnum-drop_while :
    (text : Text) → all is_id_char text ≡ true → heads_alnum (drop_while is_dash text) ≡ true
unfolding drop_while
heads_alnum-drop_while [] h = refl
heads_alnum-drop_while (c ∷ text) h =
    ground (arith, id_char-not_dash c, heads_alnum-drop_while text)

drop_while_space : (text : Text) → all is_id_char text ≡ true → drop_while is_space text ≡ text
unfolding drop_while
drop_while_space [] h = refl
drop_while_space (c ∷ text) h = ground (arith, is_id_char-not_space c)

drop_end_while_space :
    (text : Text) → all is_id_char text ≡ true → drop_end_while is_space text ≡ text
unfolding drop_end_while
drop_end_while_space [] h = refl
drop_end_while_space (c ∷ []) h = ground (arith, is_id_char-not_space c)
drop_end_while_space (c ∷ d ∷ text) h =
    ap (keep_unless_last is_space c) (drop_end_while_space (d ∷ text) (ground arith))

strip-eq : (text : Text) → all is_id_char text ≡ true → strip text ≡ text
unfolding strip
strip-eq text h =
    ap (drop_end_while is_space) (drop_while_space text h) ∙ drop_end_while_space text h

-- A prefix that `safe_prefix` returns: identifier characters, the first a letter or digit, 1 to 16.
record IsSafePrefix (text : Text) : Type 0 where
  chars : all is_id_char text ≡ true
  starts : starts_alnum text ≡ true
  bound : length text ≤ 16

starts_alnum-take :
    (c : ℕ) (text : Text) → is_alnum c ≡ true → starts_alnum (take 16 (c ∷ text)) ≡ true
starts_alnum-take c text h = h

or_fallback-IsSafePrefix :
    (text fallback : Text)
    → all is_id_char text ≡ true
    → heads_alnum text ≡ true
    → IsSafePrefix fallback
    → IsSafePrefix (or_fallback text fallback)
unfolding or_fallback
or_fallback-IsSafePrefix [] fallback h s f = f
or_fallback-IsSafePrefix (c ∷ text) fallback h s f = record {
  chars = all-take is_id_char 16 (c ∷ text) h;
  starts = s;
  bound = length-take-le 16 (c ∷ text);
}

safe_prefix-IsSafePrefix :
    (fallback prefix : Text) → IsSafePrefix fallback → IsSafePrefix (safe_prefix fallback prefix)
unfolding safe_prefix
safe_prefix-IsSafePrefix fallback prefix f =
    let cleaned = drop_while is_dash (collapse false (strip prefix)) in
    let clean : all is_id_char cleaned ≡ true =
      all-drop_while is_dash is_id_char (collapse false (strip prefix))
        (all-collapse false (strip prefix)) in
    rw (strip-eq cleaned clean) (
      or_fallback-IsSafePrefix cleaned fallback clean
        (heads_alnum-drop_while (collapse false (strip prefix)) (all-collapse false (strip prefix)))
        f)

all_id_char-append :
    (safe hex : Text)
    → all is_id_char safe ≡ true
    → all is_hex hex ≡ true
    → all is_id_char (safe ++ (codes "_" ++ hex)) ≡ true
all_id_char-append safe hex s h =
    rw (all-append, s) (rw underscore-is_id_char (all_hex-all_id_char hex h))

id_body-append :
    (safe hex : Text)
    → IsSafePrefix safe
    → IsHex 16 hex
    → id_body (safe ++ (codes "_" ++ hex)) ≡ true
unfolding id_body
id_body-append [] hex s h = cc s.starts
id_body-append (c ∷ safe) hex s h =
    ground (arith, all_id_char-append safe hex, length-append safe (codes "_" ++ hex))

artifact-IsSafePrefix : IsSafePrefix (codes "artifact")
unfolding is_id_char
artifact-IsSafePrefix = record { chars = refl; starts = refl; bound = omega arith }

state-IsSafePrefix : IsSafePrefix (codes "state")
unfolding is_id_char
state-IsSafePrefix = record { chars = refl; starts = refl; bound = omega arith }

new_artifact_id-matches :
    (fallback prefix hex : Text)
    → IsSafePrefix fallback
    → IsHex 16 hex
    → matches_id artifact_prefix (new_artifact_id fallback prefix hex) ≡ true
unfolding matches_id new_artifact_id
new_artifact_id-matches fallback prefix hex f h =
    id_body-append (safe_prefix fallback prefix) hex (safe_prefix-IsSafePrefix fallback prefix f) h

auto_body :
    (n : ℕ) (hex : Text) → 3 ≤ n → n ≤ 59 → IsHex n hex → id_body (codes "auto_" ++ hex) ≡ true
unfolding id_body
auto_body n hex low high h = ground (arith, all_hex-all_id_char hex)

-- Every identifier that the two modules mint meets its pattern: an artifact id for every requested
-- prefix and both fallbacks, and the run, session, profile and context ids, provided that
-- `secrets.token_hex` returns the hex digits asked for.
pub minted_ids_match :
    (prefix hex hex12 : Text)
    → IsHex 16 hex
    → IsHex 12 hex12
    → (matches_id artifact_prefix (new_artifact_id (codes "artifact") prefix hex) ≡ true)
      × (matches_id artifact_prefix (new_artifact_id (codes "state") prefix hex) ≡ true)
      × (matches_id run_prefix (new_run_id hex) ≡ true)
      × (matches_id session_prefix (new_session_id hex) ≡ true)
      × (matches_id profile_prefix (new_profile_id hex) ≡ true)
      × (matches_id context_prefix (new_context_id hex12) ≡ true)
unfolding matches_id new_run_id new_session_id new_profile_id new_context_id
minted_ids_match prefix hex hex12 h h12 = (
  new_artifact_id-matches (codes "artifact") prefix hex artifact-IsSafePrefix h,
  new_artifact_id-matches (codes "state") prefix hex state-IsSafePrefix h,
  auto_body 16 hex (omega arith) (omega arith) h,
  auto_body 16 hex (omega arith) (omega arith) h,
  auto_body 16 hex (omega arith) (omega arith) h,
  auto_body 12 hex12 (omega arith) (omega arith) h12,
)
