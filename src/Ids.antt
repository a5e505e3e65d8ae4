-- ===== src/Ids.antt =====
-- ids.py and sessions/ids.py: minting identifiers. The hex digits of `secrets.token_hex` are an argument.
pub mod Pattern
mod Tests
use sight_stalker.Prelude.{
  ℕ, zero, Bool, true, false, not, ◌&&◌, ◌||◌, List, [], ◌∷◌, ◌++◌, Text, codes, nat_eq, leb, take,
  if◌then◌else◌,
}
use sight_stalker.Models.Identifiers.{is_id_char}

-- The characters that `str.strip` removes.
unfoldable pub is_space : ℕ → Bool
is_space c =
    (leb 9 c && leb c 13)
    || (leb 28 c && leb c 32)
    || nat_eq c 0x85
    || nat_eq c 0xa0
    || nat_eq c 0x1680
    || (leb 0x2000 c && leb c 0x200a)
    || nat_eq c 0x2028
    || nat_eq c 0x2029
    || nat_eq c 0x202f
    || nat_eq c 0x205f
    || nat_eq c 0x3000

unfoldable pub drop_while : (ℕ → Bool) → Text → Text
drop_while p [] = []
drop_while p (c ∷ text) = let rest = drop_while p text in if p c then rest else c ∷ text

keep_unless_last : (ℕ → Bool) → ℕ → Text → Text
keep_unless_last p c [] = if p c then [] else c ∷ []
keep_unless_last p c (d ∷ rest) = c ∷ d ∷ rest

unfoldable pub drop_end_while : (ℕ → Bool) → Text → Text
unfolding keep_unless_last
drop_end_while p [] = []
drop_end_while p (c ∷ text) = keep_unless_last p c (drop_end_while p text)

-- `text.strip()`
unfoldable pub strip : Text → Text
unfolding is_space drop_while drop_end_while
strip text = drop_end_while is_space (drop_while is_space text)

-- `re.sub(r"[^A-Za-z0-9_-]+", "_", text)`. The flag is set inside a run of disallowed characters.
unfoldable pub collapse : Bool → Text → Text
collapse inside [] = []
collapse inside (c ∷ text) =
    (if is_id_char c then c ∷ [] else if inside then [] else b'_' ∷ [])
    ++ collapse (not (is_id_char c)) text

is_dash : ℕ → Bool
is_dash c = nat_eq c b'_' || nat_eq c b'-'

or_fallback : Text → Text → Text
or_fallback [] fallback = fallback
or_fallback (c ∷ text) fallback = take 16 (c ∷ text)

-- `_safe_prefix(prefix, fallback=fallback)`
unfoldable pub safe_prefix : Text → Text → Text
unfolding strip collapse is_id_char is_dash or_fallback
safe_prefix fallback prefix =
    or_fallback (strip (drop_while is_dash (collapse false (strip prefix)))) fallback

unfoldable pub new_profile_id : Text → Text
new_profile_id hex = codes "prof_auto_" ++ hex

unfoldable pub new_session_id : Text → Text
new_session_id hex = codes "sess_auto_" ++ hex

unfoldable pub new_run_id : Text → Text
new_run_id hex = codes "run_auto_" ++ hex

unfoldable pub new_context_id : Text → Text
new_context_id hex = codes "ctx_auto_" ++ hex

-- `new_artifact_id`; ids.py passes the fallback `artifact`, sessions/ids.py the fallback `state`.
unfoldable pub new_artifact_id : Text → Text → Text → Text
unfolding safe_prefix
new_artifact_id fallback prefix hex =
    codes "art_" ++ (safe_prefix fallback prefix ++ (codes "_" ++ hex))
