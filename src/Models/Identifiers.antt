-- ===== src/Models/Identifiers.antt =====
-- models/identifiers.py: the identifier patterns and the literal enumerations.
use sight_stalker.Prelude.{
  ℕ, Bool, false, ◌&&◌, ◌||◌, Text, [], ◌∷◌, Eq, nat_eq, leb, length, all, codes, if◌then◌else◌,
}

pub data BrowserEngineName : Type 0 where
  camoufox playwright_chromium playwright_firefox playwright_webkit mock : BrowserEngineName

pub data BrowserMode : Type 0 where
  headless headed : BrowserMode

pub data RunStatus : Type 0 where
  pending starting running succeeded failed cancelled : RunStatus

pub data HealthStatus : Type 0 where
  unknown healthy degraded unhealthy : HealthStatus

pub data ArtifactType : Type 0 where
  screenshot trace storage_state_initial storage_state_final : ArtifactType
  fingerprint_profile run_log diagnostic_bundle : ArtifactType

pub data HashAlgorithm : Type 0 where
  sha256 : HashAlgorithm

BrowserMode_discrete : Discrete BrowserMode
BrowserMode_discrete = hlevel

instance unfoldable pub browser_mode_eq : Eq BrowserMode
unfolding BrowserMode_discrete
browser_mode_eq = record { dec = BrowserMode_discrete }

-- `[A-Za-z0-9]`
unfoldable pub is_alnum : ℕ → Bool
is_alnum c = (leb b'0' c && leb c b'9') || (leb b'A' c && leb c b'Z') || (leb b'a' c && leb c b'z')

-- `[A-Za-z0-9_-]`
unfoldable pub is_id_char : ℕ → Bool
unfolding is_alnum
is_id_char c = is_alnum c || nat_eq c b'_' || nat_eq c b'-'

-- `[A-Za-z0-9][A-Za-z0-9_-]{7,63}$`
unfoldable pub id_body : Text → Bool
unfolding is_id_char
id_body [] = false
id_body (c ∷ rest) =
    is_alnum c && all is_id_char rest && leb 7 (length rest) && leb (length rest) 63

-- `^<prefix>` in front of the body.
unfoldable pub matches_id : Text → Text → Bool
unfolding id_body
matches_id [] value = id_body value
matches_id (p ∷ prefix) [] = false
matches_id (p ∷ prefix) (c ∷ value) = if nat_eq p c then matches_id prefix value else false

abbrev pub session_prefix : Text
session_prefix = codes "sess_"

abbrev pub run_prefix : Text
run_prefix = codes "run_"

abbrev pub profile_prefix : Text
profile_prefix = codes "prof_"

abbrev pub context_prefix : Text
context_prefix = codes "ctx_"

abbrev pub artifact_prefix : Text
artifact_prefix = codes "art_"
