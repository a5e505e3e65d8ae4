-- ===== src/Artifacts/Mime.antt =====
-- artifacts/mime.py and artifacts/errors.py. `str.lower` is a parameter.
use sight_stalker.Prelude.{
  ◌≡◌, refl, arith, ℕ, Bool, true, false, not, ◌&&◌, ◌||◌, List, [], ◌∷◌, Option, none, some, Text,
  codes, Outcome, ok, raised, ◌==◌, text_eq, nat_eq, has_char, all, contains, if◌then◌else◌,
}
use sight_stalker.Errors.{Exc, plain, artifact_error}
use sight_stalker.Ids.{strip}
use sight_stalker.Models.Identifiers.{
  ArtifactType, screenshot, trace, storage_state_initial, storage_state_final, fingerprint_profile,
  run_log, diagnostic_bundle, is_alnum,
}
use sight_stalker.Models.Paths.{FilePath, last_part}
use sight_stalker.Security.Redaction.{TextLibrary}

-- `raise ArtifactError(text)` and its subclasses
abbrev pub store_error : Text → Exc
store_error text = plain artifact_error (codes "ArtifactError") text

abbrev pub path_error : Text → Exc
path_error text = plain artifact_error (codes "ArtifactPathError") text

abbrev pub exists_error : Text → Exc
exists_error text = plain artifact_error (codes "ArtifactExistsError") text

abbrev pub artifact_integrity_error : Text → Exc
artifact_integrity_error text = plain artifact_error (codes "ArtifactIntegrityError") text

abbrev pub unsupported_type_error : Text → Exc
unsupported_type_error text = plain artifact_error (codes "UnsupportedArtifactTypeError") text

-- `_DEFAULT_MIME`, `mime_type_for_artifact_type`
unfoldable pub mime_type_for_artifact_type : ArtifactType → Text
mime_type_for_artifact_type storage_state_initial = codes "application/json"
mime_type_for_artifact_type storage_state_final = codes "application/json"
mime_type_for_artifact_type fingerprint_profile = codes "application/json"
mime_type_for_artifact_type run_log = codes "application/x-jsonlines"
mime_type_for_artifact_type screenshot = codes "image/png"
mime_type_for_artifact_type trace = codes "application/zip"
mime_type_for_artifact_type diagnostic_bundle = codes "application/zip"

-- `_COMPATIBLE_MIME`
unfoldable pub compatible_mime : ArtifactType → List Text
compatible_mime storage_state_initial = codes "application/json" ∷ []
compatible_mime storage_state_final = codes "application/json" ∷ []
compatible_mime fingerprint_profile = codes "application/json" ∷ []
compatible_mime run_log = codes "application/x-jsonlines" ∷ codes "text/plain" ∷ []
compatible_mime screenshot = codes "image/png" ∷ codes "image/jpeg" ∷ []
compatible_mime trace = codes "application/zip" ∷ []
compatible_mime diagnostic_bundle = codes "application/zip" ∷ []

unfoldable pub compatible : ArtifactType → Text → Bool
unfolding compatible_mime text_eq
compatible artifact_type mime = contains (compatible_mime artifact_type) mime

-- `_EXTENSION_MIME`
abbrev extension_mimes : List (Text × Text)
extension_mimes =
    (codes ".json", codes "application/json")
    ∷ (codes ".jsonl", codes "application/x-jsonlines")
    ∷ (codes ".png", codes "image/png")
    ∷ (codes ".jpg", codes "image/jpeg")
    ∷ (codes ".jpeg", codes "image/jpeg")
    ∷ (codes ".zip", codes "application/zip")
    ∷ (codes ".txt", codes "text/plain")
    ∷ (codes ".log", codes "text/plain")
    ∷ []

find_mime : List (Text × Text) → Text → Option Text
unfolding text_eq
find_mime [] suffix = none
find_mime ((key, mime) ∷ rest) suffix = if suffix == key then some mime else find_mime rest suffix

unfoldable pub extension_mime : Text → Option Text
unfolding find_mime
extension_mime suffix = find_mime extension_mimes suffix

-- `[A-Za-z0-9!#$&^_.+-]`
unfoldable pub is_mime_char : ℕ → Bool
unfolding is_alnum has_char
is_mime_char c = is_alnum c || has_char c (codes "!#$&^_.+-")

-- A run of those characters after one of `[A-Za-z0-9]`.
is_mime_part : Text → Bool
unfolding is_alnum is_mime_char
is_mime_part [] = false
is_mime_part (c ∷ text) = is_alnum c && all is_mime_char text

before_slash : Text → Text
before_slash [] = []
before_slash (c ∷ text) = let rest = before_slash text in if nat_eq c b'/' then [] else c ∷ rest

after_slash : Text → Text
after_slash [] = []
after_slash (c ∷ text) = let rest = after_slash text in if nat_eq c b'/' then text else rest

-- `_MIME_SYNTAX_RE`, for a text that does not end with a newline.
unfoldable pub is_valid_mime_syntax : Text → Bool
unfolding is_mime_part before_slash after_slash
is_valid_mime_syntax value = is_mime_part (before_slash value) && is_mime_part (after_slash value)

-- What stands from the last dot on; `seen` says that a dot was met, and the accumulator is the text from it.
from_last_dot : Text → Text → Text
from_last_dot found [] = found
from_last_dot found (c ∷ text) =
    let later = from_last_dot (c ∷ text) text in
    let same = from_last_dot found text in if nat_eq c b'.' then later else same

no_bare_dot : Text → Text
no_bare_dot [] = []
no_bare_dot (c ∷ []) = []
no_bare_dot (c ∷ d ∷ text) = c ∷ d ∷ text

-- `path.suffix`: no dot counts that begins or ends the name.
unfoldable pub suffix_of : Text → Text
unfolding from_last_dot no_bare_dot
suffix_of [] = []
suffix_of (c ∷ name) = no_bare_dot (from_last_dot [] name)

module _ (lib : TextLibrary) where
  explicit_mime : ArtifactType → Text → Outcome Exc Text
  unfolding is_valid_mime_syntax compatible
  explicit_mime artifact_type candidate =
      if not (is_valid_mime_syntax candidate)
      then raised (unsupported_type_error (codes "explicit MIME type is not syntactically valid"))
      else if not (compatible artifact_type candidate)
      then raised (
          unsupported_type_error
            (codes "explicit MIME type is incompatible with the artifact type"))
      else ok candidate

  explicit_mime-compatible :
      (artifact_type : ArtifactType) (candidate mime : Text)
      → explicit_mime artifact_type candidate ≡ ok mime
      → compatible artifact_type mime ≡ true
  unfolding explicit_mime
  explicit_mime-compatible artifact_type candidate mime h = ground arith

  implied_mime : ArtifactType → Option Text → Text
  unfolding compatible mime_type_for_artifact_type
  implied_mime artifact_type none = mime_type_for_artifact_type artifact_type
  implied_mime artifact_type (some mime) =
      if compatible artifact_type mime then mime else mime_type_for_artifact_type artifact_type

  unfoldable pub infer_mime_type : ArtifactType → FilePath → Option Text → Outcome Exc Text
  unfolding explicit_mime implied_mime extension_mime suffix_of strip last_part
  infer_mime_type artifact_type path (some mime) =
      explicit_mime artifact_type (lib.lower (strip mime))
  infer_mime_type artifact_type path none =
      ok
        (implied_mime artifact_type (extension_mime (lib.lower (suffix_of (last_part path.parts)))))

  default_mime-compatible :
      (artifact_type : ArtifactType)
      → compatible artifact_type (mime_type_for_artifact_type artifact_type) ≡ true
  unfolding compatible mime_type_for_artifact_type text_eq compatible_mime
  default_mime-compatible storage_state_initial = refl
  default_mime-compatible storage_state_final = refl
  default_mime-compatible fingerprint_profile = refl
  default_mime-compatible run_log = refl
  default_mime-compatible screenshot = refl
  default_mime-compatible trace = refl
  default_mime-compatible diagnostic_bundle = refl

  implied_mime-compatible :
      (artifact_type : ArtifactType) (mime : Option Text)
      → compatible artifact_type (implied_mime artifact_type mime) ≡ true
  unfolding implied_mime
  implied_mime-compatible artifact_type none = default_mime-compatible artifact_type
  implied_mime-compatible artifact_type (some mime) =
      ground (arith, default_mime-compatible artifact_type)

  -- Whatever `infer_mime_type` returns is on the list of the artifact's type.
  pub infer_mime_type-compatible :
      (artifact_type : ArtifactType) (path : FilePath) (explicit : Option Text) (mime : Text)
      → infer_mime_type artifact_type path explicit ≡ ok mime
      → compatible artifact_type mime ≡ true
  unfolding infer_mime_type
  infer_mime_type-compatible artifact_type path none mime h = grind (
    arith,
    implied_mime-compatible artifact_type
        (extension_mime (lib.lower (suffix_of (last_part path.parts)))),
  )
  infer_mime_type-compatible artifact_type path (some given) mime h =
      explicit_mime-compatible artifact_type (lib.lower (strip given)) mime h
