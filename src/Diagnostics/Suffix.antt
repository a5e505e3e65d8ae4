-- ===== src/Diagnostics/Suffix.antt =====
-- diagnostics/paths.py: `DiagnosticPathPolicy.validate_suffix`.
use sight_stalker.Prelude.{
  Bool, false, ◌&&◌, ◌||◌, [], ◌∷◌, ◌++◌, Text, codes, Outcome, ok, raised, ◌==◌, text_eq, nat_eq,
  has_char, if◌then◌else◌,
}
use sight_stalker.Errors.{Exc, plain, diagnostic_error}

pub data Kind : Type 0 where
  screenshot trace console : Kind

-- `raise DiagnosticCaptureError(text)`
abbrev pub capture_error : Text → Exc
capture_error text = plain diagnostic_error (codes "DiagnosticCaptureError") text

-- `_KIND_SUFFIX`
unfoldable pub kind_suffix : Kind → Text
kind_suffix screenshot = codes ".png"
kind_suffix trace = codes ".zip"
kind_suffix console = codes ".jsonl"

unfoldable pub kind_name : Kind → Text
kind_name screenshot = codes "screenshot"
kind_name trace = codes "trace"
kind_name console = codes "console"

-- `".." in text`
unfoldable pub has_dots : Text → Bool
has_dots [] = false
has_dots (c ∷ []) = false
has_dots (c ∷ d ∷ text) = (nat_eq c b'.' && nat_eq d b'.') || has_dots (d ∷ text)

-- `text.endswith(ending)`
unfoldable pub ends_with : Text → Text → Bool
unfolding text_eq
ends_with ending [] = ending == []
ends_with ending (c ∷ text) = (ending == (c ∷ text)) || ends_with ending text

unfoldable pub validate_suffix : Kind → Text → Outcome Exc Text
unfolding kind_suffix kind_name has_char has_dots ends_with
validate_suffix kind suffix =
    if (suffix == []) || (suffix == codes ".") || (suffix == codes "..")
    then raised (capture_error (codes "diagnostic suffix must not be empty"))
    else if has_char b'/' suffix || has_char 92 suffix
    then raised (capture_error (codes "diagnostic suffix must not contain path separators"))
    else if has_char 0 suffix
    then raised (capture_error (codes "diagnostic suffix is invalid"))
    else if has_dots suffix
    then raised (capture_error (codes "diagnostic suffix must not contain traversal"))
    else if ends_with (kind_suffix kind) suffix
    then ok suffix
    else raised
        (capture_error (kind_name kind ++ (codes " suffix must end with " ++ kind_suffix kind)))
