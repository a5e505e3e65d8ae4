-- ===== src/Persistence/Rows/Paths.antt =====
-- persistence/serialization.py: the path helpers. `PurePosixPath` of a text that begins with two slashes keeps both;
-- here it is taken with one.
use sight_stalker.Prelude.{
  Bool, true, false, ◌||◌, List, [], ◌∷◌, Option, none, some, Text, codes, Outcome, ok, raised,
  ◌==◌, text_eq, nat_eq, has_char, contains, if◌then◌else◌, ◌>>◌,
}
use sight_stalker.Errors.{Exc}
use sight_stalker.Models.Paths.{FilePath, descend, join_parts, path_text, relative_to}
use sight_stalker.Persistence.Stored.{integrity_error, security_error}

check_components : List Text → Outcome Exc (Unit {0})
unfolding text_eq
check_components [] = ok tt
check_components (part ∷ rest) =
    let later = check_components rest in
    if part == codes ".."
    then raised (integrity_error (codes "artifact path must not contain traversal"))
    else if part == [] || part == codes "."
    then raised (integrity_error (codes "artifact path component is invalid"))
    else later

no_parts : List Text → Bool
no_parts [] = true
no_parts (part ∷ rest) = false

unfoldable pub assert_safe_relative : FilePath → Outcome Exc Text
unfolding check_components no_parts path_text has_char text_eq join_parts
assert_safe_relative path =
    if has_char 0 (path_text path)
    then raised (integrity_error (codes "relative path contains a NUL byte"))
    else if path.absolute
    then raised (integrity_error (codes "artifact path must be relative"))
    else if path_text path == [] || path_text path == codes "."
    then raised (integrity_error (codes "artifact path must not be empty"))
    else if no_parts path.parts
    then raised (integrity_error (codes "artifact path must not be empty"))
    else check_components path.parts >> ok (join_parts path.parts)

-- `PurePosixPath(*rel.parts).as_posix() if rel.parts else "."`
unfoldable pub posix_text : List Text → Text
unfolding join_parts
posix_text [] = codes "."
posix_text (part ∷ rest) = join_parts (part ∷ rest)

below_root : Option FilePath → Outcome Exc Text
unfolding posix_text
below_root none =
    raised (security_error (codes "absolute profile_dir is outside the configured data directory"))
below_root (some rel) = ok (posix_text rel.parts)

-- `text.split("/")`
unfoldable pub split_slash : Text → List Text
split_slash [] = [] ∷ []
split_slash (c ∷ text) =
    let parts = split_slash text in
    if nat_eq c b'/'
    then [] ∷ parts
    else elim parts [ [] ↦ (c ∷ []) ∷ [] | part ∷ rest ↦ (c ∷ part) ∷ rest ]

unfoldable pub drop_empty : List Text → List Text
unfolding text_eq
drop_empty [] = []
drop_empty (part ∷ rest) =
    let kept = drop_empty rest in if part == [] || part == codes "." then kept else part ∷ kept

starts_with_slash : Text → Bool
starts_with_slash [] = false
starts_with_slash (c ∷ text) = nat_eq c b'/'

-- `PurePosixPath(text)`
unfoldable pub posix_path : Text → FilePath
unfolding starts_with_slash split_slash drop_empty
posix_path text = record {
  absolute = starts_with_slash text;
  parts = drop_empty (split_slash text);
}

-- `root / other`
joined : FilePath → FilePath → FilePath
joined root other = if other.absolute then other else descend root other.parts

-- `resolve` is `Path.resolve`.
module _ (resolve : FilePath → FilePath) (data_dir : FilePath) where
  unfoldable pub profile_dir_to_relative : FilePath → Outcome Exc Text
  unfolding path_text has_char relative_to below_root posix_text text_eq
  profile_dir_to_relative profile_dir =
      if has_char 0 (path_text profile_dir)
      then raised (security_error (codes "profile_dir contains a NUL byte"))
      else if profile_dir.absolute
      then below_root (relative_to (resolve profile_dir) (resolve data_dir))
      else if contains profile_dir.parts (codes "..")
      then raised (security_error (codes "profile_dir must not contain traversal"))
      else ok (posix_text profile_dir.parts)

  unfoldable pub profile_dir_from_relative : Text → FilePath
  unfolding posix_path joined text_eq
  profile_dir_from_relative relative =
      if relative == [] || relative == codes "."
      then resolve data_dir
      else joined (resolve data_dir) (posix_path relative)
