-- ===== src/Artifacts/Paths.antt =====
-- artifacts/paths.py: `ArtifactPaths`. Its field `_root` is the parameter `root`.
pub mod Containment
pub mod Keeping
pub mod Shapes
pub mod Return
use sight_stalker.Prelude.{
  ℕ, Bool, true, false, not, ◌&&◌, ◌||◌, List, [], ◌∷◌, ◌++◌, Option, none, some, Text, codes,
  Outcome, ok, raised, ◌==◌, text_eq, has_char, is_some, if◌then◌else◌, ◌>>◌,
}
use sight_stalker.Errors.{Exc}
use sight_stalker.Exec
use sight_stalker.Exec.{Exec, pure, lift}
use sight_stalker.Models.Paths.{FilePath, child, descend, path_text, parent_parts, relative_to}
use sight_stalker.Artifacts.FileSystem.{FileSystem}
use sight_stalker.Artifacts.Mime.{path_error}

-- The loop over `rel.parts`.
unfoldable pub check_parts : List Text → Outcome Exc (Unit {0})
unfolding text_eq
check_parts [] = ok tt
check_parts (part ∷ rest) =
    let later = check_parts rest in
    if part == codes ".."
    then raised (path_error (codes "artifact path must not contain traversal"))
    else if part == codes "." || part == []
    then raised (path_error (codes "artifact path component is invalid"))
    else later

abbrev is_empty_list {ℓ} : {A : Type ℓ} → List A → Bool
is_empty_list [] = true
is_empty_list (x ∷ xs) = false

unfoldable pub check_shape : FilePath → Outcome Exc (Unit {0})
unfolding path_text has_char check_parts text_eq
check_shape rel =
    if has_char 0 (path_text rel)
    then raised (path_error (codes "artifact path contains a NUL byte"))
    else if rel.absolute
    then raised (path_error (codes "artifact path must be relative"))
    else if path_text rel == [] || path_text rel == codes "."
    then raised (path_error (codes "artifact path must not be empty"))
    else if is_empty_list rel.parts
    then raised (path_error (codes "artifact path must not be empty"))
    else check_parts rel.parts

checked_path : FilePath → Outcome Exc (Unit {0}) → Outcome Exc FilePath
checked_path rel (ok _) = ok rel
checked_path rel (raised e) = raised e

unfoldable pub assert_safe_relative_path : FilePath → Outcome Exc FilePath
unfolding check_shape checked_path
assert_safe_relative_path rel = checked_path rel (check_shape rel)

module _ (fs : FileSystem) where
  -- The loop of `scan_no_symlinks` from the path `current` on. `include_target` is not used by the code.
  unfoldable pub scan_no_symlinks : FilePath → List Text → fs.World → Outcome Exc (Unit {0})
  scan_no_symlinks current [] w = ok tt
  scan_no_symlinks current (part ∷ rest) w =
      let later = scan_no_symlinks (child current part) rest w in
      if fs.is_symlink (child current part) w
      then raised (path_error (codes "artifact path component is a symlink"))
      else if not (is_empty_list rest)
          && (fs.exists (child current part) w && not (fs.is_dir (child current part) w))
      then raised (path_error (codes "artifact parent component is not a directory"))
      else later

  -- `_chmod_best_effort(path, 0o700)`
  chmod_best_effort : FilePath → Exec Exc fs.World (Unit {0})
  chmod_best_effort path w = (ok tt, fs.chmod path 0o700 w)

  -- `mkdir(...)`, and `raise` on an `OSError`.
  made_or : Text → Bool × fs.World → Outcome Exc (Unit {0}) × fs.World
  made_or text (true, w) = (ok tt, w)
  made_or text (false, w) = (raised (path_error text), w)

  -- `mkdir` and `_chmod_best_effort`, in the loop and for the root.
  make_dir : FilePath → Exec Exc fs.World (Unit {0})
  unfolding chmod_best_effort made_or
  make_dir path =
      Exec.◌>>◌
        (λ w. made_or (codes "artifact parent directory could not be created") (fs.mkdir path w))
        (chmod_best_effort path)

  make_root : FilePath → Exec Exc fs.World (Unit {0})
  unfolding chmod_best_effort made_or
  make_root path =
      Exec.◌>>◌
        (λ w. made_or (codes "data directory could not be created") (fs.mkdir_parents path w))
        (chmod_best_effort path)

  -- One round of the loop in `ensure_parent_dir`.
  ensure_component : FilePath → Exec Exc fs.World (Unit {0})
  unfolding make_dir
  ensure_component current w =
      if fs.is_symlink current w
      then (raised (path_error (codes "artifact parent component is a symlink")), w)
      else if fs.exists current w
      then (if fs.is_dir current w
          then (ok tt, w)
          else (raised (path_error (codes "artifact parent component is not a directory")), w))
      else make_dir current w

  pub ensure_components : FilePath → List Text → Exec Exc fs.World FilePath
  unfolding ensure_component
  ensure_components current [] = pure current
  ensure_components current (part ∷ rest) =
      Exec.◌>>◌ (ensure_component (child current part))
        (ensure_components (child current part) rest)

  module _ (root : FilePath) where
    unfoldable pub ensure_data_dir : Exec Exc fs.World FilePath
    unfolding chmod_best_effort make_root
    ensure_data_dir w =
        if fs.exists root w
        then (if fs.is_dir root w
            then Exec.◌>>◌ (chmod_best_effort root) (pure root) w
            else (raised (path_error (codes "data directory path is not a directory")), w))
        else Exec.◌>>◌ (make_root root) (pure root) w

    -- `resolved.is_relative_to(root)`, or `raise`.
    within : Text → FilePath → Outcome Exc FilePath
    unfolding relative_to
    within text path = if is_some (relative_to path root) then ok path else raised (path_error text)

    resolved_within : Text → FilePath → Exec Exc fs.World FilePath
    unfolding within
    resolved_within text path w = (within text (fs.resolve path w), w)

    unfoldable pub ensure_parent_dir : FilePath → Exec Exc fs.World FilePath
    unfolding assert_safe_relative_path ensure_data_dir ensure_components resolved_within
        parent_parts
    ensure_parent_dir path = Exec.◌>>=◌ (lift (assert_safe_relative_path path)) (λ rel.
        Exec.◌>>=◌ ensure_data_dir (λ _.
          Exec.◌>>=◌ (ensure_components root (parent_parts rel.parts))
            (resolved_within (codes "artifact parent escapes the data directory"))))

    resolve_in : FilePath → fs.World → Outcome Exc FilePath
    unfolding scan_no_symlinks within
    resolve_in rel w =
        scan_no_symlinks root rel.parts w
        >> within (codes "artifact path escapes the data directory")
            (fs.resolve (descend root rel.parts) w)

    unfoldable pub resolve_relative_path : FilePath → fs.World → Outcome Exc FilePath
    unfolding assert_safe_relative_path resolve_in
    resolve_relative_path path w =
        sight_stalker.Prelude.◌>>=◌ (assert_safe_relative_path path) (λ rel. resolve_in rel w)

    -- `path` where it is absolute, else `root / path`.
    unfoldable pub anchored : FilePath → FilePath
    anchored path = if path.absolute then path else descend root path.parts

    -- The scan of the lexical path, and the relative path that is returned.
    finish_relative : Option FilePath → Option FilePath → fs.World → Outcome Exc FilePath
    unfolding scan_no_symlinks
    finish_relative none lexical w =
        raised (path_error (codes "path is outside the data directory"))
    finish_relative (some rel) none w =
        raised (path_error (codes "path is outside the data directory"))
    finish_relative (some rel) (some lexical) w = scan_no_symlinks root lexical.parts w >> ok rel

    unfoldable pub relative_to_data_dir : FilePath → fs.World → Outcome Exc FilePath
    unfolding anchored finish_relative relative_to
    relative_to_data_dir path w =
        finish_relative (relative_to (fs.resolve (anchored path) w) root)
          (relative_to (anchored path) root) w
