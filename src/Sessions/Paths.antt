-- ===== src/Sessions/Paths.antt =====
-- sessions/paths.py: `SessionPaths`, over the file system of the artifact store. Its field `_root` is the parameter
-- `root`.
use sight_stalker.Prelude.{
  Bool, true, false, List, [], ◌∷◌, Option, none, some, Text, codes, Outcome, ok, raised, text_eq,
  contains, is_some, if◌then◌else◌, ◌>>=◌, ◌>>◌,
}
use sight_stalker.Errors.{Exc, plain, value_error, other_exception}
use sight_stalker.Exec
use sight_stalker.Exec.{Exec, lift}
use sight_stalker.Models.Identifiers.{matches_id, profile_prefix, run_prefix}
use sight_stalker.Models.Paths.{FilePath, child, descend, relative_to}
use sight_stalker.Artifacts.FileSystem.{FileSystem}

-- `raise ValueError(text)`
abbrev pub path_refused : Text → Exc
path_refused text = plain value_error (codes "ValueError") text

-- `validate_profile_id`, `validate_run_id`
unfoldable pub validate : Text → Text → Outcome Exc Text
unfolding matches_id
validate prefix value =
    if matches_id prefix value
    then ok value
    else raised (plain value_error (codes "ValidationError") (codes "string_pattern_mismatch"))

module _ (fs : FileSystem) (root : FilePath) where
  unfoldable pub profile_dir : Text → Outcome Exc FilePath
  unfolding validate
  profile_dir profile_id = validate profile_prefix profile_id >>= λ validated.
      ok (descend root (codes "profiles" ∷ validated ∷ []))

  unfoldable pub profile_lock_path : Text → Outcome Exc FilePath
  unfolding profile_dir
  profile_lock_path profile_id =
      profile_dir profile_id >>= λ dir. ok (child dir (codes ".sightstalker-profile.lock"))

  unfoldable pub runs_dir : Text → Outcome Exc FilePath
  unfolding profile_dir
  runs_dir profile_id = profile_dir profile_id >>= λ dir. ok (child dir (codes "runs"))

  unfoldable pub run_dir : Text → Text → Outcome Exc FilePath
  unfolding validate runs_dir
  run_dir profile_id run_id = do
    validated_run ← validate run_prefix run_id
    dir ← runs_dir profile_id
    ok (child dir validated_run)

  unfoldable pub storage_state_initial_path : Text → Text → Outcome Exc FilePath
  unfolding run_dir
  storage_state_initial_path profile_id run_id =
      run_dir profile_id run_id >>= λ dir. ok (child dir (codes "storage_state.initial.json"))

  unfoldable pub storage_state_final_path : Text → Text → Outcome Exc FilePath
  unfolding run_dir
  storage_state_final_path profile_id run_id =
      run_dir profile_id run_id >>= λ dir. ok (child dir (codes "storage_state.final.json"))

  -- The loop of `_scan_symlinks` from the path `current` on
  unfoldable pub scan_symlinks : FilePath → List Text → fs.World → Outcome Exc (Unit {0})
  scan_symlinks current [] w = ok tt
  scan_symlinks current (part ∷ rest) w =
      let later = scan_symlinks (child current part) rest w in
      if fs.is_symlink (child current part) w
      then raised (path_refused (codes "symlinked path component is not allowed"))
      else later

  -- `target` where it is absolute, else `root / target`
  target_of : FilePath → FilePath
  target_of path = if path.absolute then path else descend root path.parts

  lexically : Option FilePath → Option FilePath → fs.World → Outcome Exc FilePath
  unfolding scan_symlinks
  lexically none lexical w = raised (path_refused (codes "path is outside the data directory"))
  lexically (some rel) none w = raised (path_refused (codes "path is outside the data directory"))
  lexically (some rel) (some lexical) w = scan_symlinks root lexical.parts w >> ok rel

  unfoldable pub session_relative : FilePath → fs.World → Outcome Exc FilePath
  unfolding target_of lexically relative_to
  session_relative path w =
      lexically (relative_to (fs.resolve (target_of path) w) root)
        (relative_to (target_of path) root) w

  unfoldable pub session_resolve : FilePath → fs.World → Outcome Exc FilePath
  unfolding scan_symlinks relative_to text_eq
  session_resolve rel w =
      if rel.absolute
      then raised (path_refused (codes "relative_path must not be absolute"))
      else if contains rel.parts (codes "..")
      then raised (path_refused (codes "relative_path must not contain traversal"))
      else if is_some (relative_to (fs.resolve (descend root rel.parts) w) root)
      then scan_symlinks root rel.parts w >> ok (fs.resolve (descend root rel.parts) w)
      else raised (path_refused (codes "relative_path escapes the data directory"))

  after_mkdir : FilePath → Bool × fs.World → Outcome Exc (Unit {0}) × fs.World
  after_mkdir path (true, w) = (ok tt, fs.chmod path 0o700 w)
  after_mkdir path (false, w) = (raised (plain other_exception (codes "OSError") []), w)

  -- `_ensure_dir`
  unfoldable pub ensure_dir : FilePath → Exec Exc fs.World (Unit {0})
  unfolding after_mkdir
  ensure_dir path w = after_mkdir path (fs.mkdir_parents path w)

  unfoldable pub ensure_profile_layout : Text → Exec Exc fs.World (Unit {0})
  unfolding ensure_dir validate profile_dir runs_dir
  ensure_profile_layout profile_id =
      Exec.◌>>=◌ (lift (validate profile_prefix profile_id)) (λ validated.
        Exec.◌>>◌ (ensure_dir root) (
          Exec.◌>>◌ (Exec.◌>>=◌ (lift (profile_dir validated)) ensure_dir)
            (Exec.◌>>=◌ (lift (runs_dir validated)) ensure_dir)))

  unfoldable pub ensure_run_layout : Text → Text → Exec Exc fs.World (Unit {0})
  unfolding ensure_dir validate run_dir
  ensure_run_layout profile_id run_id =
      Exec.◌>>=◌ (lift (validate profile_prefix profile_id)) (λ validated_profile.
        Exec.◌>>=◌ (lift (validate run_prefix run_id))
          (λ validated_run. Exec.◌>>=◌ (lift (run_dir validated_profile validated_run)) ensure_dir))
