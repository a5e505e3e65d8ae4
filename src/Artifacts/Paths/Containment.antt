-- ===== src/Artifacts/Paths/Containment.antt =====
-- What a path that `ArtifactPaths` lets through is like.
use sight_stalker.Prelude.{
  ◌≡◌, refl, sym, Bool, true, false, not, ◌&&◌, List, [], ◌∷◌, Text, codes, Outcome, ok, raised,
  ◌==◌, text_eq, is_some, all, arith,
}
use sight_stalker.Prelude.{bind-ok, then-ok, guarded-ok}
use sight_stalker.Errors.{Exc}
use sight_stalker.Models.Paths.{FilePath, child, descend, relative_to}
use sight_stalker.Artifacts.FileSystem.{FileSystem}
use sight_stalker.Artifacts.Paths.{
  check_parts, check_shape, checked_path, assert_safe_relative_path, scan_no_symlinks, within,
  resolve_in, resolve_relative_path,
}

-- A part that leads one step down.
abbrev is_step : Text → Bool
is_step part = not (part == codes "..") && (not (part == codes ".") && not (part == []))

unfoldable pub is_confined : List Text → Bool
unfolding text_eq
is_confined parts = all is_step parts

check_parts-confined : (parts : List Text) → check_parts parts ≡ ok tt → is_confined parts ≡ true
unfolding check_parts is_confined
check_parts-confined [] h = refl
check_parts-confined (part ∷ rest) h = ground (arith, check_parts-confined rest)

checked_ok :
    (r : Outcome Exc (Unit {0})) (rel path : FilePath)
    → checked_path path r ≡ ok rel
    → path ≡ rel × r ≡ ok tt
unfolding checked_path
checked_ok (ok _) rel path h = (cc, refl)
checked_ok (raised e) rel path h = (cc, cc)

pub checked :
    (path rel : FilePath)
    → assert_safe_relative_path path ≡ ok rel
    → path ≡ rel × check_shape path ≡ ok tt
unfolding assert_safe_relative_path
checked path rel h = checked_ok (check_shape path) rel path h

check_shape-confined : (path : FilePath) → check_shape path ≡ ok tt → is_confined path.parts ≡ true
unfolding check_shape
check_shape-confined path h = check_parts-confined path.parts (ground arith)

module _ (fs : FileSystem) where
  -- No part of the path below `current` is a symbolic link.
  unfoldable pub LinkFree : FilePath → List Text → fs.World → Type 0
  LinkFree current [] w = Unit
  LinkFree current (part ∷ rest) w =
      fs.is_symlink (child current part) w ≡ false × LinkFree (child current part) rest w

  scan_no_symlinks-LinkFree :
      (current : FilePath) (parts : List Text) (w : fs.World)
      → scan_no_symlinks fs current parts w ≡ ok tt
      → LinkFree current parts w
  unfolding scan_no_symlinks LinkFree
  scan_no_symlinks-LinkFree current [] w h = tt
  scan_no_symlinks-LinkFree current (part ∷ rest) w h =
      (ground arith, scan_no_symlinks-LinkFree (child current part) rest w (ground arith))

  within-ok :
      (root path resolved : FilePath) (text : Text)
      → within fs root text path ≡ ok resolved
      → is_some (relative_to resolved root) ≡ true × resolved ≡ path
  unfolding within
  within-ok root path resolved text h =
      let (inside, same) = guarded-ok (is_some (relative_to path root)) path resolved _ h in
      (rw (sym same) inside, sym same)

  resolve_in-ok :
      (root rel resolved : FilePath) (w : fs.World)
      → resolve_in fs root rel w ≡ ok resolved
      → scan_no_symlinks fs root rel.parts w ≡ ok tt
        × is_some (relative_to resolved root) ≡ true
        × resolved ≡ fs.resolve (descend root rel.parts) w
  unfolding resolve_in
  resolve_in-ok root rel resolved w h =
      let (scanned, found) = then-ok (scan_no_symlinks fs root rel.parts w) _ resolved h in
      let (inside, place) =
        within-ok root (fs.resolve (descend root rel.parts) w) resolved _ found in
      (scanned, inside, place)

  -- A path that `resolve_relative_path` returns lies in the root, and it is what the path below the root resolves to,
  -- of which no part is a link, empty, a dot or two dots.
  pub resolve_relative_path-contained :
      (root path resolved : FilePath) (w : fs.World)
      → resolve_relative_path fs root path w ≡ ok resolved
      → is_some (relative_to resolved root) ≡ true
        × resolved ≡ fs.resolve (descend root path.parts) w
        × LinkFree root path.parts w
        × is_confined path.parts ≡ true
  unfolding resolve_relative_path
  resolve_relative_path-contained root path resolved w h =
      let (rel, safe, found) =
        bind-ok (assert_safe_relative_path path) (λ rel. resolve_in fs root rel w) resolved h in
      let (same, shape) = checked path rel safe in
      let (scanned, inside, place) = resolve_in-ok root rel resolved w found in
      let free = scan_no_symlinks-LinkFree root rel.parts w scanned in
      (inside, rw same place, rw same free, check_shape-confined path shape)
