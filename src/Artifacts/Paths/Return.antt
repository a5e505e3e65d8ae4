-- ===== src/Artifacts/Paths/Return.antt =====
-- A resolved path below the root is made relative, and resolved again.
use sight_stalker.Prelude.{
  ◌≡◌, ◌≢◌, refl, sym, ap, ◌∙◌, Bool, true, false, List, [], ◌∷◌, ◌++◌, Option, none, some, Text,
  ok, raised, codes, all, all-append, is_some, if◌then◌else◌, ◌>>=◌, ◌>>◌, then-ok, append-nil,
  arith,
}
use mathlib.Core.Path.{subst}
use sight_stalker.Models.Paths.{FilePath, descend, relative_to}
use sight_stalker.Models.Paths.Relative.{relative_to-descend}
use sight_stalker.Artifacts.FileSystem.{FileSystem, FileSystemLaws, is_plain_part}
use sight_stalker.Artifacts.Mime.{path_error}
use sight_stalker.Artifacts.Paths.{
  assert_safe_relative_path, scan_no_symlinks, resolve_relative_path, resolve_in, within,
  relative_to_data_dir, finish_relative, anchored, is_empty_list,
}
use sight_stalker.Artifacts.Paths.Shapes.{assert_safe_relative_path-plain, relative_path_of}

all-after : (p : Text → Bool) (xs ys : List Text) → all p (xs ++ ys) ≡ true → all p ys ≡ true
all-after p xs ys h = ground (arith, all-append p xs ys)

not_root :
    (root path : FilePath) (rest : List Text)
    → path ≡ descend root rest
    → path ≢ root
    → is_empty_list rest ≡ false
not_root root path [] same below =
    elim (below (same ∙ ap (λ ps. record root { parts = ps }) (append-nil root.parts))) [ ]
not_root root path (part ∷ rest) same below = refl

module _ (fs : FileSystem) (laws : FileSystemLaws fs) (root : FilePath) where
  finish_relative-ok :
      (o : Option FilePath) (rel : FilePath) (w : fs.World)
      → finish_relative fs root o o w ≡ ok rel
      → o ≡ some rel × scan_no_symlinks fs root rel.parts w ≡ ok tt
  unfolding finish_relative
  finish_relative-ok none rel w h = (cc, cc)
  finish_relative-ok (some found) rel w h =
      let (scanned, same) = then-ok (scan_no_symlinks fs root found.parts w) (ok found) rel h in
      let equal : found ≡ rel = cc in (ap some equal, rw (← equal) scanned)

  -- What `relative_to_data_dir` returns for a resolved path.
  pub relative_to_data_dir-resolved :
      (p rel : FilePath) (w : fs.World)
      → relative_to_data_dir fs root (fs.resolve p w) w ≡ ok rel
      → relative_to (fs.resolve p w) root ≡ some rel × scan_no_symlinks fs root rel.parts w ≡ ok tt
  unfolding relative_to_data_dir anchored
  relative_to_data_dir-resolved p rel w h =
      let anchor : anchored fs root (fs.resolve p w) ≡ fs.resolve p w =
        rw (laws.resolve-absolute p w) refl in
      let again = laws.resolve-resolve p w in
      finish_relative-ok (relative_to (fs.resolve p w) root) rel w (
        subst
          (λ q.
            finish_relative fs root (relative_to q root) (relative_to (fs.resolve p w) root) w
            ≡ ok rel)
          again
          (subst
            (λ q.
              finish_relative fs root (relative_to (fs.resolve q w) root) (relative_to q root) w
              ≡ ok rel)
            anchor h))

  within-inside :
      (text : Text) (path : FilePath)
      → is_some (relative_to path root) ≡ true
      → within fs root text path ≡ ok path
  unfolding within
  within-inside text path h = ap (λ b. if b then ok path else raised (path_error text)) h

  resolve_in-found :
      (rel : FilePath) (w : fs.World) (place : FilePath)
      → scan_no_symlinks fs root rel.parts w ≡ ok tt
      → fs.resolve (descend root rel.parts) w ≡ place
      → is_some (relative_to place root) ≡ true
      → resolve_in fs root rel w ≡ ok place
  unfolding resolve_in
  resolve_in-found rel w place scanned there inside =
      ap
        (λ o.
          o
          >> within fs root (codes "artifact path escapes the data directory")
              (fs.resolve (descend root rel.parts) w))
        scanned
      ∙ (ap (within fs root _) there ∙ within-inside _ place inside)

  -- That relative path resolves to what it was made from.
  pub resolve_relative_path-found :
      (p rel : FilePath) (w : fs.World)
      → relative_to (fs.resolve p w) root ≡ some rel
      → scan_no_symlinks fs root rel.parts w ≡ ok tt
      → fs.resolve p w ≢ root
      → resolve_relative_path fs root rel w ≡ ok (fs.resolve p w)
  unfolding resolve_relative_path
  resolve_relative_path-found p rel w found scanned below =
      let (relative, place) = relative_to-descend (fs.resolve p w) root rel found in
      let plain =
        all-after is_plain_part root.parts rel.parts
          (rw (← ap (λ q. q.parts) place) (laws.resolve-parts p w)) in
      let safe =
        assert_safe_relative_path-plain rel.parts
          (not_root root (fs.resolve p w) rel.parts place below) plain in
      let whole : rel ≡ relative_path_of rel.parts = rw (← relative) refl in
      ap (λ o. o >>= λ rel. resolve_in fs root rel w)
        (subst (λ q. assert_safe_relative_path q ≡ ok q) (sym whole) safe)
      ∙ resolve_in-found rel w (fs.resolve p w) scanned
          (ap (λ q. fs.resolve q w) (sym place) ∙ laws.resolve-resolve p w) (ap is_some found)
