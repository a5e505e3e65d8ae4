-- ===== src/Artifacts/Fixture.antt =====
-- A tree without links, for the tests, in which directories need not be made: the world says what each file holds.
pub mod Laws
use sight_stalker.Prelude.{
  ◌≡◌, ◌≢◌, refl, sym, ap, ◌∙◌, Bool, true, false, not, ◌&&◌, ◌||◌, ℕ, List, [], ◌∷◌, Option, none,
  some, Text, codes, is_some, all, ◌==◌, if◌then◌else◌, arith,
}
use mathlib.Core.List.{map}
use sight_stalker.Models.Paths.{FilePath, path_eq}
use sight_stalker.Artifacts.FileSystem.{
  FileSystem, FileSystemLaws, Created, Written, Reading, opened, already_exists, written,
  not_opened, contents, is_plain_part,
}

plain_parts : List Text → List Text
unfolding is_plain_part
plain_parts [] = []
plain_parts (part ∷ rest) =
    let kept = plain_parts rest in if is_plain_part part then part ∷ kept else kept

unfoldable pub normal : FilePath → FilePath
unfolding plain_parts
normal p = record { absolute = true; parts = plain_parts p.parts }

abbrev pub data_dir : FilePath
data_dir = record { absolute = true; parts = codes "data" ∷ [] }

abbrev pub Files : Type 0
Files = FilePath → Option Text

unfoldable pub update : FilePath → Option Text → Files → Files
update p v w q = if q == p then v else w q

read_of : Option Text → Reading
read_of none = not_opened
read_of (some raw) = contents raw

unfoldable pub read_file : FilePath → Files → Reading
unfolding read_of normal
read_file p w = read_of (w (normal p))

unfoldable pub there : FilePath → Files → Bool
unfolding normal
there p w = is_some (w (normal p)) || normal p == data_dir

unfoldable pub created_if : Bool → FilePath → Files → Created × Files
unfolding update normal
created_if true p w = (already_exists, w)
created_if false p w = (opened, update (normal p) (some []) w)

unfoldable pub create_file : FilePath → Files → Created × Files
unfolding there created_if
create_file p w = created_if (there p w) p w

abbrev pub digest : Text
digest = map (λ _. b'0') (codes "................................................................")

abbrev pub files : FileSystem
files = record {
  World = Files;
  resolve = λ p w. normal p;
  is_symlink = λ p w. false;
  exists = there;
  is_dir = λ p w. normal p == data_dir;
  read = read_file;
  mkdir = λ p w. (true, w);
  mkdir_parents = λ p w. (there p w, w);
  create = create_file;
  write = λ p raw w. (written, update (normal p) (some raw) w);
  unlink = λ p w. update (normal p) none w;
  chmod = λ p mode w. w;
  sync_dir = λ p w. w;
  sha256 = λ raw. digest;
}
