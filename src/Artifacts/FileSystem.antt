-- ===== src/Artifacts/FileSystem.antt =====
-- The calls of `os`, `pathlib` and `hashlib` that artifacts/ makes, over an unknown world, and what it relies on.
use sight_stalker.Prelude.{
  ◌≡◌, ◌≢◌, Bool, true, false, ℕ, Text, leb, ◌&&◌, ◌||◌, nat_eq, length, all, not, ◌==◌, text_eq,
  has_char, codes, [],
}
use sight_stalker.Errors.{Exc}
use sight_stalker.Models.Paths.{FilePath}

-- `os.open` with `O_CREAT | O_EXCL`: done, `FileExistsError`, any other `OSError`.
pub data Created : Type 0 where
  opened already_exists refused : Created

-- `fstat`, `write`, `flush` and `fsync` on the open file: not a regular file, an exception, all done.
pub data Written : Type 0 where
  irregular : Written
  broken : Exc → Written
  written : Written

-- `os.open`, `fstat` and `read`: not opened, not a regular file, not read, the bytes.
pub data Reading : Type 0 where
  not_opened not_regular not_read : Reading
  contents : Text → Reading

-- `[a-f0-9]`
abbrev pub is_hex : ℕ → Bool
is_hex c = (leb b'a' c && leb c b'f') || (leb b'0' c && leb c b'9')

-- `^[a-f0-9]{64}$`
unfoldable pub is_digest : Text → Bool
is_digest text = nat_eq (length text) 64 && all is_hex text

pub record FileSystem : Type 1 where
  pub World : Type 0
  pub resolve : FilePath → World → FilePath
  pub is_symlink : FilePath → World → Bool
  pub exists : FilePath → World → Bool
  pub is_dir : FilePath → World → Bool
  pub read : FilePath → World → Reading
  -- `mkdir(exist_ok=True)`, `mkdir(parents=True, exist_ok=True)`: whether no `OSError` was raised.
  pub mkdir : FilePath → World → Bool × World
  pub mkdir_parents : FilePath → World → Bool × World
  pub create : FilePath → World → Created × World
  pub write : FilePath → Text → World → Written × World
  -- `unlink`, `chmod` and the `fsync` of a directory, whose errors the code drops.
  pub unlink : FilePath → World → World
  pub chmod : FilePath → ℕ → World → World
  pub sync_dir : FilePath → World → World
  -- `hashlib.sha256(data).hexdigest()`
  pub sha256 : Text → Text

-- A part of a resolved path.
unfoldable pub is_plain_part : Text → Bool
unfolding text_eq has_char
is_plain_part part =
    not (part == [])
    && (not (part == codes ".") && (not (part == codes "..") && not (has_char 0 part)))

-- What the calls promise to a process that alone changes the tree, may search its directories and has a umask that
-- leaves the owner's bits, if no file has a second hard link and no links go round in a circle. Files are opened with
-- `O_NOFOLLOW`.
pub record FileSystemLaws (fs : FileSystem) : Type 0 where
  pub resolve-resolve :
      (p : FilePath) (w : fs.World) → fs.resolve (fs.resolve p w) w ≡ fs.resolve p w
  pub is_symlink-resolve : (p : FilePath) (w : fs.World) → fs.is_symlink (fs.resolve p w) w ≡ false
  pub resolve-absolute : (p : FilePath) (w : fs.World) → (fs.resolve p w).absolute ≡ true
  pub resolve-parts :
      (p : FilePath) (w : fs.World) → all is_plain_part (fs.resolve p w).parts ≡ true
  pub exists-resolve : (p : FilePath) (w : fs.World) → fs.exists (fs.resolve p w) w ≡ fs.exists p w
  -- What can be read is no link itself, so that its resolved path is that of the same file.
  pub read-resolve :
      (p : FilePath) (raw : Text) (w : fs.World)
      → fs.read p w ≡ contents raw
      → fs.read (fs.resolve p w) w ≡ contents raw
  -- A file that can be read is there, and is created only where nothing is.
  pub read-exists :
      (p : FilePath) (raw : Text) (w : fs.World) → fs.read p w ≡ contents raw → fs.exists p w ≡ true
  pub create-new :
      (p : FilePath) (w : fs.World) → (fs.create p w).0 ≡ opened → fs.exists p w ≡ false
  -- What is there stays there, and a directory that is made is there.
  pub exists-mkdir :
      (p q : FilePath) (w : fs.World) → fs.exists q w ≡ true → fs.exists q (fs.mkdir p w).1 ≡ true
  pub exists-mkdir_parents :
      (p q : FilePath) (w : fs.World)
      → fs.exists q w ≡ true
      → fs.exists q (fs.mkdir_parents p w).1 ≡ true
  pub mkdir_parents-made :
      (p : FilePath) (w : fs.World)
      → (fs.mkdir_parents p w).0 ≡ true
      → fs.exists p (fs.mkdir_parents p w).1 ≡ true
  pub exists-chmod :
      (p q : FilePath) (w : fs.World)
      → fs.exists q w ≡ true
      → fs.exists q (fs.chmod p 0o700 w) ≡ true
  -- Making and writing a file makes and removes no link.
  pub is_symlink-create :
      (p q : FilePath) (w : fs.World) → fs.is_symlink q (fs.create p w).1 ≡ fs.is_symlink q w
  pub is_symlink-write :
      (p q : FilePath) (raw : Text) (w : fs.World)
      → fs.is_symlink q (fs.write p raw w).1 ≡ fs.is_symlink q w
  -- A directory that is made leaves the files there as they are.
  pub read-mkdir :
      (p q : FilePath) (raw : Text) (w : fs.World)
      → fs.read q w ≡ contents raw
      → fs.read q (fs.mkdir p w).1 ≡ contents raw
  pub read-mkdir_parents :
      (p q : FilePath) (raw : Text) (w : fs.World)
      → fs.read q w ≡ contents raw
      → fs.read q (fs.mkdir_parents p w).1 ≡ contents raw
  pub resolve-create :
      (p q : FilePath) (w : fs.World) → fs.resolve q (fs.create p w).1 ≡ fs.resolve q w
  pub read-create :
      (p q : FilePath) (raw : Text) (w : fs.World)
      → fs.read q w ≡ contents raw
      → fs.read q (fs.create p w).1 ≡ contents raw
  pub resolve-write :
      (p q : FilePath) (raw : Text) (w : fs.World)
      → fs.resolve q (fs.write p raw w).1 ≡ fs.resolve q w
  pub read-written :
      (p : FilePath) (raw : Text) (w : fs.World)
      → (fs.write p raw w).0 ≡ written
      → fs.read p (fs.write p raw w).1 ≡ contents raw
  -- Writing to a file, and removing one that is no link, change no file at another resolved path.
  pub read-write :
      (p q : FilePath) (raw : Text) (w : fs.World)
      → fs.resolve p w ≢ fs.resolve q w
      → fs.read q (fs.write p raw w).1 ≡ fs.read q w
  pub read-unlink :
      (p q : FilePath) (w : fs.World)
      → fs.is_symlink p w ≡ false
      → fs.resolve p w ≢ fs.resolve q w
      → fs.read q (fs.unlink p w) ≡ fs.read q w
  -- 0o700 lets the owner read a file and search a directory; 0o600 is set on files that can be read,
  -- and lets the owner read them.
  pub read-chmod :
      (p q : FilePath) (raw : Text) (w : fs.World)
      → fs.read q w ≡ contents raw
      → fs.read q (fs.chmod p 0o700 w) ≡ contents raw
  pub read-chmod_file :
      (p q : FilePath) (here raw : Text) (w : fs.World)
      → fs.read p w ≡ contents here
      → fs.read q w ≡ contents raw
      → fs.read q (fs.chmod p 0o600 w) ≡ contents raw
  pub resolve-chmod_file :
      (p q : FilePath) (here : Text) (w : fs.World)
      → fs.read p w ≡ contents here
      → fs.resolve q (fs.chmod p 0o600 w) ≡ fs.resolve q w
  pub resolve-sync_dir :
      (p q : FilePath) (w : fs.World) → fs.resolve q (fs.sync_dir p w) ≡ fs.resolve q w
  pub read-sync_dir : (p q : FilePath) (w : fs.World) → fs.read q (fs.sync_dir p w) ≡ fs.read q w
