-- ===== src/Artifacts/Fixture/Laws.antt =====
-- The tree of the tests keeps what is relied on.
use sight_stalker.Prelude.{
  ◌≡◌, ◌≢◌, refl, ap, ◌∙◌, Bool, true, false, ◌||◌, List, [], ◌∷◌, Option, none, some, Text,
  is_some, all, ◌==◌, arith,
}
use sight_stalker.Models.Paths.{FilePath, path_eq}
use sight_stalker.Artifacts.FileSystem.{FileSystemLaws, opened, contents, is_plain_part}
use sight_stalker.Artifacts.Fixture.{
  plain_parts, normal, data_dir, Files, update, read_of, read_file, there, created_if, create_file,
  files,
}

plain_parts-plain : (parts : List Text) → all is_plain_part (plain_parts parts) ≡ true
unfolding plain_parts
plain_parts-plain [] = refl
plain_parts-plain (part ∷ rest) = ground (arith, plain_parts-plain rest)

plain_parts-fixed : (parts : List Text) → all is_plain_part parts ≡ true → plain_parts parts ≡ parts
unfolding plain_parts
plain_parts-fixed [] h = refl
plain_parts-fixed (part ∷ rest) h = ground (arith, plain_parts-fixed rest)

normal-normal : (p : FilePath) → normal (normal p) ≡ normal p
unfolding normal
normal-normal p =
    ap (λ parts. record { absolute = true; parts = parts })
      (plain_parts-fixed _ (plain_parts-plain p.parts))

read_of-some : (o : Option Text) (raw : Text) → read_of o ≡ contents raw → o ≡ some raw
unfolding read_of
read_of-some none raw h = cc
read_of-some (some r) raw h = cc

read-there :
    (p : FilePath) (raw : Text) (w : Files) → read_file p w ≡ contents raw → there p w ≡ true
unfolding read_file there
read-there p raw w h = rw (read_of-some (w (normal p)) raw h) refl

if_opened : (b : Bool) (p : FilePath) (w : Files) → (created_if b p w).0 ≡ opened → b ≡ false
unfolding created_if
if_opened true p w h = cc
if_opened false p w h = refl

create_file-new : (p : FilePath) (w : Files) → (create_file p w).0 ≡ opened → there p w ≡ false
unfolding create_file
create_file-new p w h = if_opened (there p w) p w h

update-same : (p : FilePath) (v : Option Text) (w : Files) → update p v w p ≡ v
unfolding update
update-same p v w = ground arith

update-other : (p q : FilePath) (v : Option Text) (w : Files) → p ≢ q → update p v w q ≡ w q
unfolding update
update-other p q v w h = ground arith

read-update :
    (p q : FilePath) (v : Option Text) (w : Files)
    → normal p ≢ normal q
    → read_file q (update (normal p) v w) ≡ read_file q w
unfolding read_file
read-update p q v w h = ap read_of (update-other (normal p) (normal q) v w h)

there-same : (p q : FilePath) (w : Files) → normal p ≡ normal q → there p w ≡ there q w
unfolding there
there-same p q w same = ap (λ n. is_some (w n) || n == data_dir) same

read-created_if :
    (b : Bool) (p q : FilePath) (raw : Text) (w : Files)
    → there p w ≡ b
    → read_file q w ≡ contents raw
    → read_file q (created_if b p w).1 ≡ contents raw
unfolding created_if
read-created_if true p q raw w e h = h
read-created_if false p q raw w e h =
    read-update p q (some []) w
      (λ same. let taken = there-same p q w same ∙ read-there q raw w h in cc)
    ∙ h

read-create_file :
    (p q : FilePath) (raw : Text) (w : Files)
    → read_file q w ≡ contents raw
    → read_file q (create_file p w).1 ≡ contents raw
unfolding create_file
read-create_file p q raw w h = read-created_if (there p w) p q raw w refl h

read-written_file :
    (p : FilePath) (raw : Text) (w : Files)
    → read_file p (update (normal p) (some raw) w) ≡ contents raw
unfolding read_file
read-written_file p raw w = ap read_of (update-same (normal p) (some raw) w)

-- All of them.
pub files_laws : FileSystemLaws files
unfolding read_file normal create_file created_if
files_laws = record {
  resolve-resolve = λ p w. normal-normal p;
  is_symlink-resolve = λ p w. refl;
  resolve-absolute = λ p w. refl;
  resolve-parts = λ p w. plain_parts-plain p.parts;
  exists-resolve = λ p w. there-same (normal p) p w (normal-normal p);
  read-resolve = λ p raw w h. ap (λ n. read_of (w n)) (normal-normal p) ∙ h;
  read-exists = read-there;
  create-new = create_file-new;
  exists-mkdir = λ p q w h. h;
  exists-mkdir_parents = λ p q w h. h;
  mkdir_parents-made = λ p w h. h;
  exists-chmod = λ p q w h. h;
  is_symlink-create = λ p q w. refl;
  is_symlink-write = λ p q raw w. refl;
  read-mkdir = λ p q raw w h. h;
  read-mkdir_parents = λ p q raw w h. h;
  resolve-create = λ p q w. refl;
  read-create = read-create_file;
  resolve-write = λ p q raw w. refl;
  read-written = λ p raw w h. read-written_file p raw w;
  read-write = λ p q raw w h. read-update p q (some raw) w h;
  read-unlink = λ p q w e h. read-update p q none w h;
  read-chmod = λ p q raw w h. h;
  read-chmod_file = λ p q here raw w k h. h;
  resolve-chmod_file = λ p q here w k. refl;
  resolve-sync_dir = λ p q w. refl;
  read-sync_dir = λ p q w. refl;
}
