-- ===== src/Artifacts/Manager/Preserves.antt =====
-- A write leaves every file that was there as it was.
use sight_stalker.Prelude.{
  ◌≡◌, ◌≢◌, refl, sym, ◌∙◌, Bool, true, false, Option, Text, Outcome, if◌then◌else◌,
}
use sight_stalker.Errors.{Exc}
use sight_stalker.Exec.{Keeps, Keeps-bind}
use sight_stalker.Models.Paths.{FilePath, child, last_part}
use sight_stalker.Security.Redaction.{TextLibrary}
use sight_stalker.Artifacts.FileSystem.{
  FileSystem, FileSystemLaws, Created, Written, opened, already_exists, refused, irregular, broken,
  written, contents,
}
use sight_stalker.Artifacts.Paths.{assert_safe_relative_path, scan_no_symlinks, ensure_parent_dir}
use sight_stalker.Artifacts.Paths.Keeping.{ensure_parent_dir-Keeps, Keeps-lift}
use sight_stalker.Artifacts.Manager.{
  WriteRequest, settle, finish_write, fill, exclusive_write, confirm, write_bytes, validate_id,
}

module _ (fs : FileSystem) (laws : FileSystemLaws fs) (q : FilePath) (raw : Text) where
  -- The bytes that were read before.
  abbrev Holds : fs.World → Type 0
  Holds w = fs.read q w ≡ contents raw

  settle-Holds :
      (target : FilePath) (payload : Text) (w : fs.World)
      → fs.read target w ≡ contents payload
      → Holds w
      → Holds (settle fs target w).1
  unfolding settle
  settle-Holds target payload w readable h =
      laws.read-sync_dir _ q _ ∙ laws.read-chmod_file target q payload raw w readable h

  finish_write-Holds :
      (target : FilePath) (payload : Text) (r : Written × fs.World)
      → (r.0 ≡ written → fs.read target r.1 ≡ contents payload)
      → fs.is_symlink target r.1 ≡ false
      → Holds r.1
      → fs.resolve target r.1 ≢ fs.resolve q r.1
      → Holds (finish_write fs target r).1
  unfolding finish_write
  finish_write-Holds target payload (irregular, w) bytes file h differ =
      laws.read-unlink target q w file differ ∙ h
  finish_write-Holds target payload (broken e, w) bytes file h differ =
      laws.read-unlink target q w file differ ∙ h
  finish_write-Holds target payload (written, w) bytes file h differ =
      settle-Holds target payload w (bytes refl) h

  fill-Holds :
      (target : FilePath) (payload : Text) (r : Created × fs.World)
      → fs.is_symlink target r.1 ≡ false
      → Holds r.1
      → (r.0 ≡ opened → fs.resolve target r.1 ≢ fs.resolve q r.1)
      → Holds (fill fs target payload r).1
  unfolding fill
  fill-Holds target payload (already_exists, w) file h differ = h
  fill-Holds target payload (refused, w) file h differ = h
  fill-Holds target payload (opened, w) file h differ =
      finish_write-Holds target payload (fs.write target payload w)
        (laws.read-written target payload w) (laws.is_symlink-write target target payload w ∙ file)
        (laws.read-write target q payload w (differ refl) ∙ h)
        (λ same. differ refl (
          sym (laws.resolve-write target target payload w)
          ∙ (same ∙ laws.resolve-write target q payload w)))

  created-elsewhere :
      (target : FilePath) (w : fs.World)
      → Holds w
      → (fs.create target w).0 ≡ opened
      → fs.resolve target (fs.create target w).1 ≢ fs.resolve q (fs.create target w).1
  created-elsewhere target w h created same =
      let there = laws.read-exists q raw w h in
      let new = laws.create-new target w created in
      let meet =
        sym (laws.resolve-create target target w) ∙ (same ∙ laws.resolve-create target q w) in
      cc (laws.exists-resolve target w, laws.exists-resolve q w)

  unless_raised :
      (b : Bool) (x y : Outcome Exc (Unit {0}) × fs.World)
      → Holds x.1
      → (b ≡ false → Holds y.1)
      → Holds (if b then x else y).1
  unless_raised true x y h k = h
  unless_raised false x y h k = k refl

  exclusive_write-Keeps :
      (target : FilePath) (payload : Text) → Keeps Holds (exclusive_write fs target payload)
  unfolding exclusive_write
  exclusive_write-Keeps target payload = record {
    at = λ w h. unless_raised (fs.is_symlink target w) _ _ h (λ file.
        fill-Holds target payload (fs.create target w)
          (laws.is_symlink-create target target w ∙ file) (laws.read-create target q raw w h)
          (created-elsewhere target w h));
  }

  at_most_reads : {A : Type 0} (f : fs.World → Outcome Exc A) → Keeps Holds (λ w. (f w, w))
  at_most_reads f = record { at = λ w h. h }

  parent-Keeps : (root rel : FilePath) → Keeps Holds (ensure_parent_dir fs root rel)
  parent-Keeps =
      ensure_parent_dir-Keeps fs Holds (λ p w. laws.read-mkdir p q raw w)
        (λ p w. laws.read-mkdir_parents p q raw w) (λ p w. laws.read-chmod p q raw w)

  module _ (root : FilePath) (lib : TextLibrary) where
    confirm-Keeps :
        (hex : Text) (request : WriteRequest) (payload : Text) (given : Option Text)
        (target : FilePath)
        → Keeps Holds (confirm fs root lib hex request payload given target)
    unfolding confirm
    confirm-Keeps hex request payload given target = record { at = λ w h. h }

    write_bytes-Keeps :
        (hex : Text) (request : WriteRequest) (payload : Text)
        → Keeps Holds (write_bytes fs root lib hex request payload)
    unfolding write_bytes
    write_bytes-Keeps hex request payload =
        Keeps-bind _ _ (Keeps-lift (assert_safe_relative_path request.relative_path)) (λ rel.
          Keeps-bind _ _ (Keeps-lift (validate_id request.artifact_id)) (λ given.
            Keeps-bind _ _ (at_most_reads (scan_no_symlinks fs root rel.parts)) (λ _.
              Keeps-bind _ _ (parent-Keeps root rel) (λ parent.
                Keeps-bind _ _ (exclusive_write-Keeps (child parent (last_part rel.parts)) payload)
                  (λ _.
                    confirm-Keeps hex request payload given
                      (child parent (last_part rel.parts)))))))

    -- Whether `write_bytes` returns or raises, a file that could be read before it has the same bytes after it, in any file
    -- system that keeps the laws.
    pub write_bytes-preserves :
        (hex : Text) (request : WriteRequest) (payload : Text) (w : fs.World)
        → fs.read q w ≡ contents raw
        → fs.read q (write_bytes fs root lib hex request payload w).1 ≡ contents raw
    write_bytes-preserves hex request payload w h = (write_bytes-Keeps hex request payload).at w h
