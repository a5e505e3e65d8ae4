-- ===== src/Artifacts/Manager/Roundtrip.antt =====
-- What is written is read back.
use sight_stalker.Prelude.{
  ◌≡◌, ◌≢◌, sym, ap, ◌∙◌, true, false, Option, Text, ok, length, text_eq, ◌>>=◌, bind-ok,
  guarded-ok, arith,
}
use mathlib.Core.Path.{subst}
use sight_stalker.Exec.{continue-ok, lift}
use sight_stalker.Models.Artifacts.{ArtifactRef}
use sight_stalker.Models.Paths.{FilePath, child, last_part}
use sight_stalker.Models.Paths.Relative.{relative_to-descend}
use sight_stalker.Security.Redaction.{TextLibrary}
use sight_stalker.Artifacts.FileSystem.{FileSystem, FileSystemLaws, contents}
use sight_stalker.Artifacts.Mime.{infer_mime_type}
use sight_stalker.Artifacts.Paths.{
  assert_safe_relative_path, scan_no_symlinks, ensure_parent_dir, resolve_relative_path,
  relative_to_data_dir,
}
use sight_stalker.Artifacts.Paths.Keeping.{ensure_parent_dir-there}
use sight_stalker.Artifacts.Paths.Return.{
  relative_to_data_dir-resolved, resolve_relative_path-found,
}
use sight_stalker.Artifacts.Manager.{
  WriteRequest, is_valid_ref, make_ref, validate_ref, validate_id, check_read, read_at, ref_for,
  confirm, exclusive_write, write_bytes, read_bytes,
}
use sight_stalker.Artifacts.Manager.Finished.{exclusive_write-ok}

module _ (fs : FileSystem) (laws : FileSystemLaws fs) (root : FilePath) where
  -- A reference that describes the bytes.
  abbrev Describes : ArtifactRef → Text → FilePath → Type 0
  Describes ref payload relative =
      is_valid_ref ref ≡ true
      × ref.relative_path ≡ relative
      × ref.size_bytes ≡ length payload
      × ref.sha256 ≡ fs.sha256 payload

  ref_for-Describes :
      (lib : TextLibrary) (hex : Text) (request : WriteRequest) (payload : Text)
      (given : Option Text) (relative : FilePath) (ref : ArtifactRef)
      → ref_for fs root lib hex request payload given relative ≡ ok ref
      → Describes ref payload relative
  unfolding ref_for make_ref
  ref_for-Describes lib hex request payload given relative ref h =
      let (mime, inferred, made) =
        bind-ok (infer_mime_type lib request.artifact_type request.relative_path request.mime_type)
          _ ref h in
      let (valid, same) = guarded-ok _ _ ref _ made in
      (
        subst (λ r. is_valid_ref r ≡ true) same valid,
        sym (ap (λ r. r.relative_path) same),
        sym (ap (λ r. r.size_bytes) same),
        sym (ap (λ r. r.sha256) same),
      )

  check_read-ok :
      (ref : ArtifactRef) (payload : Text)
      → ref.size_bytes ≡ length payload
      → ref.sha256 ≡ fs.sha256 payload
      → check_read fs ref (contents payload) ≡ ok payload
  unfolding check_read
  check_read-ok ref payload size hash = ground arith

  read_at-ok :
      (ref : ArtifactRef) (payload : Text) (p : FilePath) (w : fs.World)
      → fs.read p w ≡ contents payload
      → ref.size_bytes ≡ length payload
      → ref.sha256 ≡ fs.sha256 payload
      → read_at fs ref (fs.resolve p w) w ≡ ok payload
  unfolding read_at
  read_at-ok ref payload p w bytes size hash = rw (laws.is_symlink-resolve p w) (
      ap (check_read fs ref) (laws.read-resolve p payload w bytes)
      ∙ check_read-ok ref payload size hash)

  validate_ref-ok :
      (ref : ArtifactRef)
      → is_valid_ref ref ≡ true
      → ref.relative_path.absolute ≡ false
      → validate_ref ref ≡ ok ref
  unfolding validate_ref
  validate_ref-ok ref valid relative = ground arith

  read_bytes-from :
      (ref : ArtifactRef) (payload : Text) (p : FilePath) (w : fs.World)
      → validate_ref ref ≡ ok ref
      → resolve_relative_path fs root ref.relative_path w ≡ ok p
      → read_at fs ref p w ≡ ok payload
      → read_bytes fs root ref w ≡ ok payload
  unfolding read_bytes
  read_bytes-from ref payload p w valid found done =
      ap (λ o. o >>= λ r. resolve_relative_path fs root r.relative_path w >>= λ q. read_at fs r q w)
        valid
      ∙ (ap (λ o. o >>= λ q. read_at fs ref q w) found ∙ done)

  -- From the state after the write on.
  confirm-read :
      (lib : TextLibrary) (hex : Text) (request : WriteRequest) (payload : Text)
      (given : Option Text) (target : FilePath) (w v : fs.World) (ref : ArtifactRef)
      → fs.read target w ≡ contents payload
      → fs.resolve target w ≢ root
      → confirm fs root lib hex request payload given target w ≡ (ok ref, v)
      → read_bytes fs root ref v ≡ ok payload
  unfolding confirm
  confirm-read lib hex request payload given target w v ref bytes below h =
      let (relative, placed, made) =
        bind-ok (relative_to_data_dir fs root (fs.resolve target w) w)
          (ref_for fs root lib hex request payload given) ref (ap (λ r. r.0) h) in
      let (valid, same, size, hash) =
        ref_for-Describes lib hex request payload given relative ref made in
      let (found, scanned) = relative_to_data_dir-resolved fs laws root target relative w placed in
      let (lexical, _) = relative_to-descend (fs.resolve target w) root relative found in
      let resolved =
        resolve_relative_path-found fs laws root target relative w found scanned below in
      subst (λ u. read_bytes fs root ref u ≡ ok payload) (ap (λ r. r.1) h)
        (read_bytes-from ref payload (fs.resolve target w) w
          (validate_ref-ok ref valid (ap (λ q. q.absolute) same ∙ lexical))
          (ap (λ q. resolve_relative_path fs root q w) same ∙ resolved)
          (read_at-ok ref payload target w bytes size hash))

  -- A new file is not the root, which is there.
  new_file-below :
      (target : FilePath) (w v : fs.World)
      → fs.exists root w ≡ true
      → fs.exists target w ≡ false
      → fs.resolve target v ≡ fs.resolve target w
      → fs.resolve target v ≢ root
  new_file-below target w v there new same at_root =
      let meet = ap (λ q. fs.exists q w) (sym same ∙ at_root) in cc (laws.exists-resolve target w)

  -- The last step of a `write_bytes` that returns, and what holds before it.
  write_bytes-confirmed :
      (lib : TextLibrary) (hex : Text) (request : WriteRequest) (payload : Text) (w v : fs.World)
      (ref : ArtifactRef)
      → write_bytes fs root lib hex request payload w ≡ (ok ref, v)
      → (given : Option Text) × (target : FilePath) × (t : fs.World) × fs.read target t
          ≡ contents payload
        × fs.resolve target t ≢ root
        × confirm fs root lib hex request payload given target t ≡ (ok ref, v)
  unfolding write_bytes
  write_bytes-confirmed lib hex request payload w v ref h =
      let (rel, safe, h1) =
        continue-ok (lift (assert_safe_relative_path request.relative_path) w) _ ref v h in
      let (given, valid, h2) = continue-ok (lift (validate_id request.artifact_id) w) _ ref v h1 in
      let (_, scanned, h3) = continue-ok (scan_no_symlinks fs root rel.parts w, w) _ ref v h2 in
      let (parent, made, h4) = continue-ok (ensure_parent_dir fs root rel w) _ ref v h3 in
      let u = (ensure_parent_dir fs root rel w).1 in
      let target = child parent (last_part rel.parts) in
      let (_, stored, h5) = continue-ok (exclusive_write fs target payload u) _ ref v h4 in
      let t = (exclusive_write fs target payload u).1 in
      let there = ensure_parent_dir-there fs laws root rel parent w u (ap (λ o. (o, u)) made) in
      let (new, bytes, same) =
        exclusive_write-ok fs laws target payload u t (ap (λ o. (o, t)) stored) in
      (given, target, t, bytes, new_file-below target u t there new (same target), h5)

  -- When `write_bytes` returns a reference, `read_bytes` of that reference, in the state after it, returns
  -- exactly the bytes that were written, in any file system that keeps the laws.
  pub write_bytes-read_bytes :
      (lib : TextLibrary) (hex : Text) (request : WriteRequest) (payload : Text) (w v : fs.World)
      (ref : ArtifactRef)
      → write_bytes fs root lib hex request payload w ≡ (ok ref, v)
      → read_bytes fs root ref v ≡ ok payload
  write_bytes-read_bytes lib hex request payload w v ref h =
      let (given, target, t, bytes, below, last) =
        write_bytes-confirmed lib hex request payload w v ref h in
      confirm-read lib hex request payload given target t v ref bytes below last

  -- The reference is of the type that was asked for.
  pub write_bytes-type :
      (lib : TextLibrary) (hex : Text) (request : WriteRequest) (payload : Text) (w v : fs.World)
      (ref : ArtifactRef)
      → write_bytes fs root lib hex request payload w ≡ (ok ref, v)
      → ref.artifact_type ≡ request.artifact_type
  unfolding confirm ref_for make_ref
  write_bytes-type lib hex request payload w v ref h =
      let (given, target, t, bytes, below, last) =
        write_bytes-confirmed lib hex request payload w v ref h in
      let (relative, placed, made) =
        bind-ok (relative_to_data_dir fs root (fs.resolve target t) t)
          (ref_for fs root lib hex request payload given) ref (ap (λ r. r.0) last) in
      let (mime, inferred, checked) =
        bind-ok (infer_mime_type lib request.artifact_type request.relative_path request.mime_type)
          _ ref made in
      let (valid, same) = guarded-ok _ _ ref _ checked in sym (ap (λ r. r.artifact_type) same)
