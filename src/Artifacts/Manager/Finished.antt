-- ===== src/Artifacts/Manager/Finished.antt =====
-- What a call of `_exclusive_write` that returns has done.
use sight_stalker.Prelude.{
  ◌≡◌, refl, ap, ◌∙◌, Bool, true, false, Text, Outcome, ok, raised, if◌then◌else◌,
}
use sight_stalker.Errors.{Exc}
use sight_stalker.Models.Paths.{FilePath}
use sight_stalker.Artifacts.FileSystem.{
  FileSystem, FileSystemLaws, Created, Written, opened, already_exists, refused, irregular, broken,
  written, contents,
}
use sight_stalker.Artifacts.Manager.{settle, finish_write, fill, exclusive_write}

module _ (fs : FileSystem) (laws : FileSystemLaws fs) (target : FilePath) (payload : Text) where
  -- From the world `w` before: the target was not there, now it has the bytes, and no path resolves otherwise.
  abbrev pub WrittenFrom : fs.World → fs.World → Type 0
  WrittenFrom w v =
      fs.exists target w ≡ false
      × fs.read target v ≡ contents payload
      × ((q : FilePath) → fs.resolve q v ≡ fs.resolve q w)

  finish_write-ok :
      (r : Written × fs.World) (v : fs.World)
      → (r.0 ≡ written → fs.read target r.1 ≡ contents payload)
      → finish_write fs target r ≡ (ok tt, v)
      → fs.read target v ≡ contents payload × ((q : FilePath) → fs.resolve q v ≡ fs.resolve q r.1)
  unfolding finish_write settle
  finish_write-ok (irregular, u) v bytes h = cc
  finish_write-ok (broken e, u) v bytes h = cc
  finish_write-ok (written, u) v bytes h =
      let after = ap (λ r. r.1) h in
      (
        rw (← after) (
            laws.read-sync_dir _ target _
            ∙ laws.read-chmod_file target target payload payload u (bytes refl) (bytes refl)),
        λ q.
            rw (← after) (
              laws.resolve-sync_dir _ q _
              ∙ laws.resolve-chmod_file target q payload u (bytes refl)),
      )

  fill-ok :
      (r : Created × fs.World) (v : fs.World)
      → fill fs target payload r ≡ (ok tt, v)
      → r.0 ≡ opened
        × fs.read target v ≡ contents payload
        × ((q : FilePath) → fs.resolve q v ≡ fs.resolve q r.1)
  unfolding fill
  fill-ok (already_exists, u) v h = cc
  fill-ok (refused, u) v h = cc
  fill-ok (opened, u) v h =
      let (bytes, same) =
        finish_write-ok (fs.write target payload u) v (laws.read-written target payload u) h in
      (refl, bytes, λ q. same q ∙ laws.resolve-write target q payload u)

  unless_link :
      (b : Bool) (e : Exc) (w v : fs.World) (r : Outcome Exc (Unit {0}) × fs.World)
      → (if b then (raised e, w) else r) ≡ (ok tt, v)
      → r ≡ (ok tt, v)
  unless_link true e w v r h = cc
  unless_link false e w v r h = h

  pub exclusive_write-ok :
      (w v : fs.World) → exclusive_write fs target payload w ≡ (ok tt, v) → WrittenFrom w v
  unfolding exclusive_write
  exclusive_write-ok w v h =
      let (created, bytes, same) =
        fill-ok (fs.create target w) v (unless_link (fs.is_symlink target w) _ w v _ h) in
      (laws.create-new target w created, bytes, λ q. same q ∙ laws.resolve-create target q w)
