-- ===== src/Artifacts/Paths/Keeping.antt =====
-- What `ensure_parent_dir` does to the world: directories are made and their modes are set.
use sight_stalker.Prelude.{
  ◌≡◌, refl, ap, Bool, true, false, List, [], ◌∷◌, Text, Outcome, ok, raised, if◌then◌else◌,
}
use sight_stalker.Errors.{Exc}
use sight_stalker.Exec
use sight_stalker.Exec.{Exec, Keeps, Keeps-bind, Keeps-pure, continue-ok, pure, lift}
use sight_stalker.Models.Paths.{FilePath, child, parent_parts}
use sight_stalker.Artifacts.FileSystem.{FileSystem, FileSystemLaws}
use sight_stalker.Artifacts.Paths.{
  chmod_best_effort, made_or, make_dir, make_root, ensure_component, ensure_components,
  ensure_data_dir, resolved_within, ensure_parent_dir, assert_safe_relative_path,
}

pub Keeps-lift : {S A : Type 0} {P : S → Type 0} (r : Outcome Exc A) → Keeps P (lift {S = S} r)
Keeps-lift r = record { at = λ w h. h }

-- `P` outlives `mkdir` and `chmod`.
module _ (fs : FileSystem) (P : fs.World → Type 0)
    (mkdir_keeps : (p : FilePath) (w : fs.World) → P w → P (fs.mkdir p w).1)
    (mkdir_parents_keeps : (p : FilePath) (w : fs.World) → P w → P (fs.mkdir_parents p w).1)
    (chmod_keeps : (p : FilePath) (w : fs.World) → P w → P (fs.chmod p 0o700 w)) where
  if_both :
      {A : Type 0} (b : Bool) (x y : Outcome Exc A × fs.World)
      → P x.1
      → P y.1
      → P (if b then x else y).1
  if_both true x y h k = h
  if_both false x y h k = k

  made_or-keeps : (text : Text) (r : Bool × fs.World) → P r.1 → P (made_or fs text r).1
  unfolding made_or
  made_or-keeps text (true, w) h = h
  made_or-keeps text (false, w) h = h

  chmod-Keeps : (p : FilePath) → Keeps P (chmod_best_effort fs p)
  unfolding chmod_best_effort
  chmod-Keeps p = record { at = λ w h. chmod_keeps p w h }

  make_dir-Keeps : (p : FilePath) → Keeps P (make_dir fs p)
  unfolding make_dir
  make_dir-Keeps p =
      Keeps-bind _ _ (record { at = λ w h. made_or-keeps _ (fs.mkdir p w) (mkdir_keeps p w h) })
        (λ _. chmod-Keeps p)

  make_root-Keeps : (p : FilePath) → Keeps P (make_root fs p)
  unfolding make_root
  make_root-Keeps p =
      Keeps-bind _ _
        (record { at = λ w h. made_or-keeps _ (fs.mkdir_parents p w) (mkdir_parents_keeps p w h) })
        (λ _. chmod-Keeps p)

  ensure_component-Keeps : (p : FilePath) → Keeps P (ensure_component fs p)
  unfolding ensure_component
  ensure_component-Keeps p = record {
    at = λ w h.
        if_both (fs.is_symlink p w) _ _ h (
          if_both (fs.exists p w) _ _ (if_both (fs.is_dir p w) _ _ h h)
            ((make_dir-Keeps p).at w h));
  }

  pub ensure_components-Keeps :
      (p : FilePath) (parts : List Text) → Keeps P (ensure_components fs p parts)
  unfolding ensure_components
  ensure_components-Keeps p [] = Keeps-pure p
  ensure_components-Keeps p (part ∷ parts) =
      Keeps-bind _ _ (ensure_component-Keeps (child p part))
        (λ _. ensure_components-Keeps (child p part) parts)

  ensure_data_dir-Keeps : (root : FilePath) → Keeps P (ensure_data_dir fs root)
  unfolding ensure_data_dir
  ensure_data_dir-Keeps root = record {
    at = λ w h.
        if_both (fs.exists root w) _ _ (if_both (fs.is_dir root w) _ _ (chmod_keeps root w h) h) (
          (Keeps-bind (make_root fs root) (λ _. pure root) (make_root-Keeps root)
              (λ _. Keeps-pure root)).at
            w h);
  }

  resolved_within-Keeps :
      (root : FilePath) (text : Text) (p : FilePath) → Keeps P (resolved_within fs root text p)
  unfolding resolved_within
  resolved_within-Keeps root text p = record { at = λ w h. h }

  pub ensure_parent_dir-Keeps : (root path : FilePath) → Keeps P (ensure_parent_dir fs root path)
  unfolding ensure_parent_dir
  ensure_parent_dir-Keeps root path =
      Keeps-bind _ _ (Keeps-lift (assert_safe_relative_path path)) (λ rel.
        Keeps-bind _ _ (ensure_data_dir-Keeps root) (λ _.
          Keeps-bind _ _ (ensure_components-Keeps root (parent_parts rel.parts))
            (λ p. resolved_within-Keeps root _ p)))

-- After `ensure_data_dir` the root is there, and it stays there.
module _ (fs : FileSystem) (laws : FileSystemLaws fs) (root : FilePath) where
  abbrev RootThere : fs.World → Type 0
  RootThere w = fs.exists root w ≡ true

  made_or-there :
      (r : Bool × fs.World) (text : Text)
      → (r.0 ≡ true → RootThere r.1)
      → (made_or fs text r).0 ≡ ok tt
      → RootThere (made_or fs text r).1
  unfolding made_or
  made_or-there (true, v) text h made = h refl
  made_or-there (false, v) text h made = cc

  make_root-there : (w v : fs.World) → make_root fs root w ≡ (ok tt, v) → RootThere v
  unfolding make_root chmod_best_effort
  make_root-there w v h =
      let (_, made, set) =
        continue-ok (made_or fs _ (fs.mkdir_parents root w)) (λ _. chmod_best_effort fs root) tt v
          h in
      rw (← ap (λ r. r.1) set) (
        laws.exists-chmod root root _
          (made_or-there (fs.mkdir_parents root w) _ (laws.mkdir_parents-made root w) made))

  there_from :
      (there dir : Bool) (w v : fs.World) (p : FilePath) (e : Exc)
      → (there ≡ true → RootThere w)
      → (if there
          then (if dir then (ok root, fs.chmod root 0o700 w) else (raised e, w))
          else Exec.◌>>◌ (make_root fs root) (pure root) w)
        ≡ (ok p, v)
      → RootThere v
  there_from true true w v p e there h =
      rw (← ap (λ r. r.1) h) (laws.exists-chmod root root w (there refl))
  there_from true false w v p e there h = cc
  there_from false dir w v p e there h =
      let (_, made, set) = continue-ok (make_root fs root w) (λ _. pure root) p v h in
      rw (← ap (λ r. r.1) set)
        (make_root-there w (make_root fs root w).1 (ap (λ o. (o, (make_root fs root w).1)) made))

  root_after_data_dir :
      (w v : fs.World) (p : FilePath) → ensure_data_dir fs root w ≡ (ok p, v) → RootThere v
  unfolding ensure_data_dir chmod_best_effort
  root_after_data_dir w v p h = there_from (fs.exists root w) (fs.is_dir root w) w v p _ (λ e. e) h

  components-Keeps :
      (p : FilePath) (parts : List Text) → Keeps RootThere (ensure_components fs p parts)
  components-Keeps =
      ensure_components-Keeps fs RootThere (λ p w. laws.exists-mkdir p root w)
        (λ p w. laws.exists-mkdir_parents p root w) (λ p w. laws.exists-chmod p root w)

  -- The root is there after `ensure_parent_dir`.
  pub ensure_parent_dir-there :
      (path p : FilePath) (w v : fs.World)
      → ensure_parent_dir fs root path w ≡ (ok p, v)
      → RootThere v
  unfolding ensure_parent_dir resolved_within
  ensure_parent_dir-there path p w v h =
      let (rel, safe, rest) = continue-ok (lift (assert_safe_relative_path path) w) _ p v h in
      let (r, made, below) = continue-ok (ensure_data_dir fs root w) _ p v rest in
      let (current, walked, found) =
        continue-ok
          (ensure_components fs root (parent_parts rel.parts) (ensure_data_dir fs root w).1) _ p v
          below in
      let there =
        root_after_data_dir w (ensure_data_dir fs root w).1 r
          (ap (λ o. (o, (ensure_data_dir fs root w).1)) made) in
      rw (← ap (λ r. r.1) found) ((components-Keeps root (parent_parts rel.parts)).at _ there)
