-- ===== src/Models/Paths/Relative.antt =====
-- A relative path leads back to where it was taken from.
use sight_stalker.Prelude.{
  ◌≡◌, refl, sym, ap, Bool, true, false, List, [], ◌∷◌, ◌++◌, Option, none, some, Text, text_eq,
  if◌then◌else◌, arith,
}
use mathlib.Core.Option.{some-injective}
use sight_stalker.Models.Paths.{
  FilePath, descend, strip_parts, relative_file, same_root, relative_to,
}

strip_parts-append :
    (prefix parts rest : List Text) → strip_parts prefix parts ≡ some rest → parts ≡ prefix ++ rest
unfolding strip_parts
strip_parts-append [] parts rest h = grind arith
strip_parts-append (p ∷ prefix) [] rest h = ground arith
strip_parts-append (p ∷ prefix) (q ∷ parts) rest h =
    ground (arith, strip_parts-append prefix parts rest)

relative_file-some :
    (o : Option (List Text)) (rel : FilePath)
    → relative_file o ≡ some rel
    → rel.absolute ≡ false × o ≡ some rel.parts
unfolding relative_file
relative_file-some none rel h = (cc, cc)
relative_file-some (some parts) rel h =
    let same = some-injective _ _ h in
    (ap (λ p. p.absolute) (sym same), ap (λ p. some p.parts) same)

same_root-eq : (a b : Bool) → same_root a b ≡ true → a ≡ b
unfolding same_root
same_root-eq true b h = sym h
same_root-eq false true h = cc
same_root-eq false false h = refl

if_some :
    (c : Bool) (o : Option FilePath) (rel : FilePath)
    → (if c then o else none) ≡ some rel
    → c ≡ true × o ≡ some rel
if_some true o rel h = (refl, h)
if_some false o rel h = (cc, cc)

pub relative_to-descend :
    (path root rel : FilePath)
    → relative_to path root ≡ some rel
    → rel.absolute ≡ false × path ≡ descend root rel.parts
unfolding relative_to
relative_to-descend path root rel h =
    let (rooted, below) =
      if_some (same_root path.absolute root.absolute)
        (relative_file (strip_parts root.parts path.parts)) rel h in
    let (relative, stripped) = relative_file-some (strip_parts root.parts path.parts) rel below in
    let absolute = same_root-eq path.absolute root.absolute rooted in
    let parts = strip_parts-append root.parts path.parts rel.parts stripped in
    (relative, rw (← absolute, ← parts) refl)
