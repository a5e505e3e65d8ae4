-- ===== src/Models/Paths.antt =====
-- `pathlib`: pure paths.
pub mod Relative
use native.Mathlib.Decide.{ℕ_discrete}
use sight_stalker.Prelude.{
  ◌≡◌, refl, Bool, true, false, List, [], ◌∷◌, ◌++◌, Option, none, some, Text, codes, Eq, ◌==◌,
  text_eq, if◌then◌else◌,
}

-- A `pathlib.Path`: whether it is absolute, and its parts without the root.
pub record FilePath : Type 0 where
  pub absolute : Bool
  pub parts : List Text

path_discrete : Discrete FilePath
path_discrete = hlevel ℕ_discrete

instance unfoldable pub path_eq : Eq FilePath
unfolding path_discrete ℕ_discrete
path_eq = record { dec = path_discrete }

-- `path / part`
abbrev pub child : FilePath → Text → FilePath
child path part = record path { parts = path.parts ++ (part ∷ []) }

-- `path / other`, for a relative `other`
abbrev pub descend : FilePath → List Text → FilePath
descend path parts = record path { parts = path.parts ++ parts }

-- `"/".join(parts)`
unfoldable pub join_parts : List Text → Text
join_parts [] = []
join_parts (part ∷ []) = part
join_parts (part ∷ next ∷ rest) = part ++ (b'/' ∷ join_parts (next ∷ rest))

-- `str(path)`
unfoldable pub path_text : FilePath → Text
unfolding join_parts
path_text path =
    if path.absolute
    then b'/' ∷ join_parts path.parts
    else elim path.parts [ [] ↦ codes "." | _ ∷ _ ↦ join_parts path.parts ]

-- `path.name`
unfoldable pub last_part : List Text → Text
last_part [] = []
last_part (part ∷ []) = part
last_part (part ∷ next ∷ rest) = last_part (next ∷ rest)

-- The parts of `path.parent`.
unfoldable pub parent_parts : List Text → List Text
parent_parts [] = []
parent_parts (part ∷ []) = []
parent_parts (part ∷ next ∷ rest) = part ∷ parent_parts (next ∷ rest)

-- What is left after the parts in front.
unfoldable pub strip_parts : List Text → List Text → Option (List Text)
unfolding text_eq
strip_parts [] parts = some parts
strip_parts (p ∷ prefix) [] = none
strip_parts (p ∷ prefix) (q ∷ parts) =
    let rest = strip_parts prefix parts in if p == q then rest else none

relative_file : Option (List Text) → Option FilePath
relative_file none = none
relative_file (some parts) = some (record { absolute = false; parts = parts })

same_root : Bool → Bool → Bool
same_root true b = b
same_root false true = false
same_root false false = true

-- `path.relative_to(root)`, `none` where it raises, and so where `path.is_relative_to(root)` is false.
unfoldable pub relative_to : FilePath → FilePath → Option FilePath
unfolding strip_parts relative_file same_root
relative_to path root =
    let rest = strip_parts root.parts path.parts in
    if same_root path.absolute root.absolute then relative_file rest else none
