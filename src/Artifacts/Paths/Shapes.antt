-- ===== src/Artifacts/Paths/Shapes.antt =====
-- The relative part of a resolved path passes `assert_safe_relative_path`.
use sight_stalker.Prelude.{
  ◌≡◌, refl, ℕ, true, false, ◌||◌, List, [], ◌∷◌, ◌++◌, Text, codes, ok, ◌==◌, text_eq, has_char,
  all, arith,
}
use sight_stalker.Models.Paths.{FilePath, path_text, join_parts}
use sight_stalker.Artifacts.FileSystem.{is_plain_part}
use sight_stalker.Artifacts.Paths.{
  check_parts, check_shape, checked_path, assert_safe_relative_path, is_empty_list,
}

has_char-append : (c : ℕ) (a b : Text) → has_char c (a ++ b) ≡ (has_char c a || has_char c b)
unfolding has_char
has_char-append c [] b = refl
has_char-append c (d ∷ a) b = ground (arith, has_char-append c a b)

check_parts-plain : (parts : List Text) → all is_plain_part parts ≡ true → check_parts parts ≡ ok tt
unfolding check_parts is_plain_part
check_parts-plain [] h = refl
check_parts-plain (part ∷ rest) h = ground (arith, check_parts-plain rest)

join_parts-no_nul :
    (parts : List Text) → all is_plain_part parts ≡ true → has_char 0 (join_parts parts) ≡ false
unfolding join_parts is_plain_part has_char
join_parts-no_nul [] h = refl
join_parts-no_nul (part ∷ []) h = ground arith
join_parts-no_nul (part ∷ next ∷ rest) h = ground (
  arith,
  join_parts-no_nul (next ∷ rest),
  has_char-append 0 part (b'/' ∷ join_parts (next ∷ rest)),
)

join_parts-visible :
    (parts : List Text)
    → all is_plain_part parts ≡ true
    → is_empty_list parts ≡ false
    → (join_parts parts == [] || join_parts parts == codes ".") ≡ false
unfolding join_parts is_plain_part text_eq
join_parts-visible [] h n = ground arith
join_parts-visible (part ∷ []) h n = ground arith
join_parts-visible ([] ∷ next ∷ rest) h n = refl
join_parts-visible ((c ∷ []) ∷ next ∷ rest) h n = grind arith
join_parts-visible ((c ∷ d ∷ part) ∷ next ∷ rest) h n = grind arith

abbrev pub relative_path_of : List Text → FilePath
relative_path_of parts = record { absolute = false; parts = parts }

path_text-join :
    (parts : List Text)
    → is_empty_list parts ≡ false
    → path_text (relative_path_of parts) ≡ join_parts parts
unfolding path_text
path_text-join [] h = ground arith
path_text-join (part ∷ rest) h = refl

shape_ok :
    (path : FilePath)
    → has_char 0 (path_text path) ≡ false
    → path.absolute ≡ false
    → (path_text path == [] || path_text path == codes ".") ≡ false
    → is_empty_list path.parts ≡ false
    → check_parts path.parts ≡ ok tt
    → check_shape path ≡ ok tt
unfolding check_shape
shape_ok path a b c d e = ground arith

pub assert_safe_relative_path-plain :
    (parts : List Text)
    → is_empty_list parts ≡ false
    → all is_plain_part parts ≡ true
    → assert_safe_relative_path (relative_path_of parts) ≡ ok (relative_path_of parts)
unfolding assert_safe_relative_path checked_path
assert_safe_relative_path-plain parts some_parts plain =
    let text = path_text-join parts some_parts in
    let shape =
      shape_ok (relative_path_of parts) (rw text (join_parts-no_nul parts plain)) refl
        (rw text (join_parts-visible parts plain some_parts)) some_parts
        (check_parts-plain parts plain) in
    rw shape refl
