-- ===== src/Prelude/Order.antt =====
-- The order of texts, code point by code point.
use mathlib.Core.Path.{◌≡◌, refl}
use mathlib.Core.Bool.{Bool, true, false, ◌&&◌, ◌||◌}
use mathlib.Core.List.{[], ◌∷◌}
use native.Mathlib.Omega.{arith}
use sight_stalker.Prelude.Equality.{ltb, nat_eq}
use sight_stalker.Prelude.Lists.{Text}

-- `a <= b` on texts
unfoldable pub text_le : Text → Text → Bool
text_le [] b = true
text_le (x ∷ a) [] = false
text_le (x ∷ a) (y ∷ b) = let rest = text_le a b in ltb x y || (nat_eq x y && rest)

pub text_le_refl : (a : Text) → text_le a a ≡ true
unfolding text_le
text_le_refl [] = refl
text_le_refl (x ∷ a) = let later = text_le_refl a in ground arith
