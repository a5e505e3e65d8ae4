-- ===== src/Prelude/Raising.antt =====
-- The result of Python code that may raise: a value, or the exception.
use mathlib.Core.Path.{◌≡◌, refl}
use mathlib.Core.Bool.{Bool, true, false}
use sight_stalker.Prelude.Equality.{if◌then◌else◌}

pub data Outcome {ℓ κ} (E : Type ℓ) (A : Type κ) : Type (ℓ ⊔ κ) where
  ok : A → Outcome E A
  raised : E → Outcome E A

abbrev pub is_raised {ℓ κ} : {E : Type ℓ} {A : Type κ} → Outcome E A → Bool
is_raised (ok a) = false
is_raised (raised e) = true

infixl 5 ◌>>=◌ ◌>>◌
abbrev pub ◌>>=◌ {ℓ κ μ} :
    {E : Type ℓ} {A : Type κ} {B : Type μ} → Outcome E A → (A → Outcome E B) → Outcome E B
ok a >>= f = f a
raised e >>= f = raised e

abbrev pub ◌>>◌ {ℓ κ} : {E : Type ℓ} {B : Type κ} → Outcome E (Unit {0}) → Outcome E B → Outcome E B
m >> k = m >>= λ _. k

-- What a result that is not an exception went through.
module _ {ℓ κ μ} {E : Type ℓ} {A : Type κ} {B : Type μ} where
  pub bind-ok :
      (m : Outcome E A) (f : A → Outcome E B) (b : B)
      → (m >>= f) ≡ ok b
      → (a : A) × m ≡ ok a × f a ≡ ok b
  bind-ok (ok a) f b h = (a, refl, h)
  bind-ok (raised e) f b h = cc

module _ {ℓ κ} {E : Type ℓ} {A : Type κ} where
  pub ok_injective : (a b : A) → ◌≡◌ {A = Outcome E A} (ok a) (ok b) → a ≡ b
  ok_injective a b h = cc

module _ {ℓ κ} {E : Type ℓ} {B : Type κ} where
  pub then-ok :
      (m : Outcome E (Unit {0})) (k : Outcome E B) (b : B) → (m >> k) ≡ ok b → m ≡ ok tt × k ≡ ok b
  then-ok (ok _) k b h = (refl, h)
  then-ok (raised e) k b h = (cc, cc)

  pub guarded-ok :
      (c : Bool) (a b : B) (e : E) → (if c then ok a else raised e) ≡ ok b → c ≡ true × a ≡ b
  guarded-ok true a b e h = (refl, cc)
  guarded-ok false a b e h = (cc, cc)
