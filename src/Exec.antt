-- ===== src/Exec.antt =====
-- Methods that change state and may raise. What was done before a raise stays done, so the state comes
-- back beside the exception too.
use sight_stalker.Prelude.{◌≡◌, refl, Bool, true, false, Outcome, ok, raised, if◌then◌else◌}

abbrev pub Exec {ℓ κ μ} : Type ℓ → Type κ → Type μ → Type (ℓ ⊔ κ ⊔ μ)
Exec E S A = S → Outcome E A × S

module _ {ℓ κ μ ν} {E : Type ℓ} {S : Type κ} {A : Type μ} {B : Type ν} where
  abbrev pub continue : Outcome E A × S → (A → Exec E S B) → Outcome E B × S
  continue (ok a, s) f = f a s
  continue (raised e, s) f = (raised e, s)

  infixl 10 ◌>>=◌
  abbrev pub ◌>>=◌ : Exec E S A → (A → Exec E S B) → Exec E S B
  ◌>>=◌ m f s = continue (m s) f

  -- The parts of a call that returns.
  pub continue-ok :
      (r : Outcome E A × S) (f : A → Exec E S B) (b : B) (t : S)
      → continue r f ≡ (ok b, t)
      → (a : A) × r.0 ≡ ok a × f a r.1 ≡ (ok b, t)
  continue-ok (ok a, s) f b t h = (a, refl, h)
  continue-ok (raised e, s) f b t h = cc

module _ {ℓ κ ν} {E : Type ℓ} {S : Type κ} {B : Type ν} where
  infixl 10 ◌>>◌
  abbrev pub ◌>>◌ : Exec E S (Unit {0}) → Exec E S B → Exec E S B
  m >> n = m >>= λ _. n

module _ {ℓ κ μ} {E : Type ℓ} {S : Type κ} {A : Type μ} where
  abbrev pub pure : A → Exec E S A
  pure a s = (ok a, s)

  abbrev pub lift : Outcome E A → Exec E S A
  lift r s = (r, s)

module _ {ℓ κ} {E : Type ℓ} {S : Type κ} where
  abbrev pub modify : (S → S) → Exec E S (Unit {0})
  modify f s = (ok tt, f s)

-- `m` keeps `P`, whether it returns or raises.
pub record Keeps {ℓ κ μ ρ} {E : Type ℓ} {S : Type κ} {A : Type μ} (P : S → Type ρ) (m : Exec E S A)
    : Type (κ ⊔ ρ) where
  pub at : (s : S) → P s → P (m s).1

module _ {ℓ κ μ ρ} {E : Type ℓ} {S : Type κ} {A : Type μ} {P : S → Type ρ} where
  pub Keeps-pure : (a : A) → Keeps P (pure {E = E} a)
  Keeps-pure a = record { at = λ s h. h }

  pub Keeps-if :
      (b : Bool) (m n : Exec E S A) → Keeps P m → Keeps P n → Keeps P (if b then m else n)
  Keeps-if true m n km kn = km
  Keeps-if false m n km kn = kn

module _ {ℓ κ μ ν ρ} {E : Type ℓ} {S : Type κ} {A : Type μ} {B : Type ν} {P : S → Type ρ} where
  Keeps-continue :
      (r : Outcome E A × S) (f : A → Exec E S B)
      → P r.1
      → ((a : A) → Keeps P (f a))
      → P (continue r f).1
  Keeps-continue (ok a, s) f h k = (k a).at s h
  Keeps-continue (raised e, s) f h k = h

  pub Keeps-bind :
      (m : Exec E S A) (f : A → Exec E S B)
      → Keeps P m
      → ((a : A) → Keeps P (f a))
      → Keeps P (m >>= f)
  Keeps-bind m f km kf = record { at = λ s h. Keeps-continue (m s) f (km.at s h) kf }

pub ruleset keeps_rules = (Keeps-pure, Keeps-if, Keeps-bind)
