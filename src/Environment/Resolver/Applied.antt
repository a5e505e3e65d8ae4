-- ===== src/Environment/Resolver/Applied.antt =====
-- `applied_environment_fields`.
use sight_stalker.Prelude.{
  ◌≡◌, refl, ap, ◌∙◌, Bool, true, false, not, ◌&&◌, ◌||◌, List, [], ◌∷◌, Option, none, some, Text,
  codes, is_some, contains, text_eq, ◌==◌, arith, all, text_le, Bool-cases, inl, inr,
}
use sight_stalker.Prelude.{Outcome, ok, raised}
use sight_stalker.Errors.{Exc}
use sight_stalker.Models.Records.{ProfileRecord, SessionRecord, RunRequest}
use sight_stalker.Environment.Models.{
  EnvironmentProfile, ContextConfigOverrides, RunConfigOverrides, ContextConfigResolution,
}
use sight_stalker.Environment.Services.{EnvironmentServices}
use sight_stalker.Environment.Resolver.{
  present, env_contributed, overridden_context_fields, without, insert, sorted, applied_fields,
  context_overrides, environment_overrides, environment_step, finish, resolve,
}

contains-present {ℓ} :
    {A : Type ℓ} (name : Text) (value : Option A) (rest : List Text) (m : Text)
    → contains (present name value rest) m ≡ (is_some value && (m == name) || contains rest m)
contains-present name none rest m = refl
contains-present name (some value) rest m = refl

abbrev pub asked {ℓ κ} : {A : Type ℓ} {B : Type κ} → (A → Option B) → Option A → Option B
asked f none = none
asked f (some a) = f a

-- The name, if the flag is set.
abbrev pub keep : Text → Bool → List Text → List Text
keep name true rest = name ∷ rest
keep name false rest = rest

-- The profile sets the field and no override replaces it.
abbrev pub is_applied {ℓ κ} : {A : Type ℓ} {B : Type κ} → Option A → Option B → Bool
is_applied set replaced = is_some set && not (is_some replaced)

-- The names of the fields whose final value is the profile's, in alphabetical order, each once.
abbrev pub exact_names : EnvironmentProfile → Option ContextConfigOverrides → List Text
exact_names environment run =
    keep (codes "color_scheme")
      (is_applied environment.color_scheme (asked (λ o. o.color_scheme) run))
      (keep (codes "locale") (is_applied environment.locale (asked (λ o. o.locale) run)) (
        keep (codes "reduced_motion")
          (is_applied environment.reduced_motion (asked (λ o. o.reduced_motion) run))
          (keep (codes "timezone_id")
            (is_applied environment.timezone_id (asked (λ o. o.timezone_id) run))
            (keep (codes "user_agent")
              (is_applied environment.user_agent (asked (λ o. o.user_agent) run))
              (keep (codes "viewport")
                (is_applied environment.viewport (asked (λ o. o.viewport) run)) [])))))

only : (b : Bool) → ((b && true) || false) ≡ b
only b = ground arith

and_false : (b c : Bool) → ((b && false) || c) ≡ c
and_false b c = ground arith

-- Whether a name is among those whose flag is set.
flagged : List (Text × Bool) → Text → Bool
flagged [] m = false
flagged ((name, flag) ∷ rest) m = (flag && (m == name)) || flagged rest m

record AreFlagged (names : List Text) (flags : List (Text × Bool)) : Type 0 where
  at : (m : Text) → contains names m ≡ flagged flags m

nil-AreFlagged : AreFlagged [] []
unfolding flagged
nil-AreFlagged = record { at = λ m. refl }

present-AreFlagged {ℓ} :
    {A : Type ℓ} (name : Text) (value : Option A) (names : List Text) (flags : List (Text × Bool))
    → AreFlagged names flags
    → AreFlagged (present name value names) ((name, is_some value) ∷ flags)
unfolding flagged
present-AreFlagged name value names flags h = record {
  at = λ m.
      contains-present name value names m ∙ ap (λ b. (is_some value && (m == name)) || b) (h.at m);
}

abbrev override_flags : Option ContextConfigOverrides → List (Text × Bool)
override_flags none = []
override_flags (some o) =
    (codes "user_agent", is_some o.user_agent)
    ∷ (codes "viewport", is_some o.viewport)
    ∷ (codes "locale", is_some o.locale)
    ∷ (codes "timezone_id", is_some o.timezone_id)
    ∷ (codes "color_scheme", is_some o.color_scheme)
    ∷ (codes "reduced_motion", is_some o.reduced_motion)
    ∷ (codes "default_timeout_ms", is_some o.default_timeout_ms)
    ∷ (codes "navigation_timeout_ms", is_some o.navigation_timeout_ms)
    ∷ []

overridden-AreFlagged :
    (run : Option ContextConfigOverrides)
    → AreFlagged (overridden_context_fields run) (override_flags run)
unfolding overridden_context_fields
overridden-AreFlagged none = nil-AreFlagged
overridden-AreFlagged (some o) = search (present-AreFlagged, nil-AreFlagged) depth 12

flag_here :
    (name : Text) (flag : Bool) (flags : List (Text × Bool)) (m : Text)
    → (m == name) ≡ true
    → flagged flags m ≡ false
    → flagged ((name, flag) ∷ flags) m ≡ flag
unfolding flagged
flag_here name flag flags m same h = rw (same, h) (only flag)

flag_later :
    (name : Text) (flag : Bool) (flags : List (Text × Bool)) (m : Text) (b : Bool)
    → (m == name) ≡ false
    → flagged flags m ≡ b
    → flagged ((name, flag) ∷ flags) m ≡ b
unfolding flagged
flag_later name flag flags m b differ h = rw differ (and_false flag (flagged flags m) ∙ h)

flag_nowhere : (m : Text) → flagged [] m ≡ false
unfolding flagged
flag_nowhere m = refl

ruleset flag_rules = (flag_here, flag_later, flag_nowhere, refl)

without-present {ℓ} :
    {A : Type ℓ} (names : List Text) (name : Text) (value : Option A) (replaced : Bool)
    (rest kept : List Text)
    → contains names name ≡ replaced
    → without names rest ≡ kept
    → without names (present name value rest) ≡ keep name (is_some value && not replaced) kept
unfolding without
without-present names name none replaced rest kept r h = h
without-present names name (some value) true rest kept r h = rw (r, h) refl
without-present names name (some value) false rest kept r h = rw (r, h) refl

insert-first :
    (name : Text) (names : List Text)
    → all (text_le name) names ≡ true
    → insert name names ≡ name ∷ names
unfolding insert
insert-first name [] h = refl
insert-first name (x ∷ names) h = elim (Bool-cases (text_le name x)) [
  | inl le ↦ rw le refl
  | inr gt ↦ ground arith
]

sorted-keep :
    (name : Text) (flag : Bool) (names : List Text)
    → all (text_le name) names ≡ true
    → sorted names ≡ names
    → sorted (keep name flag names) ≡ keep name flag names
unfolding sorted
sorted-keep name false names h s = s
sorted-keep name true names h s = rw s (insert-first name names h)

all-keep :
    (before name : Text) (flag : Bool) (names : List Text)
    → text_le before name ≡ true
    → all (text_le before) names ≡ true
    → all (text_le before) (keep name flag names) ≡ true
all-keep before name false names le h = h
all-keep before name true names le h = rw (le, h) refl

sorted-nil : sorted [] ≡ []
unfolding sorted
sorted-nil = refl

all-nil : (before : Text) → all (text_le before) [] ≡ true
all-nil before = refl

ruleset sorted_rules = (sorted-keep, all-keep, sorted-nil, all-nil, refl)

without-nil : (names : List Text) → without names [] ≡ []
unfolding without
without-nil names = refl

sorted-exact_names :
    (environment : EnvironmentProfile) (run : Option ContextConfigOverrides)
    → sorted (exact_names environment run) ≡ exact_names environment run
unfolding text_le
sorted-exact_names environment run = search sorted_rules depth 30

replaced_at :
    (run : Option ContextConfigOverrides) (m : Text) (replaced : Bool)
    → flagged (override_flags run) m ≡ replaced
    → contains (overridden_context_fields run) m ≡ replaced
replaced_at run m replaced r = (overridden-AreFlagged run).at m ∙ r

ruleset replaced_rules =
    (without-present, without-nil, replaced_at, flag_here, flag_later, flag_nowhere, refl)

without-exact_names :
    (environment : EnvironmentProfile) (run : Option ContextConfigOverrides)
    → without (overridden_context_fields run) (env_contributed environment)
      ≡ exact_names environment run
unfolding text_eq env_contributed
without-exact_names environment none = search replaced_rules depth 40
without-exact_names environment (some o) = search replaced_rules depth 40

applied_fields-exact :
    (environment : EnvironmentProfile) (run : Option ContextConfigOverrides)
    → applied_fields (env_contributed environment) (overridden_context_fields run)
      ≡ exact_names environment run
unfolding applied_fields
applied_fields-exact environment run =
    ap sorted (without-exact_names environment run) ∙ sorted-exact_names environment run

-- Of the fields of the profile, if one is selected.
abbrev pub IsExactFor :
    Option RunConfigOverrides → EnvironmentProfile → Outcome Exc ContextConfigResolution → Type 0
IsExactFor overrides environment (raised e) = ⊥
IsExactFor overrides environment (ok r) =
    r.applied_environment_fields ≡ exact_names environment (context_overrides overrides)

-- If the selector picks an id and the store loads a profile for it, whatever selector, store and
-- applicator are plugged in, the list that the resolution reports is that of the names of those of the
-- profile's six fields that it sets and that no override of the run replaces, in alphabetical order,
-- each once and with no other name.
pub resolve-IsExactFor :
    (services : EnvironmentServices) (overrides : Option RunConfigOverrides)
    (profile : ProfileRecord) (session : SessionRecord) (request : RunRequest) (id : Text)
    (environment : EnvironmentProfile)
    → services.select profile session request (environment_overrides overrides) ≡ ok (some id)
    → services.load id ≡ ok environment
    → IsExactFor overrides environment (resolve services profile session request overrides)
unfolding resolve environment_step finish
resolve-IsExactFor services overrides profile session request id environment s l =
    rw (s, l) (applied_fields-exact environment (context_overrides overrides))
