-- ===== src/Environment/Resolver/Marker.antt =====
-- The profile id in the effective context, and the one reported.
use sight_stalker.Prelude.{
  ◌≡◌, refl, ap, ◌∙◌, List, [], ◌∷◌, Option, none, some, Text, Outcome, ok, raised, text_eq, arith,
  ◌>>=◌,
}
use mathlib.Core.Option.{some-ne-none}
use sight_stalker.Errors.{Exc}
use sight_stalker.Models.Browser.{BrowserContextConfig}
use sight_stalker.Models.Records.{ProfileRecord, SessionRecord, RunRequest}
use sight_stalker.Security.Redaction.{TextLibrary}
use sight_stalker.Environment.Models.{
  EnvironmentProfile, ContextConfigOverrides, RunConfigOverrides, ContextConfigResolution,
}
use sight_stalker.Environment.Services.{
  Profiles, first_of, set_profile, add, add_all, load_profile, default_services, select_default,
  override_id, apply_environment,
}
use sight_stalker.Environment.Resolver.{
  override_context, context_overrides, environment_overrides, environment_step, finish, resolve,
}

-- The keys of the dictionary are the ids of the profiles.
pub AreKeyed : Profiles → Type 0
AreKeyed [] = Unit
AreKeyed ((k, p) ∷ rest) = (p.profile_id ≡ k) × AreKeyed rest

set_profile-AreKeyed :
    (key : Text) (profile : EnvironmentProfile) (profiles : Profiles)
    → profile.profile_id ≡ key
    → AreKeyed profiles
    → AreKeyed (set_profile key profile profiles)
unfolding set_profile AreKeyed
set_profile-AreKeyed key profile [] e h = (e, tt)
set_profile-AreKeyed key profile ((k, p) ∷ rest) e (h, hs) =
    let later = set_profile-AreKeyed key profile rest e hs in ground arith

add_all-AreKeyed :
    (added : List EnvironmentProfile) (profiles : Profiles)
    → AreKeyed profiles
    → AreKeyed (add_all added profiles)
unfolding add_all add
add_all-AreKeyed [] profiles h = h
add_all-AreKeyed (profile ∷ added) profiles h =
    add_all-AreKeyed added _ (set_profile-AreKeyed profile.profile_id profile profiles refl h)

load_profile-id :
    (lib : TextLibrary) (profiles : Profiles) (id : Text) (profile : EnvironmentProfile)
    → AreKeyed profiles
    → load_profile lib profiles id ≡ ok profile
    → profile.profile_id ≡ id
unfolding load_profile AreKeyed
load_profile-id lib [] id profile h e = ground arith
load_profile-id lib ((k, p) ∷ rest) id profile (h, hs) e =
    let later = load_profile-id lib rest id profile hs in ground arith

-- The marker in the context agrees with the id reported.
abbrev pub IsMarked : Outcome Exc ContextConfigResolution → Type 0
IsMarked (raised e) = Unit
IsMarked (ok r) = r.context.environment_profile_id ≡ r.environment_profile_id

-- What a run's overrides leave alone.
override_context-id :
    (context : BrowserContextConfig) (run : Option ContextConfigOverrides)
    → (override_context context run).environment_profile_id ≡ context.environment_profile_id
unfolding override_context
override_context-id context none = refl
override_context-id context (some o) = refl

first_of-none {ℓ} : {A : Type ℓ} (a b : Option A) → first_of a b ≡ none → b ≡ none
first_of-none none b h = h
first_of-none (some a) b h = absurd (some-ne-none a h)

module _ (lib : TextLibrary) (profiles : Profiles) (keyed : AreKeyed profiles) where
  loaded-IsMarked :
      (overrides : Option RunConfigOverrides) (session : SessionRecord) (id : Text)
      (loaded : Outcome Exc EnvironmentProfile)
      → load_profile lib profiles id ≡ loaded
      → IsMarked (
          environment_step (default_services lib profiles) session.config.context (some id)
          >>= λ step. ok (
              finish
                (default_services lib profiles)
                session.config.launch
                overrides
                (some id)
                step))
  unfolding environment_step finish default_services apply_environment
  loaded-IsMarked overrides session id (raised e) h = rw h tt
  loaded-IsMarked overrides session id (ok env) h = rw h (
      override_context-id (apply_environment session.config.context env)
        (context_overrides overrides)
      ∙ ap some (load_profile-id lib profiles id env keyed h))

  step-IsMarked :
      (overrides : Option RunConfigOverrides) (session : SessionRecord) (id : Option Text)
      → (id ≡ none → session.config.context.environment_profile_id ≡ none)
      → IsMarked (
          environment_step (default_services lib profiles) session.config.context id >>= λ step.
          ok (finish (default_services lib profiles) session.config.launch overrides id step))
  unfolding environment_step finish default_services
  step-IsMarked overrides session none h =
      override_context-id session.config.context (context_overrides overrides) ∙ h refl
  step-IsMarked overrides session (some id) h =
      loaded-IsMarked overrides session id (load_profile lib profiles id) refl

-- With a store that was filled through `add`, whatever the overrides, the profile id in the effective
-- context is the one that the resolution reports: both name the same profile, or neither names one.
pub resolve-IsMarked :
    (lib : TextLibrary) (added : List EnvironmentProfile) (overrides : Option RunConfigOverrides)
    (profile : ProfileRecord) (session : SessionRecord) (request : RunRequest)
    → IsMarked (resolve (default_services lib (add_all added [])) profile session request overrides)
unfolding resolve default_services select_default AreKeyed
resolve-IsMarked lib added overrides profile session request =
    step-IsMarked lib (add_all added []) (add_all-AreKeyed added [] tt) overrides session
      (first_of (override_id (environment_overrides overrides))
        session.config.context.environment_profile_id)
      (first_of-none (override_id (environment_overrides overrides)) _)
