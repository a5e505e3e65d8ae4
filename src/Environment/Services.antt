-- ===== src/Environment/Services.antt =====
-- environment/selectors.py, stores.py and applicators.py, with the protocols that they fill.
use sight_stalker.Prelude.{
  List, [], ◌∷◌, Option, none, some, Text, codes, Outcome, ok, raised, ◌==◌, text_eq, if◌then◌else◌,
}
use sight_stalker.Errors.{Exc, project}
use sight_stalker.Models.Browser.{BrowserContextConfig}
use sight_stalker.Models.Records.{ProfileRecord, SessionRecord, RunRequest}
use sight_stalker.Security.Redaction.{TextLibrary}
use sight_stalker.Resilience.Native.{native_error, attributes, usage_error, no_overrides}
use sight_stalker.Environment.Models.{EnvironmentProfile, EnvironmentResolutionOverrides}

-- What the resolver is given; `select` and `load` may raise.
pub record EnvironmentServices : Type 0 where
  pub select :
      ProfileRecord
      → SessionRecord
      → RunRequest
      → Option EnvironmentResolutionOverrides
      → Outcome Exc (Option Text)
  pub load : Text → Outcome Exc EnvironmentProfile
  pub apply : BrowserContextConfig → EnvironmentProfile → BrowserContextConfig

-- A value that is `None` leaves the base as it is.
abbrev pub first_of {ℓ} : {A : Type ℓ} → Option A → Option A → Option A
first_of none base = base
first_of (some a) base = some a

-- `DefaultEnvironmentProfileApplicator.apply`
unfoldable pub apply_environment : BrowserContextConfig → EnvironmentProfile → BrowserContextConfig
apply_environment base environment = record base {
  color_scheme = first_of environment.color_scheme base.color_scheme;
  locale = first_of environment.locale base.locale;
  reduced_motion = first_of environment.reduced_motion base.reduced_motion;
  timezone_id = first_of environment.timezone_id base.timezone_id;
  user_agent = first_of environment.user_agent base.user_agent;
  viewport = first_of environment.viewport base.viewport;
  environment_profile_id = some environment.profile_id;
}

unfoldable pub override_id : Option EnvironmentResolutionOverrides → Option Text
override_id none = none
override_id (some overrides) = overrides.environment_profile_id

-- `DefaultEnvironmentProfileSelector.select`
unfoldable pub select_default :
    ProfileRecord
    → SessionRecord
    → RunRequest
    → Option EnvironmentResolutionOverrides
    → Outcome Exc (Option Text)
unfolding override_id
select_default profile session request overrides =
    ok (first_of (override_id overrides) session.config.context.environment_profile_id)

-- The dictionary of an `InMemoryEnvironmentProfileStore`, in insertion order.
abbrev pub Profiles : Type 0
Profiles = List (Text × EnvironmentProfile)

unfoldable pub set_profile : Text → EnvironmentProfile → Profiles → Profiles
unfolding text_eq
set_profile key profile [] = (key, profile) ∷ []
set_profile key profile ((k, p) ∷ rest) =
    let later = set_profile key profile rest in
    if key == k then (k, profile) ∷ rest else (k, p) ∷ later

-- `add`
unfoldable pub add : EnvironmentProfile → Profiles → Profiles
unfolding set_profile
add profile profiles = set_profile profile.profile_id profile profiles

-- `__init__`, and `from_mapping`, which adds the values of the mapping to an empty store
unfoldable pub add_all : List EnvironmentProfile → Profiles → Profiles
unfolding add
add_all [] profiles = profiles
add_all (profile ∷ rest) profiles = add_all rest (add profile profiles)

module _ (lib : TextLibrary) where
  -- `raise EnvironmentProfileNotFound("environment profile not found")`
  unfoldable pub profile_not_found : Exc
  profile_not_found =
      project
        (record (native_error lib (attributes usage_error) (codes "environment profile not found")
          no_overrides) { class_name = codes "EnvironmentProfileNotFound" })

  -- `load`; a `NullEnvironmentProfileStore` is one without profiles.
  unfoldable pub load_profile : Profiles → Text → Outcome Exc EnvironmentProfile
  unfolding text_eq profile_not_found
  load_profile [] id = raised profile_not_found
  load_profile ((k, p) ∷ rest) id = if id == k then ok p else load_profile rest id

  unfoldable pub default_services : Profiles → EnvironmentServices
  unfolding select_default load_profile apply_environment
  default_services profiles = record {
    select = select_default;
    load = load_profile profiles;
    apply = apply_environment;
  }
